-- ===== src/Replay/Benchmark/Tables.antt =====
-- The rows and workers of src/agenttrace/replay/benchmark.py as tables: what is read after a write.
use atcr_agent_trace_collect.Prelude.{
  ℕ, zero, suc, ◌+◌, ◌≤◌, ◌==◌, true, Option, none, some, List, [], ◌∷◌, ◌++◌, ◌≡◌, refl,
  if◌then◌else◌, length, arith,
}
use atcr_agent_trace_collect.Replay.Benchmark.{
  Status, running, Row, Worker, busy, set_status, set_worker, worker_at,
}

-- The status of the row at a position.
unfoldable pub status_at : ℕ → List Row → Option Status
status_at i [] = none
status_at zero (row ∷ rest) = some row.status
status_at (suc i) (row ∷ rest) = status_at i rest

abbrev pub replace : Status → Option Status → Option Status
replace st none = none
replace st (some _) = some st

pub status_at-set :
    (j i : ℕ) (st : Status) (rows : List Row)
    → status_at j (set_status i st rows)
      ≡ (if j == i then replace st (status_at j rows) else status_at j rows)
unfolding status_at set_status
status_at-set j i st [] = ground arith
status_at-set zero zero st (row ∷ rest) = ground arith
status_at-set zero (suc i) st (row ∷ rest) = ground arith
status_at-set (suc j) zero st (row ∷ rest) = ground arith
status_at-set (suc j) (suc i) st (row ∷ rest) = ground (arith, status_at-set j i st rest)

pub status_at-append :
    (j : ℕ) (rows : List Row) (row : Row)
    → status_at j (rows ++ row ∷ [])
      ≡ (if j == length rows then some row.status else status_at j rows)
unfolding status_at
status_at-append zero [] row = ground arith
status_at-append (suc j) [] row = ground arith
status_at-append zero (r ∷ rest) row = ground arith
status_at-append (suc j) (r ∷ rest) row = ground (arith, status_at-append j rest row)

pub status_at-length : (rows : List Row) → status_at (length rows) rows ≡ none
unfolding status_at
status_at-length [] = refl
status_at-length (row ∷ rest) = status_at-length rest

-- No row stands at the end.
pub status_at-end : (j : ℕ) (rows : List Row) → (j == length rows) ≡ true → status_at j rows ≡ none
unfolding status_at
status_at-end j [] h = refl
status_at-end zero (row ∷ rest) h = absurd (ground (arith, h))
status_at-end (suc j) (row ∷ rest) h = status_at-end j rest (ground (arith, h))

pub length-set_status :
    (i : ℕ) (st : Status) (rows : List Row) → length (set_status i st rows) ≡ length rows
unfolding set_status
length-set_status i st [] = refl
length-set_status zero st (row ∷ rest) = refl
length-set_status (suc i) st (row ∷ rest) = ground (arith, length-set_status i st rest)

-- How many workers hold the row at a position, and how many workers hold any.
abbrev pub holds : ℕ → Worker → ℕ
holds i (busy j) = if i == j then 1 else 0
holds i _ = 0

unfoldable pub holders : ℕ → List Worker → ℕ
holders i [] = 0
holders i (w ∷ rest) = holds i w + holders i rest

abbrev pub is_busy : Worker → ℕ
is_busy (busy _) = 1
is_busy _ = 0

unfoldable pub count_busy : List Worker → ℕ
count_busy [] = 0
count_busy (w ∷ rest) = is_busy w + count_busy rest

pub holders-set :
    (i k : ℕ) (v w : Worker) (ws : List Worker)
    → worker_at k ws ≡ some v
    → holders i (set_worker k w ws) + holds i v ≡ holders i ws + holds i w
unfolding holders set_worker worker_at
holders-set i k v w [] h = cc
holders-set i zero v w (u ∷ rest) h = let same : u ≡ v = cc in rw same (ground arith)
holders-set i (suc k) v w (u ∷ rest) h = ground (arith, holders-set i k v w rest h)

pub count_busy-set :
    (k : ℕ) (v w : Worker) (ws : List Worker)
    → worker_at k ws ≡ some v
    → count_busy (set_worker k w ws) + is_busy v ≡ count_busy ws + is_busy w
unfolding count_busy set_worker worker_at
count_busy-set k v w [] h = cc
count_busy-set zero v w (u ∷ rest) h = let same : u ≡ v = cc in rw same (ground arith)
count_busy-set (suc k) v w (u ∷ rest) h = ground (arith, count_busy-set k v w rest h)

pub count_busy-le : (ws : List Worker) → count_busy ws ≤ length ws
unfolding count_busy
count_busy-le [] = ground arith
count_busy-le (w ∷ rest) = ground (arith, count_busy-le rest)

pub length-set_worker :
    (k : ℕ) (w : Worker) (ws : List Worker) → length (set_worker k w ws) ≡ length ws
unfolding set_worker
length-set_worker k w [] = refl
length-set_worker zero w (v ∷ rest) = refl
length-set_worker (suc k) w (v ∷ rest) = ground (arith, length-set_worker k w rest)

-- How many rows run.
abbrev pub is_running : Status → ℕ
is_running running = 1
is_running _ = 0

unfoldable pub count_running : List Row → ℕ
count_running [] = 0
count_running (row ∷ rest) = is_running row.status + count_running rest

pub count_running-set :
    (i : ℕ) (old st : Status) (rows : List Row)
    → status_at i rows ≡ some old
    → count_running (set_status i st rows) + is_running old ≡ count_running rows + is_running st
unfolding count_running set_status status_at
count_running-set i old st [] h = cc
count_running-set zero old st (row ∷ rest) h =
    let same : row.status ≡ old = cc in rw same (ground arith)
count_running-set (suc i) old st (row ∷ rest) h = ground (arith, count_running-set i old st rest h)

pub count_running-append :
    (rows : List Row) (row : Row)
    → count_running (rows ++ row ∷ []) ≡ count_running rows + is_running row.status
unfolding count_running
count_running-append [] row = ground arith
count_running-append (r ∷ rest) row = ground (arith, count_running-append rest row)

-- How often a position is queued.
unfoldable pub waiting : ℕ → List ℕ → ℕ
waiting i [] = 0
waiting i (j ∷ rest) = (if i == j then 1 else 0) + waiting i rest
