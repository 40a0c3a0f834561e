-- ===== src/Adapters/Minisweagent/Executor/Slots.antt =====
-- The build slots of `create_environment` in src/agenttrace/adapters/minisweagent.py.
use atcr_agent_trace_collect.Prelude.{
  ℕ, suc, ◌==◌, String, false, Option, some, none, List, [], ◌∷◌, ◌++◌, ◌≡◌, refl, ap, arith,
}
use atcr_agent_trace_collect.Prelude.Actions.{◌>>◌, try_finally}
use atcr_agent_trace_collect.Json.{Fields, str}
use atcr_agent_trace_collect.Adapters.Minisweagent.Executor.{
  Deed, take_slot, leave_slot, create, write_setup, ToolExecutor, Statement, raised, call,
}
use atcr_agent_trace_collect.Adapters.Minisweagent.Executor.Environment.{
  build_and_record, build_in_slot, create_environment,
}

-- The exception of the later of two statements of which the one cleans up after the other.
abbrev pub or_later : Option ℕ → Option ℕ → Option ℕ
or_later earlier none = earlier
or_later earlier (some code) = some code

-- What is done once the slot is taken, or is not.
abbrev pub deeds_after : Option ℕ → Fields → ℕ → List Deed
deeds_after (some _) options limit = []
deeds_after none options limit = create options ∷ write_setup limit ∷ leave_slot ∷ []

abbrev pub first_raised : Option ℕ → Option ℕ → Option ℕ
first_raised (some code) later = some code
first_raised none later = later

-- A call that raises as it is given.
abbrev act : Option ℕ → Deed → Statement (Unit {0})
act r d = call (λ _. r) d

appended :
    (ds : List Deed) (t c w l : Deed)
    → (((ds ++ t ∷ []) ++ c ∷ []) ++ w ∷ []) ++ l ∷ [] ≡ ds ++ t ∷ c ∷ w ∷ l ∷ []
appended [] t c w l = refl
appended (d ∷ ds) t c w l = ap (λ rest. d ∷ rest) (appended ds t c w l)

slot_lem :
    (taken made written left : Option ℕ) (options : Fields) (limit : ℕ) (take : Deed)
    (s : ToolExecutor)
    → (act taken take
          >> try_finally
              (try_finally (act made (create options)) (act written (write_setup limit)))
              (act left leave_slot))
        s
      ≡ (
        raised (first_raised taken (or_later (or_later made written) left)),
        record s { deeds = s.deeds ++ take ∷ deeds_after taken options limit },
      )
slot_lem (some code) made written left options limit take s = refl
slot_lem none made none none options limit take s =
    ap (λ ds. (raised made, record s { deeds = ds }))
      (appended s.deeds take (create options) (write_setup limit) leave_slot)
slot_lem none made (some code) none options limit take s =
    ap (λ ds. (raised (some code), record s { deeds = ds }))
      (appended s.deeds take (create options) (write_setup limit) leave_slot)
slot_lem none made none (some code) options limit take s =
    ap (λ ds. (raised (some code), record s { deeds = ds }))
      (appended s.deeds take (create options) (write_setup limit) leave_slot)
slot_lem none made (some other) (some code) options limit take s =
    ap (λ ds. (raised (some code), record s { deeds = ds }))
      (appended s.deeds take (create options) (write_setup limit) leave_slot)

-- In a bounded build, the environment is created inside one slot: a slot that is taken is left again
-- exactly once, after the environment is created and the waiting time is written, whatever of these
-- raises; without a slot nothing is created; and what is raised is the last exception.
pub create_environment-slot :
    (raises : Deed → Option ℕ) (options : Fields) (directory : String) (n : ℕ) (s : ToolExecutor)
    → s.sandbox_build_lock_dir ≡ str directory
    → s.max_parallel_sandbox_builds ≡ suc n
    → let taken = raises (take_slot directory (suc n)) in
      let ended =
        or_later
          (or_later (raises (create options)) (raises (write_setup (suc n))))
          (raises leave_slot) in
      create_environment raises options s ≡ (
        raised (first_raised taken ended),
        record s {
          deeds = s.deeds ++ take_slot directory (suc n) ∷ deeds_after taken options (suc n);
        },
      )
unfolding create_environment build_in_slot build_and_record
create_environment-slot raises options directory n s located bounded =
    let positive : (suc n == 0) ≡ false = ground arith in
    rw (bounded, located, positive)
      (slot_lem (raises (take_slot directory (suc n))) (raises (create options))
        (raises (write_setup (suc n))) (raises leave_slot) options (suc n)
        (take_slot directory (suc n))
        (record s { max_parallel_sandbox_builds = suc n; sandbox_build_lock_dir = str directory }))
