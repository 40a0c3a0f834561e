-- ===== src/Adapters/Built/Growth.antt =====
-- The nodes that src/agenttrace/adapters/ builds: new names, and dependencies on earlier nodes only.
use Prim.Native.Char.{code}
use atcr_agent_trace_collect.Prelude.{
  ℕ, String, str_eq, Bool, true, false, ◌&&◌, ◌||◌, List, [], ◌∷◌, ◌++◌, ◌≡◌, ◌≢◌, refl, sym, subst,
  ap, ◌∙◌, inl, inr, arith, eq_iff, eq_refl, Bool-cases,
}
use atcr_agent_trace_collect.Prelude.Names.{contains, distinct, contains-append}
use atcr_agent_trace_collect.Prelude.Texts.{numbered_name, numbered_name_inj}
use atcr_agent_trace_collect.Adapters.Built.{
  Built, llm_node, tool_node, id_of, llm_name, tool_name_of,
}

abbrev pub built_ids : List Built → List String
built_ids [] = []
built_ids (n ∷ rest) = id_of n ∷ built_ids rest

abbrev pub parents_of : Built → List String
parents_of (llm_node _ depends_on _ _ _ _) = depends_on
parents_of (tool_node _ parent _ _ _ _) = parent ∷ []

unfoldable pub subset : List String → List String → Bool
subset [] known = true
subset (x ∷ rest) known = contains x known && subset rest known

-- Each node has a name that is new and not empty, and depends on earlier ones, each once.
abbrev pub Grows : List String → List Built → Type 0
Grows known [] = Unit {0}
Grows known (n ∷ rest) =
    (contains (id_of n) known ≡ false)
    × (id_of n ≢ "")
    × (subset (parents_of n) known ≡ true)
    × (distinct (parents_of n) ≡ true)
    × Grows (known ++ id_of n ∷ []) rest

pub built_ids-append : (g h : List Built) → built_ids (g ++ h) ≡ built_ids g ++ built_ids h
built_ids-append [] h = refl
built_ids-append (n ∷ g) h = ap (λ l. id_of n ∷ l) (built_ids-append g h)

append_assoc : (a b c : List String) → (a ++ b) ++ c ≡ a ++ (b ++ c)
append_assoc [] b c = refl
append_assoc (x ∷ a) b c = ap (λ l. x ∷ l) (append_assoc a b c)

append-nil : (a : List String) → a ++ [] ≡ a
append-nil [] = refl
append-nil (x ∷ a) = ap (λ l. x ∷ l) (append-nil a)

-- What a new node has to meet.
pub record IsNew (known : List String) (n : Built) : Type 0 where
  pub fresh : contains (id_of n) known ≡ false
  pub named : id_of n ≢ ""
  pub parents_known : subset (parents_of n) known ≡ true
  pub parents_once : distinct (parents_of n) ≡ true

pub Grows-snoc :
    (known : List String) (g : List Built) (n : Built)
    → Grows known g
    → IsNew (known ++ built_ids g) n
    → Grows known (g ++ n ∷ [])
Grows-snoc known [] n h new =
    let same = append-nil known in
    (
      subst (λ k. contains (id_of n) k ≡ false) same new.fresh,
      new.named,
      subst (λ k. subset (parents_of n) k ≡ true) same new.parents_known,
      new.parents_once,
      tt,
    )
Grows-snoc known (m ∷ g) n h new = (
  h.0,
  h.1,
  h.2,
  h.3,
  Grows-snoc (known ++ id_of m ∷ []) g n h.4
      (subst (λ k. IsNew k n) (sym (append_assoc known (id_of m ∷ []) (built_ids g))) new),
)

pub subset-append :
    (xs known more : List String) → subset xs known ≡ true → subset xs (known ++ more) ≡ true
unfolding subset
subset-append [] known more h = refl
subset-append (x ∷ xs) known more h =
    ground (arith, h, contains-append x known more, subset-append xs known more)

pub subset-absent :
    (p : String) (xs known : List String)
    → subset xs known ≡ true
    → contains p known ≡ false
    → contains p xs ≡ false
unfolding subset contains
subset-absent p [] known h absent = refl
subset-absent p (x ∷ xs) known h absent =
    ground (arith, h, absent, eq_iff p x, subset-absent p xs known)

pub subset-snoc :
    (xs known : List String) (x : String)
    → subset xs known ≡ true
    → contains x known ≡ true
    → subset (xs ++ x ∷ []) known ≡ true
unfolding subset
subset-snoc [] known x h is = ground (arith, is)
subset-snoc (y ∷ xs) known x h is = ground (arith, h, subset-snoc xs known x)

eq_text : (a b : String) → str_eq a b ≡ true → a ≡ b
eq_text a b h = ground (arith, eq_iff a b, h)

pub subset-one :
    (x : String) (known : List String) → contains x known ≡ true → subset (x ∷ []) known ≡ true
unfolding subset
subset-one x known h = ground (arith, h)

pub distinct-one : (x : String) → distinct (x ∷ []) ≡ true
unfolding distinct contains
distinct-one x = refl

pub contains-last : (x : String) (known : List String) → contains x (known ++ x ∷ []) ≡ true
unfolding contains
contains-last x known = contains-append x known (x ∷ []) ∙ ground (arith, eq_refl x)

first_code : String → ℕ
first_code String.[] = 0
first_code (String.◌∷◌ c s) = code c

llm-ne-tool : (m n : ℕ) → llm_name m ≢ tool_name_of n
unfolding numbered_name first_code
llm-ne-tool m n h = let letters : 108 ≡ 116 = ap first_code h in absurd (omega (arith, letters))

pub llm-ne-empty : (m : ℕ) → llm_name m ≢ ""
unfolding numbered_name
llm-ne-empty m h = cc

pub tool-ne-empty : (m : ℕ) → tool_name_of m ≢ ""
unfolding numbered_name
tool-ne-empty m h = cc

-- The names after one more node.
pub ids-snoc :
    (g : List Built) (n : Built) (x : String)
    → contains x (built_ids (g ++ n ∷ [])) ≡ (contains x (built_ids g) || str_eq x (id_of n))
unfolding contains
ids-snoc g n x =
    ap (contains x) (built_ids-append g (n ∷ []))
    ∙ contains-append x (built_ids g) (id_of n ∷ [])
    ∙ ground arith

pub tool-llm : (m n : ℕ) → str_eq (tool_name_of m) (llm_name n) ≡ false
tool-llm m n = elim (Bool-cases (str_eq (tool_name_of m) (llm_name n))) [
  | inr other ↦ other
  | inl same ↦ absurd (llm-ne-tool n m (sym (eq_text _ _ same)))
]

pub llm-tool : (m n : ℕ) → str_eq (llm_name m) (tool_name_of n) ≡ false
llm-tool m n = elim (Bool-cases (str_eq (llm_name m) (tool_name_of n))) [
  | inr other ↦ other
  | inl same ↦ absurd (llm-ne-tool m n (eq_text _ _ same))
]

pub llm-llm : (m n : ℕ) → ¬ (m ≡ n) → str_eq (llm_name m) (llm_name n) ≡ false
llm-llm m n h = elim (Bool-cases (str_eq (llm_name m) (llm_name n))) [
  | inr other ↦ other
  | inl same ↦ absurd (h (numbered_name_inj "llm-" m n (eq_text _ _ same)))
]

pub tool-tool : (m n : ℕ) → ¬ (m ≡ n) → str_eq (tool_name_of m) (tool_name_of n) ≡ false
tool-tool m n h = elim (Bool-cases (str_eq (tool_name_of m) (tool_name_of n))) [
  | inr other ↦ other
  | inl same ↦ absurd (h (numbered_name_inj "tool-" m n (eq_text _ _ same)))
]
