-- ===== src/Adapters/Built/Steps.antt =====
-- The state of the loops of src/agenttrace/adapters/ between two nodes, and one more node.
use atcr_agent_trace_collect.Prelude.{
  ℕ, ◌+◌, ◌≤◌, ◌<◌, String, true, false, List, [], ◌∷◌, ◌++◌, ◌≡◌, Option, none, some, suc, refl,
  ◌∙◌, arith, eq_refl,
}
use atcr_agent_trace_collect.Prelude.Names.{contains, distinct, distinct-snoc}
use atcr_agent_trace_collect.Json.{Value}
use atcr_agent_trace_collect.Adapters.Built.{
  ToolResult, Built, llm_node, tool_node, id_of, llm_name, tool_name_of, dependencies_of,
}
use atcr_agent_trace_collect.Adapters.Built.Growth.{
  Grows, Grows-snoc, built_ids, built_ids-append, contains-last, distinct-one, ids-snoc, llm-llm,
  llm-ne-empty, llm-tool, subset, subset-absent, subset-append, subset-one, subset-snoc, tool-llm,
  tool-ne-empty, tool-tool,
}

-- What the loops keep: `next_llm` is the number of the next LLM node, `tool_index` of the last tool node.
pub record Sound (next_llm tool_index : ℕ) (g : List Built) : Type 0 where
  pub grows : Grows [] g
  pub llm_fresh : (m : ℕ) → next_llm ≤ m → contains (llm_name m) (built_ids g) ≡ false
  pub tool_fresh : (m : ℕ) → tool_index < m → contains (tool_name_of m) (built_ids g) ≡ false

-- The tools that the next LLM node waits for are there, each once.
pub record Pending (pending : List String) (g : List Built) : Type 0 where
  pub known : subset pending (built_ids g) ≡ true
  pub once : distinct pending ≡ true

pub contains-kept :
    (x : String) (g : List Built) (n : Built)
    → contains x (built_ids g) ≡ true
    → contains x (built_ids (g ++ n ∷ [])) ≡ true
contains-kept x g n h = ids-snoc g n x ∙ ground (arith, h)

pub contains-new :
    (g : List Built) (n : Built) → contains (id_of n) (built_ids (g ++ n ∷ [])) ≡ true
contains-new g n = ids-snoc g n (id_of n) ∙ ground (arith, eq_refl (id_of n))

pub add_tool_node-Sound :
    (next_llm k : ℕ) (g : List Built) (parent protocol name : String) (arguments : Value)
    (r : ToolResult)
    → Sound next_llm k g
    → contains parent (built_ids g) ≡ true
    → Sound next_llm
        (k + 1)
        (g ++ tool_node (tool_name_of (k + 1)) parent protocol name arguments r ∷ [])
add_tool_node-Sound next_llm k g parent protocol name arguments r h here =
    let node = tool_node (tool_name_of (k + 1)) parent protocol name arguments r in
    record {
      grows = Grows-snoc [] g node h.grows (record {
        fresh = h.tool_fresh (k + 1) (omega arith);
        named = tool-ne-empty (k + 1);
        parents_known = subset-one parent (built_ids g) here;
        parents_once = distinct-one parent;
      });
      llm_fresh = λ m le.
          ids-snoc g node (llm_name m) ∙ ground (arith, h.llm_fresh m le, llm-tool m (k + 1));
      tool_fresh = λ m lt.
          ids-snoc g node (tool_name_of m)
          ∙ ground (
            arith,
            h.tool_fresh m (omega (arith, lt)),
            tool-tool m (k + 1) (λ e. ground (arith, e, lt)),
          );
    }

-- One more tool, behind those that are pending.
pub Pending-snoc :
    (pending : List String) (g : List Built) (n : Built)
    → Pending pending g
    → contains (id_of n) (built_ids g) ≡ false
    → Pending (pending ++ id_of n ∷ []) (g ++ n ∷ [])
Pending-snoc pending g n h fresh = record {
  known = rw (built_ids-append g (n ∷ [])) (
      subset-snoc pending (built_ids g ++ id_of n ∷ []) (id_of n)
        (subset-append pending (built_ids g) (id_of n ∷ []) h.known)
        (contains-last (id_of n) (built_ids g)));
  once =
      rw (distinct-snoc (id_of n) pending)
        (ground (arith, h.once, subset-absent (id_of n) pending (built_ids g) h.known fresh));
}

-- One tool alone.
pub Pending-one :
    (x : String) (g : List Built) → contains x (built_ids g) ≡ true → Pending (x ∷ []) g
Pending-one x g h = record { known = subset-one x (built_ids g) h; once = distinct-one x }

pub Pending-none : (g : List Built) → Pending [] g
unfolding subset distinct
Pending-none g = record { known = refl; once = refl }

-- The last LLM node is there.
abbrev pub IsKnown : Option String → List Built → Type 0
IsKnown none g = Unit {0}
IsKnown (some llm) g = contains llm (built_ids g) ≡ true

dependencies-Pending :
    (pending : List String) (previous : Option String) (g : List Built)
    → Pending pending g
    → IsKnown previous g
    → Pending (dependencies_of pending previous) g
dependencies-Pending [] none g h p = Pending-none g
dependencies-Pending [] (some llm) g h p = Pending-one llm g p
dependencies-Pending (x ∷ rest) previous g h p = h

pub add_llm_node-Sound :
    (n k : ℕ) (g : List Built) (pending : List String) (previous : Option String)
    (protocol endpoint payload tokens : Value)
    → Sound n k g
    → Pending pending g
    → IsKnown previous g
    → Sound (suc n) k (
        g
        ++ llm_node (llm_name n) (dependencies_of pending previous) protocol endpoint payload tokens
          ∷ [])
add_llm_node-Sound n k g pending previous protocol endpoint payload tokens h p known =
    let deps = dependencies_of pending previous in
    let node : Built = llm_node (llm_name n) deps protocol endpoint payload tokens in
    let waits = dependencies-Pending pending previous g p known in
    record {
      grows = Grows-snoc [] g node h.grows (record {
        fresh = h.llm_fresh n (omega arith);
        named = llm-ne-empty n;
        parents_known = waits.known;
        parents_once = waits.once;
      });
      llm_fresh = λ m le.
          ids-snoc g node (llm_name m)
          ∙ ground
              (arith, h.llm_fresh m (omega (arith, le)), llm-llm m n (λ e. ground (arith, e, le)));
      tool_fresh = λ m lt.
          ids-snoc g node (tool_name_of m) ∙ ground (arith, h.tool_fresh m lt, tool-llm m n);
    }

pub Sound-nil : (n k : ℕ) → Sound n k []
unfolding contains
Sound-nil n k = record { grows = tt; llm_fresh = λ m le. refl; tool_fresh = λ m lt. refl }
