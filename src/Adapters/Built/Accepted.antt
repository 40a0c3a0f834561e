-- ===== src/Adapters/Built/Accepted.antt =====
-- The nodes that src/agenttrace/adapters/ builds against `validate_trace`: over their graph it never
-- raises.
use atcr_agent_trace_collect.Prelude.{
  ℕ, ◌+◌, String, str_eq, true, false, some, List, [], ◌∷◌, ◌++◌, ◌≡◌, ◌≢◌, refl, sym, subst, ap,
  ◌∙◌, inl, inr, Result, ok, ◌>>=◌, ◌>>◌, >>=-eq-ok, >>=-eq-err, arith, eq_iff,
}
use atcr_agent_trace_collect.Prelude.Names.{contains, distinct, contains-append}
use atcr_agent_trace_collect.Json.{Fields, entry, end, str, list, dict, lookup, get, elements}
use atcr_agent_trace_collect.Schema.Types.{Error, of_node, Node}
use atcr_agent_trace_collect.Schema.Fields.{object, string}
use atcr_agent_trace_collect.Schema.Nodes.{
  ids, node_type, texts, dependency_list, check_body, check_node, check_nodes,
}
use atcr_agent_trace_collect.Schema.Validate.{check_graph}
use atcr_agent_trace_collect.Schema.Validate.Accepted.{ok-injective, ids-append}
use atcr_agent_trace_collect.Schema.Validate.Structure.{check_graph-decides}
use atcr_agent_trace_collect.Schema.Validate.Raises.{
  IsOfFields, Raises, Raises-ok, Raises-bind, Raises-string, Raises-check_body,
}
use atcr_agent_trace_collect.Adapters.Built.{
  Built, llm_node, tool_node, id_of, names_of, node_fields, nodes_of,
}
use atcr_agent_trace_collect.Adapters.Built.Growth.{parents_of, subset, Grows}
use atcr_agent_trace_collect.Adapters.Built.Graph.{type_of, to_node, to_nodes, Grows-IsAcyclic}

texts-names_of : (l : List String) → contains "" l ≡ false → texts (names_of l) ≡ some l
unfolding texts contains
texts-names_of [] h = refl
texts-names_of (x ∷ l) h =
    rw (texts-names_of l (ground (arith, h)))
      (rw (not_empty (ground (arith, h, eq_iff x "", eq_iff "" x))) refl)
  where
    not_empty : str_eq x "" ≡ false → str_eq x "" ≡ false
    not_empty e = e

dependency_list-names_of :
    (id : String) (l : List String)
    → contains "" l ≡ false
    → distinct l ≡ true
    → dependency_list id (list (names_of l)) ≡ ok l
unfolding dependency_list
dependency_list-names_of id l h once = rw (texts-names_of l h, once, dependency_list) refl

no_empty-subset :
    (xs known : List String)
    → subset xs known ≡ true
    → contains "" known ≡ false
    → contains "" xs ≡ false
unfolding subset contains
no_empty-subset [] known h absent = refl
no_empty-subset (x ∷ xs) known h absent =
    ground (arith, h, absent, eq_iff "" x, no_empty-subset xs known)

abbrev request_of : Built → Fields
request_of (llm_node _ _ protocol endpoint payload _) =
    entry "protocol" protocol (entry "endpoint" endpoint (entry "payload" payload end))
request_of (tool_node _ _ protocol name arguments _) =
    entry "protocol" (str protocol) (entry "name" (str name) (entry "arguments" arguments end))

-- What is left to check of a node that was built.
abbrev rest_of_check : Built → Result Error Node
rest_of_check n = do
  string (get "protocol" (request_of n)) (of_node "request.protocol" (id_of n))
  check_body (type_of n) (id_of n) (node_fields n) (request_of n)
  ok (to_node n)

check_node-built :
    (index : ℕ) (seen : List String) (n : Built)
    → contains (id_of n) seen ≡ false
    → str_eq (id_of n) "" ≡ false
    → contains "" (parents_of n) ≡ false
    → distinct (parents_of n) ≡ true
    → check_node index seen (dict (node_fields n)) ≡ rest_of_check n
unfolding check_node ◌>>=◌ lookup get object string node_type
check_node-built index seen (llm_node id deps p e l t) fresh named parents once =
    rw (named, fresh) (rw (dependency_list-names_of id deps parents once) refl)
check_node-built index seen (tool_node id parent protocol name a r) fresh named parents once =
    rw (named, fresh) (rw (dependency_list-names_of id (parent ∷ []) parents once) refl)

rest_of_check-Raises : (n : Built) → Raises IsOfFields (rest_of_check n)
rest_of_check-Raises n = Raises-bind _ _ (Raises-string _ _) λ _.
    Raises-bind _ _ (Raises-check_body (type_of n) (id_of n) (node_fields n) (request_of n))
      λ _. Raises-ok (to_node n)

rest_of_check-ok : (n : Built) (m : Node) → rest_of_check n ≡ ok m → m ≡ to_node n
rest_of_check-ok n m h =
    let (_, _, h1) = >>=-eq-ok _ _ h in let (_, _, h2) = >>=-eq-ok _ _ h1 in sym (ok-injective h2)

-- The loop over the nodes gives them back, or raises over their fields.
pub record Passes (by_id : List Node) (rest : List Built) (m : Result Error (List Node))
    : Type 0 where
  pub raises : Raises IsOfFields m
  pub returns : (g : List Node) → m ≡ ok g → g ≡ by_id ++ to_nodes rest

not_named : (n : Built) → id_of n ≢ "" → str_eq (id_of n) "" ≡ false
not_named n h = ground (arith, eq_iff (id_of n) "", h)

nodes_assoc : (a b c : List Node) → (a ++ b) ++ c ≡ a ++ (b ++ c)
nodes_assoc [] b c = refl
nodes_assoc (x ∷ a) b c = ap (λ l. x ∷ l) (nodes_assoc a b c)

append-nil : (a : List Node) → a ≡ a ++ []
append-nil [] = refl
append-nil (x ∷ a) = ap (λ l. x ∷ l) (append-nil a)

no_empty-snoc :
    (known : List String) (x : String)
    → contains "" known ≡ false
    → x ≢ ""
    → contains "" (known ++ x ∷ []) ≡ false
unfolding contains
no_empty-snoc known x h named =
    contains-append "" known (x ∷ []) ∙ ground (arith, h, eq_iff "" x, named)

pub check_nodes-Passes :
    (index : ℕ) (by_id : List Node) (rest : List Built)
    → Grows (ids by_id) rest
    → contains "" (ids by_id) ≡ false
    → Passes by_id rest (check_nodes index by_id (elements (nodes_of rest)))
unfolding check_nodes
check_nodes-Passes index by_id [] grows h = record {
  raises = Raises-ok by_id;
  returns = λ g e. sym (ok-injective e) ∙ append-nil by_id;
}
check_nodes-Passes index by_id (n ∷ rest) grows h =
    let checked =
      check_node-built index (ids by_id) n grows.0 (not_named n grows.1)
        (no_empty-subset (parents_of n) (ids by_id) grows.2 h) grows.3 in
    let again = sym (ids-append by_id (to_node n ∷ [])) in
    let next =
      check_nodes-Passes (index + 1) (by_id ++ to_node n ∷ []) rest
        (subst (λ k. Grows k rest) again grows.4)
        (subst (λ k. contains "" k ≡ false) again
          (no_empty-snoc (ids by_id) (id_of n) h grows.1)) in
    let later =
      λ (m : Node). check_nodes (index + 1) (by_id ++ m ∷ []) (elements (nodes_of rest)) in
    record {
      raises = record {
        at = λ e x. elim (>>=-eq-err _ later (x)) [
          | inl now ↦ (rest_of_check-Raises n).at e (sym checked ∙ now)
          | inr (m, done, more) ↦
              let same = rest_of_check-ok n m (sym checked ∙ done) in
              next.raises.at e (ap later (sym same) ∙ more)
        ];
      };
      returns = λ g x.
          let (m, done, more) = >>=-eq-ok _ later x in
          let same = rest_of_check-ok n m (sym checked ∙ done) in
          next.returns g (ap later (sym same) ∙ more)
          ∙ nodes_assoc by_id (to_node n ∷ []) (to_nodes rest);
    }

pub check_graph-built :
    (g : List Built)
    → Grows [] g
    → distinct (ids (to_nodes g)) ≡ true
    → check_graph (to_nodes g) ≡ ok (to_nodes g)
check_graph-built g grows once =
    let (known, acyclic) = Grows-IsAcyclic g grows in
    elim (check_graph-decides (to_nodes g) once) [
      | inl (returned, _, _) ↦ returned
      | inr (inl (a, b, _, e, absent)) ↦ absurd (cc (known a b e, absent))
      | inr (inr (_, _, cyclic)) ↦ absurd (cyclic acyclic)
    ]
