-- ===== src/Schema/Validate/Accepted.antt =====
-- What `validate_trace` of src/agenttrace/schema.py has established of a node that it accepts.
use atcr_agent_trace_collect.Prelude.{
  ℕ, ◌+◌, String, Bool, true, false, not, ◌≡◌, ◌≢◌, refl, List, [], ◌∷◌, ◌++◌, arith, eq_iff,
  Result, ok, >>=-eq-ok, require, All, All-append, length, length-append, ap, subst, some,
  Option-cases, Bool-cases, inl, inr, ◌∙◌, str_eq,
}
use atcr_agent_trace_collect.Prelude.Int.{pos, negsuc}
use atcr_agent_trace_collect.Prelude.Names.{contains, distinct, distinct-snoc}
use atcr_agent_trace_collect.Json.{Value, Fields, Items, nil, cons, bool, int, str, list, dict, get}
use atcr_agent_trace_collect.Schema.Types.{Label, Error, NodeType, llm, tool, Node}
use atcr_agent_trace_collect.Schema.Fields.{object, string}
use atcr_agent_trace_collect.Schema.Nodes.{
  texts, node_type, is_list, dependency_list, check_output_tokens, check_llm, check_tool,
  check_body, check_node, ids, check_nodes, is_bool,
}
use atcr_agent_trace_collect.Schema.Validate.Shape.{
  HasText, IsLlm, IsTool, HasBody, type_name, listed, IsAccepted,
}

pub object-eq-ok : (v : Value) (l : Label) {d : Fields} → object v l ≡ ok d → v ≡ dict d
unfolding object
object-eq-ok (dict d) l h = cc
object-eq-ok _ l h = cc

pub string-eq-ok : (v : Value) (l : Label) {s : String} → string v l ≡ ok s → (v ≡ str s) × (s ≢ "")
unfolding string
string-eq-ok (str t) l {s} h = ground (arith, eq_iff t "", eq_iff s "")
string-eq-ok _ l h = absurd (cc)

string-HasText :
    (key : String) (d : Fields) (l : Label) (s : String)
    → string (get key d) l ≡ ok s
    → HasText key d
string-HasText key d l s h = let (is, named) = string-eq-ok (get key d) l h in (s, is, named)

tokens-eq-ok :
    (node_id : String) (v : Value)
    → check_output_tokens node_id v ≡ ok tt
    → (n : ℕ) × (v ≡ int (pos n))
unfolding check_output_tokens
tokens-eq-ok node_id (int (pos n)) h = (n, refl)
tokens-eq-ok node_id (int (negsuc n)) h = absurd (cc)
tokens-eq-ok node_id _ h = absurd (cc)

pub ok-injective : {A : Type 0} {a b : A} → ◌≡◌ {A = Result Error A} (ok a) (ok b) → a ≡ b
ok-injective h = cc

not-eq-true : (b : Bool) → not b ≡ true → b ≡ false
not-eq-true b h = ground arith

is_bool-eq-true : (v : Value) → is_bool v ≡ true → (b : Bool) × (v ≡ bool b)
is_bool-eq-true (bool b) h = (b, refl)
is_bool-eq-true _ h = absurd (cc)

is_list-eq-true : (v : Value) → is_list v ≡ true → (items : Items) × (v ≡ list items)
is_list-eq-true (list items) h = (items, refl)
is_list-eq-true _ h = absurd (cc)

require-eq-ok : (b : Bool) (e : Error) {u : Unit} → require b e ≡ ok u → b ≡ true
require-eq-ok true e h = refl
require-eq-ok false e h = cc

check_llm-ok :
    (node_id : String) (node request : Fields)
    → get "request" node ≡ dict request
    → check_llm node_id node request ≡ ok tt
    → IsLlm node
unfolding check_llm
check_llm-ok node_id node request r h =
    let (endpoint, e, h1) = >>=-eq-ok _ _ h in
    let (payload, p, h2) = >>=-eq-ok _ _ h1 in
    let (n, t) = tokens-eq-ok node_id _ h2 in
    record {
      request = request;
      has_request = r;
      has_endpoint = string-HasText "endpoint" request _ endpoint e;
      payload = payload;
      has_payload = object-eq-ok _ _ p;
      tokens = n;
      has_tokens = t;
    }

check_tool-ok :
    (node_id : String) (node request : Fields)
    → get "request" node ≡ dict request
    → check_tool node_id node request ≡ ok tt
    → IsTool node
unfolding check_tool
check_tool-ok node_id node request r h =
    let (name, n, h1) = >>=-eq-ok _ _ h in
    let (arguments, a, h2) = >>=-eq-ok _ _ h1 in
    let (result, s, h3) = >>=-eq-ok _ _ h2 in
    let (call, c, h4) = >>=-eq-ok _ _ h3 in
    let (tool_name, t, h5) = >>=-eq-ok _ _ h4 in
    let (_, same, h6) = >>=-eq-ok _ _ h5 in
    let (_, l, h7) = >>=-eq-ok _ _ h6 in
    let (details, d, h8) = >>=-eq-ok _ _ h7 in
    let (content, is_content) = is_list-eq-true _ (require-eq-ok _ _ l) in
    let (failed, f) = is_bool-eq-true _ (require-eq-ok _ _ h8) in
    let agree = (eq_iff tool_name name).0 (require-eq-ok _ _ same) in
    record {
      request = request;
      has_request = r;
      name = name;
      has_name = (string-eq-ok _ _ n).0;
      not_empty = (string-eq-ok _ _ n).1;
      arguments = arguments;
      has_arguments = object-eq-ok _ _ a;
      result = result;
      has_result = object-eq-ok _ _ s;
      has_call = string-HasText "toolCallId" result _ call c;
      same_name = cc ((string-eq-ok _ _ t).0, agree);
      content = content;
      has_content = is_content;
      details = details;
      has_details = object-eq-ok _ _ d;
      failed = failed;
      has_failed = f;
    }

check_body-ok :
    (type : NodeType) (node_id : String) (node request : Fields)
    → get "request" node ≡ dict request
    → check_body type node_id node request ≡ ok tt
    → HasBody type node
unfolding check_body
check_body-ok llm = check_llm-ok
check_body-ok tool = check_tool-ok

texts-ok :
    (items : Items) (l : List String)
    → texts items ≡ some l
    → (items ≡ listed l) × All (λ s. s ≢ "") l
unfolding texts
texts-ok nil l h = let same : [] ≡ l = cc in subst IsRead same (refl, tt)
  where
    IsRead : List String → Type 0
    IsRead k = (nil ≡ listed k) × All (λ s. s ≢ "") k
texts-ok (cons (str s) rest) l h = elim (Option-cases (texts rest)) [
  | inl none_there ↦ absurd (cc (rw (none_there, texts) at h))
  | inr (k, there) ↦ elim (Bool-cases (str_eq s "")) [
    | inl empty ↦ absurd (cc (rw (there, empty, texts) at h))
    | inr other ↦
        let (is, named) = texts-ok rest k there in
        let same : s ∷ k ≡ l = cc (rw (there, other, texts) at h) in
        subst (λ m. (cons (str s) rest ≡ listed m) × All (λ t. t ≢ "") m) same
          (ap (cons (str s)) is, ((ground (arith, other, eq_iff s "")), named))
  ]
]
texts-ok (cons _ rest) l h = absurd (cc h)

dependency_list-ok :
    (node_id : String) (v : Value) (l : List String)
    → dependency_list node_id v ≡ ok l
    → (v ≡ list (listed l)) × All (λ s. s ≢ "") l × (distinct l ≡ true)
unfolding dependency_list
dependency_list-ok node_id (list items) l h = elim (Option-cases (texts items)) [
  | inl none_there ↦ absurd (cc (rw (none_there, dependency_list) at h))
  | inr (k, there) ↦ elim (Bool-cases (distinct k)) [
    | inr twice ↦ absurd (cc (rw (there, twice, dependency_list) at h))
    | inl once ↦
        let same : k ≡ l = ok-injective (rw (there, once, dependency_list) at h) in
        let (is, named) = texts-ok items k there in
        subst (λ m. (list items ≡ list (listed m)) × All (λ s. s ≢ "") m × (distinct m ≡ true)) same
          (ap list is, named, once)
  ]
]
dependency_list-ok node_id _ l h = absurd (cc h)

node_type-ok :
    (node_id : String) (v : Value) (t : NodeType)
    → node_type node_id v ≡ ok t
    → v ≡ str (type_name t)
unfolding node_type
node_type-ok node_id (str s) t h = elim (Bool-cases (str_eq s "llm")) [
  | inl is ↦
      let same : llm ≡ t = ok-injective (rw is at h) in
      ap str ((eq_iff s "llm").0 is) ∙ ap (λ k. str (type_name k)) same
  | inr other ↦ elim (Bool-cases (str_eq s "tool")) [
    | inl is ↦
        let same : tool ≡ t = ok-injective (rw (other, is) at h) in
        ap str ((eq_iff s "tool").0 is) ∙ ap (λ k. str (type_name k)) same
    | inr neither ↦ absurd (cc (rw (other, neither) at h))
  ]
]
node_type-ok node_id v t h = absurd (cc h)

-- Each node that the loop adds to `by_id` has the shape that it checks, under a new identifier.
pub check_node-ok :
    (index : ℕ) (seen : List String) (value : Value) (n : Node)
    → check_node index seen value ≡ ok n
    → IsAccepted n × (contains n.id seen ≡ false)
unfolding check_node
check_node-ok index seen value n h =
    let (node, _, h1) = >>=-eq-ok _ _ h in
    let (node_id, i, h2) = >>=-eq-ok _ _ h1 in
    let (_, new, h3) = >>=-eq-ok _ _ h2 in
    let (type, ty, h4) = >>=-eq-ok _ _ h3 in
    let (parents, d, h5) = >>=-eq-ok _ _ h4 in
    let (request, r, h6) = >>=-eq-ok _ _ h5 in
    let (protocol, p, h7) = >>=-eq-ok _ _ h6 in
    let (_, b, h8) = >>=-eq-ok _ _ h7 in
    let (has_id, named) = string-eq-ok _ _ i in
    let (is_list_of, not_empty, once) =
      dependency_list-ok node_id (get "depends_on" node) parents d in
    let fresh = not-eq-true (contains node_id seen) (require-eq-ok _ _ new) in
    subst (λ m. IsAccepted m × (contains m.id seen ≡ false)) (ok-injective h8)
      (
        record {
          has_id = has_id;
          named = named;
          has_type = node_type-ok node_id (get "type" node) type ty;
          has_parents = is_list_of;
          parents_named = not_empty;
          parents_distinct = once;
          request = request;
          has_request = object-eq-ok _ _ r;
          has_protocol = string-HasText "protocol" request _ protocol p;
          body = check_body-ok type node_id node request (object-eq-ok _ _ r) b;
        },
        fresh,
      )

pub ids-append : (g h : List Node) → ids (g ++ h) ≡ ids g ++ ids h
ids-append [] h = refl
ids-append (n ∷ g) h = ap (λ l. n.id ∷ l) (ids-append g h)

-- What the loop keeps of `by_id`.
pub record AreAccepted (by_id : List Node) : Type 0 where
  pub each : All IsAccepted by_id
  pub ids_distinct : distinct (ids by_id) ≡ true

pub AreAccepted-nil : AreAccepted []
unfolding distinct
AreAccepted-nil = record { each = tt; ids_distinct = refl }

pub check_nodes-ok :
    (index : ℕ) (by_id : List Node) (values : List Value) (g : List Node)
    → AreAccepted by_id
    → check_nodes index by_id values ≡ ok g
    → AreAccepted g × (length g ≡ length by_id + length values)
unfolding check_nodes
check_nodes-ok index by_id [] g a h =
    subst (λ m. AreAccepted m × (length m ≡ length by_id + 0)) (ok-injective h) (a, omega arith)
check_nodes-ok index by_id (value ∷ rest) g a h =
    let (n, c, h1) = >>=-eq-ok _ _ h in
    let (good, fresh) = check_node-ok index (ids by_id) value n c in
    let (b, len) =
      check_nodes-ok (index + 1) (by_id ++ n ∷ []) rest g
        (record {
          each = All-append IsAccepted by_id (n ∷ []) a.each (good, tt);
          ids_distinct =
              rw (ids-append by_id (n ∷ []), distinct-snoc n.id (ids by_id))
                (ground (arith, a.ids_distinct, fresh));
        })
        h1 in
    (b, omega (arith, len, length-append by_id (n ∷ [])))
