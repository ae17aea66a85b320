-- ===== src/Contracts/GateKey.antt =====
-- engine/contracts/gate_key.py: a gate's decision is keyed on what was decided, never on the clock.
-- `json.dumps` with sorted keys and the digest are parameters.
use rfp_engine.Prelude.{
  All, refl, arith, ◌||◌, [], ap, some, none, ◌∷◌, ◌≡◌, Option, ◌&&◌, String, List, if◌then◌else◌,
  str_eq, not, Bool, true, false,
}
use rfp_engine.Validation.Audit.{
  Json, Items, Fields, null, boolean, number, text, array, object, nil, cons, end, field,
}

-- `v is False or v in _EMPTY`
unfoldable pub is_empty : Json → Bool
is_empty null = true
is_empty (boolean b) = not b
is_empty (text s) = str_eq s ""
is_empty (array nil) = true
is_empty (object end) = true
is_empty _ = false

-- `_prune`, over a value, a list and a dict.
unfoldable mutual
  pub prune : Json → Json
  prune null = null
  prune (boolean b) = boolean b
  prune (number n) = number n
  prune (text s) = text s
  prune (array vs) = array (prune_items vs)
  prune (object fs) = object (prune_fields fs)

  pub prune_items : Items → Items
  prune_items nil = nil
  prune_items (cons v vs) = cons (prune v) (prune_items vs)

  pub prune_fields : Fields → Fields
  prune_fields end = end
  prune_fields (field k v fs) =
      let rest = prune_fields fs in if is_empty (prune v) then rest else field k (prune v) rest

-- SEMANTIC_FIELDS
abbrev pub semantic_fields : List String
semantic_fields =
    "decision" ∷ "notes" ∷ "edits" ∷ "corrections" ∷ "answers" ∷ "skips" ∷ "org" ∷ "gates_collapsed"
    ∷ []

unfoldable pub field_of : String → Fields → Option Json
field_of k end = none
field_of k (field j v fs) = let rest = field_of k fs in if str_eq j k then some v else rest

unfoldable pub has_name : String → List String → Bool
has_name k [] = false
has_name k (n ∷ ns) = str_eq n k || has_name k ns

-- No field outside the semantic ones.
unfoldable pub is_semantic : Fields → Bool
unfolding has_name
is_semantic end = true
is_semantic (field k v fs) = has_name k semantic_fields && is_semantic fs

-- What is kept of a value, or nothing.
abbrev pub kept : Option Json → Option Json
kept none = none
kept (some v) = if is_empty (prune v) then none else some (prune v)

abbrev keep : String → Option Json → Fields → Fields
keep n none rest = rest
keep n (some v) rest = field n v rest

-- The canonical form: the fields in their fixed order, each pruned.
unfoldable pub canon : List String → Fields → Fields
unfolding field_of
canon [] fs = end
canon (n ∷ ns) fs = keep n (kept (field_of n fs)) (canon ns fs)

module _ (json_dumps : Json → String) (sha256 : String → String) where
  -- The digest of semantic fields.
  unfoldable pub key_digest : Fields → String
  unfolding canon
  key_digest fs = sha256 (json_dumps (object (canon semantic_fields fs)))

  -- `request_digest`; `none` is the ValueError.
  unfoldable pub request_digest : Fields → Option String
  unfolding is_semantic key_digest
  request_digest fs = if is_semantic fs then some (key_digest fs) else none

abbrev is_text : Option String → String → Bool
is_text none s = false
is_text (some t) s = str_eq t s

abbrev agrees : Option String → Option String → Bool
agrees none recorded = true
agrees (some d) recorded = is_text recorded d

abbrev covers : Option String → String → Bool
covers none digest = true
covers (some s) digest = str_eq s digest

-- `same_request`: the decision where one is asked for, the actor, and the digest where the record
-- carries one.
unfoldable pub same_request :
    Option String → Option String → Option String → Option String → String → String → Bool
same_request asked recorded_decision recorded_actor recorded actor digest =
    if not (agrees asked recorded_decision)
    then false
    else if not (is_text recorded_actor actor)
    then false
    else covers recorded digest

-- Canonical form is reached in one pass: pruning what was pruned changes nothing.
mutual
  unfolding prune prune_items prune_fields is_empty

  prune_idem : (v : Json) → prune (prune v) ≡ prune v
  prune_idem null = refl
  prune_idem (boolean b) = refl
  prune_idem (number n) = refl
  prune_idem (text s) = refl
  prune_idem (array vs) = ap array (prune_items_idem vs)
  prune_idem (object fs) = ap object (prune_fields_idem fs)

  prune_items_idem : (vs : Items) → prune_items (prune_items vs) ≡ prune_items vs
  prune_items_idem nil = refl
  prune_items_idem (cons v vs) = ground (arith, prune_idem v, prune_items_idem vs)

  prune_fields_idem : (fs : Fields) → prune_fields (prune_fields fs) ≡ prune_fields fs
  prune_fields_idem end = refl
  prune_fields_idem (field k v fs) = ground (arith, prune_idem v, prune_fields_idem fs)

pub canon-kept :
    (ns : List String) (fs gs : Fields)
    → All (λ n. kept (field_of n fs) ≡ kept (field_of n gs)) ns
    → canon ns fs ≡ canon ns gs
unfolding canon
canon-kept [] fs gs same = refl
canon-kept (n ∷ ns) fs gs (same, rest) = rw (same, canon-kept ns fs gs rest) refl
