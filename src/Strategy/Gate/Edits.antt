-- ===== src/Strategy/Gate/Edits.antt =====
-- `_summary`, `_by_id`, `_next_candidate_id` and `_apply_edits` of engine/strategy/gate.py. `int` of
-- a text (a negative number counts as 0) and the two-digit format are parameters.
use Prim.Native.String.{◌++◌ as text_append}
use rfp_engine.Prelude.{
  ◌++◌, max, zero, ◌&&◌, str_eq, ◌+◌, not, Bool, true, false, none, some, Option, String, List, ℕ,
  [], ◌∷◌, if◌then◌else◌,
}
use rfp_engine.Validation.Audit.{
  Json, Items, Fields, null, boolean, number, text, array, object, nil, cons, end, field,
}
use rfp_engine.Contracts.GateKey.{field_of, has_name}
use rfp_engine.Workspace.Pursuit.Types.{Result, ok, raise, contract_error}
use rfp_engine.Strategy.Gate.Types.{Candidate, Edits, Summary}

-- Python's truth of a value.
unfoldable pub is_true : Json → Bool
is_true null = false
is_true (boolean b) = b
is_true (number zero) = false
is_true (text s) = not (str_eq s "")
is_true (array nil) = false
is_true (object end) = false
is_true _ = true

abbrev pub is_truthy : Option Json → Bool
is_truthy none = false
is_truthy (some v) = is_true v

unfoldable pub count_items : Items → ℕ
count_items nil = 0
count_items (cons v vs) = count_items vs + 1

abbrev pub items_of : Option Items → Items
items_of none = nil
items_of (some vs) = vs

abbrev is_absent : Option Items → Bool
is_absent none = true
is_absent (some vs) = false

abbrev pub has_none : Fields → Bool
has_none end = true
has_none (field k v fs) = false

-- A dict of edits with no operation in it.
abbrev pub is_blank : Edits → Bool
is_blank e = is_absent e.kill && is_absent e.add && is_absent e.edit && has_none e.others

-- `if edits`
abbrev pub given : Option Edits → Option Edits
given none = none
given (some e) = if is_blank e then none else some e

abbrev summary_of : Option Edits → Option Summary
summary_of none = none
summary_of (some e) = some (record {
  kill = count_items (items_of e.kill);
  add = count_items (items_of e.add);
  edit = count_items (items_of e.edit);
})

-- `_summary`
unfoldable pub summary : Option Edits → Option Summary
unfolding count_items
summary e = summary_of (given e)

-- The id of a candidate is the value that is asked for.
abbrev pub is_id : Json → Option String → Bool
is_id (text t) (some s) = str_eq s t
is_id null none = true
is_id _ _ = false

-- `_by_id`; `none` is its ContractError.
unfoldable pub by_id : List Candidate → Json → Option Candidate
by_id [] cid = none
by_id (c ∷ cs) cid = if is_id cid c.candidate_id then some c else by_id cs cid

-- The first candidate with the id, changed in place.
unfoldable pub change : Json → (Candidate → Candidate) → List Candidate → List Candidate
change cid f [] = []
change cid f (c ∷ cs) = if is_id cid c.candidate_id then f c ∷ cs else c ∷ change cid f cs

unfoldable pub strip_prefix : String → String → Option String
strip_prefix String.[] s = some s
strip_prefix (String.◌∷◌ c p) String.[] = none
strip_prefix (String.◌∷◌ c p) (String.◌∷◌ d s) =
    let rest = strip_prefix p s in if str_eq (String.◌∷◌ c "") (String.◌∷◌ d "") then rest else none

-- Every key of a dict is one of the names.
unfoldable pub is_among : List String → Fields → Bool
unfolding has_name
is_among ns end = true
is_among ns (field k v fs) = has_name k ns && is_among ns fs

abbrev pub killed : String → Candidate → Candidate
killed actor c = record c {
  status = "killed";
  kill_reason = some (text_append "killed at Gate 1 by " actor);
}

-- `edits["kill"]`
unfoldable pub apply_kills : String → Items → List Candidate → Result (List Candidate)
unfolding by_id change
apply_kills actor nil cs = ok cs
apply_kills actor (cons cid cids) cs = elim (by_id cs cid) [
  | none ↦ raise contract_error
  | some c ↦ elim (str_eq c.status "killed") [
    | true ↦ raise contract_error
    | false ↦ apply_kills actor cids (change cid (killed actor) cs)
  ]
]

-- The value that an entry gives a key, when it is true.
abbrev pub true_value : String → Fields → Option Json
true_value k fs = elim (field_of k fs) [ none ↦ none | some v ↦ if is_true v then some v else none ]

abbrev or_else : Option Json → Json → Json
or_else none old = old
or_else (some v) old = v

abbrev or_kept : Option Json → Option Json → Option Json
or_kept none old = old
or_kept (some v) old = some v

abbrev pub edited : Fields → Candidate → Candidate
edited fs c = record c {
  theme = or_else (true_value "theme" fs) c.theme;
  rationale = or_kept (true_value "rationale" fs) c.rationale;
}

-- The id that an edit's entry names, if the entry is well formed.
abbrev pub entry_id : Json → Option (Json × Fields)
entry_id (object fs) = elim (field_of "candidate_id" fs) [
  | none ↦ none
  | some cid ↦
      if is_among ("candidate_id" ∷ "theme" ∷ "rationale" ∷ []) fs then some (cid, fs) else none
]
entry_id _ = none

-- `edits["edit"]`
unfoldable pub apply_changes : Items → List Candidate → Result (List Candidate)
unfolding by_id change is_among is_true
apply_changes nil cs = ok cs
apply_changes (cons entry entries) cs = elim (entry_id entry) [
  | none ↦ raise contract_error
  | some e ↦ elim (by_id cs e.0) [
    | none ↦ raise contract_error
    | some c ↦ apply_changes entries (change e.0 (edited e.1) cs)
  ]
]

module _ (int_of : String → Option ℕ) (two_digits : ℕ → String) where
  abbrev pub number_of : Option String → ℕ
  number_of none = 0
  number_of (some n) = elim (int_of n) [ none ↦ 0 | some k ↦ k ]

  -- The number of an id, and 0 for an id of another form.
  abbrev pub id_number : Option String → ℕ
  id_number none = 0
  id_number (some cid) = number_of (strip_prefix "cand_" cid)

  unfoldable pub highest : List Candidate → ℕ
  unfolding strip_prefix
  highest [] = 0
  highest (c ∷ cs) = max (id_number c.candidate_id) (highest cs)

  -- `_next_candidate_id`
  unfoldable pub next_candidate_id : List Candidate → String
  unfolding highest
  next_candidate_id cs = text_append "cand_" (two_digits (highest cs + 1))

  -- What an entry adds, if it is well formed.
  abbrev pub new_candidate : Json → List Candidate → Option Candidate
  new_candidate (object fs) cs = elim (true_value "theme" fs) [
    | none ↦ none
    | some theme ↦
        if is_among ("theme" ∷ "rationale" ∷ "cites" ∷ []) fs
        then some (record {
          candidate_id = some (next_candidate_id cs);
          theme = theme;
          status = "proposed";
          kill_reason = none;
          rationale = true_value "rationale" fs;
          cites = true_value "cites" fs;
        })
        else none
  ]
  new_candidate _ cs = none

  -- `edits["add"]`
  unfoldable pub apply_adds : Items → List Candidate → Result (List Candidate)
  unfolding is_among is_true next_candidate_id
  apply_adds nil cs = ok cs
  apply_adds (cons entry entries) cs = elim (new_candidate entry cs) [
    | none ↦ raise contract_error
    | some c ↦ apply_adds entries (cs ++ c ∷ [])
  ]

  abbrev then_ : {A B : Type 0} → Result A → (A → Result B) → Result B
  then_ (ok a) f = f a
  then_ (raise e) f = raise e

  -- `_apply_edits`: kills, changes, then additions.
  unfoldable pub apply_edits : String → Edits → List Candidate → Result (List Candidate)
  unfolding apply_kills apply_changes apply_adds
  apply_edits actor e cs =
      if not (has_none e.others)
      then raise contract_error
      else then_ (apply_kills actor (items_of e.kill) cs)
          (λ ks. then_ (apply_changes (items_of e.edit) ks) (apply_adds (items_of e.add)))
