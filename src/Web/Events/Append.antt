-- ===== src/Web/Events/Append.antt =====
-- What is appended to events.jsonl (engine/web/events.py, `append` and `append_revised`).
use Prim.Native.String.{◌++◌ as text_append}
use rfp_engine.Contracts.Lane.{Lane}
use rfp_engine.Web.Events.Types.{
  has_id, events_error, contract_error, answers, Answer, Python, Event,
}
use rfp_engine.Prelude.{
  ◌⊎◌, true, sym, count_if, ◌++◌, eq_iff, refl, inr, arith, ◌∙◌, inl, any, ◌||◌, ap, Bool-cases,
  str_eq, [], ◌+◌, false, max, none, ◌≡◌, ◌<◌, if◌then◌else◌, Bool, ◌∷◌, some, ℕ, String, List,
  Option,
}
use rfp_engine.Strategy.Gate.Edits.{strip_prefix}
use rfp_engine.Workspace.Pursuit.Types.{ok-injective, Result-cases, ok, raise, Result}
use rfp_engine.Web.Events.Read.{latest, last_wins, event_of}
use rfp_engine.Validation.Audit.{Fields}
use rfp_engine.Strategy.Gate.Ids.{strip_prefix-append}
use rfp_engine.Web.Events.Collapse.{last_wins-append, last_wins_lem, is_id-some}

abbrev pub value_of : {A : Type 0} → A → Answer A → A
value_of x (answers y) = y
value_of x events_error = x
value_of x contract_error = x

latest-count : (i : String) (es : List Event) → latest i es ≡ none → count_if (has_id i) es ≡ 0
unfolding latest
latest-count i [] h = refl
latest-count i (e ∷ es) h = ground (arith, latest-count i es)

latest-append :
    (i : String) (es : List Event) (e : Event)
    → latest i (es ++ e ∷ []) ≡ (if has_id i e then some e else latest i es)
unfolding latest
latest-append i [] e = ground arith
latest-append i (x ∷ es) e = ground (arith, latest-append i es e)

module _ (L : Lane Event) (py : Python) where
  abbrev number : Option ℕ → ℕ
  number none = 0
  number (some n) = n

  abbrev digits_of : Option String → Option ℕ
  digits_of none = none
  digits_of (some s) = py.digits s

  abbrev id_number : Option String → ℕ
  id_number none = 0
  id_number (some i) = number (digits_of (strip_prefix "evt_" i))

  -- The greatest number of an id; 0 where there is none.
  unfoldable pub highest : List Event → ℕ
  unfolding strip_prefix
  highest [] = 0
  highest (e ∷ es) = max (id_number e.event_id) (highest es)

  -- `_next_event_n`, and the id that has it.
  abbrev pub next_event_id : List Event → String
  next_event_id es = text_append "evt_" (py.four_digits (highest es + 1))

  abbrev new_event :
      String → String → ℕ → String → String → String → String → Option String → Fields → Event
  new_event i pursuit revision kind at actor role cid fields = record {
    event_id = some i;
    pursuit_id = pursuit;
    kind = kind;
    at = at;
    actor = actor;
    actor_role = role;
    revision = revision;
    cid = cid;
    fields = fields;
  }

  unfoldable pub has_role : String → List String → Bool
  has_role r [] = false
  has_role r (x ∷ xs) = str_eq x r || has_role r xs

  -- The schema, then the append.
  abbrev pub land : Event → L.File → Answer Event × L.File
  land e f = if py.validate e then (answers e, L.append e f) else (contract_error, f)

  abbrev append_read :
      String
      → ℕ
      → String
      → String
      → String
      → String
      → Option String
      → Fields
      → L.File
      → Result (List Event)
      → Answer Event × L.File
  append_read pursuit revision kind at actor role cid fields f (raise e) = (contract_error, f)
  append_read pursuit revision kind at actor role cid fields f (ok lines) =
      land
        (new_event (next_event_id (last_wins lines)) pursuit revision kind at actor role cid fields)
        f

  -- `append`, in a pursuit whose draft has that revision; its fields are those that are not None.
  unfoldable pub append :
      String
      → ℕ
      → String
      → String
      → String
      → String
      → Option String
      → Fields
      → L.File
      → Answer Event × L.File
  unfolding has_role
  append pursuit revision kind at actor role cid fields f =
      if has_role role py.actor_roles
      then append_read pursuit revision kind at actor role cid fields f (L.read f)
      else (events_error, f)

  abbrev is_known : Option String → List Event → Bool
  is_known none es = false
  is_known (some i) es = if str_eq i "" then false else any (has_id i) es

  abbrev revise_read : Event → L.File → Result (List Event) → Answer Event × L.File
  revise_read e f (raise x) = (contract_error, f)
  revise_read e f (ok lines) =
      if is_known e.event_id (last_wins lines) then land e f else (events_error, f)

  -- `append_revised`
  unfoldable pub append_revised : Event → L.File → Answer Event × L.File
  append_revised e f = revise_read e f (L.read f)

  above-new :
      (es : List Event) (i : String) (n : ℕ)
      → highest es < n
      → id_number (some i) ≡ n
      → event_of i es ≡ none
  unfolding highest event_of
  above-new [] i n h num = refl
  above-new (e ∷ es) i n h num = elim (Bool-cases (has_id i e)) [
    | inl same ↦ absurd (omega (arith, ap id_number (is_id-some i e.event_id same)))
    | inr other ↦ rw other (above-new es i n (omega arith) num)
  ]

  module _ (digits-four_digits : (n : ℕ) → py.digits (py.four_digits n) ≡ some n) where
    next-number : (es : List Event) → id_number (some (next_event_id es)) ≡ highest es + 1
    next-number es =
        ap (λ o. number (digits_of o))
          (strip_prefix-append "evt_" (py.four_digits (highest es + 1)))
        ∙ ap number (digits-four_digits (highest es + 1))

    append_answers :
        (pursuit : String) (revision : ℕ) (kind at actor role : String) (cid : Option String)
        (fields : Fields) (f : L.File) (e : Event)
        → (append pursuit revision kind at actor role cid fields f).0 ≡ answers e
        → (lines : List Event) × (i : String) × (L.read f ≡ ok lines)
          × (i ≡ next_event_id (last_wins lines))
          × (e.event_id ≡ some i)
          × ((append pursuit revision kind at actor role cid fields f).1 ≡ L.append e f)
    unfolding append
    append_answers pursuit revision kind at actor role cid fields f e h =
        elim (Bool-cases (has_role role py.actor_roles)) [
          | inr stranger ↦ absurd (ground arith)
          | inl known ↦ elim (Result-cases (L.read f)) [
            | inl (x, bad) ↦ absurd (ground arith)
            | inr (lines, good) ↦
                let i = next_event_id (last_wins lines) in
                let made = new_event i pursuit revision kind at actor role cid fields in
                elim (Bool-cases (py.validate made)) [
                  | inr invalid ↦ absurd (ground arith)
                  | inl valid ↦
                      let hit : answers made ≡ answers e = ground arith in
                      let same : made ≡ e = ap (value_of e) hit in
                      (
                        lines,
                        i,
                        good,
                        refl,
                        sym (ap (λ x. x.event_id) same),
                        rw (known, good, valid) (ap (λ x. L.append x f) same),
                      )
                ]
          ]
        ]

    next_event_id-full : (es : List Event) → str_eq (next_event_id es) "" ≡ false
    unfolding strip_prefix
    next_event_id-full es = elim (Bool-cases (str_eq (next_event_id es) "")) [
      | inr full ↦ full
      | inl blank ↦ absurd (
          omega (
            arith,
            next-number es,
            ap (λ i. id_number (some i)) ((eq_iff (next_event_id es) "").0 blank),
          ))
    ]

    -- What a call of `append` does to the lane as a reader sees it.
    abbrev pub Appended : L.File → List Event → Option String → Answer Event × L.File → Type 0
    Appended f lines cid out =
        ((e : Event) × (out.0 ≡ answers e)
          × (e.cid ≡ cid)
          × (L.read out.1 ≡ ok (lines ++ e ∷ []))
          × (last_wins (lines ++ e ∷ []) ≡ last_wins lines ++ e ∷ []))
        ⊎ ((out.1 ≡ f) × ((out.0 ≡ events_error) ⊎ (out.0 ≡ contract_error)))

    pub append-Appended :
        (pursuit : String) (revision : ℕ) (kind at actor role : String) (cid : Option String)
        (fields : Fields) (f : L.File) (lines : List Event)
        → L.read f ≡ ok lines
        → Appended f lines cid (append pursuit revision kind at actor role cid fields f)
    unfolding append
    append-Appended pursuit revision kind at actor role cid fields f lines reads =
        let i = next_event_id (last_wins lines) in
        let made = new_event i pursuit revision kind at actor role cid fields in
        let free : event_of i (last_wins lines) ≡ none =
          above-new (last_wins lines) i (highest (last_wins lines) + 1) (omega arith)
            (next-number (last_wins lines)) in
        let full = next_event_id-full (last_wins lines) in
        elim (Bool-cases (has_role role py.actor_roles)) [
          | inr stranger ↦ rw stranger (inr (refl, inl refl))
          | inl known ↦ elim (Bool-cases (py.validate made)) [
            | inr invalid ↦ rw (known, reads, invalid) (inr (refl, inr refl))
            | inl valid ↦
                rw (known, reads, valid)
                  (inl (
                    made,
                    refl,
                    refl,
                    L.read-append made f lines reads,
                    last_wins-append lines made i refl full
                        (sym (last_wins_lem lines i full).0 ∙ free),
                  ))
          ]
        ]

    -- An event that `append` answers is the new last line of the journal, and its id is that of no
    -- line before it, copies that a reader no longer sees included, provided that every number in
    -- the four-digit format reads back.
    pub append_lem :
        (pursuit : String) (revision : ℕ) (kind at actor role : String) (cid : Option String)
        (fields : Fields) (f : L.File) (e : Event) (lines : List Event)
        → L.read f ≡ ok lines
        → (append pursuit revision kind at actor role cid fields f).0 ≡ answers e
        → (L.read (append pursuit revision kind at actor role cid fields f).1
            ≡ ok (lines ++ e ∷ []))
          × ((i : String) × (e.event_id ≡ some i) × (count_if (has_id i) lines ≡ 0))
    append_lem pursuit revision kind at actor role cid fields f e lines reads h =
        let (ls, i, read, minted, has, put) =
          append_answers pursuit revision kind at actor role cid fields f e h in
        let same : ls ≡ lines = ok-injective ls lines (sym read ∙ reads) in
        let seen = last_wins ls in
        let free : event_of i seen ≡ none =
          above-new seen i (highest seen + 1) (omega arith)
            (ap (λ j. id_number (some j)) minted ∙ next-number seen) in
        let full : str_eq i "" ≡ false = ap (λ j. str_eq j "") minted ∙ next_event_id-full seen in
        (
          ap L.read put ∙ L.read-append e f lines reads,
          (
            i,
            has,
            ap (count_if (has_id i)) (sym same)
                ∙ latest-count i ls (sym ((last_wins_lem ls i full).0) ∙ free),
          ),
        )

  -- A revision that `append_revised` answers revises an event that the lane had: a reader then sees
  -- it at that event's id, and every other id as before.
  pub append_revised_lem :
      (e r : Event) (f : L.File) (lines : List Event) (j : String)
      → L.read f ≡ ok lines
      → (append_revised e f).0 ≡ answers r
      → str_eq j "" ≡ false
      → (after : List Event) × (L.read (append_revised e f).1 ≡ ok after)
        × (event_of j (last_wins after)
            ≡ (if has_id j e then some e else event_of j (last_wins lines)))
        × ((i : String) × (e.event_id ≡ some i) × (any (has_id i) (last_wins lines) ≡ true))
  unfolding append_revised
  append_revised_lem e r f lines j reads h n =
      elim (Bool-cases (is_known e.event_id (last_wins lines))) [
        | inr stranger ↦ absurd (ground (arith, reads))
        | inl known ↦ elim (Bool-cases (py.validate e)) [
          | inr invalid ↦ absurd (ground (arith, reads))
          | inl valid ↦ (
            lines ++ e ∷ [],
            rw (reads, known, valid) (L.read-append e f lines reads),
            (last_wins_lem (lines ++ e ∷ []) j n).0
                ∙ latest-append j lines e
                ∙ ground (arith, (last_wins_lem lines j n).0),
            known_id e.event_id known,
          )
        ]
      ]
    where
      known_id :
          (o : Option String)
          → is_known o (last_wins lines) ≡ true
          → (i : String) × (o ≡ some i) × (any (has_id i) (last_wins lines) ≡ true)
      known_id none k = absurd (ground arith)
      known_id (some i) k = (i, refl, ground arith)
