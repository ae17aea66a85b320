-- ===== src/Web/Events/Collapse.antt =====
-- The reader's view of the events, without the positions that the code of `last_wins` keeps
-- (engine/metrics/walker.py).
use rfp_engine.Prelude.Dict
use rfp_engine.Prelude.{
  count_if-append, ◌≤◌, count_if, eq_refl, ◌⊎◌, sym, eq_iff, ◌∙◌, ◌↔◌, false, ap, true, refl, arith,
  Option-cases, inr, inl, zero, Bool-cases, length, str_eq, suc, ◌≡◌, none, [], ◌++◌, if◌then◌else◌,
  ◌∷◌, some, String, List, Option, ℕ,
}
use rfp_engine.Web.Events.Types.{is_id, has_id, Event}
use rfp_engine.Web.Events.Read.{last_wins, latest, collapse, id_of, event_of, set_at}

-- The same without positions: a copy takes the place of the event that has its id.
unfoldable replace : String → Event → List Event → List Event
replace i e [] = []
replace i e (x ∷ xs) = let rest = replace i e xs in if has_id i x then e ∷ xs else x ∷ rest

unfoldable position : String → List Event → Option ℕ
position i [] = none
position i (x ∷ xs) =
    let rest = position i xs in
    if has_id i x then some 0 else elim rest [ none ↦ none | some n ↦ some (suc n) ]

pub is_id-some : (i : String) (o : Option String) → is_id i o ≡ true → o ≡ some i
is_id-some i none h = absurd (ground arith)
is_id-some i (some j) h = ap some ((eq_iff j i).0 h)

-- Two events with the id `i` have the same ids.
has_id-same :
    (i j : String) (x e : Event) → has_id i x ≡ true → has_id i e ≡ true → has_id j x ≡ has_id j e
has_id-same i j x e hx he =
    ap (is_id j) (is_id-some i x.event_id hx ∙ sym (is_id-some i e.event_id he))

has_id-key : (i j : String) (e : Event) → has_id i e ≡ true → has_id j e ≡ str_eq i j
has_id-key i j e h = ap (is_id j) (is_id-some i e.event_id h)

set_at-replace :
    (i : String) (e : Event) (out : List Event) (n : ℕ)
    → position i out ≡ some n
    → set_at n e out ≡ replace i e out
unfolding set_at replace position
set_at-replace i e [] n h = refl
set_at-replace i e (x ∷ xs) zero h = ground arith
set_at-replace i e (x ∷ xs) (suc n) h = ground (arith, set_at-replace i e xs n)

position-append :
    (i : String) (xs : List Event) (e : Event)
    → position i (xs ++ e ∷ []) ≡ elim (position i xs) [
      | some n ↦ some n
      | none ↦ if has_id i e then some (length xs) else none
    ]
unfolding position
position-append i [] e = ground arith
position-append i (x ∷ xs) e = ground (arith, position-append i xs e)

position-replace :
    (i j : String) (xs : List Event) (e : Event)
    → has_id i e ≡ true
    → position j (replace i e xs) ≡ position j xs
unfolding position replace
position-replace i j [] e h = refl
position-replace i j (x ∷ xs) e h = ground (arith, position-replace i j xs e h, has_id-same i j x e)

abbrev revised : Option Event → String → Event → List Event → List Event
revised (some x) i e out = replace i e out
revised none i e out = out ++ e ∷ []

abbrev read_next : Option String → Event → List Event → List Event
read_next none e out = out ++ e ∷ []
read_next (some i) e out = revised (event_of i out) i e out

unfoldable fold_events : List Event → List Event → List Event
unfolding replace event_of id_of
fold_events [] out = out
fold_events (e ∷ es) out = fold_events es (read_next (id_of e.event_id) e out)

-- The index holds the positions.
IsIndex : Dict.Dict ℕ → List Event → Type 0
IsIndex index out = (i : String) → str_eq i "" ≡ false → Dict.get i index ≡ position i out

position-event_of :
    (i : String) (out : List Event) → (position i out ≡ none) ↔ (event_of i out ≡ none)
unfolding position event_of
position-event_of i [] = ground arith
position-event_of i (x ∷ xs) = ground (arith, position-event_of i xs)

id_of-cases :
    (e : Event)
    → ((id_of e.event_id ≡ none) × ((j : String) → str_eq j "" ≡ false → has_id j e ≡ false))
      ⊎ ((i : String) × (id_of e.event_id ≡ some i) × (has_id i e ≡ true) × (str_eq i "" ≡ false))
unfolding id_of
id_of-cases e = go e.event_id refl
  where
    go :
        (o : Option String)
        → e.event_id ≡ o
        → ((id_of e.event_id ≡ none) × ((j : String) → str_eq j "" ≡ false → has_id j e ≡ false))
          ⊎ ((i : String) × (id_of e.event_id ≡ some i)
              × (has_id i e ≡ true)
              × (str_eq i "" ≡ false))
    go none h = inl (rw h refl, λ j n. rw h refl)
    go (some i) h = elim (Bool-cases (str_eq i "")) [
      | inl blank ↦
          inl
            (rw (h, blank) refl, λ j n. rw h (ground (arith, eq_iff i "", eq_iff i j, eq_iff j "")))
      | inr full ↦ inr (i, rw (h, full) refl, rw h (eq_refl i), full)
    ]

collapse-fold :
    (es out : List Event) (index : Dict.Dict ℕ)
    → IsIndex index out
    → collapse es out index ≡ fold_events es out
unfolding collapse fold_events IsIndex
collapse-fold [] out index v = refl
collapse-fold (e ∷ es) out index v = elim (id_of-cases e) [
  | inl (bare, not_here) ↦ rw bare (
      collapse-fold es (out ++ e ∷ []) index
        λ j n. v j n ∙ ground (arith, position-append j out e, not_here j n))
  | inr (i, there, has, full) ↦ elim (Option-cases (Dict.get i index)) [
    | inl new ↦
        let gone : event_of i out ≡ none = (position-event_of i out).0 (sym (v i full) ∙ new) in
        rw (there, new, gone)
          (collapse-fold es (out ++ e ∷ []) (Dict.put i (length out) index) λ j m.
            Dict.get-put i j (length out) index
            ∙ ground (
              arith,
              position-append j out e,
              v j m,
              v i full,
              new,
              has,
              eq_iff i j,
              has_id-key i j e has,
            ))
    | inr (n, old) ↦
        let at_n : position i out ≡ some n = sym (v i full) ∙ old in
        elim (Option-cases (event_of i out)) [
          | inl gone ↦ absurd (ground (arith, (position-event_of i out).1 gone))
          | inr (x, found) ↦
              rw (there, old, found, set_at-replace i e out n at_n)
                (collapse-fold es (replace i e out) index
                  λ j m. v j m ∙ sym (position-replace i j out e has))
        ]
  ]
]

event_of-append :
    (i : String) (xs : List Event) (e : Event)
    → event_of i (xs ++ e ∷ [])
      ≡ elim (event_of i xs) [ some x ↦ some x | none ↦ if has_id i e then some e else none ]
unfolding event_of
event_of-append i [] e = ground arith
event_of-append i (x ∷ xs) e = ground (arith, event_of-append i xs e)

event_of-replace :
    (i j : String) (xs : List Event) (e x : Event)
    → has_id i e ≡ true
    → event_of i xs ≡ some x
    → event_of j (replace i e xs) ≡ (if has_id j e then some e else event_of j xs)
unfolding event_of replace
event_of-replace i j [] e x h found = absurd (ground arith)
event_of-replace i j (y ∷ xs) e x h found = elim (Bool-cases (has_id i y)) [
  | inl here ↦ rw here (ground (arith, has_id-same i j y e here h))
  | inr elsewhere ↦ elim (Bool-cases (has_id j e)) [
    | inl mine ↦
        let differs : has_id j y ≡ false =
          ap (λ k. has_id k y) (sym ((eq_iff i j).0 (sym (has_id-key i j e h) ∙ mine)))
          ∙ elsewhere in
        rw (elsewhere, differs, event_of-replace i j xs e x h (ground arith), mine) refl
    | inr other ↦ rw elsewhere (ground (arith, event_of-replace i j xs e x h))
  ]
]

count-replace :
    (i j : String) (xs : List Event) (e : Event)
    → has_id i e ≡ true
    → count_if (has_id j) (replace i e xs) ≡ count_if (has_id j) xs
unfolding replace
count-replace i j [] e h = refl
count-replace i j (y ∷ xs) e h = elim (Bool-cases (has_id i y)) [
  | inl here ↦ rw here (ground (arith, has_id-same i j y e here h))
  | inr elsewhere ↦ rw elsewhere (ground (arith, count-replace i j xs e h))
]

-- After a line, an id is read as that line if it is its, and as before if not; no id is read twice.
read_next-event_of :
    (e : Event) (out : List Event) (j : String)
    → str_eq j "" ≡ false
    → event_of j (read_next (id_of e.event_id) e out)
      ≡ (if has_id j e then some e else event_of j out)
read_next-event_of e out j n = elim (id_of-cases e) [
  | inl (bare, not_here) ↦
      rw (bare, not_here j n) (event_of-append j out e ∙ ground (arith, not_here j n))
  | inr (i, there, has, full) ↦ elim (Option-cases (event_of i out)) [
    | inl gone ↦
        rw (there, gone)
          (event_of-append j out e ∙ ground (arith, gone, has_id-key i j e has, eq_iff i j))
    | inr (x, found) ↦ rw (there, found) (event_of-replace i j out e x has found)
  ]
]

event_of-count :
    (i : String) (out : List Event) → event_of i out ≡ none → count_if (has_id i) out ≡ 0
unfolding event_of
event_of-count i [] h = refl
event_of-count i (x ∷ xs) h = ground (arith, event_of-count i xs)

read_next-count :
    (e : Event) (out : List Event) (j : String)
    → str_eq j "" ≡ false
    → count_if (has_id j) out ≤ 1
    → count_if (has_id j) (read_next (id_of e.event_id) e out) ≤ 1
read_next-count e out j n h = elim (id_of-cases e) [
  | inl (bare, not_here) ↦
      rw bare (ground (arith, not_here j n, count_if-append (has_id j) out (e ∷ [])))
  | inr (i, there, has, full) ↦ elim (Option-cases (event_of i out)) [
    | inl gone ↦
        rw (there, gone)
          (ground (
            arith,
            count_if-append (has_id j) out (e ∷ []),
            has_id-key i j e has,
            eq_iff i j,
            event_of-count i out gone,
          ))
    | inr (x, found) ↦ rw (there, found, count-replace i j out e has) h
  ]
]

fold_events-latest :
    (es out : List Event) (j : String)
    → str_eq j "" ≡ false
    → count_if (has_id j) out ≤ 1
    → (event_of j (fold_events es out)
        ≡ elim (latest j es) [ some x ↦ some x | none ↦ event_of j out ])
      × (count_if (has_id j) (fold_events es out) ≤ 1)
unfolding fold_events latest
fold_events-latest [] out j n h = (refl, h)
fold_events-latest (e ∷ es) out j n h =
    let (read, once) =
      fold_events-latest es (read_next (id_of e.event_id) e out) j n
        (read_next-count e out j n h) in
    (read ∙ ground (arith, read_next-event_of e out j n), once)

-- A reader of the lane sees each event id once, as the last line that carries it.
pub last_wins_lem :
    (es : List Event) (i : String)
    → str_eq i "" ≡ false
    → (event_of i (last_wins es) ≡ latest i es) × (count_if (has_id i) (last_wins es) ≤ 1)
unfolding last_wins IsIndex position event_of Dict.get
last_wins_lem es i n =
    let (read, once) = fold_events-latest es [] i n (omega arith) in
    let same : collapse es [] [] ≡ fold_events es [] = collapse-fold es [] [] (λ j m. refl) in
    (ap (event_of i) same ∙ read ∙ ground arith, rw same once)

fold_events-append :
    (es out : List Event) (e : Event)
    → fold_events (es ++ e ∷ []) out ≡ read_next (id_of e.event_id) e (fold_events es out)
unfolding fold_events
fold_events-append [] out e = refl
fold_events-append (x ∷ es) out e = fold_events-append es (read_next (id_of x.event_id) x out) e

-- An event with a new id is read after the others.
pub last_wins-append :
    (es : List Event) (e : Event) (i : String)
    → e.event_id ≡ some i
    → str_eq i "" ≡ false
    → latest i es ≡ none
    → last_wins (es ++ e ∷ []) ≡ last_wins es ++ e ∷ []
unfolding last_wins IsIndex position Dict.get id_of
last_wins-append es e i has full new =
    let gone : event_of i (fold_events es []) ≡ none =
      ap (event_of i) (sym (collapse-fold es [] [] (λ j m. refl)))
      ∙ (last_wins_lem es i full).0
      ∙ new in
    collapse-fold (es ++ e ∷ []) [] [] (λ j m. refl)
    ∙ fold_events-append es [] e
    ∙ rw (has, full, gone) refl
    ∙ ap (λ x. x ++ e ∷ []) (sym (collapse-fold es [] [] (λ j m. refl)))
