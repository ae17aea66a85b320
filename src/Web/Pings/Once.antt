-- ===== src/Web/Pings/Once.antt =====
-- A ping is answered once (engine/web/pings.py).
use rfp_engine.Prelude.Dict
use rfp_engine.Workspace.Pursuit.Types.{Result, Result-cases, ok, ok-injective, raise}
use rfp_engine.Contracts.Lane.{Lane}
use rfp_engine.Web.Pings.Types.{
  Line, Found, Answer, answers, ping_error, contract_error, fold_lines, fold_line, find_gap, is_set,
  is, merge, merged,
}
use rfp_engine.Web.Share.Fold.{some-injective}
use rfp_engine.Web.Pings.Lane.{
  ping_found, ping_read, is_settled, answer_known, answer_found, update, State, ping, answer, Op,
  asks, replies, edits, after, run,
}
use rfp_engine.Prelude.{
  if◌then◌else◌, ap, sym, true, false, none, some, Option, Option-cases, Bool, Bool-cases, inl, inr,
  refl, str_eq, [], ◌∷◌, ◌++◌, ◌≡◌, ◌∙◌, ◌⊎◌, List, String, eq_iff, eq_refl, arith, not, ℕ,
}
use rfp_engine.Planning.Gate.Decide.{text_or}

fold_lines-append :
    (xs ys : List Line) (m : Dict.Dict Line)
    → fold_lines (xs ++ ys) m ≡ fold_lines ys (fold_lines xs m)
unfolding fold_lines
fold_lines-append [] ys m = refl
fold_lines-append (x ∷ xs) ys m = fold_lines-append xs ys (fold_line x m)

get-fold_line :
    (u : Line) (i : String) (m : Dict.Dict Line)
    → Dict.get i (fold_line u m)
      ≡ (if str_eq u.ping_id i then some (merged (Dict.get u.ping_id m) u) else Dict.get i m)
unfolding fold_line
get-fold_line u i m = Dict.get-put u.ping_id i (merged (Dict.get u.ping_id m) u) m

module _ (L : Lane Line) (four_digits : ℕ → String) (strip : String → String) where
  -- The ping of an id has its answer.
  abbrev IsAnswered : String → State L four_digits strip → Type 0
  IsAnswered i s =
      (lines : List Line) × (L.read s.pings ≡ ok lines)
      × ((l : Line) × (Dict.get i (fold_lines lines []) ≡ some l) × (is_set l.answered_at ≡ true))

  -- A call leaves the journal, or appends a line that takes no answer from this ping.
  Moves : String → State L four_digits strip → State L four_digits strip → Type 0
  Moves i s t =
      (t.pings ≡ s.pings)
      ⊎ ((u : Line) × (t.pings ≡ L.append u s.pings)
          × ((u.answered_at ≡ none) ⊎ (str_eq u.ping_id i ≡ false)))

  -- A reply is refused, or finds a ping without an answer and appends the answer's line.
  Writes : String → String → String → String → Bool → State L four_digits strip → Type 0
  Writes id text at actor no_kb s =
      (lines : List Line) × (L.read s.pings ≡ ok lines)
      × ((old : Line) × (Dict.get id (fold_lines lines []) ≡ some old)
          × (is_set old.answered_at ≡ false)
          × ((answer L four_digits strip id text at actor no_kb s).1.pings
              ≡ L.append (update L four_digits strip id text at actor) s.pings))

  -- What a call of `answer` does: a refusal leaves the state, anything else is an answer.
  Refused : Answer Line × State L four_digits strip → State L four_digits strip → Type 0
  Refused r s = (r ≡ (ping_error, s)) ⊎ (r ≡ (contract_error, s))

  found_cases :
      (id : String) (l : Line) (text at actor : String) (o : Option Found)
      (s : State L four_digits strip)
      → Refused (answer_found L four_digits strip id l text at actor o s) s
        ⊎ ((answer_found L four_digits strip id l text at actor o s).1.pings
            ≡ L.append (update L four_digits strip id text at actor) s.pings)
  unfolding Refused
  found_cases id l text at actor none s = inl (inl refl)
  found_cases id l text at actor (some x) s =
      elim (Bool-cases (is_settled L four_digits strip x s)) [
        | inl settled ↦ rw settled (inl (inl refl))
        | inr free ↦ rw free (inr refl)
      ]

  known_cases :
      (id text at actor : String) (no_kb : Bool) (l : Line) (s : State L four_digits strip)
      → Refused (answer_known L four_digits strip id text at actor no_kb (some l) s) s
        ⊎ ((is_set l.answered_at ≡ false)
            × ((answer_known L four_digits strip id text at actor no_kb (some l) s).1.pings
                ≡ L.append (update L four_digits strip id text at actor) s.pings))
  unfolding Refused
  known_cases id text at actor no_kb l s = elim (Bool-cases (is_set l.answered_at)) [
    | inl done ↦ rw done (inl (inl refl))
    | inr fresh ↦ elim (Bool-cases (str_eq (strip text) "")) [
      | inl blank ↦ rw (fresh, blank) (inl (inl refl))
      | inr full ↦ elim (Bool-cases no_kb) [
        | inl missing ↦ rw (fresh, full, missing) (inl (inl refl))
        | inr fine ↦
            elim (found_cases id l text at actor (find_gap (text_or l.gap_id "") s.doc) s) [
              | inl refused ↦ rw (fresh, full, fine) (inl refused)
              | inr wrote ↦ rw (fresh, full, fine) (inr (refl, wrote))
            ]
      ]
    ]
  ]

  answer_cases :
      (id text at actor : String) (no_kb : Bool) (s : State L four_digits strip)
      → Refused (answer L four_digits strip id text at actor no_kb s) s
        ⊎ Writes id text at actor no_kb s
  unfolding Refused Writes answer
  answer_cases id text at actor no_kb s = elim (Result-cases (L.read s.pings)) [
    | inl (e, bad) ↦ rw bad (inl (inr refl))
    | inr (lines, good) ↦ elim (Option-cases (Dict.get id (fold_lines lines []))) [
      | inl unknown ↦ rw (good, unknown) (inl (inl refl))
      | inr (l, known) ↦ elim (known_cases id text at actor no_kb l s) [
        | inl refused ↦ rw (good, known) (inl refused)
        | inr (fresh, wrote) ↦ rw (good, known) (inr (lines, refl, (l, known, fresh, wrote)))
      ]
    ]
  ]

  Refused-same :
      (r : Answer Line × State L four_digits strip) (s : State L four_digits strip)
      → Refused r s
      → r.1 ≡ s
  unfolding Refused
  Refused-same r s (inl h) = ap (λ p. p.1) h
  Refused-same r s (inr h) = ap (λ p. p.1) h

  answer-Moves :
      (i id text at actor : String) (no_kb : Bool) (s : State L four_digits strip)
      → IsAnswered i s
      → Moves i s (answer L four_digits strip id text at actor no_kb s).1
  unfolding Moves Writes
  answer-Moves i id text at actor no_kb s (lines, reads, (l, known, done)) =
      elim (answer_cases id text at actor no_kb s) [
        | inl refused ↦ inl (ap (λ t. t.pings) (Refused-same _ s refused))
        | inr (lines', reads', (old, known', fresh, wrote)) ↦ inr (
          update L four_digits strip id text at actor,
          wrote,
          inr (elim (Bool-cases (str_eq id i)) [
            | inr other ↦ other
            | inl same ↦
                let ls : lines' ≡ lines = ok-injective lines' lines (sym reads' ∙ reads) in
                let lo : old ≡ l = some-injective old l (
                  sym known'
                  ∙ ap (λ j. Dict.get j (fold_lines lines' [])) ((eq_iff id i).0 same)
                  ∙ ap (λ x. Dict.get i (fold_lines x [])) ls
                  ∙ known) in
                absurd (ground (arith, fresh, done, ap (λ y. is_set y.answered_at) lo))
          ]),
        )
      ]

  read_Moves :
      (i gap_id route_to at actor : String) (x : Found) (r : Result (List Line))
      (s : State L four_digits strip)
      → Moves i s (ping_read L four_digits strip gap_id route_to at actor x r s).1
  unfolding Moves
  read_Moves i gap_id route_to at actor x (raise e) s = inl refl
  read_Moves i gap_id route_to at actor x (ok lines) s = inr (_, refl, inl refl)

  if_Moves :
      (i : String) (b : Bool) (x y : Answer Line × State L four_digits strip)
      (s : State L four_digits strip)
      → Moves i s x.1
      → Moves i s y.1
      → Moves i s (if b then x else y).1
  if_Moves i true x y s hx hy = hx
  if_Moves i false x y s hx hy = hy

  found_Moves :
      (i gap_id route_to at actor : String) (o : Option Found) (s : State L four_digits strip)
      → Moves i s (ping_found L four_digits strip gap_id route_to at actor o s).1
  found_Moves i gap_id route_to at actor none s = unfold Moves in inl refl
  found_Moves i gap_id route_to at actor (some x) s =
      let stays : Moves i s s = unfold Moves in inl refl in
      if_Moves i (is_settled L four_digits strip x s) _ _ s stays (
        if_Moves i (not (is "open" x.gap.status)) _ _ s stays
          (read_Moves i gap_id route_to at actor x (L.read s.pings) s))

  after-Moves :
      (i : String) (o : Op L four_digits strip) (s : State L four_digits strip)
      → IsAnswered i s
      → Moves i s (after L four_digits strip o s)
  unfolding after ping
  after-Moves i (asks gap_id route_to at actor) s h =
      found_Moves i gap_id route_to at actor (find_gap gap_id s.doc) s
  after-Moves i (replies id text at actor no_kb) s h = answer-Moves i id text at actor no_kb s h
  after-Moves i (edits d frozen) s h = unfold Moves in inl refl

  kept :
      (i : String) (u : Line) (m : Dict.Dict Line) (l : Line)
      → Dict.get i m ≡ some l
      → is_set l.answered_at ≡ true
      → (u.answered_at ≡ none) ⊎ (str_eq u.ping_id i ≡ false)
      → (l' : Line) × (Dict.get i (fold_line u m) ≡ some l') × (is_set l'.answered_at ≡ true)
  kept i u m l known done (inr other) = (l, get-fold_line u i m ∙ rw other known, done)
  kept i u m l known done (inl no_answer) = elim (Bool-cases (str_eq u.ping_id i)) [
    | inr other ↦ (l, get-fold_line u i m ∙ rw other known, done)
    | inl same ↦
        let here : u.ping_id ≡ i = (eq_iff u.ping_id i).0 same in
        (
          merge l u,
          get-fold_line u i m ∙ rw (same, here, known) refl,
          unfold merge in rw no_answer done,
        )
  ]

  Moves-IsAnswered :
      (i : String) (s t : State L four_digits strip) → IsAnswered i s → Moves i s t → IsAnswered i t
  unfolding Moves fold_lines
  Moves-IsAnswered i s t (lines, reads, found) (inl same) = (lines, rw same reads, found)
  Moves-IsAnswered i s t (lines, reads, (l, known, done)) (inr (u, same, harmless)) = (
    lines ++ u ∷ [],
    rw same (L.read-append u s.pings lines reads),
    rw (fold_lines-append lines (u ∷ []) []) (kept i u (fold_lines lines []) l known done harmless),
  )

  run-IsAnswered :
      (i : String) (os : List (Op L four_digits strip)) (s : State L four_digits strip)
      → IsAnswered i s
      → IsAnswered i (run L four_digits strip os s)
  unfolding run
  run-IsAnswered i [] s h = h
  run-IsAnswered i (o ∷ os) s h =
      run-IsAnswered i os (after L four_digits strip o s)
        (Moves-IsAnswered i s (after L four_digits strip o s) h (after-Moves i o s h))

  -- The journal has the answer that a call of `answer` returned.
  answer-IsAnswered :
      (id text at actor : String) (no_kb : Bool) (s : State L four_digits strip) (l : Line)
      → str_eq at "" ≡ false
      → (answer L four_digits strip id text at actor no_kb s).0 ≡ answers l
      → IsAnswered id (answer L four_digits strip id text at actor no_kb s).1
  unfolding Refused Writes fold_lines
  answer-IsAnswered id text at actor no_kb s l dated h =
      elim (answer_cases id text at actor no_kb s) [
        | inl (inl refused) ↦ absurd (ground (arith, h, ap (λ p. p.0) refused))
        | inl (inr refused) ↦ absurd (ground (arith, h, ap (λ p. p.0) refused))
        | inr (lines, reads, (old, known, fresh, wrote)) ↦
            let u = update L four_digits strip id text at actor in
            (
              lines ++ u ∷ [],
              rw wrote (L.read-append u s.pings lines reads),
              (
                merge old u,
                ap (Dict.get id) (fold_lines-append lines (u ∷ []) [])
                    ∙ get-fold_line u id (fold_lines lines [])
                    ∙ rw (eq_refl id, known) refl,
                unfold merge in rw dated refl,
              ),
            )
      ]

  -- Once a reply to a ping is accepted, at a time that is not the empty text, every later reply to it
  -- is refused and changes nothing, whatever pings, replies and edits of the document come between.
  pub answered_once :
      (os : List (Op L four_digits strip)) (id text at actor : String) (no_kb : Bool)
      (s : State L four_digits strip) (l : Line) (text' at' actor' : String) (no_kb' : Bool)
      → str_eq at "" ≡ false
      → (answer L four_digits strip id text at actor no_kb s).0 ≡ answers l
      → answer L four_digits strip id text' at' actor' no_kb'
          (run L four_digits strip os (answer L four_digits strip id text at actor no_kb s).1)
        ≡ (
          ping_error,
          run L four_digits strip os (answer L four_digits strip id text at actor no_kb s).1,
        )
  answered_once os id text at actor no_kb s l text' at' actor' no_kb' dated h =
      refuses (run L four_digits strip os (answer L four_digits strip id text at actor no_kb s).1) (
        run-IsAnswered id os (answer L four_digits strip id text at actor no_kb s).1
          (answer-IsAnswered id text at actor no_kb s l dated h))
    where
      refuses :
          (t : State L four_digits strip)
          → IsAnswered id t
          → answer L four_digits strip id text' at' actor' no_kb' t ≡ (ping_error, t)
      refuses t (lines, reads, (x, known, done)) = unfold answer in rw (reads, known, done) refl
