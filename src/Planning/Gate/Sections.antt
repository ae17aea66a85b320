-- ===== src/Planning/Gate/Sections.antt =====
-- What the section edits of Gate 2 keep (engine/planning/gate.py).
use rfp_engine.Prelude.{
  true, ◌⊎◌, count_if-append, ◌∙◌, ◌++◌, sym, Option-cases, ap, inr, inl, Bool-cases, refl, arith,
  ◌≡◌, Bool, false, none, some, String, List, ℕ, [], ◌∷◌, ◌+◌, str_eq, count_if, bit,
}
use rfp_engine.Validation.Audit.{object, Json, Fields}
use rfp_engine.Strategy.Gate.Edits.{is_among, true_value}
use rfp_engine.Workspace.Pursuit.Types.{Result-cases, ok, ok-injective}
use rfp_engine.Planning.Gate.Edit.{
  count_gate_gaps, apply_section_edits, edit_all, edit_one, new_line, new_section, added_to,
  as_text, Titled, Kill, GapLine, Edited, names, find_section, retitle, without, edit_title,
  kill_section, add_section, by_op,
}
use rfp_engine.Contracts.GateKey.{field_of}

-- How often an id stands among sections, kill records and gap lines.
abbrev pub standing : String → List Titled → ℕ
standing k = count_if (λ s. str_eq s.section_id k)

abbrev pub killed_as : String → List Kill → ℕ
killed_as k = count_if (λ x. str_eq x.section_id k)

abbrev pub added_as : String → List GapLine → ℕ
added_as k = count_if (λ l. str_eq l.section_id k)

-- From one state of the edits to a later one, no section is lost.
abbrev Conserves : String → Edited → Edited → Type 0
Conserves k e f =
    standing k f.sections + killed_as k f.kills + added_as k e.gap_lines
    ≡ standing k e.sections + killed_as k e.kills + added_as k f.gap_lines

-- On Path A nothing is killed and nothing is added.
abbrev Mirrors : Bool → Edited → Edited → Type 0
Mirrors path_a e f = (path_a ≡ false) ⊎ ((f.kills ≡ e.kills) × (f.gap_lines ≡ e.gap_lines))

Mirrors-trans :
    (path_a : Bool) (e f g : Edited) → Mirrors path_a e f → Mirrors path_a f g → Mirrors path_a e g
Mirrors-trans path_a e f g (inl free) m = inl free
Mirrors-trans path_a e f g (inr kept) (inl free) = inl free
Mirrors-trans path_a e f g (inr (kills, added)) (inr (kills2, added2)) =
    inr (kills2 ∙ kills, added2 ∙ added)

retitle-standing :
    (k : String) (fs : Fields) (t : Json) (ss : List Titled)
    → standing k (retitle fs t ss) ≡ standing k ss
unfolding retitle
retitle-standing k fs t [] = refl
retitle-standing k fs t (s ∷ ss) = ground (arith, retitle-standing k fs t ss)

without-standing :
    (k : String) (fs : Fields) (ss : List Titled) (s : Titled)
    → find_section fs ss ≡ some s
    → standing k (without fs ss) + bit (str_eq s.section_id k) ≡ standing k ss
unfolding find_section without
without-standing k fs [] s h = absurd (ground arith)
without-standing k fs (x ∷ ss) s h = elim (Bool-cases (names fs x.section_id)) [
  | inl it ↦
      let found : find_section fs (x ∷ ss) ≡ some x = rw it refl in
      let same : str_eq x.section_id k ≡ str_eq s.section_id k =
        ap (λ o. elim o [ none ↦ false | some y ↦ str_eq y.section_id k ]) (sym found ∙ h) in
      ground (arith, same)
  | inr other ↦ ground (arith, without-standing k fs ss s (ground arith))
]

edit_title-Conserves :
    (k : String) (fs : Fields) (e f : Edited) → edit_title fs e ≡ ok f → Conserves k e f
edit_title-Conserves k fs e f h =
    elim (Bool-cases (is_among ("op" ∷ "section_id" ∷ "title" ∷ []) fs)) [
      | inr extra ↦ absurd (ground arith)
      | inl known ↦ elim (Option-cases (true_value "title" fs)) [
        | inl bare ↦ absurd (ground arith)
        | inr (t, given) ↦ elim (Option-cases (find_section fs e.sections)) [
          | inl gone ↦ absurd (ground arith)
          | inr (s, there) ↦
              let made =
                ok-injective (record e { sections = retitle fs t e.sections }) f (ground arith) in
              rw (sym made) (omega (arith, retitle-standing k fs t e.sections))
        ]
      ]
    ]

edit_title-Mirrors :
    (fs : Fields) (e f : Edited)
    → edit_title fs e ≡ ok f
    → (f.kills ≡ e.kills) × (f.gap_lines ≡ e.gap_lines)
edit_title-Mirrors fs e f h = elim (Bool-cases (is_among ("op" ∷ "section_id" ∷ "title" ∷ []) fs)) [
  | inr extra ↦ absurd (ground arith)
  | inl known ↦ elim (Option-cases (true_value "title" fs)) [
    | inl bare ↦ absurd (ground arith)
    | inr (t, given) ↦ elim (Option-cases (find_section fs e.sections)) [
      | inl gone ↦ absurd (ground arith)
      | inr (s, there) ↦
          let made =
            ok-injective (record e { sections = retitle fs t e.sections }) f (ground arith) in
          (sym (ap (λ x. x.kills) made), sym (ap (λ x. x.gap_lines) made))
    ]
  ]
]

kill_section-Conserves :
    (actor k : String) (fs : Fields) (e f : Edited)
    → kill_section actor fs e ≡ ok f
    → Conserves k e f
kill_section-Conserves actor k fs e f h =
    elim (Bool-cases (is_among ("op" ∷ "section_id" ∷ "reason" ∷ []) fs)) [
      | inr extra ↦ absurd (ground arith)
      | inl known ↦ elim (Option-cases (true_value "reason" fs)) [
        | inl bare ↦ absurd (ground arith)
        | inr (why, given) ↦ elim (Option-cases (find_section fs e.sections)) [
          | inl gone ↦ absurd (ground arith)
          | inr (s, there) ↦
              let kill : Kill = record {
                section_id = s.section_id;
                title = s.title;
                reason = why;
                by = actor;
              } in
              let made =
                ok-injective
                  (record e { sections = without fs e.sections; kills = e.kills ++ kill ∷ [] }) f
                  (ground arith) in
              rw (sym made) (
                ground (
                  arith,
                  without-standing k fs e.sections s there,
                  count_if-append (λ x. str_eq x.section_id k) e.kills (kill ∷ []),
                ))
        ]
      ]
    ]

module _ (clean : String → String) (str two_digits : ℕ → String) (pursuit_id actor : String) where
  add_section-Conserves :
      (k : String) (fs : Fields) (e f : Edited)
      → add_section clean str two_digits pursuit_id actor fs e ≡ ok f
      → Conserves k e f
  add_section-Conserves k fs e f h = elim (Bool-cases (is_among ("op" ∷ "title" ∷ []) fs)) [
    | inr extra ↦ absurd (ground arith)
    | inl known ↦ elim (Option-cases (as_text (true_value "title" fs))) [
      | inl bare ↦ absurd (ground arith)
      | inr (t, given) ↦
          let made =
            ok-injective (added_to clean str two_digits pursuit_id actor t e) f (ground arith) in
          rw (sym made) (
            ground (
              arith,
              count_if-append (λ s. str_eq s.section_id k) e.sections
                  (new_section clean str two_digits pursuit_id actor t e ∷ []),
              count_if-append (λ l. str_eq l.section_id k) e.gap_lines
                  (new_line clean str two_digits pursuit_id actor t e ∷ []),
            ))
    ]
  ]

  by_op-Conserves :
      (k : String) (path_a : Bool) (op : String) (fs : Fields) (e f : Edited)
      → by_op clean str two_digits pursuit_id actor path_a op fs e ≡ ok f
      → Conserves k e f
  by_op-Conserves k path_a op fs e f h = elim (Bool-cases (str_eq op "edit")) [
    | inl edits ↦ edit_title-Conserves k fs e f (ground arith)
    | inr other ↦ elim (Bool-cases (str_eq op "kill")) [
      | inl kills ↦ elim (Bool-cases path_a) [
        | inl mirrored ↦ absurd (ground arith)
        | inr free ↦ kill_section-Conserves actor k fs e f (ground arith)
      ]
      | inr kept ↦ elim (Bool-cases (str_eq op "add")) [
        | inr unknown ↦ absurd (ground arith)
        | inl adds ↦ elim (Bool-cases path_a) [
          | inl mirrored ↦ absurd (ground arith)
          | inr free ↦ add_section-Conserves k fs e f (ground arith)
        ]
      ]
    ]
  ]

  by_op-Mirrors :
      (path_a : Bool) (op : String) (fs : Fields) (e f : Edited)
      → by_op clean str two_digits pursuit_id actor path_a op fs e ≡ ok f
      → Mirrors path_a e f
  by_op-Mirrors false op fs e f h = inl refl
  by_op-Mirrors true op fs e f h = elim (Bool-cases (str_eq op "edit")) [
    | inl edits ↦ inr (edit_title-Mirrors fs e f (ground arith))
    | inr other ↦
        absurd (ground (arith, Bool-cases (str_eq op "kill"), Bool-cases (str_eq op "add")))
  ]

  edit_one-keeps :
      (k : String) (path_a : Bool) (entry : Json) (e f : Edited)
      → edit_one clean str two_digits pursuit_id actor path_a entry e ≡ ok f
      → Conserves k e f × Mirrors path_a e f
  unfolding edit_one
  edit_one-keeps k path_a (object fs) e f h = elim (Option-cases (as_text (field_of "op" fs))) [
    | inl gone ↦ absurd (ground arith)
    | inr (op, named) ↦
        let done : by_op clean str two_digits pursuit_id actor path_a op fs e ≡ ok f =
          ground arith in
        (by_op-Conserves k path_a op fs e f done, by_op-Mirrors path_a op fs e f done)
  ]
  edit_one-keeps k path_a _ e f h = absurd (ground arith)

  edit_all-keeps :
      (k : String) (path_a : Bool) (entries : List Json) (e f : Edited)
      → edit_all clean str two_digits pursuit_id actor path_a entries e ≡ ok f
      → Conserves k e f × Mirrors path_a e f
  unfolding edit_all
  edit_all-keeps k path_a [] e f h = rw (sym (ok-injective e f h)) (refl, inr (refl, refl))
  edit_all-keeps k path_a (entry ∷ entries) e f h =
      elim (Result-cases (edit_one clean str two_digits pursuit_id actor path_a entry e)) [
        | inl (x, bad) ↦ absurd (ground arith)
        | inr (next, good) ↦
            let first = edit_one-keeps k path_a entry e next good in
            let rest = edit_all-keeps k path_a entries next f (ground arith) in
            (omega (arith, first.0, rest.0), Mirrors-trans path_a e next f first.1 rest.1)
      ]

  -- Section edits that apply lose no section and hide none: for every id, the sections that carry it
  -- afterwards and the kill records that name it are together as many as the sections that carried
  -- it before and the gap lines that name it as added; and on Path A nothing is killed or added.
  pub apply_section_edits_lem :
      (k : String) (path_a : Bool) (entries : List Json) (ss : List Titled) (out : Edited)
      → apply_section_edits clean str two_digits pursuit_id actor path_a entries ss ≡ ok out
      → (standing k out.sections + killed_as k out.kills ≡ standing k ss + added_as k out.gap_lines)
        × ((path_a ≡ false) ⊎ ((out.kills ≡ []) × (out.gap_lines ≡ [])))
  unfolding apply_section_edits
  apply_section_edits_lem k path_a entries ss out h =
      let start : Edited = record {
        sections = ss;
        kills = [];
        gap_lines = [];
        gate_gaps = count_gate_gaps ss;
      } in
      let kept = edit_all-keeps k path_a entries start out h in (omega (arith, kept.0), kept.1)
