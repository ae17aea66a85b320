-- ===== src/Web/Share/Mint.antt =====
-- The ids and the revocations of the links over all later calls (engine/web/share.py).
use rfp_engine.Prelude.Dict
use rfp_engine.Workspace.Pursuit.Types.{ok-injective, Result-cases, ok}
use rfp_engine.Contracts.Lane.{Lane}
use rfp_engine.Web.Share.Types.{merge, fold_lines, answers, Python, Access, Link}
use rfp_engine.Web.Share.Links.{
  new_link, expiry_refused, create, next_id, number_of, highest, revocation, run, resolve, State,
  Op, revoke,
}
use rfp_engine.Prelude.{
  eq_iff, str_eq, ◌+◌, Bool-cases, none, ◌<◌, ℕ, refl, ap, ◌++◌, Option-cases, ◌∙◌, inr, sym, inl,
  [], arith, ◌∷◌, ◌≢◌, some, true, ◌≡◌, String, List,
}
use rfp_engine.Web.Share.Switch.{run-Stands, Stands}
use rfp_engine.Web.Share.Access.{value_of, resolve_grants}
use rfp_engine.Web.Share.Fold.{get-fold_lines_here, fold_lines-append, some-injective}
use rfp_engine.Prelude.Texts.{text_length, drop_text-append}

module _ (L : Lane Link) (A : Lane Access) (py : Python) where
  revoke-Stands :
      (i by at : String) (s : State L A py) (l : Link)
      → (revoke L A py i by at s).0 ≡ answers l
      → Stands L A py (λ x. x.revoked ≡ true) i (revoke L A py i by at s).1
  unfolding revoke
  revoke-Stands i by at s l h = elim (Result-cases (L.read s.links)) [
    | inl (e, bad) ↦ absurd (ground arith)
    | inr (lines, good) ↦ elim (Option-cases (Dict.get i (fold_lines lines []))) [
      | inl unknown ↦ absurd (ground arith)
      | inr (x, known) ↦
          let line = revocation L A py i by at in
          rw (good, known)
            (
              lines ++ line ∷ [],
              L.read-append line s.links lines good,
              rw (fold_lines-append lines (line ∷ []) [])
                  (merge x line, dead (fold_lines lines []) x known, unfold merge in ground arith),
            )
    ]
  ]
    where
      dead :
          (m : Dict.Dict Link) (x : Link)
          → Dict.get i m ≡ some x
          → Dict.get i (fold_lines (revocation L A py i by at ∷ []) m)
            ≡ some (merge x (revocation L A py i by at))
      dead m x known = get-fold_lines_here (revocation L A py i by at) m ∙ rw known refl

  -- The kill switch: once a link is revoked, no later attempt is granted it, whatever calls of the
  -- lane come between and whichever token is tried.
  pub revoked_never_opens :
      (os : List (Op L A py)) (i by at : String) (s : State L A py) (l : Link)
      (token when action : String) (l' : Link)
      → (revoke L A py i by at s).0 ≡ answers l
      → (resolve L A py token when action (run L A py os (revoke L A py i by at s).1)).0
        ≡ answers l'
      → l'.link_id ≢ i
  revoked_never_opens os i by at s l token when action l' h granted same =
      let t = run L A py os (revoke L A py i by at s).1 in
      let (lines, reads, (x, there, dead)) =
        run-Stands L A py (λ x. x.revoked ≡ true) (λ old line d. unfold merge in ground arith) i os
          (revoke L A py i by at s).1 (revoke-Stands i by at s l h) in
      let v = resolve_grants L A py token when action t l' granted in
      let lines_same : lines ≡ v.lines = ok-injective lines v.lines (sym reads ∙ v.reads) in
      let x_same : x ≡ l' = some-injective x l' (
        sym there
        ∙ ap (λ j. Dict.get j (fold_lines lines [])) (sym same)
        ∙ ap (λ ls. Dict.get l'.link_id (fold_lines ls [])) lines_same
        ∙ v.known) in
      ground (arith, v.not_revoked, dead, ap (λ y. y.revoked) x_same)

  above-new :
      (m : Dict.Dict Link) (k : String) (n : ℕ)
      → highest py m < n
      → number_of py k ≡ n
      → Dict.get k m ≡ none
  unfolding highest Dict.get
  above-new [] k n h num = refl
  above-new ((j, l) ∷ m) k n h num = elim (Bool-cases (str_eq j k)) [
    | inl same ↦ absurd (omega (arith, ap (number_of py) ((eq_iff j k).0 same)))
    | inr other ↦ rw other (above-new m k n (omega arith) num)
  ]

  module _ (digits-two_digits : (n : ℕ) → py.digits (py.two_digits n) ≡ some n) where
    -- A new link's id is no link's.
    next_id-new : (m : Dict.Dict Link) → Dict.get (next_id py m) m ≡ none
    unfolding number_of text_length
    next_id-new m = above-new m (next_id py m) (highest py m + 1) (omega arith) (
        ap (λ s. elim (py.digits s) [ none ↦ 0 | some n ↦ n ])
          (drop_text-append "sl_" (py.two_digits (highest py m + 1)))
        ∙ ap (λ o. elim o [ none ↦ 0 | some n ↦ n ]) (digits-two_digits (highest py m + 1)))

    create-answers :
        (token pursuit by label expires_at at : String) (s : State L A py) (l : Link)
        → (create L A py token pursuit by label expires_at at s).0 ≡ answers l
        → (lines : List Link) × (L.read s.links ≡ ok lines)
          × (l.link_id ≡ next_id py (fold_lines lines []))
          × ((create L A py token pursuit by label expires_at at s).1.links ≡ L.append l s.links)
    unfolding create
    create-answers token pursuit by label expires_at at s l h =
        elim (Bool-cases (str_eq (py.strip label) "")) [
          | inl blank ↦ absurd (ground arith)
          | inr named ↦ elim (Bool-cases (expiry_refused py expires_at at)) [
            | inl refusal ↦ absurd (ground arith)
            | inr fine ↦ elim (Result-cases (L.read s.links)) [
              | inl (e, bad) ↦ absurd (ground arith)
              | inr (lines, good) ↦
                  let made =
                    new_link L A py (next_id py (fold_lines lines [])) token pursuit by label
                      expires_at at in
                  let hit : answers made ≡ answers l = ground arith in
                  let same : made ≡ l = ap (value_of l) hit in
                  rw (named, fine, good)
                    (lines, refl, sym (ap (λ x. x.link_id) same), ap (λ x. L.append x s.links) same)
            ]
          ]
        ]

    -- No two links of a pursuit get one id, whatever calls come between.
    pub link_ids_distinct :
        (os : List (Op L A py)) (token pursuit by label expires_at at : String)
        (token' pursuit' by' label' expires_at' at' : String) (s : State L A py) (l l' : Link)
        → (create L A py token pursuit by label expires_at at s).0 ≡ answers l
        → (create L A py token' pursuit' by' label' expires_at' at'
            (run L A py os (create L A py token pursuit by label expires_at at s).1)).0
          ≡ answers l'
        → l'.link_id ≢ l.link_id
    link_ids_distinct os token pursuit by label expires_at at token' pursuit' by' label' expires_at'
          at' s l l' h h' same =
        let t = (create L A py token pursuit by label expires_at at s).1 in
        let (lines, reads, named, put) =
          create-answers token pursuit by label expires_at at s l h in
        let stands : Stands L A py (λ x. Unit {0}) l.link_id t = (
          lines ++ l ∷ [],
          ap L.read put ∙ L.read-append l s.links lines reads,
          (
            _,
            ap (Dict.get l.link_id) (fold_lines-append lines (l ∷ []) [])
                ∙ get-fold_lines_here l (fold_lines lines []),
            tt,
          ),
        ) in
        let (lines', reads', (x, there, _)) =
          run-Stands L A py (λ x. Unit {0}) (λ old line d. tt) l.link_id os t stands in
        let (lines'', reads'', named', put') =
          create-answers token' pursuit' by' label' expires_at' at' (run L A py os t) l' h' in
        let lines_same : lines' ≡ lines'' = ok-injective lines' lines'' (sym reads' ∙ reads'') in
        let free : Dict.get l.link_id (fold_lines lines' []) ≡ none =
          ap (λ ls. Dict.get l.link_id (fold_lines ls [])) lines_same
          ∙ ap (λ k. Dict.get k (fold_lines lines'' [])) (sym same ∙ named')
          ∙ next_id-new (fold_lines lines'' []) in
        absurd (ground (arith, there, free))
