-- ===== src/Web/Share/Switch.antt =====
-- A revoked link stays revoked (engine/web/share.py).
use rfp_engine.Prelude.Dict
use rfp_engine.Workspace.Pursuit.Types.{Result-cases, ok}
use rfp_engine.Contracts.Lane.{Lane}
use rfp_engine.Web.Share.Types.{
  answers, denied, raises, fold_lines, Answer, merge, Python, Access, Link,
}
use rfp_engine.Prelude.{
  false, true, if◌then◌else◌, leb, Bool, none, ℕ, refl, some, Option, Option-cases, str_eq, inr,
  Bool-cases, inl, String, ◌⊎◌, [], ◌∷◌, ◌++◌, ◌≡◌, List,
}
use rfp_engine.Web.Share.Links.{
  resolve_live, expires, settle, resolve_held, expiry_refused, holder, run, resolves, revokes,
  creates, Op, resolve, revoke, create, State, after,
}
use rfp_engine.Web.Share.Fold.{get-fold_lines, fold_lines-append}

module _ (L : Lane Link) (A : Lane Access) (py : Python) where
  -- A call leaves the journal of links, or appends one line to it.
  Moves : State L A py → State L A py → Type 0
  Moves s t = (t.links ≡ s.links) ⊎ ((l : Link) × (t.links ≡ L.append l s.links))

  create-Moves :
      (token pursuit by label expires_at at : String) (s : State L A py)
      → Moves s (create L A py token pursuit by label expires_at at s).1
  unfolding create Moves
  create-Moves token pursuit by label expires_at at s =
      elim (Bool-cases (str_eq (py.strip label) "")) [
        | inl blank ↦ rw blank (inl refl)
        | inr named ↦ elim (Bool-cases (expiry_refused py expires_at at)) [
          | inl refusal ↦ rw (named, refusal) (inl refl)
          | inr fine ↦ elim (Result-cases (L.read s.links)) [
            | inl (e, bad) ↦ rw (named, fine, bad) (inl refl)
            | inr (lines, good) ↦ rw (named, fine, good) (inr (_, refl))
          ]
        ]
      ]

  revoke-Moves : (i by at : String) (s : State L A py) → Moves s (revoke L A py i by at s).1
  unfolding revoke Moves
  revoke-Moves i by at s = elim (Result-cases (L.read s.links)) [
    | inl (e, bad) ↦ rw bad (inl refl)
    | inr (lines, good) ↦ elim (Option-cases (Dict.get i (fold_lines lines []))) [
      | inl unknown ↦ rw (good, unknown) (inl refl)
      | inr (l, known) ↦ rw (good, known) (inr (_, refl))
    ]
  ]

  if_links :
      (s : State L A py) (b : Bool) (x y : Answer Link × State L A py)
      → x.1.links ≡ s.links
      → y.1.links ≡ s.links
      → (if b then x else y).1.links ≡ s.links
  if_links s true x y hx hy = hx
  if_links s false x y hx hy = hy

  settle_links :
      (at action : String) (l : Link) (t : ℕ) (a : Answer ℕ) (s : State L A py)
      → (settle L A py at action l t a s).1.links ≡ s.links
  settle_links at action l t (raises f) s = refl
  settle_links at action l t (denied n) s = refl
  settle_links at action l t (answers e) s = if_links s (leb e t) _ _ refl refl

  live_links :
      (at action : String) (l : Link) (o : Option ℕ) (s : State L A py)
      → (resolve_live L A py at action l o s).1.links ≡ s.links
  live_links at action l none s = refl
  live_links at action l (some t) s = settle_links at action l t (expires L A py l.expires_at) s

  held_links :
      (at action : String) (h : Answer (Option Link)) (s : State L A py)
      → (resolve_held L A py at action h s).1.links ≡ s.links
  held_links at action (raises f) s = refl
  held_links at action (denied n) s = refl
  held_links at action (answers none) s = refl
  held_links at action (answers (some l)) s =
      if_links s l.revoked _ _ refl (live_links at action l (py.parse at) s)

  resolve_links :
      (token at action : String) (s : State L A py)
      → (resolve L A py token at action s).1.links ≡ s.links
  unfolding resolve
  resolve_links token at action s = elim (Result-cases (L.read s.links)) [
    | inl (e, bad) ↦ rw bad refl
    | inr (lines, good) ↦ rw good (held_links at action (holder py token (fold_lines lines [])) s)
  ]

  after-Moves : (o : Op L A py) (s : State L A py) → Moves s (after L A py o s)
  unfolding after Moves
  after-Moves (creates token pursuit by label expires_at at) s =
      create-Moves token pursuit by label expires_at at s
  after-Moves (revokes i by at) s = revoke-Moves i by at s
  after-Moves (resolves token at action) s = inl (resolve_links token at action s)

  -- What every further line keeps of the link that stands at an id.
  abbrev pub Stands : (Link → Type 0) → String → State L A py → Type 0
  Stands P i s =
      (lines : List Link) × (L.read s.links ≡ ok lines)
      × ((l : Link) × (Dict.get i (fold_lines lines []) ≡ some l) × P l)

  module _ (P : Link → Type 0) (keep : (old line : Link) → P old → P (merge old line))
      (i : String) where
    Moves-Stands : (s t : State L A py) → Moves s t → Stands P i s → Stands P i t
    unfolding Moves
    Moves-Stands s t (inl same) (lines, reads, found) = (lines, rw same reads, found)
    Moves-Stands s t (inr (line, same)) (lines, reads, (l, there, p)) = (
      lines ++ line ∷ [],
      rw same (L.read-append line s.links lines reads),
      rw (fold_lines-append lines (line ∷ []) [])
          (get-fold_lines P (line ∷ []) (fold_lines lines []) i l keep there p),
    )

    -- It stands after any calls.
    pub run-Stands :
        (os : List (Op L A py)) (s : State L A py) → Stands P i s → Stands P i (run L A py os s)
    unfolding run
    run-Stands [] s h = h
    run-Stands (o ∷ os) s h =
        run-Stands os (after L A py o s) (Moves-Stands s (after L A py o s) (after-Moves o s) h)
