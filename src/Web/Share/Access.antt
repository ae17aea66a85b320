-- ===== src/Web/Share/Access.antt =====
-- Which attempts of a guest are granted, and what is logged of each (engine/web/share.py, `resolve`).
use rfp_engine.Prelude.Dict
use mathlib.Core.Path.{subst}
use rfp_engine.Workspace.Pursuit.Types.{Result-cases, ok}
use rfp_engine.Web.Share.Types.{fold_lines, Python, raises, Access, denied, Link, answers, Answer}
use rfp_engine.Contracts.Lane.{Lane}
use rfp_engine.Prelude.{
  ◌∷◌, ◌&&◌, ap, Bool-cases, leb, sym, refl, Option-cases, false, arith, [], ◌<◌, inr, none, true,
  inl, some, if◌then◌else◌, List, ℕ, Bool, ◌≡◌, Option, String,
}
use rfp_engine.Web.Share.Links.{
  parsed, text_of, has_token, logged, expires, verdict, resolve_live, settle, log_access,
  resolve_held, State, resolve, holder,
}
use rfp_engine.Web.Share.Fold.{folded-IsKeyed, holder-get}

abbrev pub value_of : {A : Type 0} → A → Answer A → A
value_of x (answers y) = y
value_of x (denied n) = x
value_of x (raises f) = x

NotDenied : {A : Type 0} → Answer A → Type 0
NotDenied (denied n) = ⊥
NotDenied _ = Unit {0}

module _ (L : Lane Link) (A : Lane Access) (py : Python) where
  -- What a call does to the two journals by its answer.
  abbrev pub Logged : String → String → State L A py → Answer Link × State L A py → Type 0
  Logged at action s (raises f, t) = t ≡ s
  Logged at action s (denied n, t) =
      (i : Option String) × (why : String) × (t
        ≡ log_access L A py (verdict L A py i at action false why) s)
  Logged at action s (answers l, t) =
      t ≡ log_access L A py (verdict L A py (some l.link_id) at action true "") s

  if_Logged :
      (at action : String) (s : State L A py) (b : Bool) (x y : Answer Link × State L A py)
      → Logged at action s x
      → Logged at action s y
      → Logged at action s (if b then x else y)
  if_Logged at action s true x y hx hy = hx
  if_Logged at action s false x y hx hy = hy

  settle-Logged :
      (at action : String) (l : Link) (t : ℕ) (a : Answer ℕ) (s : State L A py)
      → NotDenied a
      → Logged at action s (settle L A py at action l t a s)
  unfolding NotDenied
  settle-Logged at action l t (raises f) s v = refl
  settle-Logged at action l t (denied n) s v = absurd v
  settle-Logged at action l t (answers e) s v =
      if_Logged at action s (leb e t)
        (logged L A py (denied 410) (verdict L A py (some l.link_id) at action false "expired") s)
        (logged L A py (answers l) (verdict L A py (some l.link_id) at action true "") s)
        (_, _, refl) refl

  parsed-NotDenied : (o : Option ℕ) → NotDenied (parsed L A py o)
  unfolding NotDenied
  parsed-NotDenied none = tt
  parsed-NotDenied (some e) = tt

  expires-NotDenied : (o : Option String) → NotDenied (expires L A py o)
  unfolding NotDenied
  expires-NotDenied none = tt
  expires-NotDenied (some x) = parsed-NotDenied (py.parse x)

  live-Logged :
      (at action : String) (l : Link) (o : Option ℕ) (s : State L A py)
      → Logged at action s (resolve_live L A py at action l o s)
  live-Logged at action l none s = refl
  live-Logged at action l (some t) s =
      settle-Logged at action l t (expires L A py l.expires_at) s (expires-NotDenied l.expires_at)

  holder-NotDenied : (token : String) (m : Dict.Dict Link) → NotDenied (holder py token m)
  unfolding holder NotDenied
  holder-NotDenied token [] = tt
  holder-NotDenied token ((k, l) ∷ m) =
      elim (Bool-cases (py.is_ascii (text_of py l.token) && py.is_ascii token)) [
        | inr bad ↦ rw bad tt
        | inl fine ↦ elim (Bool-cases (has_token py token l)) [
          | inl this ↦ rw (fine, this) tt
          | inr next ↦ rw (fine, next) (holder-NotDenied token m)
        ]
      ]

  held-Logged :
      (at action : String) (s : State L A py) (h : Answer (Option Link))
      → NotDenied h
      → Logged at action s (resolve_held L A py at action h s)
  unfolding NotDenied
  held-Logged at action s (raises f) v = refl
  held-Logged at action s (denied n) v = absurd v
  held-Logged at action s (answers none) v = (_, _, refl)
  held-Logged at action s (answers (some l)) v =
      if_Logged at action s l.revoked
        (logged L A py (denied 410) (verdict L A py (some l.link_id) at action false "revoked") s)
        (resolve_live L A py at action l (py.parse at) s) (_, _, refl)
        (live-Logged at action l (py.parse at) s)

  -- Every attempt that is granted or denied adds exactly one line to the access log, with the time
  -- and the action of the attempt and the verdict it got, and the link's public id if it was granted.
  -- An attempt that ends in another exception, as one with a token that is not ASCII does, escapes the
  -- log: it adds no line. Either way the journal of links is left alone.
  pub resolve_logs :
      (token at action : String) (s : State L A py)
      → Logged at action s (resolve L A py token at action s)
  unfolding resolve
  resolve_logs token at action s = elim (Result-cases (L.read s.links)) [
    | inl (e, bad) ↦ rw bad refl
    | inr (lines, good) ↦
        let m = fold_lines lines [] in
        rw good (held-Logged at action s (holder py token m) (holder-NotDenied token m))
  ]

  abbrev pub Unexpired : String → Link → Type 0
  Unexpired at l =
      (t : ℕ) × (e : ℕ) × (x : String) × (py.parse at ≡ some t)
      × (l.expires_at ≡ some x)
      × (py.parse x ≡ some e)
      × (t < e)

  -- When a link is open to a token at a time.
  pub record IsOpen (token at : String) (s : State L A py) (l : Link) : Type 0 where
    pub lines : List Link
    pub reads : L.read s.links ≡ ok lines
    pub known : Dict.get l.link_id (fold_lines lines []) ≡ some l
    pub token_matches : has_token py token l ≡ true
    pub not_revoked : l.revoked ≡ false
    pub unexpired : Unexpired at l

  settle-answers :
      (at action : String) (l l' : Link) (t : ℕ) (o : Option String) (s : State L A py)
      → (settle L A py at action l t (expires L A py o) s).0 ≡ answers l'
      → (l ≡ l') × ((e : ℕ) × (x : String) × (o ≡ some x) × (py.parse x ≡ some e) × (t < e))
  settle-answers at action l l' t none s h = absurd (ground arith)
  settle-answers at action l l' t (some x) s h = elim (Option-cases (py.parse x)) [
    | inl bad ↦ absurd (ground arith)
    | inr (e, good) ↦ elim (Bool-cases (leb e t)) [
      | inl over ↦ absurd (ground arith)
      | inr young ↦
          let hit : answers l ≡ answers l' = ground arith in
          (ap (value_of l) hit, (e, x, refl, good, ground arith))
    ]
  ]

  live_answers :
      (at action : String) (l l' : Link) (o : Option ℕ) (s : State L A py)
      → o ≡ py.parse at
      → (resolve_live L A py at action l o s).0 ≡ answers l'
      → (l ≡ l') × Unexpired at l
  live_answers at action l l' none s now h = absurd (ground arith)
  live_answers at action l l' (some t) s now h =
      let (same, (e, x, has, good, young)) = settle-answers at action l l' t l.expires_at s h in
      (same, (t, e, x, sym now, has, good, young))

  if_answers :
      (s : State L A py) (b : Bool) (x y : Answer Link × State L A py) (l : Link)
      → ((n : ℕ) × (x.0 ≡ denied n))
      → (if b then x else y).0 ≡ answers l
      → (b ≡ false) × (y.0 ≡ answers l)
  if_answers s true x y l (n, refused) h = absurd (ground arith)
  if_answers s false x y l refused h = (refl, h)

  held_answers :
      (at action : String) (h : Answer (Option Link)) (l' : Link) (s : State L A py)
      → (resolve_held L A py at action h s).0 ≡ answers l'
      → (h ≡ answers (some l')) × (l'.revoked ≡ false) × Unexpired at l'
  held_answers at action (raises f) l' s h = absurd (ground arith)
  held_answers at action (denied n) l' s h = absurd (ground arith)
  held_answers at action (answers none) l' s h = absurd (ground arith)
  held_answers at action (answers (some l)) l' s h =
      let (live, granted) =
        if_answers s l.revoked
          (logged L A py (denied 410) (verdict L A py (some l.link_id) at action false "revoked") s)
          (resolve_live L A py at action l (py.parse at) s) l' (_, refl) h in
      let (same, young) = live_answers at action l l' (py.parse at) s refl granted in
      subst (λ x. (answers (some l) ≡ answers (some x)) × (x.revoked ≡ false) × Unexpired at x) same
        (refl, live, young)

  -- What `resolve` grants is what stands at that link's id in the journal: its token is the guest's,
  -- it is not revoked, and it expires after the time of the attempt.
  pub resolve_grants :
      (token at action : String) (s : State L A py) (l : Link)
      → (resolve L A py token at action s).0 ≡ answers l
      → IsOpen token at s l
  unfolding resolve
  resolve_grants token at action s l h = elim (Result-cases (L.read s.links)) [
    | inl (e, bad) ↦ absurd (ground arith)
    | inr (lines, good) ↦
        let m = fold_lines lines [] in
        let (found, live, young) = held_answers at action (holder py token m) l s (ground arith) in
        let (there, has) = holder-get py token m l (folded-IsKeyed lines) found in
        record {
          lines = lines;
          reads = good;
          known = there;
          token_matches = has;
          not_revoked = live;
          unexpired = young;
        }
  ]
