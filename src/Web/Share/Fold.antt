-- ===== src/Web/Share/Fold.antt =====
-- Laws of the fold of links.jsonl (engine/web/share.py, `_folded`).
use rfp_engine.Prelude.Dict
use rfp_engine.Prelude.{
  eq_refl, ◌&&◌, ap, true, none, sym, arith, Option, ◌∙◌, inr, eq_iff, inl, refl, str_eq, [],
  Bool-cases, ◌∷◌, some, ◌++◌, ◌≡◌, List, All, String,
}
use rfp_engine.Web.Share.Types.{
  raises, denied, Answer, answers, Python, merged, merge, fold_line, Link, fold_lines,
}
use rfp_engine.Web.Share.Links.{text_of, has_token, holder}

All-put :
    (P : String × Link → Type 0) (k : String) (l : Link) (m : Dict.Dict Link)
    → All P m
    → ((j : String) → j ≡ k → P (j, l))
    → All P (Dict.put k l m)
unfolding Dict.put
All-put P k l [] h new = (new k refl, tt)
All-put P k l ((j, x) ∷ m) (h, hs) new = elim (Bool-cases (str_eq j k)) [
  | inl here ↦ rw here (new j ((eq_iff j k).0 here), hs)
  | inr elsewhere ↦ rw elsewhere (h, All-put P k l m hs new)
]

-- A property of a link that every later line for it keeps.
pub get-fold_lines :
    (P : Link → Type 0) (lines : List Link) (m : Dict.Dict Link) (k : String) (l : Link)
    → ((old line : Link) → P old → P (merge old line))
    → Dict.get k m ≡ some l
    → P l
    → (l' : Link) × (Dict.get k (fold_lines lines m) ≡ some l') × P l'
unfolding fold_lines fold_line
get-fold_lines P [] m k l keep there h = (l, there, h)
get-fold_lines P (line ∷ lines) m k l keep there h = elim (Bool-cases (str_eq line.link_id k)) [
  | inl same ↦
      let i : line.link_id ≡ k = (eq_iff line.link_id k).0 same in
      get-fold_lines P lines (fold_line line m) k (merge l line) keep
        (unfold fold_line in
          (Dict.get-put line.link_id k (merged (Dict.get line.link_id m) line) m
            ∙ rw (same, i, there) refl))
        (keep l line h)
  | inr other ↦
      get-fold_lines P lines (fold_line line m) k l keep
        (unfold fold_line in
          (Dict.get-put line.link_id k (merged (Dict.get line.link_id m) line) m ∙ rw other there))
        h
]

pub fold_lines-append :
    (xs ys : List Link) (m : Dict.Dict Link)
    → fold_lines (xs ++ ys) m ≡ fold_lines ys (fold_lines xs m)
unfolding fold_lines
fold_lines-append [] ys m = refl
fold_lines-append (x ∷ xs) ys m = fold_lines-append xs ys (fold_line x m)

pub get-fold_lines_here :
    (line : Link) (m : Dict.Dict Link)
    → Dict.get line.link_id (fold_lines (line ∷ []) m)
      ≡ some (merged (Dict.get line.link_id m) line)
unfolding fold_lines fold_line
get-fold_lines_here line m =
    Dict.get-put_here line.link_id (merged (Dict.get line.link_id m) line) m

-- Each link stands at its own id, and at no other.
pub record IsKeyed (m : Dict.Dict Link) : Type 0 where
  pub apart : Dict.NoDup m
  pub at_id : All (λ e. e.1.link_id ≡ e.0) m

fold_lines-IsKeyed :
    (lines : List Link) (m : Dict.Dict Link) → IsKeyed m → IsKeyed (fold_lines lines m)
unfolding fold_lines fold_line
fold_lines-IsKeyed [] m v = v
fold_lines-IsKeyed (line ∷ lines) m v = fold_lines-IsKeyed lines (fold_line line m) (
    unfold fold_line in
    record {
      apart = Dict.put-NoDup line.link_id (merged (Dict.get line.link_id m) line) m v.apart;
      at_id =
          All-put (λ e. e.1.link_id ≡ e.0) line.link_id (merged (Dict.get line.link_id m) line) m
            v.at_id (λ j e. at_line (Dict.get line.link_id m) ∙ sym e);
    })
  where
    at_line : (o : Option Link) → (merged o line).link_id ≡ line.link_id
    at_line none = refl
    at_line (some old) = unfold merge in refl

pub folded-IsKeyed : (lines : List Link) → IsKeyed (fold_lines lines [])
folded-IsKeyed lines = fold_lines-IsKeyed lines [] (record { apart = tt; at_id = tt })

pub get-at_id :
    (k : String) (l : Link) (m : Dict.Dict Link)
    → All (λ e. e.1.link_id ≡ e.0) m
    → Dict.get k m ≡ some l
    → l.link_id ≡ k
unfolding Dict.get
get-at_id k l [] h there = absurd (ground arith)
get-at_id k l ((j, x) ∷ m) (h, hs) there = ground (arith, h, eq_iff j k, get-at_id k l m hs)

abbrev opened : Answer (Option Link) → Option Link
opened (answers o) = o
opened (denied n) = none
opened (raises f) = none

pub some-injective : {A : Type 0} (x y : A) → some x ≡ some y → x ≡ y
some-injective x y h = ap (λ o. elim o [ none ↦ x | some z ↦ z ]) h

module _ (py : Python) (token : String) where
  -- What a token opens is what stands at that link's id, and has that token.
  holder-found :
      (m : Dict.Dict Link) (l : Link)
      → holder py token m ≡ answers (some l)
      → (k : String) × (Dict.NoDup m → Dict.get k m ≡ some l) × (has_token py token l ≡ true)
  unfolding holder Dict.get
  holder-found [] l h = absurd (ground arith)
  holder-found ((k, x) ∷ m) l h =
      elim (Bool-cases (py.is_ascii (text_of py x.token) && py.is_ascii token)) [
        | inr bad ↦ absurd (ground arith)
        | inl fine ↦ elim (Bool-cases (has_token py token x)) [
          | inl this ↦
              let hit : answers (some x) ≡ answers (some l) = ground arith in
              let same : x ≡ l = some-injective x l (ap opened hit) in
              (k, λ d. ground (arith, same, eq_refl k), ground (arith, same))
          | inr next ↦
              let (j, at_j, has) = holder-found m l (ground arith) in
              (j, λ d. ground (arith, d.0, at_j d.1, eq_iff k j), has)
        ]
      ]

  pub holder-get :
      (m : Dict.Dict Link) (l : Link)
      → IsKeyed m
      → holder py token m ≡ answers (some l)
      → (Dict.get l.link_id m ≡ some l) × (has_token py token l ≡ true)
  holder-get m l v h =
      let (k, at_k, has) = holder-found m l h in
      let there : Dict.get k m ≡ some l = at_k v.apart in
      (ap (λ j. Dict.get j m) (get-at_id k l m v.at_id there) ∙ there, has)
