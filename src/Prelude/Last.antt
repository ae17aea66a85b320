-- ===== src/Prelude/Last.antt =====
-- The last element that passes a test, and a change of it in place.
use Prim.Native.Nat.{◌+◌}
use mathlib.Core.Path.{◌≡◌, refl}
use mathlib.Core.Bool.{Bool, true, false}
use mathlib.Core.List.{List, [], ◌∷◌}
use mathlib.Core.Option.{Option, none, some}
use native.Mathlib.Omega.{arith}
use rfp_engine.Prelude.Tests.{if◌then◌else◌, bit}
use rfp_engine.Prelude.Lists.{any, count_if}

module _ {ℓ} {A : Type ℓ} where
  abbrev pub later : Option A → Option A → Option A
  later (some x) _ = some x
  later none y = y

  abbrev pub is_found : Option A → Bool
  is_found none = false
  is_found (some _) = true

  -- A loop with no `break` that keeps what it met last.
  unfoldable pub find_last : (A → Bool) → List A → Option A
  find_last p [] = none
  find_last p (x ∷ xs) = later (find_last p xs) (if p x then some x else none)

  unfoldable pub change_last : (A → Bool) → (A → A) → List A → List A
  change_last p f [] = []
  change_last p f (x ∷ xs) =
      let rest = change_last p f xs in
      if is_found (find_last p xs) then x ∷ rest else if p x then f x ∷ xs else x ∷ xs

module _ {ℓ} {A : Type ℓ} (p : A → Bool) where
  pub find_last-passes : (xs : List A) (x : A) → find_last p xs ≡ some x → p x ≡ true
  unfolding find_last
  find_last-passes [] y h = ground arith
  find_last-passes (x ∷ xs) y h = ground (arith, find_last-passes xs y)

  pub count_if-change_last :
      (q : A → Bool) (f : A → A) (xs : List A) (x : A)
      → find_last p xs ≡ some x
      → count_if q (change_last p f xs) + bit (q x) ≡ count_if q xs + bit (q (f x))
  unfolding find_last change_last
  count_if-change_last q f [] y h = ground arith
  count_if-change_last q f (x ∷ xs) y h = ground (arith, count_if-change_last q f xs y)

  pub find_last-change_last :
      (f : A → A) (xs : List A) (x : A)
      → ((y : A) → p (f y) ≡ p y)
      → find_last p xs ≡ some x
      → find_last p (change_last p f xs) ≡ some (f x)
  unfolding find_last change_last
  find_last-change_last f [] y keep h = ground arith
  find_last-change_last f (x ∷ xs) y keep h =
      ground (arith, keep x, find_last-change_last f xs y keep)

  pub any-change_last :
      (f : A → A) (xs : List A) → ((y : A) → p (f y) ≡ p y) → any p (change_last p f xs) ≡ any p xs
  unfolding change_last
  any-change_last f [] keep = refl
  any-change_last f (x ∷ xs) keep = ground (arith, keep x, any-change_last f xs keep)
