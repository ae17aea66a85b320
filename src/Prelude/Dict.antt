-- ===== src/Prelude/Dict.antt =====
-- Python's `dict` with text keys, as an association list in insertion order: an assignment to a
-- key that is there keeps its place.
use Prim.Native.String.{String}
use mathlib.Core.Path.{◌≡◌, refl}
use mathlib.Core.Logic.{◌≢◌}
use mathlib.Core.Option.{Option, none, some}
use mathlib.Core.List.{List, [], ◌∷◌}
use native.Mathlib.Omega.{arith}
use text.Mathlib.Text.{◌==◌ as str_eq}
use text.Mathlib.TextEquality.{eq_iff}
use rfp_engine.Prelude.Tests.{if◌then◌else◌}

abbrev pub Dict {ℓ} : Type ℓ → Type ℓ
Dict V = List (String × V)

module _ {ℓ} {V : Type ℓ} where
  unfoldable pub get : String → Dict V → Option V
  get k [] = none
  get k ((j, v) ∷ m) = if str_eq j k then some v else get k m

  unfoldable pub put : String → V → Dict V → Dict V
  put k v [] = (k, v) ∷ []
  put k v ((j, w) ∷ m) = if str_eq j k then (j, v) ∷ m else (j, w) ∷ put k v m

  -- Reading after an assignment.
  pub get-put :
      (k j : String) (v : V) (m : Dict V)
      → get j (put k v m) ≡ (if str_eq k j then some v else get j m)
  unfolding get put
  get-put k j v [] = refl
  get-put k j v ((i, w) ∷ m) = ground (arith, eq_iff k j, eq_iff i k, eq_iff i j, get-put k j v m)

  -- `del m[k]`, where there is one.
  unfoldable pub remove : String → Dict V → Dict V
  remove k [] = []
  remove k ((j, v) ∷ m) = let rest = remove k m in if str_eq j k then rest else (j, v) ∷ rest

  pub get-remove :
      (k j : String) (m : Dict V) → get j (remove k m) ≡ (if str_eq k j then none else get j m)
  unfolding get remove
  get-remove k j [] = ground arith
  get-remove k j ((i, w) ∷ m) = ground (arith, eq_iff k j, eq_iff i k, eq_iff i j, get-remove k j m)

  -- An assignment of the value that is there changes nothing.
  pub put-same : (k : String) (v : V) (m : Dict V) → get k m ≡ some v → put k v m ≡ m
  unfolding get put
  put-same k v [] h = absurd (ground arith)
  put-same k v ((j, w) ∷ m) h = ground (arith, put-same k v m)

  pub get-put_here : (k : String) (v : V) (m : Dict V) → get k (put k v m) ≡ some v
  get-put_here k v m = ground (arith, get-put k k v m, eq_iff k k)

  -- No key stands twice.
  abbrev pub NoDup : Dict V → Type ℓ
  NoDup [] = Unit {ℓ}
  NoDup ((k, v) ∷ m) = (get k m ≡ none) × NoDup m

  pub put-NoDup : (k : String) (v : V) (m : Dict V) → NoDup m → NoDup (put k v m)
  unfolding get put
  put-NoDup k v [] h = (refl, tt)
  put-NoDup k v ((j, w) ∷ m) (new, h) =
      ground (arith, new, put-NoDup k v m h, get-put k j v m, eq_iff j k, eq_iff k j)

  -- A key that was there stays.
  pub put-keeps : (k j : String) (v : V) (m : Dict V) → get j m ≢ none → get j (put k v m) ≢ none
  put-keeps k j v m h = ground (arith, h, get-put k j v m)
