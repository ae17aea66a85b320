-- ===== src/Validation/Waiver/Text.antt =====
-- The smell test of a waiver's reason (engine/validation/waiver.py).
use Prim.Native.Char.{code}
use rfp_engine.Prelude.{
  reverse, length, ltb, false, ◌+◌, ◌||◌, map, ◌==◌, ◌&&◌, any, true, leb, if◌then◌else◌, ◌∷◌, Bool,
  [], List, ℕ, String,
}

abbrev pub codes : String → List ℕ
codes String.[] = []
codes (String.◌∷◌ c s) = code c ∷ codes s

unfoldable pub is_space : ℕ → Bool
is_space c =
    (leb 9 c && leb c 13)
    || ((leb 28 c && leb c 32)
        || (c == 0x85
            || (c == 0xa0
                || (c == 0x1680
                    || ((leb 0x2000 c && leb c 0x200a)
                        || (c == 0x2028
                            || (c == 0x2029 || (c == 0x202f || (c == 0x205f || c == 0x3000)))))))))

unfoldable pub lstrip : List ℕ → List ℕ
unfolding is_space
lstrip [] = []
lstrip (c ∷ cs) = let rest = lstrip cs in if is_space c then rest else c ∷ cs

unfoldable pub strip : List ℕ → List ℕ
unfolding lstrip
strip cs = reverse (lstrip (reverse (lstrip cs)))

unfoldable pub lower_code : ℕ → ℕ
lower_code c = if leb 65 c && leb c 90 then c + 32 else if c == 0x212a then 107 else c

abbrev pub eq_codes : List ℕ → List ℕ → Bool
eq_codes [] [] = true
eq_codes (x ∷ xs) (y ∷ ys) = let rest = eq_codes xs ys in if x == y then rest else false
eq_codes _ _ = false

abbrev boilerplate : List String
boilerplate = "ok" ∷ "okay" ∷ "approved" ∷ "fine" ∷ "yes" ∷ "waived" ∷ "done" ∷ []

unfoldable pub is_smelly : String → Bool
unfolding strip lower_code
is_smelly reason =
    let s = strip (codes reason) in
    any (λ w. eq_codes (map lower_code s) (codes w)) boilerplate || ltb (length s) 10
