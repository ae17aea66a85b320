-- ===== src/Prelude/Texts.antt =====
-- Texts by their characters: the slice `s[n:]`, and ids with a prefix and a number.
use Prim.Native.Nat.{ℕ, zero, suc}
use Prim.Native.String.append
use Prim.Native.String.{◌++◌ as text_append, String}
use mathlib.Core.Path.{◌≡◌, ap, ◌∙◌}

-- s[n:]
unfoldable pub drop_text : ℕ → String → String
drop_text zero s = s
drop_text (suc n) String.[] = ""
drop_text (suc n) (String.◌∷◌ c s) = drop_text n s

unfoldable pub text_length : String → ℕ
text_length String.[] = 0
text_length (String.◌∷◌ c s) = suc (text_length s)

pub drop_text-append : (p s : String) → drop_text (text_length p) (text_append p s) ≡ s
unfolding drop_text text_length
drop_text-append String.[] s = append.nil s
drop_text-append (String.◌∷◌ c p) s =
    ap (drop_text (suc (text_length p))) (append.cons c p s) ∙ drop_text-append p s
