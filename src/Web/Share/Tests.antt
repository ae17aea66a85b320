-- ===== src/Web/Share/Tests.antt =====
-- A link that is shared, tried, revoked and tried again.
use rfp_engine.Prelude.Dict
use rfp_engine.Prelude.Texts.{drop_text}
use rfp_engine.Workspace.Pursuit.Types.{ok-injective, ok}
use rfp_engine.Contracts.Lane.{Lane}
use rfp_engine.Prelude.{
  ◌≢◌, refl, none, ap, zero, some, ◌∷◌, [], true, ◌≡◌, suc, Option, ◌++◌, List, ℕ, String,
}
use rfp_engine.Web.Share.Types.{merge, fold_line, fold_lines, Python}
use rfp_engine.Web.Share.Links.{
  verdict, new_link, revokes, log_access, expiry_refused, number_of, highest, holder, after, run,
  creates, resolve, resolves, revoke, Op, create, State,
}
use rfp_engine.Web.Share.Mint.{link_ids_distinct, revoked_never_opens}
use rfp_engine.Web.Share.Access.{resolve_logs, resolve_grants, IsOpen}

abbrev memory : {Rec : Type 0} → Lane Rec
memory {Rec} = record {
  File = List Rec;
  read = λ rs. ok rs;
  append = λ r rs. rs ++ r ∷ [];
  read-append = λ r f rs h. ap (λ x. ok (x ++ r ∷ [])) (ok-injective f rs h);
}

-- Texts are numbers in unary, and times the same.
unfoldable unary : String → Option ℕ
unary String.[] = some 0
unary (String.◌∷◌ c s) = elim (unary s) [ none ↦ none | some n ↦ some (suc n) ]

unfoldable strokes : ℕ → String
strokes zero = ""
strokes (suc n) = String.◌∷◌ "|" (strokes n)

unary-strokes : (n : ℕ) → unary (strokes n) ≡ some n
unfolding unary strokes
unary-strokes zero = refl
unary-strokes (suc n) = rw (unary-strokes n) refl

abbrev py : Python
py = record {
  digits = unary;
  strip = λ s. s;
  two_digits = strokes;
  parse = unary;
  is_ascii = λ s. true;
}

abbrev start : State memory memory py
start = record { links = []; access = [] }

abbrev shared : State memory memory py
shared = (create memory memory py "key" "p1" "lead" "buyer" "|||" "|" start).1

abbrev retried : List (Op memory memory py)
retried = resolves "key" "||" "view" ∷ creates "new" "p1" "lead" "other" "|||" "|" ∷ []

revoked_never_opens_example : ◌≢◌ {A = String} "sl_||" "sl_|"
unfolding create revoke resolve run after unary strokes fold_lines fold_line Dict.get Dict.put
    holder merge highest number_of drop_text expiry_refused
revoked_never_opens_example =
    revoked_never_opens memory memory py retried "sl_|" "lead" "||" shared _ "new" "||" "view" _
      refl refl

link_ids_distinct_example : ◌≢◌ {A = String} "sl_||" "sl_|"
unfolding create revoke resolve run after unary strokes fold_lines fold_line Dict.get Dict.put
    holder merge highest number_of drop_text expiry_refused
link_ids_distinct_example =
    link_ids_distinct memory memory py unary-strokes (revokes "sl_|" "lead" "||" ∷ []) "key" "p1"
      "lead" "buyer" "|||" "|" "new" "p1" "lead" "other" "|||" "|" start _ _ refl refl

resolve_grants_example :
    IsOpen memory memory py "key" "||" shared
      (new_link memory memory py "sl_|" "key" "p1" "lead" "buyer" "|||" "|")
unfolding create resolve unary strokes fold_lines fold_line Dict.get Dict.put holder merge highest
    number_of drop_text expiry_refused
resolve_grants_example = resolve_grants memory memory py "key" "||" "view" shared _ refl

resolve_logs_example :
    (resolve memory memory py "key" "||" "view" shared).1
    ≡ log_access memory memory py
        (verdict memory memory py (some "sl_|") "||" "view" true "")
        shared
unfolding create resolve unary strokes fold_lines fold_line Dict.get Dict.put holder merge highest
    number_of drop_text expiry_refused
resolve_logs_example = resolve_logs memory memory py "key" "||" "view" shared
