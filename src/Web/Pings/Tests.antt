-- ===== src/Web/Pings/Tests.antt =====
-- A gap that is pinged, answered and answered again.
use rfp_engine.Prelude.Dict
use rfp_engine.Workspace.Pursuit.Types.{ok-injective, ok}
use rfp_engine.Contracts.Lane.{Lane}
use rfp_engine.Prelude.{ap, ◌∷◌, [], ◌++◌, ◌≡◌, List, ℕ, String, none, some, false, refl}
use rfp_engine.Web.Pings.Types.{
  Line, Gap, Section, plan, ping_error, fold_lines, fold_line, find_gap, live_gap, change_doc,
  change_sections, change_gap, merge,
}
use rfp_engine.Web.Pings.Lane.{State, Op, edits, replies, ping, answer, run}
use rfp_engine.Web.Pings.Once.{answered_once}

abbrev memory : Lane Line
memory = record {
  File = List Line;
  read = λ rs. ok rs;
  append = λ r rs. rs ++ r ∷ [];
  read-append = λ r f rs h. ap (λ x. ok (x ++ r ∷ [])) (ok-injective f rs h);
}

abbrev four_digits : ℕ → String
four_digits n = "0001"

abbrev same_text : String → String
same_text s = s

abbrev gap : String → Gap
gap i = record {
  gap_id = some i;
  status = some "open";
  question_to_human = some "How many sites?";
  reason = none;
  answer = none;
  answered_by = none;
  answered_at = none;
}

abbrev sections : List Section
sections = record { section_id = "s1"; gaps = gap "g1" ∷ [] } ∷ []

abbrev start : State memory four_digits same_text
start = record { pings = []; doc = plan sections; brief_is_frozen = false; log = [] }

abbrev pinged_once : State memory four_digits same_text
pinged_once = (ping memory four_digits same_text "g1" "sme" "t1" "lead" start).1

abbrev between : List (Op memory four_digits same_text)
between = edits (plan sections) false ∷ replies "png_0001" "Five" "t3" "lead" false ∷ []

answered_once_example :
    answer memory four_digits same_text "png_0001" "Six" "t4" "sme" false (
      run memory four_digits same_text between
        (answer memory four_digits same_text "png_0001" "Four" "t2" "sme" false pinged_once).1)
    ≡ (
      ping_error,
      run memory four_digits same_text between
          (answer memory four_digits same_text "png_0001" "Four" "t2" "sme" false pinged_once).1,
    )
unfolding ping answer fold_lines fold_line Dict.get Dict.put find_gap live_gap change_doc
    change_sections change_gap merge
answered_once_example =
    answered_once memory four_digits same_text between "png_0001" "Four" "t2" "sme" false
      pinged_once _ "Six" "t4" "sme" false refl refl
