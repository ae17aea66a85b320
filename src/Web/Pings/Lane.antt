-- ===== src/Web/Pings/Lane.antt =====
-- `ping` and `answer` of engine/web/pings.py over the journal of pings, the live document and the run
-- log. The proposal of a card that may follow an answer is not modelled; a ping has its gap's id.
use Prim.Native.String.{◌++◌ as text_append}
use rfp_engine.Prelude.Dict
use rfp_engine.Workspace.Pursuit.Types.{Result, ok, raise}
use rfp_engine.Web.Pings.Types.{
  Line, Gap, Doc, Found, GapLine, Answer, answers, ping_error, contract_error, fold_lines, find_gap,
  change_doc, is, is_set, merge,
}
use rfp_engine.Prelude.{
  str_eq, [], ◌∷◌, ◌+◌, ◌&&◌, not, List, ◌++◌, length, Bool, none, ℕ, if◌then◌else◌, some, String,
  Option,
}
use rfp_engine.Contracts.Lane.{Lane}

abbrev text_or : Option String → String → String
text_or none t = t
text_or (some s) t = s

abbrev reason_of : Found → String
reason_of x = if x.on_plan then "kb_empty" else text_or x.gap.reason "kb_empty"

abbrev target_of : Found → Option String
target_of x = if x.on_plan then some x.section_id else none

module _ (L : Lane Line) (four_digits : ℕ → String) (strip : String → String) where
  pub record State : Type 0 where
    pub pings : L.File
    pub doc : Doc
    pub brief_is_frozen : Bool
    pub log : List GapLine

  -- `_refuse_if_frozen`
  abbrev pub is_settled : Found → State → Bool
  is_settled x s = not x.on_plan && s.brief_is_frozen

  abbrev pub ping_id : ℕ → String
  ping_id n = text_append "png_" (four_digits n)

  abbrev pub new_line : Dict.Dict Line → String → String → String → String → Found → Line
  new_line m gap_id route_to at actor x = record {
    ping_id = ping_id (length m + 1);
    gap_id = some gap_id;
    section_id = some x.section_id;
    question = some (text_or x.gap.question_to_human "");
    route_to = some route_to;
    pinged_at = some at;
    by = some actor;
    answered_at = none;
    resolution = none;
    answered_by = none;
    answer = none;
  }

  -- Only the gap of a plan is marked.
  abbrev pub mark_pinged : Bool → String → Doc → Doc
  mark_pinged on_plan gap_id d =
      if on_plan then change_doc gap_id (λ g. record g { status = some "pinged" }) d else d

  abbrev ping_line : Line → Found → GapLine
  ping_line l x = record {
    gap_id = l.gap_id;
    reason = reason_of x;
    question = l.question;
    pinged_at = l.pinged_at;
    answered_at = none;
    resolution = "unresolved";
    target = target_of x;
  }

  abbrev pub pinged : Line → String → Found → State → Answer Line × State
  pinged l gap_id x s = (
    answers l,
    record s {
      pings = L.append l s.pings;
      doc = mark_pinged x.on_plan gap_id s.doc;
      log = s.log ++ ping_line l x ∷ [];
    },
  )

  abbrev pub ping_read :
      String → String → String → String → Found → Result (List Line) → State → Answer Line × State
  ping_read gap_id route_to at actor x (raise e) s = (contract_error, s)
  ping_read gap_id route_to at actor x (ok lines) s =
      pinged (new_line (fold_lines lines []) gap_id route_to at actor x) gap_id x s

  abbrev pub ping_found :
      String → String → String → String → Option Found → State → Answer Line × State
  ping_found gap_id route_to at actor none s = (ping_error, s)
  ping_found gap_id route_to at actor (some x) s =
      if is_settled x s
      then (ping_error, s)
      else if not (is "open" x.gap.status)
      then (ping_error, s)
      else ping_read gap_id route_to at actor x (L.read s.pings) s

  unfoldable pub ping : String → String → String → String → State → Answer Line × State
  ping gap_id route_to at actor s = ping_found gap_id route_to at actor (find_gap gap_id s.doc) s

  abbrev pub update : String → String → String → String → Line
  update id text at actor = record {
    ping_id = id;
    gap_id = none;
    section_id = none;
    question = none;
    route_to = none;
    pinged_at = none;
    by = none;
    answered_at = some at;
    resolution = some "answered";
    answered_by = some actor;
    answer = some text;
  }

  -- What an answer writes to its gap: on a brief also who answered and when.
  abbrev answered_gap : Bool → String → String → String → Gap → Gap
  answered_gap on_plan text at actor g =
      if on_plan then record g { status = some "answered"; answer = some text } else record g {
        status = some "answered";
        answer = some text;
        answered_by = some actor;
        answered_at = some at;
      }

  abbrev answer_line : Line → String → Found → GapLine
  answer_line l at x = record {
    gap_id = l.gap_id;
    reason = reason_of x;
    question = l.question;
    pinged_at = l.pinged_at;
    answered_at = some at;
    resolution = "answered";
    target = target_of x;
  }

  abbrev pub answered : Line → Line → String → String → String → Found → State → Answer Line × State
  answered l u text at actor x s = (
    answers (merge l u),
    record s {
      pings = L.append u s.pings;
      doc = change_doc (text_or l.gap_id "") (answered_gap x.on_plan text at actor) s.doc;
      log = s.log ++ answer_line l at x ∷ [];
    },
  )

  abbrev pub answer_found :
      String → Line → String → String → String → Option Found → State → Answer Line × State
  answer_found id l text at actor none s = (ping_error, s)
  answer_found id l text at actor (some x) s =
      if is_settled x s
      then (ping_error, s)
      else answered l (update id text at actor) text at actor x s

  abbrev pub answer_known :
      String → String → String → String → Bool → Option Line → State → Answer Line × State
  answer_known id text at actor no_kb none s = (ping_error, s)
  answer_known id text at actor no_kb (some l) s =
      if is_set l.answered_at
      then (ping_error, s)
      else if str_eq (strip text) ""
      then (ping_error, s)
      else if no_kb
      then (ping_error, s)
      else answer_found id l text at actor (find_gap (text_or l.gap_id "") s.doc) s

  abbrev pub answer_read :
      String → String → String → String → Bool → Result (List Line) → State → Answer Line × State
  answer_read id text at actor no_kb (raise e) s = (contract_error, s)
  answer_read id text at actor no_kb (ok lines) s =
      answer_known id text at actor no_kb (Dict.get id (fold_lines lines [])) s

  -- `answer`; the Boolean says that a card is asked for and there is no knowledge base.
  unfoldable pub answer : String → String → String → String → Bool → State → Answer Line × State
  answer id text at actor no_kb s = answer_read id text at actor no_kb (L.read s.pings) s

  pub data Op : Type 0 where
    asks : String → String → String → String → Op
    replies : String → String → String → String → Bool → Op
    edits : Doc → Bool → Op  -- the document changes elsewhere

  unfoldable pub after : Op → State → State
  unfolding ping answer
  after (asks gap_id route_to at actor) s = (ping gap_id route_to at actor s).1
  after (replies id text at actor no_kb) s = (answer id text at actor no_kb s).1
  after (edits d frozen) s = record s { doc = d; brief_is_frozen = frozen }

  unfoldable pub run : List Op → State → State
  unfolding after
  run [] s = s
  run (o ∷ os) s = run os (after o s)
