-- ===== src/RunLog/Tests.antt =====
-- A run of four lines, and the theorems at concrete inputs.
use rfp_engine.RunLog.Writer.{
  replay_totals, gapless_from, accumulate, is_gapless, Body, emit, resume, wall_ms, new_logger,
  Logger, Record, gap, agent_call, gate, landed, contract_error,
}
use rfp_engine.RunLog.Laws.{emit-IsFaithful, resume_lem, IsFaithful}
use rfp_engine.Prelude.{◌⊎◌, ◌∷◌, ◌++◌, length, refl, ltb, ◌≡◌, [], Bool}

fresh-IsFaithful : IsFaithful (new_logger [])
unfolding is_gapless gapless_from replay_totals accumulate
fresh-IsFaithful = record { numbered = refl; next = refl; counts = (refl, refl, refl) }

abbrev accepts : Record → Bool
accepts r = ltb r.seq 2

abbrev call : Body
call = agent_call 12 800 100 20

abbrev opened : Logger
opened = (emit accepts 1000 call (new_logger [])).1

abbrev waited : Logger
waited = (emit accepts 1700 (gate 500) opened).1

opened-IsFaithful : IsFaithful opened
opened-IsFaithful = (emit-IsFaithful accepts 1000 call (new_logger []) fresh-IsFaithful).0

waited_span : wall_ms waited ≡ 700
unfolding emit accumulate wall_ms
waited_span = refl

third_line_refused : (emit accepts 1800 gap waited).0 ≡ contract_error
unfolding emit accumulate
third_line_refused = refl

emit-IsFaithful_example :
    let after = emit accepts 1700 (gate 500) opened in
    IsFaithful after.1
    × (((after.0 ≡ landed (length opened.file))
          × (after.1.file
              ≡ opened.file
                ++ record { seq = length opened.file; ts = 1700; body = gate 500 } ∷ []))
        ⊎ ((after.0 ≡ contract_error) × (after.1 ≡ opened)))
emit-IsFaithful_example = emit-IsFaithful accepts 1700 (gate 500) opened opened-IsFaithful

resume_lem_example :
    let r = resume opened.file in
    IsFaithful r
    × (r.next_seq ≡ opened.next_seq)
    × (r.totals ≡ opened.totals)
    × (wall_ms r ≡ wall_ms opened)
resume_lem_example = resume_lem opened opened-IsFaithful
