-- ===== src/Lib.antt =====
-- RFP Response Engine: a model of its core logic and the theorems about it.
--
-- The engine drives a pursuit through stages (intake, research, win themes, planning, drafting,
-- validation) with a human decision at each gate. `advance` (engine/pipeline/driver.py) is the one
-- authority on the stage order; each stage runs inside a run log (engine/runlog/writer.py); the
-- validation stage audits claims and writes an annotated draft, whose blocking claims the waiver
-- lane lifts (engine/validation); the web shell runs every stage through one job lane
-- (engine/web/jobs.py).
--
-- Files and the code they model:
--   Prelude           shared names, and children with list, dict and last-match helpers.
--   Web/Jobs          engine/web/jobs.py. Types: jobs, journal lines, the runner. Steps: submit, cancel
--                     and the worker, one function for each atomic step (register, write_registered,
--                     enqueue, start, complete, write_owed, cancel): a change of the registry and its
--                     journal line are two steps. Restart: _rehydrate. Valid: the invariant and the
--                     step relation of the threads. Rows, Worker, Journal, Owed, Boot: lemmas. Lane,
--                     Recovery: what the lane promises. Job ids are the numbers behind `job-%04d`; a
--                     target is the outcome that it ends with and the runs that it leaves.
--   Pipeline/Driver   engine/pipeline/driver.py. Types: the result, and the interface `Stages` of the
--                     stage functions and of what the driver reads off the workspace. Advance:
--                     advance, one function for each block. Rule: one proof rule for all phases.
--                     Brackets, Order, Stops: what it shows. The record of runs and calls is
--                     kept beside the workspace. A raised exception is an outcome of its own.
--   Validation        engine/validation. Findings: findings.py. Audit: audit.py and the findings that
--                     validate.py makes of claims. Annotate, Counted: annotate.py. Waiver/Text and
--                     Waiver/Approve: waiver.py; Waiver/Laws: its theorems.
--   RunLog            engine/runlog/writer.py. Writer: emit, run_end, totals, resume. Laws: theorems.
--   Drafting/Route    engine/drafting/route.py. Types, Plan: section_plan on Path A, with is_answerable
--                     (engine/planning/sections.py). Gaps, Laws: its theorems. Outline: Path B.
--   Planning/Sections engine/planning/sections.py: aggregate, unique_slugs and the check for silent
--                     misses. Python's text functions on titles are parameters.
--                     Cascade: cascade_gating, a worklist on fuel (one step for each slot that waits
--                     first and each that a gate names); Cascade/Loop: that the fuel is enough.
--   Llm/Caller        engine/llm/caller.py: cost_usd, SpendBudget and TracedCaller.call over RunLog.
--   Planning/Gate     engine/planning/gate.py. Edit: the section edits. Dispose: the dispositions of
--                     gaps and the waives of obligations. Sections, Gaps, Laws: what each may change.
--                     Plan: the plan and the recount of its coverage. Decide: what approve_gate2 finds on
--                     the disk. Approve: its writes in their order; the section edits are an argument
--                     there, since Edit has them over sections by id and title. Decided, Status: lemmas.
--                     Again: what an approval and a rejection leave, and the same request once more.
--   Workspace/Pursuit engine/workspace/pursuit.py. Types: a pursuit's directory as its files and
--                     checkpoints. Files: the operations of PursuitDir that the gates call, on fixed
--                     names. Runs: run ids as numbers. Read: what the verified read returns.
--   Contracts         engine/contracts. GateKey, Requests: gate_key.py. Jsonl: jsonl.py and append_fsync of
--                     atomic.py. Journal: a lane's file under crashes. Lane: what a journal is to the
--                     lanes of the web shell, an interface that such a file fills.
--   Strategy/Gate     engine/strategy/gate.py. Types, Edits: the brief and the edits. Approve: what a
--                     decision finds on the disk. Effects: the writes in their order, and a crash
--                     between two of them. Ids, Replay, Stop, Course, Resume: lemmas. Crash, Freeze:
--                     what the gate promises.
--   Web/Share         engine/web/share.py over two lanes. Types: link lines and their fold. Links: create,
--                     revoke, resolve and the access log. Fold, Switch: lemmas. Access, Mint: what guests
--                     are granted, what is logged, and which ids are given.
--   Web/Pings         engine/web/pings.py over a lane. Types: ping lines, their fold, and the gaps of a
--                     live document. Lane: ping and answer, without the card that an answer may
--                     propose, open_gap and the inbox. Once: what becomes of a ping.
--   Web/Events        engine/web/events.py over a lane. Read: last_wins (engine/metrics/walker.py) and
--                     finalized_by_cid. Append: append and append_revised. Pending: the pending store.
--                     Collapse, Cids: what readers see and which cids are given.
--   Revision          engine/revision/round.py. Finalize: which pending entries a round takes, and the
--                     finalizing of each as an event. Work, Replay: lemmas. Once: commits under crashes.
--
-- All numbers are natural numbers of no fixed width, as Python's integers; money is whole
-- micro-dollars, since the code rounds every cost to six places, and durations are milliseconds; the
-- expiry of a share link is compared in microseconds. The coverage of a plan may be negative. Every
-- loop is recursion on the list that it reads, but for the gating worklist.
--
-- Not modelled: the temporary files and locks under an atomic write, the JSON schemas (a parameter
-- where a refusal matters), the prompts and model calls, document parsing and writing, the knowledge
-- base, the HTTP layer, Gate 0, the writers of a workspace that take any name, a crash between the
-- writes of Gate 2, and of a revision round all but what it finalizes. The driver sees every gate as an outcome of its interface.
pub mod Prelude
pub mod Contracts
pub mod Drafting
pub mod Llm
pub mod Pipeline
pub mod Planning
pub mod Revision
pub mod RunLog
pub mod Strategy
pub mod Validation
pub mod Web
pub mod Workspace
