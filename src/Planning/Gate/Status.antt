-- ===== src/Planning/Gate/Status.antt =====
-- The status of a plan that Gate 2 stamps (engine/planning/gate.py).
use rfp_engine.Prelude.Dict
use mathlib.Core.Path.{subst}
use rfp_engine.Workspace.Pursuit.Types.{
  Codec, Dir, Payload, Result, Raised, ok, raise, contract_error, file_not_found, decode_error,
  value_error,
}
use rfp_engine.Workspace.Pursuit.Files.{read_artifact}
use rfp_engine.Planning.Gate.Plan.{Stamp, Plan, Batch, Request, Edits, is_text}
use rfp_engine.Prelude.{
  sym, [], refl, inl, none, ◌&&◌, Bool-cases, true, false, inr, str_eq, if◌then◌else◌, some,
  Option-cases, Option, Bool, ◌≡◌, String,
}
use rfp_engine.Strategy.Gate.Types.{Python}
use rfp_engine.Planning.Gate.Decide.{
  decide, decide_plan, decide_prior, decide_open, stamp, edited, refusal, proceeds, converges,
  refused, Decided, given, status_of, with_edits, by_status, past_gate,
}

module _ (c : Codec Plan) (py : Python) (edit_sections : String → Edits → Plan → Result Batch) where
  -- A plan that is stamped now has the status of the decision.
  abbrev pub Stamped : Request → Decided → Type 0
  Stamped r (proceeds p at false kills lines) = p.status ≡ some (status_of r.decision)
  Stamped r (converges g) = g.converged ≡ true
  Stamped r _ = Unit {0}

  if_Stamped :
      (r : Request) (b : Bool) (x y : Decided)
      → Stamped r x
      → Stamped r y
      → Stamped r (if b then x else y)
  if_Stamped r true x y hx hy = hx
  if_Stamped r false x y hx hy = hy

  stamp-status :
      (r : Request) (p : Plan) → (stamp c py edit_sections r p).status ≡ some (status_of r.decision)
  unfolding stamp
  stamp-status r p = elim (Bool-cases (str_eq r.decision "rejected")) [
    | inl rejects ↦ rw rejects refl
    | inr approves ↦ rw approves refl
  ]

  with_edits-Stamped :
      (r : Request) (e : Result (Plan × Batch)) → Stamped r (with_edits c py edit_sections r e)
  with_edits-Stamped r (raise e) = tt
  with_edits-Stamped r (ok (p, b)) = stamp-status r p

  by_status-Stamped : (r : Request) (p : Plan) → Stamped r (by_status c py edit_sections r p)
  by_status-Stamped r p =
      let now = with_edits-Stamped r (edited c py edit_sections (given r.edits) r.actor p) in
      if_Stamped r (is_text "gate2_pending" p.status) _ _ now
        (if_Stamped r (str_eq r.decision "rejected" && is_text "draft" p.status) _ _ now tt)

  past_gate-Stamped :
      (r : Request) (p : Plan) (o : Option Stamp) → Stamped r (past_gate c py edit_sections r p o)
  past_gate-Stamped r p none = by_status-Stamped r p
  past_gate-Stamped r p (some g) =
      if_Stamped r _ (proceeds p _ true [] []) (refused contract_error) tt tt

  decide_open-Stamped : (r : Request) (p : Plan) → Stamped r (decide_open c py edit_sections r p)
  unfolding decide_open
  decide_open-Stamped r p =
      if_Stamped r (is_text "approved" p.status) _ _ (past_gate-Stamped r p p.gate2)
        (by_status-Stamped r p)

  decide_prior-Stamped :
      (r : Request) (p : Plan) (k : Option Payload) (d : Dir)
      → Stamped r (decide_prior c py edit_sections r p k d)
  decide_prior-Stamped r p none d = decide_open-Stamped r p
  decide_prior-Stamped r p (some k) d = if_Stamped r _ (converges _) _ refl (
      if_Stamped r (is_text "gate2_pending" p.status) _ (refused contract_error)
        (decide_open-Stamped r p) tt)

  decide_plan-Stamped :
      (r : Request) (p : Result Plan) (d : Dir) → Stamped r (decide_plan c py edit_sections r p d)
  decide_plan-Stamped r (ok p) d = decide_prior-Stamped r p (Dict.get "gate_2" d.checkpoints) d
  decide_plan-Stamped r (raise contract_error) d = tt
  decide_plan-Stamped r (raise file_not_found) d = tt
  decide_plan-Stamped r (raise decode_error) d = tt
  decide_plan-Stamped r (raise value_error) d = tt

  pub decide-fine :
      (r : Request) (d : Dir)
      → refusal c py edit_sections r ≡ none
      → decide c py edit_sections r d
        ≡ decide_plan c py edit_sections r (read_artifact c "plan.json" d) d
  unfolding decide
  decide-fine r d fine = rw (decide, fine) refl

  pub decide-bad :
      (r : Request) (d : Dir) (e : Raised)
      → refusal c py edit_sections r ≡ some e
      → decide c py edit_sections r d ≡ refused e
  unfolding decide
  decide-bad r d e bad = rw (decide, bad) refl

  pub decide-Stamped : (r : Request) (d : Dir) → Stamped r (decide c py edit_sections r d)
  decide-Stamped r d = elim (Option-cases (refusal c py edit_sections r)) [
    | inr (e, bad) ↦ subst (Stamped r) (sym (decide-bad r d e bad)) tt
    | inl fine ↦
        subst (Stamped r) (sym (decide-fine r d fine))
          (decide_plan-Stamped r (read_artifact c "plan.json" d) d)
  ]
