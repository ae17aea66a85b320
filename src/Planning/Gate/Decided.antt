-- ===== src/Planning/Gate/Decided.antt =====
-- What a decision at Gate 2 leaves on the disk, and the same decision once more
-- (engine/planning/gate.py, `approve_gate2`).
use rfp_engine.Prelude.Dict
use rfp_engine.Workspace.Pursuit.Types.{
  Codec, Dir, Payload, Result, Raised, ok, raise, contract_error, pursuit_plan, ok-injective,
}
use rfp_engine.Workspace.Pursuit.Files.{
  write_artifact, freeze_artifact, checkpoint, clear_checkpoint, is_frozen_name,
}
use rfp_engine.Planning.Gate.Plan.{Line, Plan, Batch, Request, Edits, State, Gate2Result}
use rfp_engine.Planning.Gate.Edit.{Kill, GapLine}
use rfp_engine.Planning.Gate.Approve.{
  freeze_if, record_if, payload, record_decision, result_of, carry_out,
}
use rfp_engine.Prelude.{
  arith, none, false, Bool, List, String, eq_iff, ap, ◌∙◌, str_eq, Option-cases, refl, inl, inr,
  Bool-cases, some, true, ◌⊎◌, ◌≡◌,
}
use rfp_engine.Strategy.Gate.Types.{Python}
use rfp_engine.Planning.Gate.Decide.{proceeds, is_approving}

module _ (c : Codec Plan) where
  write_plan :
      (p : Plan) (d : Dir)
      → ((e : Raised) × (write_artifact c "pursuit_plan" p "plan.json" d ≡ (raise e, d)))
        ⊎ ((write_artifact c "pursuit_plan" p "plan.json" d
              ≡ (ok "plan.json", record d { files = Dict.put "plan.json" (c.dumps p) d.files }))
            × (c.is_inside "plan.json" ≡ true))
  unfolding write_artifact is_frozen_name
  write_plan p d = elim (Bool-cases (c.validate "pursuit_plan" p)) [
    | inr bad ↦ inl (contract_error, rw bad refl)
    | inl valid ↦ elim (Bool-cases (c.is_inside "plan.json")) [
      | inr outside ↦ inl (contract_error, rw (valid, outside) refl)
      | inl inside ↦ inr (rw (valid, inside) refl, inside)
    ]
  ]

  freeze_plan :
      (p : Plan) (d : Dir)
      → ((e : Raised) × (u : Dir) × (freeze_artifact c pursuit_plan p d ≡ (raise e, u)))
        ⊎ ((u : Dir) × (freeze_artifact c pursuit_plan p d ≡ (ok (c.sha256 (c.dumps p)), u))
            × (u.checkpoints ≡ d.checkpoints)
            × (Dict.get "plan.frozen.json" u.files ≡ some (c.dumps p))
            × (Dict.get "plan.json" u.files ≡ Dict.get "plan.json" d.files))
  unfolding freeze_artifact
  freeze_plan p d = elim (Bool-cases (c.validate "pursuit_plan" p)) [
    | inr bad ↦ inl (contract_error, d, rw bad refl)
    | inl valid ↦ elim (Option-cases (Dict.get "plan.frozen.json" d.files)) [
      | inl new ↦ inr (
        _,
        rw (valid, new) refl,
        refl,
        Dict.get-put_here "plan.frozen.json" (c.dumps p) d.files,
        Dict.get-put "plan.frozen.json" "plan.json" (c.dumps p) d.files,
      )
      | inr (text, there) ↦ elim (Bool-cases (str_eq text (c.dumps p))) [
        | inr differs ↦ inl (contract_error, d, rw (valid, there, differs) refl)
        | inl same ↦ inr (
          d,
          rw (valid, there, same) refl,
          refl,
          there ∙ ap some ((eq_iff text (c.dumps p)).0 same),
          refl,
        )
      ]
    ]
  ]

module _ (c : Codec Plan) (py : Python) (edit_sections : String → Edits → Plan → Result Batch) where
  -- What a decision that went through leaves.
  pub record Settled (r : Request) (p : Plan) (at : String) (kills : List Kill) (before d : Dir)
      : Type 0 where
    pub plan_text : Dict.get "plan.json" d.files ≡ some (c.dumps p)
    pub inside : c.is_inside "plan.json" ≡ true
    pub recorded : Dict.get "gate_2" d.checkpoints ≡ some (payload c py edit_sections r p at kills)
    pub frozen :
        is_approving r.decision ≡ true → Dict.get "plan.frozen.json" d.files ≡ some (c.dumps p)
    pub untouched :
        is_approving r.decision ≡ false
        → Dict.get "plan.frozen.json" d.files ≡ Dict.get "plan.frozen.json" before.files
    pub cleared :
        is_approving r.decision ≡ false
        → (Dict.get "path_a_map" d.checkpoints ≡ none)
          × (Dict.get "path_b_outline" d.checkpoints ≡ none)
          × (Dict.get "pursuit_plan" d.checkpoints ≡ none)

  record_if-files :
      (b : Bool) (k : Payload) (d : Dir) → (record_if c py edit_sections b k d).files ≡ d.files
  unfolding checkpoint clear_checkpoint
  record_if-files true k d = refl
  record_if-files false k d = refl

  record_if-recorded :
      (b : Bool) (k : Payload) (d : Dir)
      → Dict.get "gate_2" (record_if c py edit_sections b k d).checkpoints ≡ some k
  unfolding checkpoint clear_checkpoint
  record_if-recorded true k d = Dict.get-put_here "gate_2" k d.checkpoints
  record_if-recorded false k d = Dict.get-put_here "gate_2" k _

  record_if-cleared :
      (b : Bool) (k : Payload) (d : Dir)
      → b ≡ false
      → let m = (record_if c py edit_sections b k d).checkpoints in
        (Dict.get "path_a_map" m ≡ none)
        × (Dict.get "path_b_outline" m ≡ none)
        × (Dict.get "pursuit_plan" m ≡ none)
  unfolding checkpoint clear_checkpoint
  record_if-cleared true k d rejects = absurd (ground arith)
  record_if-cleared false k d rejects =
      let a = Dict.remove "path_a_map" d.checkpoints in
      let b = Dict.remove "path_b_outline" a in
      let m = Dict.remove "pursuit_plan" b in
      (
        Dict.get-put "gate_2" "path_a_map" k m
            ∙ Dict.get-remove "pursuit_plan" "path_a_map" b
            ∙ Dict.get-remove "path_b_outline" "path_a_map" a
            ∙ Dict.get-remove "path_a_map" "path_a_map" d.checkpoints,
        Dict.get-put "gate_2" "path_b_outline" k m
            ∙ Dict.get-remove "pursuit_plan" "path_b_outline" b
            ∙ Dict.get-remove "path_b_outline" "path_b_outline" a,
        Dict.get-put "gate_2" "pursuit_plan" k m ∙ Dict.get-remove "pursuit_plan" "pursuit_plan" b,
      )

  settled :
      (r : Request) (p : Plan) (at : String) (kills : List Kill) (before d : Dir)
      → Dict.get "plan.json" d.files ≡ some (c.dumps p)
      → c.is_inside "plan.json" ≡ true
      → (is_approving r.decision ≡ true → Dict.get "plan.frozen.json" d.files ≡ some (c.dumps p))
      → (is_approving r.decision ≡ false
          → Dict.get "plan.frozen.json" d.files ≡ Dict.get "plan.frozen.json" before.files)
      → Settled r p at kills before (record_decision c py edit_sections r p at kills d)
  settled r p at kills before d text inside frozen untouched =
      let b = is_approving r.decision in
      let k = payload c py edit_sections r p at kills in
      let same = record_if-files b k d in
      record {
        plan_text = ap (Dict.get "plan.json") same ∙ text;
        inside = inside;
        recorded = record_if-recorded b k d;
        frozen = λ h. ap (Dict.get "plan.frozen.json") same ∙ frozen h;
        untouched = λ h. ap (Dict.get "plan.frozen.json") same ∙ untouched h;
        cleared = λ h. record_if-cleared b k d h;
      }

  freeze_if-Settled :
      (b : Bool) (r : Request) (p : Plan) (at : String) (st : Bool) (kills : List Kill)
      (g : Gate2Result) (before d : Dir) (log : List Line)
      → b ≡ is_approving r.decision
      → Dict.get "plan.json" d.files ≡ some (c.dumps p)
      → c.is_inside "plan.json" ≡ true
      → Dict.get "plan.frozen.json" d.files ≡ Dict.get "plan.frozen.json" before.files
      → (freeze_if c py edit_sections b r p at st kills d log).0 ≡ ok g
      → (result_of c py edit_sections r p st ≡ g)
        × Settled r p at kills before (freeze_if c py edit_sections b r p at st kills d log).1.dir
  freeze_if-Settled false r p at st kills g before d log rejects text inside same h = (
    ok-injective (result_of c py edit_sections r p st) g h,
    settled r p at kills before d text inside (λ a. absurd (ground (arith, rejects, a)))
        (λ _. same),
  )
  freeze_if-Settled true r p at st kills g before d log approves text inside same h =
      elim (freeze_plan c p d) [
        | inl (e, u, bad) ↦ absurd (ground (arith, bad))
        | inr (u, good, points, frozen, kept) ↦ rw good (
          ok-injective (result_of c py edit_sections r p st) g (rw good at h),
          settled r p at kills before u (kept ∙ text) inside (λ _. frozen)
              (λ n. absurd (ground (arith, approves, n))),
        )
      ]

  -- A decision that is carried out to its end.
  pub carry_out-Settled :
      (r : Request) (p : Plan) (at : String) (st : Bool) (kills : List Kill) (lines : List GapLine)
      (g : Gate2Result) (s : State)
      → (carry_out c py edit_sections r (proceeds p at st kills lines) s).0 ≡ ok g
      → (result_of c py edit_sections r p st ≡ g)
        × Settled r p at kills s.dir
            (carry_out c py edit_sections r (proceeds p at st kills lines) s).1.dir
  carry_out-Settled r p at st kills lines g s h = elim (write_plan c p s.dir) [
    | inl (e, bad) ↦ absurd (ground (arith, bad))
    | inr (wrote, inside) ↦ rw wrote (
        freeze_if-Settled (is_approving r.decision) r p at st kills g s.dir
          (record s.dir { files = Dict.put "plan.json" (c.dumps p) s.dir.files }) _ refl
          (Dict.get-put_here "plan.json" (c.dumps p) s.dir.files) inside
          (Dict.get-put "plan.json" "plan.frozen.json" (c.dumps p) s.dir.files) (rw wrote at h))
  ]
