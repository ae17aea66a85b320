-- ===== src/Pipeline/Driver/Rule.antt =====
-- One rule for `advance`: what holds before each phase, and what each phase is shown to do.
use rfp_engine.Pipeline.Driver.Types.{
  new_result, continue, raised, Inputs, Action, returned, Stages, pure, ◌>>=◌, Outcome,
  AdvanceResult, World,
}
use rfp_engine.Pipeline.Driver.Advance.{
  advance, validation_phase, drafting_phase, planning_phase, strategy_phase, intake_phase, go_on,
  go, stop, Next,
}

-- What holds after an action: `Q` of the value that it returns, `R` if an exception leaves it.
abbrev pub Post :
    {W A : Type 0} → (A → World W → Type 0) → (World W → Type 0) → Outcome A → World W → Type 0
Post Q R (returned a) s = Q a s
Post Q R raised s = R s

-- `F` of a result that is returned, `P` of one that is handed to the next phase.
abbrev pub Fork :
    {W : Type 0}
    → (AdvanceResult → World W → Type 0)
    → (AdvanceResult → World W → Type 0)
    → Next
    → World W
    → Type 0
Fork F P (stop r) s = F r s
Fork F P (go r) s = P r s

module _ {W : Type 0} (R : World W → Type 0) where
  continue-Post :
      {A B : Type 0} (Q : A → World W → Type 0) (G : B → World W → Type 0) (o : Outcome A)
      (f : A → Action W B) (s : World W)
      → ((a : A) → Q a s → Post G R (f a s).0 (f a s).1)
      → Post Q R o s
      → Post G R (continue o f s).0 (continue o f s).1
  continue-Post Q G (returned a) f s rest h = rest a h
  continue-Post Q G raised f s rest h = h

  bind-Post :
      {A B : Type 0} (Q : A → World W → Type 0) (G : B → World W → Type 0) (m : Action W A)
      (f : A → Action W B) (s : World W)
      → ((a : A) (t : World W) → Q a t → Post G R (f a t).0 (f a t).1)
      → Post Q R (m s).0 (m s).1
      → Post G R ((m >>= f) s).0 ((m >>= f) s).1
  unfolding ◌>>=◌
  bind-Post Q G m f s rest h = continue-Post Q G (m s).0 f (m s).1 (λ a. rest a (m s).1) h

  Fork-Post :
      (F P : AdvanceResult → World W → Type 0) (rest : AdvanceResult → Action W AdvanceResult)
      → ((r : AdvanceResult) (t : World W) → P r t → Post F R (rest r t).0 (rest r t).1)
      → (n : Next) (t : World W) → Fork F P n t
      → Post F R (go_on n rest t).0 (go_on n rest t).1
  unfolding pure
  Fork-Post F P rest h (stop r) t k = k
  Fork-Post F P rest h (go r) t k = h r t k

  -- The phases in their order, each from what the one before it hands on.
  module _ (F P₁ P₂ P₃ P₄ P₅ : AdvanceResult → World W → Type 0) (e : Stages W) (i : Inputs)
      (h₁ : (r : AdvanceResult) (t : World W)
        → P₁ r t
        → Post (Fork F P₂) R (intake_phase e i r t).0 (intake_phase e i r t).1)
      (h₂ : (r : AdvanceResult) (t : World W)
        → P₂ r t
        → Post (Fork F P₃) R (strategy_phase e i r t).0 (strategy_phase e i r t).1)
      (h₃ : (r : AdvanceResult) (t : World W)
        → P₃ r t
        → Post (Fork F P₄) R (planning_phase e i r t).0 (planning_phase e i r t).1)
      (h₄ : (r : AdvanceResult) (t : World W)
        → P₄ r t
        → Post (Fork F P₅) R (drafting_phase e i r t).0 (drafting_phase e i r t).1)
      (h₅ : (r : AdvanceResult) (t : World W)
        → P₅ r t
        → Post F R (validation_phase e i r t).0 (validation_phase e i r t).1) where
    pub advance-Post :
        (s : World W) → P₁ new_result s → Post F R (advance e i s).0 (advance e i s).1
    unfolding advance
    advance-Post s h =
        bind-Post (Fork F P₂) F _ _ s
          (λ a t.
            Fork-Post F P₂ _
              (λ r t h.
                bind-Post (Fork F P₃) F _ _ t
                  (λ a t.
                    Fork-Post F P₃ _
                      (λ r t h.
                        bind-Post (Fork F P₄) F _ _ t
                          (λ a t.
                            Fork-Post F P₄ _
                              (λ r t h.
                                bind-Post (Fork F P₅) F _ _ t (λ a t. Fork-Post F P₅ _ h₅ a t)
                                  (h₄ r t h))
                              a t)
                          (h₃ r t h))
                      a t)
                  (h₂ r t h))
              a t)
          (h₁ new_result s h)
