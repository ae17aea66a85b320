-- ===== src/Workspace/Pursuit/Runs.antt =====
-- `mint_run_id` and `latest_run_id_in` of engine/workspace/pursuit.py: the numbers of the entries
-- whose names are run ids, in any order.
use rfp_engine.Prelude.{
  ap, refl, ◌≡◌, some, [], ◌<◌, arith, none, ◌+◌, max, All, Option, ◌∷◌, ℕ, List,
}

unfoldable pub max_of : List ℕ → ℕ
max_of [] = 0
max_of (n ∷ ns) = max n (max_of ns)

-- The minted number.
unfoldable pub mint_run_id : List ℕ → ℕ
unfolding max_of
mint_run_id [] = 1
mint_run_id (n ∷ ns) = max_of (n ∷ ns) + 1

unfoldable pub latest_run_id : List ℕ → Option ℕ
unfolding max_of
latest_run_id [] = none
latest_run_id (n ∷ ns) = some (max_of (n ∷ ns))

lt-max_of : (ns : List ℕ) (b : ℕ) → max_of ns < b → All (λ n. n < b) ns
unfolding max_of
lt-max_of [] b h = tt
lt-max_of (n ∷ ns) b h = (omega arith, lt-max_of ns b (omega arith))

-- A minted id is no id of an existing run, also where runs between have been deleted, and it is the
-- newest as soon as its run is there.
pub mint_run_id_fresh :
    (ns : List ℕ)
    → All (λ n. n < mint_run_id ns) ns
      × (latest_run_id (mint_run_id ns ∷ ns) ≡ some (mint_run_id ns))
unfolding mint_run_id latest_run_id
mint_run_id_fresh [] = (tt, refl)
mint_run_id_fresh (n ∷ ns) =
    ((omega arith, lt-max_of ns (mint_run_id (n ∷ ns)) (omega arith)), ap some (omega arith))
