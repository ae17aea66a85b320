-- ===== src/Web/Jobs/Rows.antt =====
-- The registry as a list of rows: what a change of one job does to look-ups and counts.
use rfp_engine.Prelude.{
  suc, ◌≢◌, ℕ, ◌+◌, ◌≤◌, ◌<◌, ◌≡◌, refl, Bool, true, false, Option, none, some, List, [], ◌∷◌, ◌++◌,
  arith, ◌==◌, if◌then◌else◌, All, count_if, bit,
}
use rfp_engine.Web.Jobs.Types.{State, Job, find_job, update_job}

-- The state of the job with this id.
abbrev pub state_in : Option Job → Option State
state_in none = none
state_in (some j) = some j.state

abbrev pub state_of : ℕ → List Job → Option State
state_of i js = state_in (find_job i js)

abbrev pub change : (Job → Job) → Option Job → Option Job
change f none = none
change f (some j) = some (f j)

module _ (i : ℕ) (f : Job → Job) where
  -- A change that keeps ids is seen at its own id, and nowhere else.
  pub find_job-update_job :
      ((j : Job) → (f j).id ≡ j.id)
      → (k : ℕ) (js : List Job)
      → find_job k (update_job i f js)
        ≡ (if k == i then change f (find_job k js) else find_job k js)
  unfolding find_job update_job
  find_job-update_job keep k [] = ground arith
  find_job-update_job keep k (j ∷ js) = ground (arith, keep j, find_job-update_job keep k js)

  -- A change of one job moves a count by what it changes there.
  pub count_if-update_job :
      (p : Job → Bool) (js : List Job) (j : Job)
      → find_job i js ≡ some j
      → count_if p (update_job i f js) + bit (p j) ≡ count_if p js + bit (p (f j))
  unfolding find_job update_job
  count_if-update_job p [] j h = ground arith
  count_if-update_job p (x ∷ js) j h = ground (arith, count_if-update_job p js j)

  pub All-update_job :
      (P : Job → Type 0) (js : List Job)
      → ((j : Job) → P j → P (f j))
      → All P js
      → All P (update_job i f js)
  unfolding update_job
  All-update_job P [] step h = tt
  All-update_job P (x ∷ js) step h =
      elim (x.id == i) as (λ b. All P (if b then f x ∷ js else x ∷ update_job i f js)) [
        | true ↦ (step x h.0, h.1)
        | false ↦ (h.0, All-update_job P js step h.1)
      ]

pub find_job-append :
    (k : ℕ) (js : List Job) (x : Job)
    → find_job k (js ++ x ∷ [])
      ≡ elim (find_job k js) [ none ↦ if x.id == k then some x else none | some j ↦ some j ]
unfolding find_job
find_job-append k [] x = ground arith
find_job-append k (j ∷ js) x = ground (arith, find_job-append k js x)

-- An id that was never given is not there.
pub find_job_fresh :
    (k n : ℕ) (js : List Job) → All (λ j. j.id < n) js → n ≤ k → find_job k js ≡ none
unfolding find_job
find_job_fresh k n [] h le = refl
find_job_fresh k n (j ∷ js) h le = ground (arith, find_job_fresh k n js h.1 le)

pub find_job-id : (k : ℕ) (js : List Job) (j : Job) → find_job k js ≡ some j → j.id ≡ k
unfolding find_job
find_job-id k [] j h = ground arith
find_job-id k (x ∷ js) j h = ground (arith, find_job-id k js j)

module _ (i : ℕ) (f : Job → Job) (keep : (j : Job) → (f j).id ≡ j.id) where
  -- What a change of a job that is there makes of the states.
  pub state_of-update_job :
      (js : List Job) (j : Job) (k : ℕ)
      → find_job i js ≡ some j
      → state_of k (update_job i f js) ≡ (if k == i then some (f j).state else state_of k js)
  state_of-update_job js j k h = ground (arith, find_job-update_job i f keep k js)

  -- The jobs that wait are not touched by a change of another.
  pub waiting-update_job :
      (s : State) (js : List Job) (qs : List ℕ)
      → All (λ q. q ≢ i) qs
      → All (λ q. state_of q js ≡ some s) qs
      → All (λ q. state_of q (update_job i f js) ≡ some s) qs
  waiting-update_job s js [] other h = tt
  waiting-update_job s js (q ∷ qs) other h =
      (ground (arith, find_job-update_job i f keep q js), waiting-update_job s js qs other.1 h.1)

pub waiting-append :
    (s : State) (js : List Job) (x : Job) (qs : List ℕ)
    → All (λ q. state_of q js ≡ some s) qs
    → All (λ q. state_of q (js ++ x ∷ []) ≡ some s) qs
waiting-append s js x [] h = tt
waiting-append s js x (q ∷ qs) h =
    (ground (arith, find_job-append q js x), waiting-append s js x qs h.1)

pub All-below-append :
    (n : ℕ) (js : List Job) (x : Job)
    → All (λ j. j.id < n) js
    → x.id ≡ n
    → All (λ j. j.id < suc n) (js ++ x ∷ [])
All-below-append n [] x h e = (omega arith, tt)
All-below-append n (j ∷ js) x h e = (omega arith, All-below-append n js x h.1 e)
