-- ===== src/Web/Jobs/Journal.antt =====
-- What the journal's last lines tell of the jobs, after every step of the lane.
use mathlib.Core.Path.{subst}
use rfp_engine.Prelude.{
  ==_iff, ◌≢◌, ◌∙◌, ap, true, false, inr, ◌==◌, inl, [], if◌then◌else◌, Bool-cases, ◌<◌, ◌∷◌, arith,
  Option-cases, All, ◌++◌, none, some, String, ◌≡◌, List, ℕ, Option,
}
use rfp_engine.Web.Jobs.Types.{
  queued, orphaned, is_active, update_job, busy, find_job, NewestRun, State, Job, Line, Runner,
}
use rfp_engine.Web.Jobs.Steps.{new_job, register}
use rfp_engine.Web.Jobs.Valid.{is_at, IsValid}
use rfp_engine.Web.Jobs.Rows.{find_job_fresh, state_of-update_job, find_job-append, state_of}

-- The last line of an id.
abbrev pub later : Option Line → Option Line → Option Line
later (some x) _ = some x
later none y = y

unfoldable pub last_line : ℕ → List Line → Option Line
last_line i [] = none
last_line i (l ∷ ls) = later (last_line i ls) (if l.id == i then some l else none)

abbrev pub line_state : Option Line → Option State
line_state none = none
line_state (some l) = some l.state

pub last_line-append :
    (i : ℕ) (ls : List Line) (x : Line)
    → last_line i (ls ++ x ∷ []) ≡ (if x.id == i then some x else last_line i ls)
unfolding last_line
last_line-append i [] x = ground arith
last_line-append i (l ∷ ls) x = ground (arith, last_line-append i ls x)

-- What a restart makes of a state.
abbrev pub boot_state : State → State
boot_state s = if is_active s then orphaned else s

abbrev pub boot_states : Option State → Option State
boot_states none = none
boot_states (some s) = some (boot_state s)

-- What a restart makes of each job, after a crash at this point: a job whose first line is not
-- written is gone, one whose newest change is not written is orphaned, and the others have their
-- state, or are orphaned if they are queued or running.
unfoldable pub recovered : ℕ → Runner → Option State
recovered i r =
    if is_at i r.registering
    then none
    else if is_at i r.owes
    then some orphaned
    else boot_states (state_of i r.jobs)

-- What holds of the lines that are written and of those that are not yet.
pub record IsJournalled (r : Runner) : Type 0 where
  pub apart :
      (k : ℕ)
      → is_at k r.registering ≡ true
      → (state_of k r.jobs ≡ some queued) × All (λ q. q ≢ k) r.queue × (is_at k r.owes ≡ false)
  pub owed : (k : ℕ) → is_at k r.owes ≡ true → (s : State) × (state_of k r.jobs ≡ some s)
  pub says : (i : ℕ) → boot_states (line_state (last_line i r.journal)) ≡ recovered i r

-- Nothing that waits has a new id.
fresh_waits :
    (n : ℕ) (js : List Job) (qs : List ℕ)
    → All (λ j. j.id < n) js
    → All (λ q. state_of q js ≡ some queued) qs
    → All (λ q. q ≢ n) qs
fresh_waits n js [] below w = tt
fresh_waits n js (q ∷ qs) below w = (
  (λ e. ground (arith, w.0, find_job_fresh q n js below (omega (arith, e)))),
  fresh_waits n js qs below w.1,
)

pub register-IsJournalled :
    (kind pursuit by at : String) (r : Runner)
    → r.registering ≡ none
    → IsValid r
    → IsJournalled r
    → IsJournalled (register kind pursuit by at r).1
unfolding register recovered
register-IsJournalled kind pursuit by at r idle v h = elim (Option-cases (busy pursuit r.jobs)) [
  | inr (j, taken) ↦ rw taken h
  | inl free ↦
      let x : Job = new_job r.next_id kind pursuit by at in
      let fresh : find_job r.next_id r.jobs ≡ none =
        find_job_fresh r.next_id r.next_id r.jobs v.below (omega arith) in
      let unowed : is_at r.next_id r.owes ≡ false = elim (Bool-cases (is_at r.next_id r.owes)) [
        | inl yes_owed ↦
            let (s, there) = h.owed r.next_id yes_owed in absurd (ground (arith, there, fresh))
        | inr not_owed ↦ not_owed
      ] in
      rw free (record {
        apart = λ k e. (
          ground (
            arith,
            find_job-append k r.jobs x,
            ==_iff r.next_id k,
            ap (λ n. find_job n r.jobs),
            fresh,
          ),
          subst (λ n. All (λ q. q ≢ n) r.queue) ((==_iff r.next_id k).0 e)
              (fresh_waits r.next_id r.jobs r.queue v.below v.waiting),
          subst (λ n. is_at n r.owes ≡ false) ((==_iff r.next_id k).0 e) unowed,
        );
        owed = λ k e.
            (let (s, there) = h.owed k e in (s, ground (arith, there, find_job-append k r.jobs x)));
        says = λ i. elim (Bool-cases (r.next_id == i)) [
          | inl new ↦
              let same : r.next_id ≡ i = (==_iff r.next_id i).0 new in
              ground (
                arith,
                new,
                h.says i,
                idle,
                subst (λ n. find_job n r.jobs ≡ none) same fresh,
                subst (λ n. is_at n r.owes ≡ false) same unowed,
              )
          | inr old ↦ ground (arith, old, h.says i, idle, find_job-append i r.jobs x)
        ];
      })
]

-- The worker changes an active job and owes its line.
pub changed-IsJournalled :
    (i : ℕ) (f : Job → Job) (r : Runner) (j : Job) (c : Option ℕ) (qs : List ℕ)
    (runs : String → Option NewestRun)
    → ((x : Job) → (f x).id ≡ x.id)
    → find_job i r.jobs ≡ some j
    → r.owes ≡ none
    → is_active j.state ≡ true
    → is_at i r.registering ≡ false
    → ((k : ℕ) → All (λ q. q ≢ k) r.queue → All (λ q. q ≢ k) qs)
    → IsJournalled r
    → IsJournalled (record r {
      jobs = update_job i f r.jobs;
      owes = some i;
      current = c;
      queue = qs;
      runs = runs;
    })
unfolding recovered
changed-IsJournalled i f r j c qs runs keep found free active elsewhere fewer h = record {
  apart = λ k e.
      let (waits, other, unowed) = h.apart k e in
      let differs : (i == k) ≡ false = elim (Bool-cases (i == k)) [
        | inl same ↦
            absurd
              (ground (arith, e, elsewhere, ap (λ n. is_at n r.registering) ((==_iff i k).0 same)))
        | inr other_id ↦ other_id
      ] in
      (
        state_of-update_job i f keep r.jobs j k found
            ∙ ground (arith, differs, waits, ==_iff i k, ==_iff k i),
        fewer k other,
        differs,
      );
  owed = λ k e. (
    (f j).state,
    state_of-update_job i f keep r.jobs j k found ∙ ground (arith, e, ==_iff i k, ==_iff k i),
  );
  says = λ k. elim (Bool-cases (i == k)) [
    | inl same ↦
        let at_k : i ≡ k = (==_iff i k).0 same in
        h.says k
        ∙ ground (
          arith,
          same,
          free,
          active,
          ap (λ n. is_at n r.registering) at_k,
          elsewhere,
          ap (λ n. find_job n r.jobs) at_k,
          found,
        )
    | inr other ↦
        h.says k
        ∙ ground (
          arith,
          other,
          free,
          ==_iff i k,
          ==_iff k i,
          state_of-update_job i f keep r.jobs j k found,
        )
  ];
}
