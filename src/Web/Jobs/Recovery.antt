-- ===== src/Web/Jobs/Recovery.antt =====
-- A crash and a restart: the rebuilt runner agrees with the one that was lost, and its journal
-- with itself.
use rfp_engine.Prelude.{
  sym, ◌∙◌, refl, ==_iff, ap, inr, arith, inl, if◌then◌else◌, ◌==◌, none, some, [], Bool-cases, ◌≡◌,
  String, ℕ, ◌∷◌, Option, List,
}
use rfp_engine.Web.Jobs.Restart.{
  empty_runner, rehydrate, orphan, boot_jobs, boot_job, last_lines, put_line,
}
use rfp_engine.Web.Jobs.Types.{orphaned, is_active, line_of, NewestRun, Runner, State, job_of, Line}
use rfp_engine.Web.Jobs.Boot.{
  state_of-rehydrate, rehydrate-IsValid, find_line-last_lines, rehydrate-released,
  find_line-put_line, find_line,
}
use rfp_engine.Web.Jobs.Steps.{name_run, close_open_run}
use rfp_engine.Web.Jobs.Owed.{Step-IsJournalled}
use rfp_engine.Web.Jobs.Journal.{
  recovered, boot_states, later, last_line-append, last_line, IsJournalled, line_state,
}
use rfp_engine.Web.Jobs.Valid.{here, next, Reach, IsValid}
use rfp_engine.Web.Jobs.Rows.{state_of}
use rfp_engine.Web.Jobs.Lane.{Step-IsValid}

UniqueLines : List Line → Type 0
UniqueLines [] = Unit
UniqueLines (l ∷ ls) = (find_line l.id ls ≡ none) × UniqueLines ls

put_line-UniqueLines : (x : Line) (ls : List Line) → UniqueLines ls → UniqueLines (put_line x ls)
unfolding put_line find_line UniqueLines
put_line-UniqueLines x [] u = (refl, tt)
put_line-UniqueLines x (l ∷ ls) u = elim (Bool-cases (l.id == x.id)) [
  | inl same ↦ rw same (ground (arith, u.0), u.1)
  | inr other ↦
      rw other (ground (arith, u.0, find_line-put_line l.id x ls), put_line-UniqueLines x ls u.1)
]

last_lines-UniqueLines : (acc ls : List Line) → UniqueLines acc → UniqueLines (last_lines acc ls)
unfolding last_lines
last_lines-UniqueLines acc [] u = u
last_lines-UniqueLines acc (l ∷ ls) u =
    last_lines-UniqueLines (put_line l acc) ls (put_line-UniqueLines l acc u)

-- What booting a line adds to the journal's last word.
overrule : Option Line → Option State → Option State
overrule none s = s
overrule (some l) s = if is_active l.state then some orphaned else s

journal-boot_job :
    (i : ℕ) (l : Line) (r : Runner)
    → line_state (last_line i (boot_job (job_of l) r).journal) ≡ (
        if l.id == i
        then overrule (some l) (line_state (last_line i r.journal))
        else line_state (last_line i r.journal))
unfolding boot_job job_of close_open_run orphan line_of overrule
journal-boot_job i l r = ground (
  arith,
  last_line-append i r.journal (line_of (name_run (r.runs l.pursuit) (orphan (job_of l)))),
)

journal-boot_jobs :
    (i : ℕ) (ls : List Line) (r : Runner)
    → UniqueLines ls
    → line_state (last_line i (boot_jobs ls r).journal)
      ≡ overrule (find_line i ls) (line_state (last_line i r.journal))
unfolding boot_jobs find_line UniqueLines overrule
journal-boot_jobs i [] r u = refl
journal-boot_jobs i (l ∷ ls) r u = elim (Bool-cases (l.id == i)) [
  | inl same ↦ ground (
    arith,
    same,
    u.0,
    ap (λ k. find_line k ls) ((==_iff l.id i).0 same),
    journal-boot_job i l r,
    journal-boot_jobs i ls (boot_job (job_of l) r) u.1,
  )
  | inr other ↦
      ground
        (arith, other, journal-boot_job i l r, journal-boot_jobs i ls (boot_job (job_of l) r) u.1)
]

overrule_last :
    (o : Option Line) → overrule (later o none) (line_state o) ≡ boot_states (line_state o)
unfolding overrule
overrule_last none = refl
overrule_last (some l) = ground arith

find_line-all :
    (i : ℕ) (journal : List Line)
    → find_line i (last_lines [] journal) ≡ later (last_line i journal) none
unfolding find_line
find_line-all i journal = find_line-last_lines i [] journal

boot_twice : (o : Option State) → boot_states (boot_states o) ≡ boot_states o
boot_twice none = refl
boot_twice (some s) = ground arith

rehydrate-IsJournalled :
    (journal : List Line) (runs : String → Option NewestRun) → IsJournalled (rehydrate journal runs)
unfolding recovered
rehydrate-IsJournalled journal runs =
    let (released, unowed) = rehydrate-released journal runs in
    record {
      apart = λ k e. absurd (ground (arith, e, released));
      owed = λ k e. absurd (ground (arith, e, unowed));
      says = λ i. ap boot_states (line_of_boot i) ∙ rw (released, unowed) refl;
    }
  where
    line_of_boot :
        (i : ℕ)
        → line_state (last_line i (rehydrate journal runs).journal)
          ≡ state_of i (rehydrate journal runs).jobs
    line_of_boot i =
        unfold rehydrate in
        journal-boot_jobs i (last_lines [] journal) (empty_runner journal runs)
          (last_lines-UniqueLines [] journal (unfold UniqueLines in tt))
        ∙ ap (λ o. overrule o (line_state (last_line i journal))) (find_line-all i journal)
        ∙ overrule_last (last_line i journal)
        ∙ sym (state_of-rehydrate i journal runs)

Reach-IsJournalled :
    {r s : Runner} → IsValid r → IsJournalled r → Reach r s → IsValid s × IsJournalled s
Reach-IsJournalled v h here = (v, h)
Reach-IsJournalled v h (next path step) =
    let (w, k) = Reach-IsJournalled v h path in (Step-IsValid step w, Step-IsJournalled step w k)

-- However a lane that was rebuilt from a journal has gone on, and wherever its server dies, also
-- between a change and the writing of its line: the runner rebuilt from the journal at that point is
-- valid. A job whose first line was not written is gone; a job whose newest change was not written is
-- orphaned, even if it was settled; of the others each settled job keeps its state, each queued or
-- running one is orphaned, and none is lost or invented.
pub crash_recovery :
    (journal : List Line) (runs runs' : String → Option NewestRun) {r : Runner}
    → Reach (rehydrate journal runs) r
    → IsValid (rehydrate r.journal runs')
      × ((i : ℕ) → state_of i (rehydrate r.journal runs').jobs ≡ recovered i r)
crash_recovery journal runs runs' {r} path =
    let (v, h) =
      Reach-IsJournalled (rehydrate-IsValid journal runs) (rehydrate-IsJournalled journal runs)
        path in
    (rehydrate-IsValid r.journal runs', λ i. state_of-rehydrate i r.journal runs' ∙ h.says i)
