-- ===== src/Contracts/Journal.antt =====
-- A journal written by `append_fsync` (engine/contracts/atomic.py) and read by `read_jsonl`
-- (engine/contracts/jsonl.py), whatever crashes cut its writers.
use rfp_engine.Prelude.{
  ◌∙◌, refl, Option-cases, sym, inr, eq_iff, arith, inl, Bool-cases, ap, ◌≡◌, Bool, true, false,
  none, some, Option, String, List, [], ◌∷◌, ◌++◌, str_eq, All,
}
use rfp_engine.Workspace.Pursuit.Types.{ok-injective, Result, ok, raise, Result-cases}
use rfp_engine.Contracts.Jsonl.{
  cut_at, ended, File, Repair, read_jsonl, read_whole, read_tail, repair_tail, append_fsync,
  append_cut,
}

-- A call that returned, and one that a crash cut after part of its line.
pub data Attempt : Type 0 where
  lands cut : String → Attempt

module _ {Rec : Type 0} (json_loads : String → Option Rec) (strip : String → String) where
  abbrev file_or : File → Result (File × Option Repair) → File
  file_or f (ok (g, did)) = g
  file_or f (raise e) = f

  -- An attempt under the lane's lock, which asks for the repair.
  unfoldable pub attempt : Attempt → File → File
  attempt (lands line) f = file_or f (append_fsync json_loads strip true line f)
  attempt (cut fragment) f = append_cut json_loads strip true fragment f

  unfoldable pub journal : List Attempt → File → File
  unfolding attempt
  journal [] f = f
  journal (a ∷ more) f = journal more (attempt a f)

  -- The record of an attempt: a fragment that parses is a record without its line feed.
  abbrev pub record_of : Attempt → Option Rec
  record_of (lands line) = json_loads line
  record_of (cut fragment) = json_loads fragment

  abbrev or_skip : Option Rec → List Rec → List Rec
  or_skip none rs = rs
  or_skip (some r) rs = r ∷ rs

  unfoldable pub records_of : List Attempt → List Rec
  records_of [] = []
  records_of (a ∷ more) = or_skip (record_of a) (records_of more)

  or_skip-append :
      (o : Option Rec) (rs ss : List Rec) → (rs ++ or_skip o []) ++ ss ≡ rs ++ or_skip o ss
  or_skip-append none [] ss = refl
  or_skip-append (some r) [] ss = refl
  or_skip-append o (r ∷ rs) ss = ap (◌∷◌ r) (or_skip-append o rs ss)

  append_nil : (rs : List Rec) → rs ++ [] ≡ rs
  append_nil [] = refl
  append_nil (r ∷ rs) = ap (◌∷◌ r) (append_nil rs)

  -- The lines that landed are records.
  abbrev pub Writes : Attempt → Type 0
  Writes (lands line) = (r : Rec) × (json_loads line ≡ some r)
  Writes (cut fragment) = Unit {0}

  module _ (strip-nil : strip "" ≡ "")
      (blank-loads : (t : String) → strip t ≡ "" → json_loads t ≡ none) where
    read_whole-append :
        (ws : List String) (l : String) (rs : List Rec) (r : Rec)
        → read_whole json_loads strip ws ≡ ok rs
        → json_loads l ≡ some r
        → read_whole json_loads strip (ws ++ l ∷ []) ≡ ok (rs ++ r ∷ [])
    unfolding read_whole
    read_whole-append [] l rs r h reads = elim (Bool-cases (str_eq (strip l) "")) [
      | inl blank ↦ absurd (ground (arith, blank-loads l, eq_iff (strip l) ""))
      | inr full ↦ rw (sym (ok-injective [] rs h)) (ground arith)
    ]
    read_whole-append (w ∷ ws) l rs r h reads =
        elim (Result-cases (read_whole json_loads strip ws)) [
          | inl (e, bad) ↦ elim (Option-cases (json_loads w)) [
            | inl torn ↦ absurd (ground arith)
            | inr (q, got) ↦ absurd (ground arith)
          ]
          | inr (qs, good) ↦
              let rest = read_whole-append ws l qs r good reads in
              elim (Bool-cases (str_eq (strip w) "")) [
                | inl blank ↦
                    let same : read_whole json_loads strip ws ≡ ok rs = ground arith in
                    rw blank (read_whole-append ws l rs r same reads)
                | inr full ↦ elim (Option-cases (json_loads w)) [
                  | inl torn ↦ absurd (ground arith)
                  | inr (q, got) ↦
                      let same : (q ∷ qs) ≡ rs = ok-injective (q ∷ qs) rs (ground arith) in
                      rw (full, got, rest) (ap (λ x. ok (x ++ r ∷ [])) same)
                ]
              ]
        ]

    not_blank : (t : String) (r : Rec) → json_loads t ≡ some r → str_eq (strip t) "" ≡ false
    not_blank t r got = elim (Bool-cases (str_eq (strip t) "")) [
      | inl blank ↦ absurd (ground (arith, blank-loads t, eq_iff (strip t) ""))
      | inr full ↦ full
    ]

    read_all :
        (f : File) (qs rs : List Rec) (t : Bool)
        → read_whole json_loads strip f.whole ≡ ok qs
        → read_jsonl json_loads strip f ≡ ok (record { records = rs; torn = t })
        → (read_tail json_loads strip f.tail qs).records ≡ rs
    unfolding read_jsonl
    read_all f qs rs t good h =
        let read : read_jsonl json_loads strip f ≡ ok (read_tail json_loads strip f.tail qs) =
          rw (read_jsonl, good) refl in
        ap (λ x. x.records)
          (ok-injective (read_tail json_loads strip f.tail qs) (record { records = rs; torn = t })
            (sym read ∙ h))

    -- After the repair, the tail is gone and every record is still there.
    repair_tail-read :
        (f : File) (rs : List Rec) (t : Bool)
        → read_jsonl json_loads strip f ≡ ok (record { records = rs; torn = t })
        → (g : File) × (did : Option Repair) × (repair_tail json_loads strip true f ≡ ok (g, did))
          × (g.tail ≡ "")
          × (read_whole json_loads strip g.whole ≡ ok rs)
    unfolding repair_tail read_jsonl
    repair_tail-read f rs t h = elim (Result-cases (read_whole json_loads strip f.whole)) [
      | inl (e, bad) ↦ absurd (ground arith)
      | inr (qs, good) ↦ elim (Bool-cases (str_eq f.tail "")) [
        | inl clean ↦ (
          f,
          none,
          ground arith,
          (eq_iff f.tail "").0 clean,
          let empty : strip f.tail ≡ "" = ap strip ((eq_iff f.tail "").0 clean) ∙ strip-nil in
              good ∙ ap ok (ground (arith, read_all f qs rs t good h, eq_iff (strip f.tail) "")),
        )
        | inr dirty ↦ elim (Option-cases (json_loads f.tail)) [
          | inl torn ↦ (
            record f { tail = "" },
            some Repair.torn_tail_truncated,
            ground arith,
            refl,
            good ∙ ap ok (ground (arith, read_all f qs rs t good h)),
          )
          | inr (r, got) ↦ (
            record { whole = f.whole ++ f.tail ∷ []; tail = "" },
            some Repair.tail_newline_repaired,
            ground arith,
            refl,
            let full : str_eq (strip f.tail) "" ≡ false = not_blank f.tail r got in
                read_whole-append f.whole f.tail qs r good got
                ∙ ap ok (ground (arith, read_all f qs rs t good h)),
          )
        ]
      ]
    ]

    read-clean :
        (g : File) (qs : List Rec)
        → g.tail ≡ ""
        → read_whole json_loads strip g.whole ≡ ok qs
        → read_jsonl json_loads strip g ≡ ok (record { records = qs; torn = false })
    unfolding read_jsonl
    read-clean g qs clean good =
        let empty : strip g.tail ≡ "" = ap strip clean ∙ strip-nil in
        rw good (ground (arith, eq_iff (strip g.tail) ""))

    read-cut :
        (g : File) (qs : List Rec) (fragment : String)
        → read_whole json_loads strip g.whole ≡ ok qs
        → (u : Bool) × (read_jsonl json_loads strip (record g { tail = fragment })
            ≡ ok (record { records = qs ++ or_skip (json_loads fragment) []; torn = u }))
    unfolding read_jsonl
    read-cut g qs fragment good = elim (Option-cases (json_loads fragment)) [
      | inr (r, got) ↦ (false, rw (good, got, not_blank fragment r got) refl)
      | inl torn ↦ elim (Bool-cases (str_eq (strip fragment) "")) [
        | inl blank ↦ (false, rw (good, torn, blank, append_nil qs) refl)
        | inr full ↦ (true, rw (good, torn, full, append_nil qs) refl)
      ]
    ]

    -- An attempt adds its record, if it has one, and no other.
    pub attempt-read :
        (a : Attempt) (f : File) (rs : List Rec) (t : Bool)
        → Writes a
        → read_jsonl json_loads strip f ≡ ok (record { records = rs; torn = t })
        → (u : Bool) × (read_jsonl json_loads strip (attempt a f)
            ≡ ok (record { records = rs ++ or_skip (record_of a) []; torn = u }))
    unfolding attempt append_fsync append_cut
    attempt-read (lands line) f rs t (r, writes) h =
        let (g, did, mended, clean, good) = repair_tail-read f rs t h in
        let after = read_whole-append g.whole line rs r good writes in
        (
          false,
          ap (λ x. read_jsonl json_loads strip (file_or f (ended json_loads strip line x))) mended
              ∙ read-clean (record g { whole = g.whole ++ line ∷ [] }) (rs ++ r ∷ []) clean after
              ∙ rw writes refl,
        )
    attempt-read (cut fragment) f rs t w h =
        let (g, did, mended, clean, good) = repair_tail-read f rs t h in
        let (u, read) = read-cut g rs fragment good in
        (
          u,
          ap (λ x. read_jsonl json_loads strip (cut_at json_loads strip fragment f x)) mended
              ∙ read,
        )

    -- From a file that reads, every record that a writer landed is read back, in order, and with it
    -- each one that a crash cut only of its line feed, and nothing else, however many calls crashes
    -- cut between them, provided that what lands parses and that blank text does not: no record is
    -- lost to a torn line, and none is fused with one.
    pub journal_read :
        (more : List Attempt) (f : File) (rs : List Rec) (t : Bool)
        → All Writes more
        → read_jsonl json_loads strip f ≡ ok (record { records = rs; torn = t })
        → (u : Bool) × (read_jsonl json_loads strip (journal more f)
            ≡ ok (record { records = rs ++ records_of more; torn = u }))
    unfolding journal records_of
    journal_read [] f rs t ws h = (t, rw (append_nil rs) h)
    journal_read (a ∷ more) f rs t (w, ws) h =
        let (v, once) = attempt-read a f rs t w h in
        let (u, rest) =
          journal_read more (attempt a f) (rs ++ or_skip (record_of a) []) v ws once in
        (
          u,
          rest
              ∙ ap (λ x. ok (record { records = x; torn = u }))
                  (or_skip-append (record_of a) rs (records_of more)),
        )
