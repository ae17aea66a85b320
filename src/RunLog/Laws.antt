-- ===== src/RunLog/Laws.antt =====
-- A logger agrees with its file: the numbering is gapless, the totals are the fold of the lines,
-- and a resumed logger is the one that wrote.
use rfp_engine.RunLog.Writer.{
  resume_from, first_of_ts, add_body, contract_error, landed, Body, wall_ms, resume, emit,
  new_logger, Record, is_gapless, gapless_from, accumulate, replay_totals, Logger,
}
use rfp_engine.Prelude.{
  sym, Option-cases, Option, none, inr, inl, some, Bool-cases, get_last?, ◌∙◌, ap, ◌⊎◌, Bool,
  length-append, suc, arith, ◌+◌, ◌==◌, ◌&&◌, [], length, ◌∷◌, refl, ◌++◌, true, ℕ, ◌≡◌, List,
}

-- The file beside the counters does not enter them.
abbrev pub SameCounts : Logger → Logger → Type 0
SameCounts a b = (a.totals ≡ b.totals) × (a.first_ts ≡ b.first_ts) × (a.last_ts ≡ b.last_ts)

-- What a logger holds beside its file is what its file says.
pub record IsFaithful (l : Logger) : Type 0 where
  pub numbered : is_gapless l.file ≡ true
  pub next : l.next_seq ≡ length l.file
  pub counts : SameCounts l (replay_totals l.file (new_logger l.file))

replay_totals-append :
    (rs : List Record) (r : Record) (l : Logger)
    → replay_totals (rs ++ r ∷ []) l ≡ accumulate r (replay_totals rs l)
unfolding replay_totals
replay_totals-append [] r l = refl
replay_totals-append (x ∷ rs) r l = replay_totals-append rs r (accumulate x l)

accumulate_same :
    (r : Record) (a b : Logger) → SameCounts a b → SameCounts (accumulate r a) (accumulate r b)
unfolding accumulate
accumulate_same r a b h = (ap (add_body r.body) h.0, ap (λ t. first_of_ts t r.ts) h.1, refl)

replay_same :
    (rs : List Record) (a b : Logger)
    → SameCounts a b
    → SameCounts (replay_totals rs a) (replay_totals rs b)
unfolding replay_totals
replay_same [] a b h = h
replay_same (r ∷ rs) a b h =
    replay_same rs (accumulate r a) (accumulate r b) (accumulate_same r a b h)

gapless-append :
    (n : ℕ) (rs : List Record) (r : Record)
    → gapless_from n (rs ++ r ∷ []) ≡ (gapless_from n rs && (r.seq == n + length rs))
unfolding gapless_from
gapless-append n [] r = ground arith
gapless-append n (x ∷ rs) r = ground (arith, gapless-append (suc n) rs r)

same_trans : (a b c : Logger) → SameCounts a b → SameCounts b c → SameCounts a c
same_trans a b c h k = (h.0 ∙ k.0, h.1 ∙ k.1, h.2 ∙ k.2)

-- The logger after a line has been appended and counted.
abbrev extended : Record → Logger → Logger
extended r l = accumulate r (record l { file = l.file ++ r ∷ []; next_seq = suc l.next_seq })

extended-counts :
    (r : Record) (l : Logger)
    → IsFaithful l
    → SameCounts (extended r l) (replay_totals (l.file ++ r ∷ []) (new_logger (l.file ++ r ∷ [])))
extended-counts r l h =
    let fresh = new_logger (l.file ++ r ∷ []) in
    let grown : Logger = record l { file = l.file ++ r ∷ []; next_seq = suc l.next_seq } in
    rw (replay_totals-append l.file r fresh) (
      accumulate_same r _ (replay_totals l.file fresh) (
        same_trans grown (replay_totals l.file (new_logger l.file)) (replay_totals l.file fresh)
          h.counts (replay_same l.file (new_logger l.file) fresh (refl, refl, refl))))

extended-numbered :
    (r : Record) (l : Logger)
    → r.seq ≡ l.next_seq
    → IsFaithful l
    → is_gapless (l.file ++ r ∷ []) ≡ true
unfolding is_gapless
extended-numbered r l e h = rw (gapless-append 0 l.file r, h.numbered) (ground (arith, h.next))

-- Appending one line with the next number keeps a faithful logger faithful.
extended-IsFaithful :
    (r : Record) (l : Logger) → r.seq ≡ l.next_seq → IsFaithful l → IsFaithful (extended r l)
extended-IsFaithful r l e h = record {
  numbered = unfold accumulate in extended-numbered r l e h;
  next = unfold accumulate in omega (arith, h.next, length-append l.file (r ∷ []));
  counts = unfold accumulate in extended-counts r l h;
}

gapless-last :
    (n : ℕ) (rs : List Record) (r : Record)
    → gapless_from n rs ≡ true
    → get_last? rs ≡ some r
    → r.seq + 1 ≡ n + length rs
unfolding gapless_from
gapless-last n [] r h e = cc
gapless-last n (x ∷ []) r h e = ground arith
gapless-last n (x ∷ y ∷ rs) r h e = ground (arith, gapless-last (suc n) (y ∷ rs) r)

replay-file : (rs : List Record) (l : Logger) → (replay_totals rs l).file ≡ l.file
unfolding replay_totals accumulate
replay-file [] l = refl
replay-file (r ∷ rs) l = replay-file rs (accumulate r l)

-- Emitting, whether the line lands or is refused, keeps the logger in agreement with its file: the
-- numbers of the lines stay gapless, and the counters are the totals of the lines. A line that
-- lands is the last of the file and answers its number; a refused line changes nothing.
pub emit-IsFaithful :
    (validate : Record → Bool) (now : ℕ) (body : Body) (l : Logger)
    → IsFaithful l
    → let after = emit validate now body l in
      IsFaithful after.1
      × (((after.0 ≡ landed (length l.file))
            × (after.1.file ≡ l.file ++ record { seq = length l.file; ts = now; body = body } ∷ []))
          ⊎ ((after.0 ≡ contract_error) × (after.1 ≡ l)))
unfolding emit
emit-IsFaithful validate now body l h =
    let r : Record = record { seq = l.next_seq; ts = now; body = body } in
    elim (Bool-cases (validate r)) [
      | inl ok ↦ rw ok (
        extended-IsFaithful r l refl h,
        inl (ap landed h.next, unfold accumulate in rw h.next refl),
      )
      | inr bad ↦ rw bad (h, inr (refl, refl))
    ]

IsFaithful-on :
    (l : Logger) (f : List Record)
    → l.file ≡ f
    → is_gapless f ≡ true
    → l.next_seq ≡ length f
    → SameCounts l (replay_totals f (new_logger f))
    → IsFaithful l
IsFaithful-on l f e g n c = record { numbered = rw e g; next = rw e n; counts = rw e c }

last-none : (rs : List Record) → get_last? rs ≡ none → rs ≡ []
last-none [] h = refl
last-none (x ∷ []) h = cc
last-none (x ∷ y ∷ rs) h = absurd (full y rs h)
  where
    full : (y : Record) (rs : List Record) → get_last? (y ∷ rs) ≡ none → ⊥
    full y [] h = cc
    full y (z ∷ rs) h = full z rs h

resumed-file : (f : List Record) → (resume_from (get_last? f) f).file ≡ f
resumed-file f = elim (Option-cases (get_last? f)) [
  | inl e ↦ rw e refl
  | inr (r, e) ↦ rw e (replay-file f (new_logger f))
]

-- What `resume` answers for each last record.
resumed :
    (o : Option Record) (f : List Record)
    → get_last? f ≡ o
    → is_gapless f ≡ true
    → IsFaithful (resume_from o f) × SameCounts (resume_from o f) (replay_totals f (new_logger f))
unfolding is_gapless
resumed none f e g = rw (last-none f e) (
  IsFaithful-on (new_logger []) [] refl refl refl (unfold replay_totals in (refl, refl, refl)),
  unfold replay_totals in (refl, refl, refl),
)
resumed (some r) f e g = (
  IsFaithful-on (resume_from (some r) f) f (replay-file f (new_logger f)) g
      (omega (arith, gapless-last 0 f r g e)) (refl, refl, refl),
  (refl, refl, refl),
)

-- A logger that resumes on the file of a faithful logger continues it: it is faithful, with the
-- same next number, the same totals and the same span.
pub resume_lem :
    (l : Logger)
    → IsFaithful l
    → let r = resume l.file in
      IsFaithful r × (r.next_seq ≡ l.next_seq) × (r.totals ≡ l.totals) × (wall_ms r ≡ wall_ms l)
unfolding resume wall_ms
resume_lem l h =
    let (faithful, same) = resumed (get_last? l.file) l.file refl h.numbered in
    let file_same : (resume_from (get_last? l.file) l.file).file ≡ l.file = resumed-file l.file in
    (
      faithful,
      faithful.next ∙ ap length file_same ∙ sym h.next,
      same.0 ∙ sym h.counts.0,
      rw (same.1, same.2, h.counts.1, h.counts.2) refl,
    )
