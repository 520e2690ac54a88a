-- ===== src/Process/Scheduler/Round.antt =====
-- What one call of `next` of kernel/src/process/scheduler.rs does.
use oci_kernel.Prelude.{
  ℕ, zero, suc, ◌+◌, ◌-◌, ◌%◌, ◌^◌, ◌<◌, ◌≡◌, refl, ap, sym, ◌∙◌, Bool, true, false, Bool-cases,
  inl, inr, Option, none, some, List, arith, ◌==◌, ◌↔◌, Option-cases, ltb, length, get_elem?,
  get_elem?-some,
}
use native.Mathlib.Nat.{mod-add-mod, add-mod_right, mod-eq_of_lt, mod-lt}
use oci_kernel.Process.Scheduler.{ProcessState, Scheduler, is_runnable, step, scan, next}

abbrev pub Queue : Type 0
Queue = List (ℕ × ProcessState)

abbrev entry_runs : Option (ℕ × ProcessState) → Bool
entry_runs none = false
entry_runs (some (pid, state)) = is_runnable state

-- Whether the entry at an index may run.
unfoldable pub runs_at : Queue → ℕ → Bool
runs_at q i = entry_runs (get_elem? q i)

-- The index that the next round looks at first, and the one `k` places on in the circle.
abbrev pub start : Scheduler → ℕ
start s = step (length s.queue) s.current

abbrev pub ahead : Scheduler → ℕ → ℕ
ahead s k = (start s + k) % length s.queue

pub step-lt : (n current : ℕ) → 0 < n → step n current < n
step-lt n current h = grind arith

pub ahead_zero : (a n : ℕ) → a < n → (a + 0) % n ≡ a
ahead_zero a n h = grind arith

pub ahead_suc : (a n k : ℕ) → a < n → n < 2 ^ 64 → ((a + 1) % 2 ^ 64 % n + k) % n ≡ (a + suc k) % n
ahead_suc a n k h l =
    let e : (a + 1) % 2 ^ 64 ≡ a + 1 = omega arith in
    rw (e, mod-add-mod) (ap (λ t. t % n) (omega arith))

abbrev move : Scheduler → Scheduler
move s = record s { current = start s }

module _ (rounds : ℕ) (s : Scheduler) (pid : ℕ) (state : ProcessState)
    (e : get_elem? s.queue (start s) ≡ some (pid, state)) where
  scan-run : is_runnable state ≡ true → scan (suc rounds) s ≡ (some pid, move s)
  unfolding scan
  scan-run h = rw (e, scan) (rw h refl)

  scan-skip : is_runnable state ≡ false → scan (suc rounds) s ≡ scan rounds (move s)
  unfolding scan
  scan-skip h = rw (e, scan) (rw h refl)

-- What a round that finds a process did: it passed over entries that may not run.
pub record IsScheduled (s : Scheduler) (rounds pid : ℕ) (s' : Scheduler) : Type 0 where
  pub skipped : ℕ
  pub bound : skipped < rounds
  pub queue : s'.queue ≡ s.queue
  pub at : s'.current ≡ ahead s skipped
  pub state : ProcessState
  pub entry : get_elem? s.queue s'.current ≡ some (pid, state)
  pub runs : is_runnable state ≡ true
  pub passed : (k : ℕ) → k < skipped → runs_at s.queue (ahead s k) ≡ false

module _ (s : Scheduler) (pos : 0 < length s.queue) (fits : length s.queue < 2 ^ 64) where
  start-lt : start s < length s.queue
  start-lt = step-lt (length s.queue) s.current pos

  ahead_first : ahead s 0 ≡ start s
  ahead_first = ahead_zero (start s) (length s.queue) start-lt

  ahead_next : (k : ℕ) → ahead (move s) k ≡ ahead s (suc k)
  ahead_next k = ahead_suc (start s) (length s.queue) k start-lt fits

  first_passed :
      (pid : ℕ) (state : ProcessState)
      → get_elem? s.queue (start s) ≡ some (pid, state)
      → is_runnable state ≡ false
      → runs_at s.queue (ahead s 0) ≡ false
  unfolding runs_at
  first_passed pid state e h = rw (ahead_first, e) h

  later_passed :
      (n : ℕ)
      → runs_at s.queue (ahead s 0) ≡ false
      → ((k : ℕ) → k < n → runs_at s.queue (ahead (move s) k) ≡ false)
      → (k : ℕ) → k < suc n
      → runs_at s.queue (ahead s k) ≡ false
  later_passed n first later zero h = first
  later_passed n first later (suc k) h = rw (ahead_next k) at (later k (omega arith))

scan-IsScheduled :
    (rounds : ℕ) (s : Scheduler) (pid : ℕ) (s' : Scheduler)
    → 0 < length s.queue
    → length s.queue < 2 ^ 64
    → scan rounds s ≡ (some pid, s')
    → IsScheduled s rounds pid s'
scan-IsScheduled zero s pid s' pos fits e = unfold scan in absurd (cc (ap (λ t. t.0) e))
scan-IsScheduled (suc rounds) s pid s' pos fits e =
    let ((p, state), here) = get_elem?-some s.queue (start s) (start-lt s pos fits) in
    elim (Bool-cases (is_runnable state)) [
      | inl runs ↦
          let got = sym (scan-run rounds s p state here runs) ∙ e in
          let same : p ≡ pid = cc (ap (λ t. t.0) got) in
          rw (← same, ← ap (λ t. t.1) got)
            (record {
              skipped = 0;
              bound = omega arith;
              queue = refl;
              at = sym (ahead_first s pos fits);
              state = state;
              entry = here;
              runs = runs;
              passed = λ k h. absurd (omega arith);
            })
      | inr waits ↦
          let r =
            scan-IsScheduled rounds (move s) pid s' pos fits
              (sym (scan-skip rounds s p state here waits) ∙ e) in
          record {
            skipped = suc r.skipped;
            bound = let b = r.bound in omega arith;
            queue = r.queue;
            at = r.at ∙ ahead_next s pos fits r.skipped;
            state = r.state;
            entry = r.entry;
            runs = r.runs;
            passed =
                later_passed s pos fits r.skipped (first_passed s pos fits p state here waits)
                  (r.passed);
          }
    ]

scan-none :
    (rounds : ℕ) (s : Scheduler)
    → 0 < length s.queue
    → length s.queue < 2 ^ 64
    → (scan rounds s).0 ≡ none
    → (k : ℕ) → k < rounds
    → runs_at s.queue (ahead s k) ≡ false
scan-none zero s pos fits e = λ k h. absurd (omega arith)
scan-none (suc rounds) s pos fits e =
    let ((p, state), here) = get_elem?-some s.queue (start s) (start-lt s pos fits) in
    elim (Bool-cases (is_runnable state)) [
      | inl runs ↦ absurd (cc (ap (λ t. t.0) (scan-run rounds s p state here runs), e))
      | inr waits ↦ later_passed s pos fits rounds (first_passed s pos fits p state here waits) (
          scan-none rounds (move s) pos fits
            (sym (ap (λ t. t.0) (scan-skip rounds s p state here waits)) ∙ e))
    ]

-- `next` on a queue that is not empty makes a full round.
next-scan : (s : Scheduler) → 0 < length s.queue → next s ≡ scan (length s.queue) s
unfolding next
next-scan s pos = let e : (length s.queue == 0) ≡ false = ground arith in rw e refl

next-empty : (s : Scheduler) → length s.queue ≡ 0 → next s ≡ (none, s)
unfolding next
next-empty s h = let e : (length s.queue == 0) ≡ true = ground arith in rw e refl

-- A process that `next` returns may run, and it is the first such one after the current index in
-- the circle of the queue, which stays as it was.
pub next-IsScheduled :
    (s : Scheduler) (pid : ℕ) (s' : Scheduler)
    → length s.queue < 2 ^ 64
    → next s ≡ (some pid, s')
    → IsScheduled s (length s.queue) pid s'
next-IsScheduled s pid s' fits e = elim (Bool-cases (length s.queue == 0)) [
  | inl empty ↦ absurd (cc (ap (λ t. t.0) (next-empty s (ground arith)), ap (λ t. t.0) e))
  | inr filled ↦
      let pos : 0 < length s.queue = ground arith in
      scan-IsScheduled (length s.queue) s pid s' pos fits (sym (next-scan s pos) ∙ e)
]

-- Every index is some number of places ahead in the circle.
pub ahead_surjective : (a n i : ℕ) → a < n → i < n → (e : ℕ) × (e < n) × ((a + e) % n ≡ i)
ahead_surjective a n i h l = elim (Bool-cases (ltb i a)) [
  | inl before ↦ (i + n - a, ground arith, ground (arith, add-mod_right i n, mod-eq_of_lt l))
  | inr after ↦ (i - a, ground arith, ground (arith, mod-eq_of_lt l))
]

runs_at_current :
    (s : Scheduler) (rounds pid : ℕ) (s' : Scheduler)
    → IsScheduled s rounds pid s'
    → runs_at s.queue s'.current ≡ true
unfolding runs_at
runs_at_current s rounds pid s' r = rw r.entry r.runs

-- `next` finds nothing exactly when no entry of the queue may run.
pub next-none_iff :
    (s : Scheduler)
    → length s.queue < 2 ^ 64
    → ((next s).0 ≡ none) ↔ ((i : ℕ) → i < length s.queue → runs_at s.queue i ≡ false)
next-none_iff s fits = (
  (λ e i h.
      let pos : 0 < length s.queue = omega arith in
      let (k, l, same) = ahead_surjective (start s) (length s.queue) i (start-lt s pos fits) h in
      rw same at
        (scan-none (length s.queue) s pos fits (sym (ap (λ t. t.0) (next-scan s pos)) ∙ e) k l)),
  (λ idle. elim (Option-cases (next s).0) [
    | inl n ↦ n
    | inr (pid, e) ↦
        let s' = (next s).1 in
        let r = next-IsScheduled s pid s' fits (λ i. (e i, s')) in
        let bound = r.bound in
        let inside : s'.current < length s.queue =
          rw r.at (mod-lt (start s + r.skipped) (omega arith)) in
        absurd (cc (runs_at_current s (length s.queue) pid s' r, idle s'.current inside))
  ]),
)
