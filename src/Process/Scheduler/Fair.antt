-- ===== src/Process/Scheduler/Fair.antt =====
-- Fairness of kernel/src/process/scheduler.rs: no runnable process waits for more than one round.
use oci_kernel.Prelude.{
  ℕ, zero, suc, ◌+◌, ◌-◌, ◌%◌, ◌^◌, ◌≤◌, ◌<◌, ◌≡◌, ap, ◌∙◌, true, Bool-cases, Option-cases, inl,
  inr, arith, ltb, ◌==◌, length,
}
use native.Mathlib.Nat.{mod-add-mod, mod-lt}
use oci_kernel.Process.Scheduler.{Scheduler, step, next}
use oci_kernel.Process.Scheduler.Round.{
  runs_at, start, ahead, step-lt, ahead_suc, ahead_surjective, IsScheduled, next-IsScheduled,
  next-none_iff,
}

-- The scheduler after `n` calls of `next`.
pub after : ℕ → Scheduler → Scheduler
after zero s = s
after (suc n) s = after n (next s).1

-- Within `e + 1` calls the current index is `i`.
abbrev Visits : ℕ → ℕ → Scheduler → Type 0
Visits e i s =
    (k : ℕ) × (k ≤ e) × ((after (suc k) s).current ≡ i) × ((after (suc k) s).queue ≡ s.queue)

-- One call that stops before the entry brings it closer.
closer :
    (a n d e c : ℕ)
    → d < e
    → e < n
    → n < 2 ^ 64
    → c ≡ (a + d) % n
    → (step n c + (e - d - 1)) % n ≡ (a + e) % n
closer a n d e c h l fits at =
    let low : c < n = rw at (mod-lt (a + d) (omega arith)) in
    let same : a + d + suc (e - d - 1) ≡ a + e = omega arith in
    ahead_suc c n (e - d - 1) low fits
    ∙ rw at (mod-add-mod (a + d) n (suc (e - d - 1)) ∙ ap (λ t. t % n) same)

not_passed :
    (s : Scheduler) (pid : ℕ) (s' : Scheduler) (e : ℕ)
    → runs_at s.queue (ahead s e) ≡ true
    → (r : IsScheduled s (length s.queue) pid s') → r.skipped ≤ e
not_passed s pid s' e runs r = elim (Bool-cases (ltb e r.skipped)) [
  | inl over ↦ absurd (cc (r.passed e (ground arith), runs))
  | inr within ↦ ground arith
]

-- With a runnable entry in the queue, `next` schedules some process.
scheduled :
    (s : Scheduler) (e : ℕ)
    → e < length s.queue
    → length s.queue < 2 ^ 64
    → runs_at s.queue (ahead s e) ≡ true
    → (pid : ℕ) × IsScheduled s (length s.queue) pid (next s).1
scheduled s e l fits runs = elim (Option-cases (next s).0) [
  | inl n ↦
      absurd
        (cc (runs, (next-none_iff s fits).0 n (ahead s e) (mod-lt (start s + e) (omega arith))))
  | inr (pid, p) ↦ (pid, next-IsScheduled s pid (next s).1 fits (λ i. (p i, (next s).1)))
]

Visits-now :
    (s : Scheduler) (e i pid : ℕ)
    → ahead s e ≡ i
    → (r : IsScheduled s (length s.queue) pid (next s).1) → r.skipped ≡ e
    → Visits e i s
unfolding after
Visits-now s e i pid at r same = (0, omega arith, r.at ∙ rw same at, r.queue)

visits :
    (bound e i : ℕ) (s : Scheduler)
    → e ≤ bound
    → e < length s.queue
    → length s.queue < 2 ^ 64
    → ahead s e ≡ i
    → runs_at s.queue (ahead s e) ≡ true
    → Visits e i s
unfolding after
visits zero e i s b l fits at runs =
    let (pid, r) = scheduled s e l fits runs in
    let le = not_passed s pid (next s).1 e runs r in Visits-now s e i pid at r (omega arith)
visits (suc bound) e i s b l fits at runs =
    let (pid, r) = scheduled s e l fits runs in
    let le = not_passed s pid (next s).1 e runs r in
    elim (Bool-cases (r.skipped == e)) [
      | inl same ↦ Visits-now s e i pid at r (ground arith)
      | inr other ↦
          let s' = (next s).1 in
          let e' = e - r.skipped - 1 in
          let size : length s'.queue ≡ length s.queue = ap length r.queue in
          let near : ahead s' e' ≡ ahead s e =
            rw size (
              closer (start s) (length s.queue) r.skipped e s'.current (ground arith) l fits
                r.at) in
          let (k, kl, there, queue) =
            visits bound e' i s' (ground arith) (omega arith) (omega arith) (near ∙ at)
              (rw (near, r.queue) runs) in
          (suc k, ground arith, there, queue ∙ r.queue)
    ]

-- An entry that may run is reached within as many calls of `next` as the queue has entries, if no
-- state changes in between.
pub next_fair :
    (s : Scheduler) (i : ℕ)
    → length s.queue < 2 ^ 64
    → i < length s.queue
    → runs_at s.queue i ≡ true
    → (k : ℕ) × (k < length s.queue)
      × ((after (suc k) s).current ≡ i)
      × ((after (suc k) s).queue ≡ s.queue)
next_fair s i fits l runs =
    let (e, el, at) =
      ahead_surjective (start s) (length s.queue) i
        (step-lt (length s.queue) s.current (omega arith)) l in
    let (k, kl, there, queue) = visits e e i s (omega arith) el fits at (rw at runs) in
    (k, omega arith, there, queue)
