-- ===== src/Process/Scheduler/Examples.antt =====
-- Runs of kernel/src/process/scheduler.rs, and its theorems at a concrete queue.
use oci_kernel.Prelude.{ℕ, suc, ◌^◌, ◌<◌, ◌≡◌, refl, true, some, [], ◌∷◌, arith, length}
use oci_kernel.Process.Scheduler.{Scheduler, ready, blocked, running, new, add, next, set_state}
use oci_kernel.Process.Scheduler.Round.{runs_at}
use oci_kernel.Process.Scheduler.Fair.{after, next_fair}

abbrev three : Scheduler
three = add (add (add new 1 blocked) 2 ready) 3 running

abbrev at_two : Scheduler
at_two = record { queue = (1, blocked) ∷ (2, ready) ∷ (3, running) ∷ []; current = 1 }

first_next : next three ≡ (some 2, at_two)
unfolding next new add
first_next = refl

three_fits : length three.queue < 2 ^ 64
unfolding new add
three_fits = omega arith

three-length : length three.queue ≡ 3
unfolding new add
three-length = refl

two_runs : runs_at three.queue 2 ≡ true
unfolding runs_at new add
two_runs = refl

next_fair_example :
    (k : ℕ) × (k < length three.queue)
    × ((after (suc k) three).current ≡ 2)
    × ((after (suc k) three).queue ≡ three.queue)
next_fair_example = next_fair three 2 three_fits (omega (arith, three-length)) two_runs

-- A blocked process is passed over.
skips_blocked : (next (set_state at_two 3 blocked)).0 ≡ some 2
unfolding next set_state
skips_blocked = refl
