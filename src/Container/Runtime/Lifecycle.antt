-- ===== src/Container/Runtime/Lifecycle.antt =====
-- The state machine of kernel/src/container/runtime.rs.
use oci_kernel.Prelude.{ℕ, ◌+◌, ◌≤◌, arith, List, [], ◌∷◌, Result, ok, err}
use oci_kernel.Container.Spec.{ContainerSpec}
use oci_kernel.Container.Runtime.{
  Container, ContainerState, LifecycleError, created, running, stopping, stopped, create, start,
  stop, mark_stopped,
}

-- The calls that change a container's state.
pub data Call : Type 0 where
  call_start call_stop call_mark_stopped : Call

unfoldable pub call : Call → Container → Container
call call_start c = (start c).1
call call_stop c = (stop c).1
call call_mark_stopped c = mark_stopped c

unfoldable pub calls : List Call → Container → Container
calls [] c = c
calls (k ∷ ks) c = calls ks (call k c)

abbrev pub succeeds : Result (Unit {0}) LifecycleError → ℕ
succeeds (ok _) = 1
succeeds (err _) = 0

-- How many of the calls of `start`, and of `stop`, succeed.
unfoldable pub starts : List Call → Container → ℕ
starts [] c = 0
starts (call_start ∷ ks) c = succeeds (start c).0 + starts ks (start c).1
starts (call_stop ∷ ks) c = starts ks (stop c).1
starts (call_mark_stopped ∷ ks) c = starts ks (mark_stopped c)

unfoldable pub stops : List Call → Container → ℕ
stops [] c = 0
stops (call_start ∷ ks) c = stops ks (start c).1
stops (call_stop ∷ ks) c = succeeds (stop c).0 + stops ks (stop c).1
stops (call_mark_stopped ∷ ks) c = stops ks (mark_stopped c)

-- How far along its life a container is.
unfoldable pub rank : ContainerState → ℕ
rank created = 0
rank running = 1
rank stopping = 2
rank stopped = 3

rank-call : (k : Call) (c : Container) → rank c.state ≤ rank (call k c).state
unfolding rank call start stop mark_stopped
rank-call call_start c = ground arith
rank-call call_stop c = ground arith
rank-call call_mark_stopped c = ground arith

-- No sequence of calls takes a container back to an earlier state.
pub rank-calls : (ks : List Call) (c : Container) → rank c.state ≤ rank (calls ks c).state
unfolding calls
rank-calls [] c = omega arith
rank-calls (k ∷ ks) c = omega (arith, rank-call k c, rank-calls ks (call k c))

-- The starts that a container can still make.
abbrev left_starts : ContainerState → ℕ
left_starts created = 1
left_starts running = 0
left_starts stopping = 0
left_starts stopped = 0

starts-left : (ks : List Call) (c : Container) → starts ks c ≤ left_starts c.state
unfolding starts start stop mark_stopped
starts-left [] c = ground arith
starts-left (call_start ∷ ks) c = ground (arith, starts-left ks (start c).1)
starts-left (call_stop ∷ ks) c = ground (arith, starts-left ks (stop c).1)
starts-left (call_mark_stopped ∷ ks) c = ground (arith, starts-left ks (mark_stopped c))

-- A running container can be stopped once more than the starts it still makes.
abbrev left_stops : ContainerState → ℕ
left_stops created = 0
left_stops running = 1
left_stops stopping = 0
left_stops stopped = 0

stops-starts : (ks : List Call) (c : Container) → stops ks c ≤ left_stops c.state + starts ks c
unfolding starts stops start stop mark_stopped
stops-starts [] c = ground arith
stops-starts (call_start ∷ ks) c = ground (arith, stops-starts ks (start c).1)
stops-starts (call_stop ∷ ks) c = ground (arith, stops-starts ks (stop c).1)
stops-starts (call_mark_stopped ∷ ks) c = ground (arith, stops-starts ks (mark_stopped c))

-- Of any sequence of calls on a new container at most one start succeeds, and no more stops than starts.
pub starts-create :
    (spec : ContainerSpec) (counter : ℕ) (ks : List Call)
    → (starts ks (create spec counter).0 ≤ 1)
      × (stops ks (create spec counter).0 ≤ starts ks (create spec counter).0)
unfolding create
starts-create spec counter ks =
    let c = (create spec counter).0 in (starts-left ks c, omega (arith, stops-starts ks c))
