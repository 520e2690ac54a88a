-- ===== src/Net/Web/Stuck.antt =====
-- A client that closes first stops the responder of kernel/src/net/mod.rs.
use mathlib.Core.List.{append-nil, append_assoc}
use oci_kernel.Prelude.{
  ℕ, ◌≡◌, refl, sym, ap, ◌∙◌, arith, Bool, true, false, some, List, [], ◌∷◌, ◌++◌, push,
}
use oci_kernel.Net.Web.{
  close_wait, Call, polled, listened, received, sent, shut, Tcp, Statics, poll_stack, poll, react,
  serve_locked, serve_http_once, Event, serves, polls, run,
}

-- Polls alone.
unfoldable pub are_polls : List Call → Bool
are_polls [] = true
are_polls (polled t ∷ cs) = are_polls cs
are_polls (listened h port ∷ cs) = false
are_polls (received h ∷ cs) = false
are_polls (sent h bytes ∷ cs) = false
are_polls (shut h ∷ cs) = false

-- The statics `s'` come from `s` by polls, and the socket `h` waits to be closed.
pub record IsStuck (tcp : Tcp) (h : ℕ) (s s' : Statics) : Type 0 where
  pub polls_since : List Call
  pub appended : s'.calls ≡ s.calls ++ polls_since
  pub only_polls : are_polls polls_since ≡ true
  pub waits : tcp.state s'.calls h ≡ close_wait
  pub same_handle : s'.http_handle ≡ some h

are_polls-append :
    (xs : List Call) (t : ℕ) → are_polls xs ≡ true → are_polls (xs ++ (polled t ∷ [])) ≡ true
unfolding are_polls
are_polls-append [] t h = refl
are_polls-append (polled u ∷ cs) t h = are_polls-append cs t h
are_polls-append (listened i port ∷ cs) t h = absurd (ground arith)
are_polls-append (received i ∷ cs) t h = absurd (ground arith)
are_polls-append (sent i bytes ∷ cs) t h = absurd (ground arith)
are_polls-append (shut i ∷ cs) t h = absurd (ground arith)

module _ (tcp : Tcp) (h : ℕ)
    (waits_on : (calls : List Call) (t : ℕ)
      → tcp.state calls h ≡ close_wait
      → tcp.state (push calls (polled t)) h ≡ close_wait) where
  poll_stack-IsStuck : (s s' : Statics) → IsStuck tcp h s s' → IsStuck tcp h s (poll_stack s')
  unfolding poll_stack
  poll_stack-IsStuck s s' v = record {
    polls_since = push v.polls_since (polled s'.net_ticks);
    appended =
        ap (λ cs. cs ++ (polled s'.net_ticks ∷ [])) v.appended
        ∙ append_assoc s.calls v.polls_since (polled s'.net_ticks ∷ []);
    only_polls = are_polls-append v.polls_since s'.net_ticks v.only_polls;
    waits = waits_on s'.calls s'.net_ticks v.waits;
    same_handle = v.same_handle;
  }

  poll-IsStuck :
      (unlocked : Bool) (s s' : Statics) → IsStuck tcp h s s' → IsStuck tcp h s (poll unlocked s')
  unfolding poll
  poll-IsStuck unlocked s s' v = ground (arith, v, poll_stack-IsStuck s s' v)

  serve_http_once-IsStuck :
      (unlocked : Bool) (s s' : Statics)
      → IsStuck tcp h s s'
      → IsStuck tcp h s (serve_http_once tcp unlocked s')
  serve_http_once-IsStuck unlocked s s' v =
      let next = poll_stack-IsStuck s s' v in
      let handle : s'.http_handle ≡ some h = v.same_handle in
      let served : serve_locked tcp h s' ≡ poll_stack s' =
        unfold serve_locked in
        ap (λ state. react tcp state h (poll_stack s')) next.waits ∙ unfold react in refl in
      unfold serve_http_once in (ground (arith, v, next, handle, served))

  run_from-IsStuck :
      (events : List Event) (s s' : Statics)
      → IsStuck tcp h s s'
      → IsStuck tcp h s (run tcp events s')
  unfolding run
  run_from-IsStuck [] s s' v = v
  run_from-IsStuck (serves unlocked ∷ events) s s' v =
      run_from-IsStuck events s (serve_http_once tcp unlocked s')
        (serve_http_once-IsStuck unlocked s s' v)
  run_from-IsStuck (polls unlocked ∷ events) s s' v =
      run_from-IsStuck events s (poll unlocked s') (poll-IsStuck unlocked s s' v)

  -- If a poll leaves a socket in the state that a client's first close puts it in until the server closes it too, then a responder whose socket is in that state only polls from then on: it never closes the socket, answers or listens again.
  pub run-IsStuck :
      (events : List Event) (s : Statics)
      → s.http_handle ≡ some h
      → tcp.state s.calls h ≡ close_wait
      → IsStuck tcp h s (run tcp events s)
  run-IsStuck events s e w = run_from-IsStuck events s s (record {
    polls_since = [];
    appended = sym (append-nil s.calls);
    only_polls = unfold are_polls in refl;
    waits = w;
    same_handle = e;
  })
