-- ===== src/Net/Web/Fair.antt =====
-- When a response of kernel/src/net/mod.rs is sent once for each connection.
use mathlib.Core.List.{append_assoc}
use oci_kernel.Prelude.{
  ℕ, ◌≡◌, refl, sym, ap, ◌∙◌, arith, Bool, true, false, not, ◌&&◌, ◌==◌, List, [], ◌∷◌, ◌++◌, push,
}
use oci_kernel.Net.Web.{
  Call, polled, listened, received, sent, shut, Statics, http_response, poll_stack, poll, rearm,
}

-- Whether a response was sent since the last call of `listen`, where `b` tells it of the start.
unfoldable pub responded : Bool → List Call → Bool
responded b [] = b
responded b (polled t ∷ cs) = responded b cs
responded b (listened h port ∷ cs) = responded false cs
responded b (received h ∷ cs) = responded b cs
responded b (sent h bytes ∷ cs) = responded true cs
responded b (shut h ∷ cs) = responded b cs

-- A response is sent only where none was sent since the last `listen`, and the socket is shut at once.
unfoldable pub is_fair : Bool → List Call → Bool
is_fair b [] = true
is_fair b (polled t ∷ cs) = is_fair b cs
is_fair b (listened h port ∷ cs) = is_fair false cs
is_fair b (received h ∷ cs) = is_fair b cs
is_fair b (sent h bytes ∷ shut i ∷ cs) = not b && ((h == i) && is_fair true cs)
is_fair b (sent h bytes ∷ cs) = false
is_fair b (shut h ∷ cs) = is_fair b cs

is_fair-append :
    (b : Bool) (xs ys : List Call)
    → is_fair b xs ≡ true
    → is_fair b (xs ++ ys) ≡ is_fair (responded b xs) ys
unfolding is_fair responded
is_fair-append b [] ys h = refl
is_fair-append b (polled t ∷ cs) ys h = is_fair-append b cs ys h
is_fair-append b (listened i port ∷ cs) ys h = is_fair-append false cs ys h
is_fair-append b (received i ∷ cs) ys h = is_fair-append b cs ys h
is_fair-append b (shut i ∷ cs) ys h = is_fair-append b cs ys h
is_fair-append b (sent i bytes ∷ []) ys h = absurd (ground arith)
is_fair-append b (sent i bytes ∷ polled t ∷ cs) ys h = absurd (ground arith)
is_fair-append b (sent i bytes ∷ listened j port ∷ cs) ys h = absurd (ground arith)
is_fair-append b (sent i bytes ∷ received j ∷ cs) ys h = absurd (ground arith)
is_fair-append b (sent i bytes ∷ sent j more ∷ cs) ys h = absurd (ground arith)
is_fair-append b (sent i bytes ∷ shut j ∷ cs) ys h = ground (arith, is_fair-append true cs ys)

responded-append :
    (b : Bool) (xs ys : List Call) → responded b (xs ++ ys) ≡ responded (responded b xs) ys
unfolding responded
responded-append b [] ys = refl
responded-append b (polled t ∷ cs) ys = responded-append b cs ys
responded-append b (listened h port ∷ cs) ys = responded-append false cs ys
responded-append b (received h ∷ cs) ys = responded-append b cs ys
responded-append b (sent h bytes ∷ cs) ys = responded-append true cs ys
responded-append b (shut h ∷ cs) ys = responded-append b cs ys

-- The calls are fair, and the flag tells whether a response was sent since the last `listen`.
pub record IsServing (s : Statics) : Type 0 where
  pub fair : is_fair false s.calls ≡ true
  pub known : responded false s.calls ≡ s.http_responded

-- More calls, and a flag that follows them.
more-IsServing :
    (s : Statics) (more : List Call) (s' : Statics)
    → s'.calls ≡ s.calls ++ more
    → s'.http_responded ≡ responded s.http_responded more
    → is_fair s.http_responded more ≡ true
    → IsServing s
    → IsServing s'
more-IsServing s more s' e f h v = record {
  fair =
      ap (is_fair false) e
      ∙ is_fair-append false s.calls more v.fair
      ∙ ap (λ b. is_fair b more) v.known
      ∙ h;
  known =
      ap (responded false) e
      ∙ responded-append false s.calls more
      ∙ ap (λ b. responded b more) v.known
      ∙ sym f;
}

pub poll_stack-IsServing : (s : Statics) → IsServing s → IsServing (poll_stack s)
unfolding poll_stack responded is_fair
poll_stack-IsServing s v =
    more-IsServing s (polled s.net_ticks ∷ []) (poll_stack s) refl refl refl v

pub poll-IsServing : (unlocked : Bool) (s : Statics) → IsServing s → IsServing (poll unlocked s)
unfolding poll
poll-IsServing unlocked s v = ground (arith, poll_stack-IsServing s)

pub rearm-IsServing : (h : ℕ) (s : Statics) → IsServing s → IsServing (rearm h s)
unfolding rearm responded is_fair
rearm-IsServing h s v = more-IsServing s (listened h s.http_port ∷ []) (rearm h s) refl refl refl v

pub received-IsServing :
    (h : ℕ) (s : Statics) → IsServing s → IsServing (record s { calls = push s.calls (received h) })
unfolding responded is_fair
received-IsServing h s v =
    more-IsServing s (received h ∷ []) (record s { calls = push s.calls (received h) }) refl refl
      refl v

-- The response is sent where none was.
pub answered-IsServing :
    (h : ℕ) (s : Statics)
    → s.http_responded ≡ false
    → IsServing s
    → IsServing (record s {
      http_responded = true;
      calls = push (push s.calls (sent h http_response)) (shut h);
    })
answered-IsServing h s e v =
    more-IsServing s (sent h http_response ∷ shut h ∷ [])
      (record s {
        http_responded = true;
        calls = push (push s.calls (sent h http_response)) (shut h);
      })
      (append_assoc s.calls (sent h http_response ∷ []) (shut h ∷ [])) (unfold responded in refl)
      (unfold is_fair in (ground arith)) v
