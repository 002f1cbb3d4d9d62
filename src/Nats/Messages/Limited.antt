-- ===== src/Nats/Messages/Limited.antt =====
-- How many messages ReceiveMessage of shim/internal/storage/nats/messages.go answers.
use dropin_queue.Base.{
  ℕ, suc, ◌≤◌, ◌≡◌, refl, sym, subst, List, [], ◌∷◌, ◌++◌, length, length-append, arith, ℤ, pos,
  negsuc, to_ℕ, Bool-cases, inl, inr, Text, none, ltb,
}
use dropin_queue.Types.{Message, Queue}
use dropin_queue.Storage.{Op, Result, ok, err, continue, ◌>>=◌}
use dropin_queue.Nats.Names.{Client}
use dropin_queue.Nats.Broker.{Broker, Node, Answer, ask}
use dropin_queue.Nats.Queues.{get_queue, ensure_queue_consumer}
use dropin_queue.Nats.Messages.{
  Lib, JetStreamMsg, Ending, context_done, closed, Traffic, gathered, receive_message,
  parse_jetstream_msg, clamped, max_wait, chosen_timeout, fetched, lift,
}

-- An answer with at most `n` messages, or an error.
abbrev pub AtMost : ℕ → Result (List Message) → Type 0
AtMost n (ok msgs) = length msgs ≤ n
AtMost n (err e) = Unit

gathered-AtMost :
    (lib : Lib) (now : ℕ) (max : ℕ) (ms : List JetStreamMsg) (ending : Ending) (out : List Message)
    → suc (length out) ≤ max
    → AtMost max (gathered lib now (pos max) ms ending out)
unfolding gathered
gathered-AtMost lib now max [] context_done out h = omega (arith, h)
gathered-AtMost lib now max [] (closed failed) out h = ground (arith, h)
gathered-AtMost lib now max (m ∷ ms) ending out h =
    let more = out ++ parse_jetstream_msg lib now m ∷ [] in
    let longer = length-append out (parse_jetstream_msg lib now m ∷ []) in
    elim (Bool-cases (ltb (length more) max)) [
      | inl less ↦ rw less (gathered-AtMost lib now max ms ending more (ground (arith, less)))
      | inr full ↦ rw full (omega (arith, longer, h))
    ]

continue-AtMost :
    {S A : Type 0} (k : ℕ) (r : Result A) (f : A → Op S (List Message)) (s : S)
    → ((a : A) (t : S) → AtMost k (f a t).0)
    → AtMost k (continue r f s).0
continue-AtMost k (ok a) f s h = h a s
continue-AtMost k (err e) f s h = tt

bind-AtMost :
    {S A : Type 0} (k : ℕ) (m : Op S A) (f : A → Op S (List Message))
    → ((a : A) (s : S) → AtMost k (f a s).0)
    → (s : S) → AtMost k ((m >>= f) s).0
bind-AtMost k m f h s = continue-AtMost k (m s).0 f (m s).1 h

-- The number that is asked for, taken into the range from 1 to 10.
abbrev pub limit : ℤ → ℕ
limit max_messages = to_ℕ (clamped (pos 1) (pos 10) max_messages)

limited : (n : ℤ) → (clamped (pos 1) (pos 10) n ≡ pos (limit n)) × (1 ≤ limit n) × (limit n ≤ 10)
limited (pos n) = ground arith
limited (negsuc n) = (refl, omega arith, omega arith)

module _ {S H : Type 0} (lib : Lib) (b : Broker S H) (t : Traffic S H) (c : Client) where
  -- ReceiveMessage, however the broker answers, answers at most as many messages as it is asked for,
  -- where that is from 1 to 10, and at most ten, and one if it is asked for none or fewer.
  pub receive_message-AtMost :
      (now : ℕ) (queue_name : Text) (max wait timeout : ℤ) (n : Node S H)
      → AtMost (limit max) (receive_message lib b t c now queue_name max wait timeout n).0
        × (limit max ≤ 10)
  unfolding receive_message
  receive_message-AtMost now queue_name max wait timeout n =
      let (exact, low, high) = limited max in
      let most = clamped (pos 1) (pos 10) max in
      let wait_for = max_wait (clamped (pos 0) (pos 20) wait) in
      let last : List JetStreamMsg × Ending → Op (Node S H) (List Message) =
        λ m. lift (gathered lib now most m.0 m.1 []) in
      let hidden : Queue → ℤ = λ q. chosen_timeout timeout q.attributes.visibility_timeout in
      let retried : Queue → Answer (List JetStreamMsg × Ending) → Op (Node S H) (List Message) =
        λ q a. fetched lib b t c queue_name (hidden q) most wait_for a >>= last in
      let polled : Queue → H → Op (Node S H) (List Message) =
        λ q h. ask (t.fetch h most wait_for) >>= retried q in
      let found : Queue → Op (Node S H) (List Message) =
        λ q. ensure_queue_consumer b c none queue_name (hidden q) >>= polled q in
      (
        bind-AtMost (limit max) (get_queue b lib.codec queue_name) found
            (λ q.
              bind-AtMost (limit max) (ensure_queue_consumer b c none queue_name (hidden q))
                (polled q)
                (λ h. bind-AtMost (limit max) (ask (t.fetch h most wait_for)) (retried q) (λ a.
                  bind-AtMost (limit max) (fetched lib b t c queue_name (hidden q) most wait_for a)
                    last
                    (λ m n1.
                      subst (λ k. AtMost (limit max) (gathered lib now k m.0 m.1 [])) (sym exact)
                        (gathered-AtMost lib now (limit max) m.0 m.1 [] low)))))
            n,
        high,
      )
