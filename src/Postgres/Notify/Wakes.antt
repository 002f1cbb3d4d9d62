-- ===== src/Postgres/Notify/Wakes.antt =====
-- notifyHub of shim/internal/storage/postgres/client.go does not miss a waiter.
use dropin_queue.Base.{
  ℕ, ◌+◌, ◌≤◌, ◌==◌, ◌≡◌, refl, sym, ap, ◌∙◌, Bool, true, false, not, some, List, [], ◌∷◌, arith,
  all, and-eq-true, Text, text_eq, text_eq_iff, text_eq_refl, Map, lookup, lookup-insert,
  lookup-delete, if◌then◌else◌, Bool-cases, Option-cases, inl, inr,
}
use dropin_queue.Postgres.Notify.{
  Hub, new_notify_hub, or_no_channels, subscribe, without, keep_set, cancel, notify, HubCall,
  subscribes, cancels, notifies, hub_run,
}
use dropin_queue.Postgres.Notify.Once.{
  count, count-append, subscribe-IsSound, notify-IsSound, run-IsSound, new-IsSound,
}

-- The channel waits for the queue, or is closed.
abbrev Awaits : Text → ℕ → Hub → Type 0
Awaits queue ch h = 1 ≤ count ch (or_no_channels (lookup queue h.subs)) + count ch h.closed

-- The call does not cancel the channel.
abbrev pub spares : ℕ → HubCall → Bool
spares ch (cancels queue c) = not (c == ch)
spares ch _ = true

count-without :
    (ch c : ℕ) (set : List ℕ) → (c == ch) ≡ false → count ch (without c set) ≡ count ch set
count-without ch c [] h = refl
count-without ch c (x ∷ set) h = ground (arith, h, count-without ch c set h)

lookup-keep :
    (queue k : Text) (set : List ℕ) (subs : Map (List ℕ))
    → or_no_channels (lookup k (keep_set queue set subs))
      ≡ (if text_eq queue k then set else or_no_channels (lookup k subs))
unfolding keep_set
lookup-keep queue k [] subs = ground (arith, lookup-delete queue k subs)
lookup-keep queue k (x ∷ set) subs = ground (arith, lookup-insert queue k (x ∷ set) subs)

subscribe-Awaits :
    (queue other : Text) (ch : ℕ) (h : Hub)
    → Awaits queue ch h
    → Awaits queue ch (subscribe other h).1
unfolding subscribe
subscribe-Awaits queue other ch h a = ground (
  arith,
  lookup-insert other queue (h.next_channel ∷ or_no_channels (lookup other h.subs)) h.subs,
  text_eq_iff other queue,
  a,
)

notify-Awaits :
    (queue other : Text) (ch : ℕ) (h : Hub) → Awaits queue ch h → Awaits queue ch (notify other h)
unfolding notify
notify-Awaits queue other ch h a = ground (
  arith,
  lookup-delete other queue h.subs,
  text_eq_iff other queue,
  count-append ch h.closed (or_no_channels (lookup other h.subs)),
  a,
)

cancel-Awaits :
    (queue other : Text) (ch c : ℕ) (h : Hub)
    → (c == ch) ≡ false
    → Awaits queue ch h
    → Awaits queue ch (cancel other c h)
unfolding cancel
cancel-Awaits queue other ch c h differs a = elim (Option-cases (lookup other h.subs)) [
  | inl missing ↦ rw (cancel, missing) a
  | inr (set, found) ↦
      rw (cancel, found, lookup-keep other queue (without c set) h.subs)
        (elim (Bool-cases (text_eq other queue)) [
          | inl same ↦
              let here : lookup queue h.subs ≡ some set =
                ap (λ k. lookup k h.subs) (sym ((text_eq_iff other queue).0 same)) ∙ found in
              rw (same, count-without ch c set differs) (rw here at a)
          | inr apart ↦ rw apart a
        ])
]

run-Awaits :
    (queue : Text) (ch : ℕ) (xs : List HubCall) (h : Hub)
    → all (spares ch) xs ≡ true
    → Awaits queue ch h
    → Awaits queue ch (hub_run xs h)
run-Awaits queue ch [] h e a = a
run-Awaits queue ch (subscribes other ∷ xs) h e a =
    run-Awaits queue ch xs _ e (subscribe-Awaits queue other ch h a)
run-Awaits queue ch (notifies other ∷ xs) h e a =
    run-Awaits queue ch xs _ e (notify-Awaits queue other ch h a)
run-Awaits queue ch (cancels other c ∷ xs) h e a =
    let (spared, rest) = and-eq-true (not (c == ch)) (all (spares ch) xs) e in
    run-Awaits queue ch xs _ rest (cancel-Awaits queue other ch c h (ground (arith, spared)) a)

new-Awaits : (queue : Text) (h : Hub) → Awaits queue (subscribe queue h).0 (subscribe queue h).1
unfolding subscribe
new-Awaits queue h = ground (
  arith,
  lookup-insert queue queue (h.next_channel ∷ or_no_channels (lookup queue h.subs)) h.subs,
  text_eq_refl queue,
)

-- A channel that subscribe gave for a queue, after any calls, is closed exactly once when notify is
-- called for the queue, whatever calls come between, unless one of them cancels the channel.
pub subscribe-notify :
    (before : List HubCall) (queue : Text) (xs : List HubCall)
    → all (spares (subscribe queue (hub_run before new_notify_hub)).0) xs ≡ true
    → count
        (subscribe queue (hub_run before new_notify_hub)).0
        (notify queue (hub_run xs (subscribe queue (hub_run before new_notify_hub)).1)).closed
      ≡ 1
unfolding notify
subscribe-notify before queue xs e =
    let h = hub_run before new_notify_hub in
    let ch = (subscribe queue h).0 in
    let after = hub_run xs (subscribe queue h).1 in
    let sound = run-IsSound xs _ (subscribe-IsSound queue h (run-IsSound before _ new-IsSound)) in
    omega (
      arith,
      (notify-IsSound queue after sound).once ch,
      run-Awaits queue ch xs (subscribe queue h).1 e (new-Awaits queue h),
      count-append ch after.closed (or_no_channels (lookup queue after.subs)),
    )
