-- ===== src/Postgres/Notify/Once.antt =====
-- notifyHub of shim/internal/storage/postgres/client.go closes a channel at most once.
use dropin_queue.Base.{
  ℕ, suc, ◌+◌, ◌≤◌, ◌==◌, ◌≡◌, refl, sym, ap, ◌∙◌, none, some, List, [], ◌∷◌, ◌++◌, arith, Text,
  text_eq, text_eq_iff, Map, lookup, insert, delete, lookup-insert, lookup-delete, IsGoMap,
  if◌then◌else◌, Bool-cases, Option-cases, inl, inr,
}
use dropin_queue.Postgres.Notify.{
  Hub, new_notify_hub, or_no_channels, subscribe, without, keep_set, cancel, notify, HubCall,
  subscribes, cancels, notifies, hub_run,
}

abbrev pub count : ℕ → List ℕ → ℕ
count c [] = 0
count c (x ∷ xs) = if x == c then suc (count c xs) else count c xs

pub count-append : (c : ℕ) (xs ys : List ℕ) → count c (xs ++ ys) ≡ count c xs + count c ys
count-append c [] ys = omega arith
count-append c (x ∷ xs) ys = ground (arith, count-append c xs ys)

count-without-le : (c ch : ℕ) (set : List ℕ) → count c (without ch set) ≤ count c set
count-without-le c ch [] = omega arith
count-without-le c ch (x ∷ xs) = ground (arith, count-without-le c ch xs)

-- How often a channel waits.
abbrev pub waiting : ℕ → Map (List ℕ) → ℕ
waiting c [] = 0
waiting c ((queue, set) ∷ subs) = count c set + waiting c subs

waiting-insert :
    (c : ℕ) (queue : Text) (set : List ℕ) (subs : Map (List ℕ))
    → waiting c (insert queue set subs) + count c (or_no_channels (lookup queue subs))
      ≡ waiting c subs + count c set
unfolding insert lookup
waiting-insert c queue set [] = omega arith
waiting-insert c queue set ((k, other) ∷ subs) = elim (Bool-cases (text_eq k queue)) [
  | inl same ↦ rw same (omega arith)
  | inr differs ↦ rw differs (omega (arith, waiting-insert c queue set subs))
]

waiting-delete-none :
    (c : ℕ) (queue : Text) (subs : Map (List ℕ))
    → lookup queue subs ≡ none
    → waiting c (delete queue subs) ≡ waiting c subs
unfolding delete lookup
waiting-delete-none c queue [] h = refl
waiting-delete-none c queue ((k, other) ∷ subs) h =
    ground (arith, h, waiting-delete-none c queue subs)

waiting-delete :
    (c : ℕ) (queue : Text) (subs : Map (List ℕ))
    → IsGoMap subs
    → waiting c (delete queue subs) + count c (or_no_channels (lookup queue subs)) ≡ waiting c subs
unfolding delete lookup
waiting-delete c queue [] g = refl
waiting-delete c queue ((k, other) ∷ subs) (fresh, g) = elim (Bool-cases (text_eq k queue)) [
  | inl same ↦ rw same (
      omega (
        arith,
        waiting-delete-none c queue subs
            (ap (λ x. lookup x subs) (sym ((text_eq_iff k queue).0 same)) ∙ fresh),
      ))
  | inr differs ↦ rw differs (omega (arith, waiting-delete c queue subs g))
]

insert-IsGoMap :
    (queue : Text) (set : List ℕ) (subs : Map (List ℕ))
    → IsGoMap subs
    → IsGoMap (insert queue set subs)
unfolding insert lookup
insert-IsGoMap queue set [] g = (refl, tt)
insert-IsGoMap queue set ((k, other) ∷ subs) (fresh, g) = elim (Bool-cases (text_eq k queue)) [
  | inl same ↦ rw same (ap (λ x. lookup x subs) (sym ((text_eq_iff k queue).0 same)) ∙ fresh, g)
  | inr differs ↦ rw differs (
    lookup-insert queue k set subs
        ∙ ground (arith, text_eq_iff queue k, text_eq_iff k queue, differs, fresh),
    insert-IsGoMap queue set subs g,
  )
]

delete-IsGoMap : (queue : Text) (subs : Map (List ℕ)) → IsGoMap subs → IsGoMap (delete queue subs)
unfolding delete lookup
delete-IsGoMap queue [] g = tt
delete-IsGoMap queue ((k, other) ∷ subs) (fresh, g) = elim (Bool-cases (text_eq k queue)) [
  | inl same ↦ rw same (delete-IsGoMap queue subs g)
  | inr differs ↦
      rw differs (lookup-delete queue k subs ∙ ground (arith, fresh), delete-IsGoMap queue subs g)
]

-- A channel waits or is closed at most once, and not before it is made.
pub record IsSound (h : Hub) : Type 0 where
  pub go_map : IsGoMap h.subs
  pub once : (c : ℕ) → waiting c h.subs + count c h.closed ≤ 1
  pub made : (c : ℕ) → h.next_channel ≤ c → waiting c h.subs + count c h.closed ≡ 0

pub subscribe-IsSound : (queue : Text) (h : Hub) → IsSound h → IsSound (subscribe queue h).1
unfolding subscribe
subscribe-IsSound queue h s = record {
  go_map = insert-IsGoMap queue _ h.subs s.go_map;
  once = λ c. ground (
    arith,
    waiting-insert c queue (h.next_channel ∷ or_no_channels (lookup queue h.subs)) h.subs,
    s.once c,
    s.made c,
  );
  made = λ c le. ground (
    arith,
    waiting-insert c queue (h.next_channel ∷ or_no_channels (lookup queue h.subs)) h.subs,
    s.made c (omega (arith, le)),
    le,
  );
}

pub notify-IsSound : (queue : Text) (h : Hub) → IsSound h → IsSound (notify queue h)
unfolding notify
notify-IsSound queue h s = record {
  go_map = delete-IsGoMap queue h.subs s.go_map;
  once = λ c. omega (
    arith,
    waiting-delete c queue h.subs s.go_map,
    count-append c h.closed (or_no_channels (lookup queue h.subs)),
    s.once c,
  );
  made = λ c le. omega (
    arith,
    waiting-delete c queue h.subs s.go_map,
    count-append c h.closed (or_no_channels (lookup queue h.subs)),
    s.made c le,
  );
}

waiting-keep :
    (c : ℕ) (queue : Text) (set : List ℕ) (subs : Map (List ℕ))
    → IsGoMap subs
    → waiting c (keep_set queue set subs) + count c (or_no_channels (lookup queue subs))
      ≡ waiting c subs + count c set
unfolding keep_set
waiting-keep c queue [] subs g = omega (arith, waiting-delete c queue subs g)
waiting-keep c queue (x ∷ set) subs g = waiting-insert c queue (x ∷ set) subs

keep-IsGoMap :
    (queue : Text) (set : List ℕ) (subs : Map (List ℕ))
    → IsGoMap subs
    → IsGoMap (keep_set queue set subs)
unfolding keep_set
keep-IsGoMap queue [] subs g = delete-IsGoMap queue subs g
keep-IsGoMap queue (x ∷ set) subs g = insert-IsGoMap queue (x ∷ set) subs g

kept-le :
    (c ch : ℕ) (queue : Text) (set : List ℕ) (subs : Map (List ℕ))
    → IsGoMap subs
    → lookup queue subs ≡ some set
    → waiting c (keep_set queue (without ch set) subs) ≤ waiting c subs
kept-le c ch queue set subs g found =
    omega
      (arith, rw found at (waiting-keep c queue (without ch set) subs g), count-without-le c ch set)

cancel-IsSound : (queue : Text) (ch : ℕ) (h : Hub) → IsSound h → IsSound (cancel queue ch h)
unfolding cancel
cancel-IsSound queue ch h s = elim (Option-cases (lookup queue h.subs)) [
  | inl missing ↦ rw (cancel, missing) s
  | inr (set, found) ↦
      rw (cancel, found)
        (record {
          go_map = keep-IsGoMap queue (without ch set) h.subs s.go_map;
          once = λ c. omega (arith, kept-le c ch queue set h.subs s.go_map found, s.once c);
          made = λ c le. omega (arith, kept-le c ch queue set h.subs s.go_map found, s.made c le);
        })
]

pub run-IsSound : (xs : List HubCall) (h : Hub) → IsSound h → IsSound (hub_run xs h)
run-IsSound [] h s = s
run-IsSound (subscribes queue ∷ xs) h s = run-IsSound xs _ (subscribe-IsSound queue h s)
run-IsSound (cancels queue ch ∷ xs) h s = run-IsSound xs _ (cancel-IsSound queue ch h s)
run-IsSound (notifies queue ∷ xs) h s = run-IsSound xs _ (notify-IsSound queue h s)

pub new-IsSound : IsSound new_notify_hub
new-IsSound = record { go_map = tt; once = λ c. omega arith; made = λ c le. omega arith }

-- However the calls of the hub are interleaved, no channel is closed twice, which would panic.
pub hub_run-closes_once :
    (xs : List HubCall) (c : ℕ) → count c (hub_run xs new_notify_hub).closed ≤ 1
hub_run-closes_once xs c = omega (arith, (run-IsSound xs new_notify_hub new-IsSound).once c)
