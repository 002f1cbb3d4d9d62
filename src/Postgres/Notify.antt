-- ===== src/Postgres/Notify.antt =====
-- notifyHub and notifyCoalescer of shim/internal/storage/postgres/client.go. Each method runs under
-- the mutex, and is one step. A channel is the number that it was made with.
pub mod Once
pub mod Wakes
pub mod Spaced
use dropin_queue.Base.{
  ℕ, suc, ◌+◌, ◌==◌, leb, not, Option, none, some, List, [], ◌∷◌, ◌++◌, Text, Map, lookup, insert,
  delete, select, if◌then◌else◌,
}

-- The channels that wait for each queue, the next channel and the channels that were closed.
pub record Hub : Type 0 where
  pub subs : Map (List ℕ)
  pub next_channel : ℕ
  pub closed : List ℕ

abbrev pub new_notify_hub : Hub
new_notify_hub = record { subs = []; next_channel = 0; closed = [] }

-- m[queue], where a missing set is a nil one
abbrev pub or_no_channels : Option (List ℕ) → List ℕ
or_no_channels none = []
or_no_channels (some set) = set

unfoldable pub subscribe : Text → Hub → ℕ × Hub
unfolding lookup insert
subscribe queue h = (
  h.next_channel,
  record h {
    subs = insert queue (h.next_channel ∷ or_no_channels (lookup queue h.subs)) h.subs;
    next_channel = suc h.next_channel;
  },
)

-- delete(set, ch)
abbrev pub without : ℕ → List ℕ → List ℕ
without ch set = select (λ c. not (c == ch)) set

abbrev pub keep_set : Text → List ℕ → Map (List ℕ) → Map (List ℕ)
unfolding insert delete
keep_set queue [] subs = delete queue subs
keep_set queue (c ∷ set) subs = insert queue (c ∷ set) subs

-- The function that subscribe answers beside the channel.
unfoldable pub cancel : Text → ℕ → Hub → Hub
unfolding lookup insert delete
cancel queue ch h = elim (lookup queue h.subs) [
  | none ↦ h
  | some set ↦ record h { subs = keep_set queue (without ch set) h.subs }
]

unfoldable pub notify : Text → Hub → Hub
unfolding lookup delete
notify queue h = record h {
  subs = delete queue h.subs;
  closed = h.closed ++ or_no_channels (lookup queue h.subs);
}

pub data HubCall : Type 0 where
  subscribes : Text → HubCall
  cancels : Text → ℕ → HubCall
  notifies : Text → HubCall

abbrev pub hub_step : HubCall → Hub → Hub
hub_step (subscribes queue) h = (subscribe queue h).1
hub_step (cancels queue ch) h = cancel queue ch h
hub_step (notifies queue) h = notify queue h

abbrev pub hub_run : List HubCall → Hub → Hub
hub_run [] h = h
hub_run (x ∷ xs) h = hub_run xs (hub_step x h)

-- The queues that are pending with the time from which their timers may run, the clock, and the
-- notifications that were fired, the last one first.
pub record Coalescer : Type 0 where
  pub interval : ℕ
  pub pending : Map ℕ
  pub clock : ℕ
  pub fired : List (ℕ × Text)

abbrev pub new_notify_coalescer : ℕ → ℕ → Coalescer
new_notify_coalescer interval clock = record {
  interval = interval;
  pending = [];
  clock = clock;
  fired = [];
}

unfoldable pub trigger : Text → Coalescer → Coalescer
unfolding lookup insert
trigger queue n = elim (lookup queue n.pending) [
  | some due ↦ n
  | none ↦ record n {
    pending = insert queue (n.clock + n.interval) n.pending;
    fired = (n.clock, queue) ∷ n.fired;
  }
]

-- The function of time.AfterFunc, which does not run before its time.
unfoldable pub expire : Text → Coalescer → Coalescer
unfolding lookup delete
expire queue n = elim (lookup queue n.pending) [
  | none ↦ n
  | some due ↦ if leb due n.clock then record n { pending = delete queue n.pending } else n
]

pub data CoalescerStep : Type 0 where
  triggers : Text → CoalescerStep
  expires : Text → CoalescerStep
  passes : ℕ → CoalescerStep

abbrev pub coalescer_step : CoalescerStep → Coalescer → Coalescer
coalescer_step (triggers queue) n = trigger queue n
coalescer_step (expires queue) n = expire queue n
coalescer_step (passes elapsed) n = record n { clock = n.clock + elapsed }

abbrev pub coalescer_run : List CoalescerStep → Coalescer → Coalescer
coalescer_run [] n = n
coalescer_run (x ∷ xs) n = coalescer_run xs (coalescer_step x n)
