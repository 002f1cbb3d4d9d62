-- ===== src/Postgres/Notify/Spaced.antt =====
-- notifyCoalescer of shim/internal/storage/postgres/client.go fires seldom enough.
use dropin_queue.Base.{
  subst, ◌∙◌, ℕ, ◌+◌, ◌≤◌, ◌≡◌, refl, leb, true, Option, none, some, List, [], ◌∷◌, arith, Text,
  text_eq, text_eq_iff, lookup, insert, delete, lookup-insert, lookup-delete, All, All-weaken,
  Bool-cases, Option-cases, inl, inr,
}
use dropin_queue.Postgres.Notify.{
  Coalescer, new_notify_coalescer, trigger, expire, CoalescerStep, triggers, expires, passes,
  coalescer_step, coalescer_run,
}

-- The time from which a queue may fire again, as far as is known.
abbrev free_from : ℕ → Option ℕ → ℕ
free_from clock none = clock
free_from clock (some due) = due

abbrev Quiet : Coalescer → ℕ × Text → Type 0
Quiet n e = e.0 + n.interval ≤ free_from n.clock (lookup e.1 n.pending)

-- The notifications of one queue are at least the interval apart.
abbrev pub AreSpaced : ℕ → List (ℕ × Text) → Type 0
AreSpaced interval [] = Unit {0}
AreSpaced interval ((t, queue) ∷ fired) =
    All (λ e. text_eq e.1 queue ≡ true → e.0 + interval ≤ t) fired × AreSpaced interval fired

record Good (n : Coalescer) : Type 0 where
  pub quiet : All (Quiet n) n.fired
  pub spaced : AreSpaced n.interval n.fired

fired-Good :
    (queue : Text) (n : Coalescer)
    → lookup queue n.pending ≡ none
    → Good n
    → Good (record n {
      pending = insert queue (n.clock + n.interval) n.pending;
      fired = (n.clock, queue) ∷ n.fired;
    })
fired-Good queue n free h = record {
  quiet = (
    ground (
      arith,
      lookup-insert queue queue (n.clock + n.interval) n.pending,
      text_eq_iff queue queue,
    ),
    All-weaken _ _
        (λ e q. ground (
          arith,
          lookup-insert queue e.1 (n.clock + n.interval) n.pending,
          text_eq_iff queue e.1,
          q,
          free,
        ))
        n.fired h.quiet,
  );
  spaced = (
    All-weaken _ _ (λ e q same. ground (arith, text_eq_iff e.1 queue, same, q, free)) n.fired
        h.quiet,
    h.spaced,
  );
}

expired-Good :
    (queue : Text) (n : Coalescer) (due : ℕ)
    → lookup queue n.pending ≡ some due
    → due ≤ n.clock
    → Good n
    → Good (record n { pending = delete queue n.pending })
expired-Good queue n due set past h = record {
  quiet =
      All-weaken _ _
        (λ e q.
          ground (arith, lookup-delete queue e.1 n.pending, text_eq_iff queue e.1, q, set, past))
        n.fired h.quiet;
  spaced = h.spaced;
}

step-Good : (x : CoalescerStep) (n : Coalescer) → Good n → Good (coalescer_step x n)
unfolding trigger expire
step-Good (triggers queue) n h = elim (Option-cases (lookup queue n.pending)) [
  | inl free ↦ rw (trigger, free) (fired-Good queue n free h)
  | inr (due, set) ↦ rw (trigger, set) h
]
step-Good (expires queue) n h = elim (Option-cases (lookup queue n.pending)) [
  | inl free ↦ rw (expire, free) h
  | inr (due, set) ↦ elim (Bool-cases (leb due n.clock)) [
    | inl past ↦ rw (expire, set, past) (expired-Good queue n due set (ground (arith, past)) h)
    | inr early ↦ rw (expire, set, early) h
  ]
]
step-Good (passes elapsed) n h = record {
  quiet =
      All-weaken _ _
        (λ e q. elim (Option-cases (lookup e.1 n.pending)) [
          | inl free ↦ rw free (ground (arith, rw free at q))
          | inr (due, set) ↦ rw set (rw set at q)
        ])
        n.fired h.quiet;
  spaced = h.spaced;
}

run-Good : (xs : List CoalescerStep) (n : Coalescer) → Good n → Good (coalescer_run xs n)
run-Good [] n h = h
run-Good (x ∷ xs) n h = run-Good xs (coalescer_step x n) (step-Good x n h)

interval_kept :
    (xs : List CoalescerStep) (n : Coalescer) → (coalescer_run xs n).interval ≡ n.interval
unfolding trigger expire
interval_kept [] n = refl
interval_kept (triggers queue ∷ xs) n =
    interval_kept xs (trigger queue n) ∙ elim (Option-cases (lookup queue n.pending)) [
      | inl free ↦ rw (trigger, free) refl
      | inr (due, set) ↦ rw (trigger, set) refl
    ]
interval_kept (expires queue ∷ xs) n =
    interval_kept xs (expire queue n) ∙ elim (Option-cases (lookup queue n.pending)) [
      | inl free ↦ rw (expire, free) refl
      | inr (due, set) ↦ rw (expire, set) (ground arith)
    ]
interval_kept (passes elapsed ∷ xs) n = interval_kept xs (record n { clock = n.clock + elapsed })

-- However the calls of trigger, the timers and the passing of time are interleaved, two
-- notifications that a coalescer fires for one queue are at least its interval apart.
pub coalescer_run-AreSpaced :
    (xs : List CoalescerStep) (interval clock : ℕ)
    → AreSpaced interval (coalescer_run xs (new_notify_coalescer interval clock)).fired
coalescer_run-AreSpaced xs interval clock =
    subst (λ i. AreSpaced i (coalescer_run xs (new_notify_coalescer interval clock)).fired)
      (interval_kept xs (new_notify_coalescer interval clock))
      (run-Good xs (new_notify_coalescer interval clock)
        (record { quiet = tt; spaced = tt })).spaced
