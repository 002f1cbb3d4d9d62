-- ===== src/Postgres/Keeps.antt =====
-- What the operations of the Postgres adapter keep: a property of the replica's state that every
-- statement keeps is kept by every operation, on each of its branches.
pub mod Calls
pub mod Traffic
use dropin_queue.Base.{◌≤◌, ◌≡◌, refl, Bool, true, false, arith, if◌then◌else◌}
use dropin_queue.Storage.{Op, Result, Err, ok, err, pure, fail, continue, get_state, ◌>>=◌, ◌>>◌}
use dropin_queue.Postgres.Tables.{Tables, Replica, Statement, exec, query}
use dropin_queue.Postgres.Messages.Send.{transaction, commit, roll_back}

pub record Keeps {A : Type 0} (P : Replica → Type 0) (m : Op Replica A) : Type 0 where
  pub at : (r : Replica) → P r → P (m r).1

module _ {P : Replica → Type 0} {A : Type 0} where
  pub Keeps-pure : (a : A) → Keeps P (pure a)
  Keeps-pure a = record { at = λ r h. h }

  pub Keeps-fail : (e : Err) → Keeps P (fail {A = A} e)
  Keeps-fail e = record { at = λ r h. h }

  pub Keeps-if :
      (b : Bool) (m n : Op Replica A) → Keeps P m → Keeps P n → Keeps P (if b then m else n)
  Keeps-if true m n km kn = km
  Keeps-if false m n km kn = kn

  pub Keeps-query : (st : Statement) (f : Replica → A) → Keeps P (query st f)
  unfolding query
  Keeps-query st f = record { at = λ r h. ground (arith, h) }

  pub Keeps-exec :
      (st : Statement) (f : Replica → A) (effect : Replica → Tables)
      → ((r : Replica) → P r → P (record r { tables = effect r }))
      → Keeps P (exec st f effect)
  unfolding exec
  Keeps-exec st f effect keep = record { at = λ r h. ground (arith, h, keep r h) }

module _ {P : Replica → Type 0} {A B : Type 0} where
  continue-Keeps :
      (x : Result A) (f : A → Op Replica B) (r : Replica)
      → P r
      → ((a : A) → Keeps P (f a))
      → P (continue x f r).1
  continue-Keeps (ok a) f r h kf = (kf a).at r h
  continue-Keeps (err e) f r h kf = h

  pub Keeps-bind :
      (m : Op Replica A) (f : A → Op Replica B)
      → Keeps P m
      → ((a : A) → Keeps P (f a))
      → Keeps P (m >>= f)
  Keeps-bind m f km kf = record { at = λ r h. continue-Keeps (m r).0 f (m r).1 (km.at r h) kf }

  pub Keeps-then : (m : Op Replica A) (k : Op Replica B) → Keeps P m → Keeps P k → Keeps P (m >> k)
  Keeps-then m k km kk = Keeps-bind m (λ _. k) km (λ _. kk)

pub record Grows (a b : Tables) : Type 0 where
  pub queue : a.next_queue ≤ b.next_queue
  pub message : a.next_message ≤ b.next_message
  pub topic : a.next_topic ≤ b.next_topic

module _ {P : Replica → Type 0} {A : Type 0} where
  commit-Keeps :
      (before : Replica) (x : Result A) (after : Replica)
      → P before
      → P after
      → Grows before.tables after.tables
      → ((a b : Replica) → P a → P b → Grows a.tables b.tables → P (roll_back a b))
      → P (commit before (x, after)).1
  unfolding commit
  commit-Keeps before (ok a) after hb ha g back = ground (arith, ha, back before after hb ha g)
  commit-Keeps before (err e) after hb ha g back = back before after hb ha g

  -- A transaction keeps what its body keeps, if going back to the tables before it does.
  pub Keeps-transaction :
      (m : Op Replica A)
      → Keeps P m
      → ((r : Replica) → Grows r.tables (m r).1.tables)
      → ((a b : Replica) → P a → P b → Grows a.tables b.tables → P (roll_back a b))
      → Keeps P (transaction m)
  unfolding transaction
  Keeps-transaction m km grows back = record {
    at = λ r h. ground (arith, h, commit-Keeps r (m r).0 (m r).1 h (km.at r h) (grows r) back);
  }

pub ruleset keeps_rules =
    (Keeps-pure, Keeps-fail, Keeps-if, Keeps-query, Keeps-exec, Keeps-bind, Keeps-then)
