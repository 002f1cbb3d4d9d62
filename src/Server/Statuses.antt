-- ===== src/Server/Statuses.antt =====
-- The statuses that writeFatalError of shim/internal/server/response.go writes.
use dropin_queue.Base.{ℕ, ◌≡◌, refl, false, arith, if◌then◌else◌}
use dropin_queue.Awserr.Code.{Code}
use dropin_queue.Awserr.Faults.{is_server_code, is_server_err, from_storage-is_sender_fault}
use dropin_queue.Storage.{Op, Result, ok, err}
use dropin_queue.Server.{Transport, Response, Context, write_fatal_error, finish, respond}

-- The status for what an operation answers.
abbrev pub status_of : {A : Type 0} → Result A → ℕ
status_of (ok a) = 200
status_of (err e) = if is_server_err e then 500 else 400

module _ {A : Type 0} (t : Transport) (not_found : Code) (c : Context) (f : A → Response)
    (missing : is_server_code not_found ≡ false) (fine : (a : A) → (f a).status ≡ 200) where
  finish-status : (x : Result A) → (finish t not_found c x f).status ≡ status_of x
  unfolding finish write_fatal_error
  finish-status (ok a) = fine a
  finish-status (err e) = rw (from_storage-is_sender_fault not_found e missing) (ground arith)

  pub respond-status :
      {S : Type 0} (m : Op S A) (s : S)
      → ((respond t not_found c m f s).0.status ≡ status_of (m s).0)
        × ((respond t not_found c m f s).1 ≡ (m s).1)
  unfolding respond
  respond-status m s = (finish-status (m s).0, refl)
