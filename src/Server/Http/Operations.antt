-- ===== src/Server/Http/Operations.antt =====
-- What a table of handlers of shim/internal/server/http.go does for each action, against a table of
-- operations that says what each action is for.
pub mod InJson
pub mod InQuery
use dropin_queue.Base.{
  ◌≡◌, refl, ap, ◌∙◌, sym, true, false, some, none, [], ◌∷◌, ℕ, Text, text_eq, Map, lookup,
  Bool-cases, inl, inr,
}
use dropin_queue.Awserr.Code.{Code}
use dropin_queue.Awserr.Faults.{is_server_code}
use dropin_queue.Storage.{Op}
use dropin_queue.Server.{Transport, Response, Context, respond}
use dropin_queue.Server.Statuses.{status_of, respond-status}

-- The status for what an operation answers, and the state that it leaves.
abbrev pub done : {S A : Type 0} → Op S A → S → ℕ × S
done m s = (status_of (m s).0, (m s).1)

-- The status of a response, and the state.
abbrev pub outcome : {S : Type 0} → Response × S → ℕ × S
outcome out = (out.0.status, out.1)

pub respond-done :
    {S A : Type 0} (t : Transport) (not_found : Code) (c : Context) (f : A → Response)
    → is_server_code not_found ≡ false
    → ((a : A) → (f a).status ≡ 200)
    → (m : Op S A) (s : S) → outcome (respond t not_found c m f s) ≡ done m s
respond-done t not_found c f missing fine m s =
    let (status, state) = respond-status t not_found c f missing fine m s in
    ap (λ n. (n, (respond t not_found c m f s).1)) status ∙ ap (λ r. (status_of (m s).0, r)) state

-- The handlers have the actions of the operations, in the same order, and do what they do.
pub data Do {P S : Type 0} : Map (P → S → Response × S) → Map (P → S → ℕ × S) → Type 0 where
  done_all : Do [] []
  does :
      (action : Text) (handle : P → S → Response × S) (operate : P → S → ℕ × S)
      (handlers : Map (P → S → Response × S)) (operations : Map (P → S → ℕ × S))
      → ((p : P) (s : S) → outcome (handle p s) ≡ operate p s)
      → Do handlers operations
      → Do ((action, handle) ∷ handlers) ((action, operate) ∷ operations)

module _ {P S : Type 0} where
  pub handler-Do :
      (handlers : Map (P → S → Response × S)) (operations : Map (P → S → ℕ × S)) (action : Text)
      → Do handlers operations
      → (handle : P → S → Response × S) → lookup action handlers ≡ some handle
      → (operate : P → S → ℕ × S) × (lookup action operations ≡ some operate)
        × ((p : P) (s : S) → outcome (handle p s) ≡ operate p s)
  unfolding lookup
  handler-Do _ _ action done_all handle found = absurd (cc found)
  handler-Do _ _ action (does k h o hs os same rest) handle found =
      elim (Bool-cases (text_eq k action)) [
        | inl here ↦
            let handled : h ≡ handle = cc (rw here at found) in
            (o, rw here refl, λ p s. ap (λ f. outcome (f p s)) (sym handled) ∙ same p s)
        | inr differs ↦
            let (operate, has, alike) = handler-Do hs os action rest handle (rw differs at found) in
            (operate, rw differs has, alike)
      ]
