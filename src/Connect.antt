-- ===== src/Connect.antt =====
-- internal/infra/connect/service.go: the handlers of the Connect services. A request is the message
-- that the generated code decoded, a context the one that the server's interceptors made, and every
-- error of a handler passes `clientError`.
pub mod Ingest
pub mod Devices
pub mod Settings
pub mod Status
pub mod Refused
use tolo_observation.ClientErrors.{ConnectError, client_error}
use tolo_observation.Common.Result.{Result, Action, ok, err}
use tolo_observation.Common.{
  ℕ, zero, suc, ◌≡◌, refl, Bool, true, false, Option, none, some, List, [], ◌∷◌, arith,
}

-- What a handler returns: a message or the error that the client sees.
pub data Response {ℓ} (A : Type ℓ) : Type ℓ where
  response : A → Response A
  refusal : ConnectError → Response A

abbrev pub answer : {A : Type 0} → Result A → Response A
answer (ok a) = response a
answer (err e) = refusal (client_error e)

-- `if err != nil { return nil, clientError(ctx, err) }` at every error of the handler.
abbrev pub respond : {S A : Type 0} → Action S A → S → Response A × S
respond m s = let (r, s') = m s in (answer r, s')
