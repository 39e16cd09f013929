-- ===== src/ClientErrors/Laws.antt =====
-- What is left of an error that the client can do nothing about.
use tolo_observation.Errors.{Error, Sentinel, is, canceled, deadline_exceeded}
use Prim.Native.String.{String}
use tolo_observation.ClientErrors.{Code}
use tolo_observation.Common.{◌≡◌, List, any, false}

-- No row of the table is about the error, and the request was neither canceled nor too late.
pub record IsUnknown (table : List (Sentinel × Code × String)) (e : Error) : Type 0 where
  pub unlisted : any (λ (row : Sentinel × Code × String). is e row.0) table ≡ false
  pub not_canceled : is e canceled ≡ false
  pub in_time : is e deadline_exceeded ≡ false
