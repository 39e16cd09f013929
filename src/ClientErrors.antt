-- ===== src/ClientErrors.antt =====
-- internal/infra/connect/errors.go: the code and the message that a client gets for an error. The
-- log line is left out.
pub mod Laws
use Prim.Native.String.{String}
use tolo_observation.Errors.{
  Sentinel, Error, external, is, camera_link_to_camera, camera_linked_point_required,
  camera_point_names_not_allowed, edge_device_camera_unsupported, edge_device_kind_invalid,
  edge_device_name_required, edge_device_not_allowed, edge_device_not_found, edge_device_required,
  edge_device_unregistered, event_mismatch, event_missing, event_required, event_type_required,
  foreign_event, guest_status_not_found, invalid_detected_people, invalid_history_window,
  invalid_measurement_window, invalid_public_id, measurement_source_required,
  mixed_measurement_sources, negative_count, observation_point_already_linked,
  observation_point_name_required, observation_point_not_allowed, observation_point_not_found,
  page_linked_point_not_allowed, qr_location_not_allowed, tenant_mismatch, tenant_missing,
  tenant_required, canceled, deadline_exceeded,
}
use tolo_observation.Common.{List, if◌then◌else◌, ◌∷◌, []}

-- The codes of Connect that the service answers with.
pub data Code : Type 0 where
  invalid_argument not_found failed_precondition permission_denied : Code
  code_canceled code_deadline_exceeded internal : Code

pub record ConnectError : Type 0 where
  pub code : Code
  pub message : String
  pub cause : Error

abbrev pub client_errors : List (Sentinel × Code × String)
client_errors =
    (measurement_source_required, invalid_argument, "measurement source is required")
    ∷ (
      qr_location_not_allowed, invalid_argument,
      "qr_location_id is not allowed for edge measurements",
    )
    ∷ (
      observation_point_not_allowed, invalid_argument,
      "observation_point_id is not allowed for QR measurements",
    )
    ∷ (
      edge_device_not_allowed, invalid_argument,
      "edge_device_id is not allowed for QR measurements",
    )
    ∷ (
      mixed_measurement_sources, invalid_argument,
      "measurements of one request must share a source",
    )
    ∷ (invalid_public_id, invalid_argument, "invalid public ID")
    ∷ (tenant_required, invalid_argument, "tenant_id is required")
    ∷ (event_required, invalid_argument, "event_id is required")
    ∷ (edge_device_name_required, invalid_argument, "edge device name is required")
    ∷ (edge_device_kind_invalid, invalid_argument, "invalid edge device kind")
    ∷ (
      camera_point_names_not_allowed, invalid_argument,
      "camera edge device must not have observation points",
    )
    ∷ (
      camera_linked_point_required, invalid_argument,
      "camera edge device requires one linked observation point",
    )
    ∷ (
      page_linked_point_not_allowed, invalid_argument,
      "observation page edge device must not have a linked observation point",
    )
    ∷ (camera_link_to_camera, invalid_argument, "a camera cannot be linked to another camera")
    ∷ (
      observation_point_already_linked, invalid_argument,
      "observation point is already linked to a camera",
    )
    ∷ (observation_point_name_required, invalid_argument, "observation point name is required")
    ∷ (
      invalid_measurement_window, invalid_argument,
      "measurement window end must be after window start",
    )
    ∷ (negative_count, invalid_argument, "measurement count must not be negative")
    ∷ (
      invalid_detected_people, invalid_argument,
      "mean detected people must be a finite non-negative number",
    )
    ∷ (invalid_history_window, invalid_argument, "history_window_days must be at least 1")
    ∷ (event_type_required, invalid_argument, "event_type is required")
    ∷ (edge_device_required, invalid_argument, "edge_device_id is required for edge measurements")
    ∷ (edge_device_not_found, not_found, "edge device not found")
    ∷ (guest_status_not_found, not_found, "guest status not found")
    ∷ (observation_point_not_found, not_found, "observation point not found")
    ∷ (edge_device_unregistered, failed_precondition, "edge device is unregistered")
    ∷ (
      edge_device_camera_unsupported, failed_precondition,
      "camera edge device does not support this operation",
    )
    ∷ (tenant_missing, permission_denied, "tenant ID is missing from the token")
    ∷ (tenant_mismatch, permission_denied, "tenant ID does not match the token")
    ∷ (event_missing, permission_denied, "event ID is missing from the token")
    ∷ (event_mismatch, permission_denied, "event ID does not match the token")
    ∷ (foreign_event, permission_denied, "resource belongs to another event")
    ∷ []

-- `errInternal`.
abbrev pub internal_cause : Error
internal_cause = external "internal error"

unfoldable pub internal_error : Error → ConnectError
internal_error e =
    if is e canceled
    then record { code = code_canceled; message = "canceled"; cause = e }
    else if is e deadline_exceeded
    then record { code = code_deadline_exceeded; message = "deadline exceeded"; cause = e }
    else record { code = internal; message = "internal error"; cause = internal_cause }

-- The loop of `clientError` over the table.
unfoldable pub client_error_in : List (Sentinel × Code × String) → Error → ConnectError
unfolding internal_error
client_error_in [] e = internal_error e
client_error_in ((target, code, message) ∷ rest) e =
    if is e target
    then record { code = code; message = message; cause = e }
    else client_error_in rest e

unfoldable pub client_error : Error → ConnectError
unfolding client_error_in
client_error e = client_error_in client_errors e
