-- ===== src/Errors.antt =====
-- The sentinel errors of internal/domain, internal/application, internal/repository,
-- internal/tenantctx, internal/infra/connect and internal/infra/db, and errors that wrap others.
-- `errors.Is` finds a sentinel through every `%w`.
use Prim.Native.Nat.{ℕ, compare, Ordering}
use Prim.Native.String.{String}
use mathlib.Core.Bool.{Bool, true, false, ◌||◌}

pub data Sentinel : Type 0 where
  -- domain
  invalid_public_id tenant_required event_required edge_device_name_required : Sentinel
  edge_device_unregistered edge_device_kind_invalid edge_device_camera_unsupported : Sentinel
  camera_point_names_not_allowed camera_linked_point_required : Sentinel
  page_linked_point_not_allowed camera_link_to_camera : Sentinel
  observation_point_name_required observation_point_not_found : Sentinel
  observation_point_already_linked invalid_measurement_window negative_count : Sentinel
  invalid_detected_people invalid_history_window event_type_required : Sentinel
  -- application
  foreign_event edge_device_required : Sentinel
  -- repository
  edge_device_not_found guest_status_not_found observation_settings_not_found : Sentinel
  snapshot_not_found optimization_outcome_missing : Sentinel
  -- tenantctx
  tenant_missing subject_missing tenant_mismatch event_missing event_mismatch : Sentinel
  -- connect
  measurement_source_required qr_location_not_allowed : Sentinel
  observation_point_not_allowed edge_device_not_allowed mixed_measurement_sources : Sentinel
  -- the context package
  canceled deadline_exceeded : Sentinel
  -- infra/db
  transaction_aborted : Sentinel

-- Each sentinel is a value of its own: its place in the list above.
abbrev pub index : Sentinel → ℕ
index invalid_public_id = 0
index tenant_required = 1
index event_required = 2
index edge_device_name_required = 3
index edge_device_unregistered = 4
index edge_device_kind_invalid = 5
index edge_device_camera_unsupported = 6
index camera_point_names_not_allowed = 7
index camera_linked_point_required = 8
index page_linked_point_not_allowed = 9
index camera_link_to_camera = 10
index observation_point_name_required = 11
index observation_point_not_found = 12
index observation_point_already_linked = 13
index invalid_measurement_window = 14
index negative_count = 15
index invalid_detected_people = 16
index invalid_history_window = 17
index event_type_required = 18
index foreign_event = 19
index edge_device_required = 20
index edge_device_not_found = 21
index guest_status_not_found = 22
index observation_settings_not_found = 23
index snapshot_not_found = 24
index optimization_outcome_missing = 25
index tenant_missing = 26
index subject_missing = 27
index tenant_mismatch = 28
index event_missing = 29
index event_mismatch = 30
index measurement_source_required = 31
index qr_location_not_allowed = 32
index observation_point_not_allowed = 33
index edge_device_not_allowed = 34
index mixed_measurement_sources = 35
index canceled = 36
index deadline_exceeded = 37
index transaction_aborted = 38

-- The SQLSTATE of an error of PostgreSQL, as far as the code tells them apart.
pub data SqlState : Type 0 where
  unique_violation serialization_failure deadlock_detected other_state : SqlState

pub data Error : Type 0 where
  sentinel : Sentinel → Error
  -- an error of a driver, of a remote service or of the runtime, with its text
  external : String → Error
  -- a `*pgconn.PgError`
  postgres : SqlState → Error
  -- `fmt.Errorf("…: %w", err)`
  wrapped : String → Error → Error
  -- `fmt.Errorf("…: %w: %w", a, b)`
  joined : String → Error → Error → Error

abbrev same : ℕ → ℕ → Bool
same a b = elim (compare a b) [ Ordering.eq ↦ true | _ ↦ false ]

-- `errors.Is`.
unfoldable pub is : Error → Sentinel → Bool
is (sentinel s) t = same (index s) (index t)
is (external _) t = false
is (postgres _) t = false
is (wrapped _ e) t = is e t
is (joined _ a b) t = is a t || is b t
