-- ===== src/Settings.antt =====
-- internal/domain/observation_settings.go and internal/application/observation_settings.go.
pub mod Laws
use tolo_observation.Errors.{
  is, sentinel, invalid_history_window, event_type_required, observation_settings_not_found,
  tenant_missing, wrapped,
}
use tolo_observation.TenantCtx.{Context, ensure_event, tenant_public_id_from_context}
use tolo_observation.Common.{
  ℕ, zero, suc, ◌≡◌, refl, Bool, true, false, Option, none, some, List, [], ◌∷◌, arith,
  if◌then◌else◌, not,
}
use tolo_observation.Common.Int.{ℤ, pos, ltb_ℤ}
use tolo_observation.Common.Text.{Text}
use tolo_observation.Common.Result.{
  Result, Action, ok, err, ◌>>◌, lift, ◌>>=◌, or_err, wrap_err, pure,
}

-- An `int`; `other_type` is any value without a name.
pub data EventType : Type 0 where
  unspecified short_term long_term other_type : EventType

pub record ObservationSettings : Type 0 where
  pub history_window_days : ℤ  -- int32
  pub event_type : EventType

abbrev pub default_history_window_days : ℤ
default_history_window_days = pos 30

unfoldable pub default_observation_settings : ObservationSettings
default_observation_settings = record {
  history_window_days = default_history_window_days;
  event_type = unspecified;
}

abbrev pub is_chosen : EventType → Bool
is_chosen short_term = true
is_chosen long_term = true
is_chosen unspecified = false
is_chosen other_type = false

unfoldable pub new_observation_settings : ℤ → EventType → Result ObservationSettings
new_observation_settings days event_type =
    if ltb_ℤ days (pos 1)
    then err (sentinel invalid_history_window)
    else if not (is_chosen event_type)
    then err (sentinel event_type_required)
    else ok (record { history_window_days = days; event_type = event_type })

-- internal/repository/observation_settings.go.
pub record ObservationSettingsRepository (S : Type 0) : Type 0 where
  pub find : Text → Action S ObservationSettings
  pub save : Text → Text → ObservationSettings → Action S (Unit {0})

-- A missing row is the default.
unfoldable pub or_default : Result ObservationSettings → Result ObservationSettings
or_default (ok found) = ok found
or_default (err e) =
    if is e observation_settings_not_found
    then ok default_observation_settings
    else err (wrapped "find observation settings" e)

module _ {S : Type 0} (settings : ObservationSettingsRepository S) where
  unfoldable pub find_observation_settings : Text → Action S ObservationSettings
  find_observation_settings event s = let (r, s') = settings.find event s in (or_default r, s')

  unfoldable pub get_observation_settings : Context → Text → Action S ObservationSettings
  get_observation_settings ctx event = do
    lift (ensure_event ctx event)
    find_observation_settings event

  unfoldable pub update_observation_settings :
      Context → Text → ℤ → EventType → Action S ObservationSettings
  update_observation_settings ctx event days event_type = do
    lift (ensure_event ctx event)
    tenant ← lift (or_err (tenant_public_id_from_context ctx) (sentinel tenant_missing))
    checked ← lift (new_observation_settings days event_type)
    wrap_err "save observation settings" (settings.save tenant event checked)
    pure checked
