-- ===== src/Connect/Settings.antt =====
-- internal/infra/connect/service.go: ObservationSettingsService and its messages.
pub mod Types
use tolo_observation.Settings.{
  ObservationSettings, EventType, unspecified, short_term, long_term, other_type,
}
use tolo_observation.Common.{
  ℕ, zero, suc, ◌≡◌, refl, Bool, true, false, Option, none, some, List, [], ◌∷◌, arith,
}
use tolo_observation.Common.Int.{ℤ, pos}
use tolo_observation.TenantCtx.{Context}
use tolo_observation.Common.Text.{Text}
use tolo_observation.Common.Result.{Action, ◌>>=◌, pure}
use tolo_observation.Connect.{Response, respond}

-- An int32 in the message; `other_proto_type` is any value without a name.
pub data ProtoEventType : Type 0 where
  proto_type_unspecified proto_short_term proto_long_term other_proto_type : ProtoEventType

pub record ProtoObservationSettings : Type 0 where
  pub history_window_days : ℤ  -- int32
  pub event_type : ProtoEventType

unfoldable pub domain_event_type : ProtoEventType → EventType
domain_event_type proto_short_term = short_term
domain_event_type proto_long_term = long_term
domain_event_type proto_type_unspecified = unspecified
domain_event_type other_proto_type = unspecified

unfoldable pub proto_event_type : EventType → ProtoEventType
proto_event_type short_term = proto_short_term
proto_event_type long_term = proto_long_term
proto_event_type unspecified = proto_type_unspecified
proto_event_type other_type = proto_type_unspecified

unfoldable pub new_proto_observation_settings : ObservationSettings → ProtoObservationSettings
new_proto_observation_settings s = record {
  history_window_days = s.history_window_days;
  event_type = proto_event_type s.event_type;
}

-- A message that is missing reads as one of zero values.
abbrev pub settings_days : Option ProtoObservationSettings → ℤ
settings_days none = pos 0
settings_days (some m) = m.history_window_days

abbrev pub settings_type : Option ProtoObservationSettings → ProtoEventType
settings_type none = proto_type_unspecified
settings_type (some m) = m.event_type

module _ {S : Type 0} where
  unfoldable pub handle_get_settings :
      (Context → Text → Action S ObservationSettings)
      → Context
      → Text
      → S
      → Response ProtoObservationSettings × S
  handle_get_settings get ctx event =
      respond (do settings ← get ctx event; pure (new_proto_observation_settings settings))

  unfoldable pub handle_update_settings :
      (Context → Text → ℤ → EventType → Action S ObservationSettings)
      → Context
      → Text
      → Option ProtoObservationSettings
      → S
      → Response ProtoObservationSettings × S
  handle_update_settings update ctx event message = respond (do
    settings ← update ctx event (settings_days message) (domain_event_type (settings_type message))
    pure (new_proto_observation_settings settings))
