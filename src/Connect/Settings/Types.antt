-- ===== src/Connect/Settings/Types.antt =====
-- Settings on the wire.
use tolo_observation.Connect.Settings.{
  ProtoEventType, ProtoObservationSettings, domain_event_type, proto_event_type, settings_days,
  settings_type, handle_update_settings, new_proto_observation_settings, Context, proto_short_term,
  Text, proto_long_term, pos, proto_type_unspecified, other_proto_type,
}
use tolo_observation.Settings.Laws.{new_observation_settings_iff, update_observation_settings_ok}
use tolo_observation.Common.{◌≡◌, refl, true, Option, none, some, arith, ◌⊎◌, inl, inr, subst}
use tolo_observation.Settings.{
  is_chosen, ObservationSettingsRepository, update_observation_settings,
}
use tolo_observation.TenantCtx.Laws.{MayActOn}
use tolo_observation.Connect.{response}
use tolo_observation.Common.Int.{◌≤ℤ◌}
use tolo_observation.Common.Result.{Result-cases}

-- A type that may be chosen keeps its name.
chosen_type :
    (t : ProtoEventType)
    → is_chosen (domain_event_type t) ≡ true
    → (proto_event_type (domain_event_type t) ≡ t)
      × ((t ≡ proto_short_term) ⊎ (t ≡ proto_long_term))
unfolding domain_event_type proto_event_type
chosen_type proto_short_term h = (refl, inl refl)
chosen_type proto_long_term h = (refl, inr refl)
chosen_type proto_type_unspecified h = cc
chosen_type other_proto_type h = cc

-- What an update of settings that is answered with a message was.
pub record Updates (ctx : Context) (event : Text) (message : Option ProtoObservationSettings)
    (r : ProtoObservationSettings) : Type 0 where
  pub event_allowed : MayActOn ctx event
  pub echoed : message ≡ some r
  pub enough_days : pos 1 ≤ℤ r.history_window_days
  pub chosen : (r.event_type ≡ proto_short_term) ⊎ (r.event_type ≡ proto_long_term)

echoes :
    (ctx : Context) (event : Text) (message : Option ProtoObservationSettings)
    (r : ProtoObservationSettings)
    → MayActOn ctx event
    → pos 1 ≤ℤ settings_days message
    → is_chosen (domain_event_type (settings_type message)) ≡ true
    → r ≡ record {
      history_window_days = settings_days message;
      event_type = proto_event_type (domain_event_type (settings_type message));
    }
    → Updates ctx event message r
echoes ctx event none r may days chosen made = ground (arith, days)
echoes ctx event (some m) r may days chosen made =
    let (back, named) = chosen_type m.event_type chosen in
    let same : m ≡ r = ground (arith, made, back) in
    record {
      event_allowed = may;
      echoed = ground (arith, same);
      enough_days =
          subst (λ (x : ProtoObservationSettings). pos 1 ≤ℤ x.history_window_days) same days;
      chosen =
          subst
            (λ (x : ProtoObservationSettings).
              (x.event_type ≡ proto_short_term) ⊎ (x.event_type ≡ proto_long_term))
            same named;
    }

-- An update is answered with settings only for an event that the context may act on and with a
-- message that names at least one day and a short-term or a long-term event; the answer is that
-- message.
pub handle_update_settings_ok :
    {S : Type 0} (repository : ObservationSettingsRepository S) (ctx : Context) (event : Text)
    (message : Option ProtoObservationSettings) (r : ProtoObservationSettings) (s : S)
    → (handle_update_settings (update_observation_settings repository) ctx event message s).0
      ≡ response r
    → Updates ctx event message r
unfolding handle_update_settings new_proto_observation_settings
handle_update_settings_ok repository ctx event message r s h =
    let days = settings_days message in
    let chosen = domain_event_type (settings_type message) in
    let result = update_observation_settings repository ctx event days chosen s in
    elim (Result-cases result.0) [
      | inr (e, u) ↦ ground (arith, h, u)
      | inl (made, u) ↦
          let saves =
            update_observation_settings_ok repository ctx event days chosen s result.1 made
              (ground (arith, u)) in
          let checked = (new_observation_settings_iff days chosen made).0 saves.checked in
          echoes ctx event message r saves.event_allowed checked.0 checked.1
            (ground (arith, h, u, checked.2))
    ]
