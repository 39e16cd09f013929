-- ===== src/Settings/Laws.antt =====
-- What reading and updating the settings of an event promise.
use tolo_observation.Settings.{
  ObservationSettings, ObservationSettingsRepository, EventType, is_chosen,
  new_observation_settings, update_observation_settings, ℤ, Context, ok, Text, pos,
  tenant_public_id_from_context, ensure_event,
}
use tolo_observation.Common.{
  ◌≡◌, true, some, arith, ◌↔◌, Bool-cases, inl, inr, Option-cases, sym, subst,
}
use tolo_observation.Common.Int.{◌≤ℤ◌, ltb_ℤ}
use tolo_observation.TenantCtx.Laws.{MayActOn, ensure_event_iff}
use tolo_observation.Common.Result.{Result-cases}

-- New settings are made exactly of at least one day and of an event type that is chosen.
pub new_observation_settings_iff :
    (days : ℤ) (event_type : EventType) (made : ObservationSettings)
    → (new_observation_settings days event_type ≡ ok made) ↔ (
        (pos 1 ≤ℤ days)
        × (is_chosen event_type ≡ true)
        × (made ≡ record { history_window_days = days; event_type = event_type }))
unfolding new_observation_settings
new_observation_settings_iff days event_type made = elim (Bool-cases (ltb_ℤ days (pos 1))) [
  | inl e ↦ ground (arith, e)
  | inr e ↦ ground (arith, e)
]

-- What an update leaves that answers with the settings made.
pub record Saves {S : Type 0} (settings : ObservationSettingsRepository S) (ctx : Context)
    (event : Text) (days : ℤ) (event_type : EventType) (s : S) (made : ObservationSettings) (s' : S)
    : Type 0 where
  pub event_allowed : MayActOn ctx event
  pub tenant : Text
  pub of_context : tenant_public_id_from_context ctx ≡ some tenant
  pub checked : new_observation_settings days event_type ≡ ok made
  pub saved : settings.save tenant event made s ≡ (ok tt, s')

-- An update that succeeds was for an event that the context may act on, has checked the settings,
-- and has saved exactly them, for the tenant of the context.
pub update_observation_settings_ok :
    {S : Type 0} (settings : ObservationSettingsRepository S) (ctx : Context) (event : Text)
    (days : ℤ) (event_type : EventType) (s s' : S) (made : ObservationSettings)
    → update_observation_settings settings ctx event days event_type s ≡ (ok made, s')
    → Saves settings ctx event days event_type s made s'
unfolding update_observation_settings
update_observation_settings_ok settings ctx event days event_type s s' made h =
    elim (Result-cases (ensure_event ctx event)) [
      | inr (e, u) ↦ ground (arith, h, u)
      | inl (_, u) ↦ elim (Option-cases (tenant_public_id_from_context ctx)) [
        | inl v ↦ ground (arith, h, u, v)
        | inr (t, v) ↦ elim (Result-cases (new_observation_settings days event_type)) [
          | inr (e, w) ↦ ground (arith, h, u, v, w)
          | inl (m, w) ↦ elim (Result-cases (settings.save t event m s).0) [
            | inr (e, x) ↦ ground (arith, h, u, v, w, x)
            | inl (_, x) ↦
                let same : m ≡ made = ground (arith, h, u, v, w, x) in
                let state : (settings.save t event m s).1 ≡ s' = ground (arith, h, u, v, w, x) in
                record {
                  event_allowed = (ensure_event_iff ctx event).0 u;
                  tenant = t;
                  of_context = v;
                  checked = rw (sym same) w;
                  saved =
                      subst (λ o. settings.save t event o s ≡ (ok tt, s')) same
                        (ground (arith, x, state));
                }
          ]
        ]
      ]
    ]
