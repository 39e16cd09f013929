-- ===== src/Db/Settings/RoundTrip.antt =====
-- Settings that were saved are found.
use tolo_observation.Db.Settings.{
  Faults, no_faults, SettingsRow, find_row, upsert, postgres_settings, find_settings, save_settings,
  settings_of_row, row_of, event_type_of, event_type_value, is_storable, Text, text_eq, ok, ℤ,
}
use tolo_observation.Settings.{
  ObservationSettings, EventType, get_observation_settings, update_observation_settings,
  find_observation_settings, or_default, short_term, long_term, unspecified, other_type,
}
use tolo_observation.Common.Text.{Text, text_eq, text_eq_refl, text_eq_iff, eq_of_text_eq}
use tolo_observation.TenantCtx.{
  Context, verify_ownership, tenant_public_id_from_context, ensure_event,
}
use tolo_observation.Common.{
  Option-cases, ◌≡◌, refl, true, some, List, [], ◌∷◌, arith, if◌then◌else◌, Bool-cases, ◌≢◌, inr,
  inl, is_some,
}
use tolo_observation.Common.Text.{text_eq_iff, eq_of_text_eq}
use tolo_observation.Settings.Laws.{update_observation_settings_ok}
use tolo_observation.TenantCtx.Laws.{ensure_event_iff}

find_row-upsert :
    (new : SettingsRow) (rows : List SettingsRow) (j : Text)
    → (upsert new rows).1 ≡ true
    → find_row j (upsert new rows).0
      ≡ (if text_eq new.event_id j then some new else find_row j rows)
find_row-upsert new [] j h = refl
find_row-upsert new (r ∷ rows) j h = elim (Bool-cases (text_eq r.event_id new.event_id)) [
  | inr e ↦ ground (
    arith,
    e,
    h,
    find_row-upsert new rows j,
    text_eq_iff r.event_id j,
    text_eq_iff new.event_id j,
    text_eq_iff r.event_id new.event_id,
  )
  | inl e ↦ elim (Bool-cases (text_eq r.tenant_public_id new.tenant_public_id)) [
    | inr t ↦ ground (arith, e, t, h)
    | inl t ↦
        let same = eq_of_text_eq r.event_id new.event_id e in
        let tenant = eq_of_text_eq r.tenant_public_id new.tenant_public_id t in
        ground (arith, e, t, same, tenant)
  ]
]

event_type_of-value :
    (t : EventType)
    → is_some (event_type_of (event_type_value t)) ≡ true
    → event_type_of (event_type_value t) ≡ some t
unfolding event_type_of text_eq
event_type_of-value short_term h = refl
event_type_of-value long_term h = refl
event_type_of-value unspecified h = cc
event_type_of-value other_type h = cc

-- What a save that succeeded has established.
save_settings_ok :
    (faults : Faults) (tenant event : Text) (settings : ObservationSettings)
    (rows rows' : List SettingsRow)
    → save_settings faults tenant event settings rows ≡ (ok tt, rows')
    → (is_storable (row_of tenant event settings) ≡ true)
      × ((upsert (row_of tenant event settings) rows).1 ≡ true)
      × ((upsert (row_of tenant event settings) rows).0 ≡ rows')
unfolding save_settings
save_settings_ok faults tenant event settings rows rows' h = elim (Option-cases faults.upserting) [
  | inr (e, u) ↦ ground (arith, h, u)
  | inl u ↦ elim (Option-cases faults.counting) [
    | inr (e, v) ↦ elim (Bool-cases (is_storable (row_of tenant event settings))) [
      | inl w ↦ ground (arith, h, u, v, w)
      | inr w ↦ ground (arith, h, u, v, w)
    ]
    | inl v ↦ ground (arith, h, u, v)
  ]
]

row-settings :
    (ctx : Context) (tenant event : Text) (settings : ObservationSettings)
    → verify_ownership ctx tenant ≡ ok tt
    → is_storable (row_of tenant event settings) ≡ true
    → settings_of_row ctx (row_of tenant event settings) ≡ ok settings
unfolding settings_of_row
row-settings ctx tenant event settings owns h =
    let known = event_type_of-value settings.event_type (ground (arith, h)) in
    ground (arith, owns, known)

-- If saving settings succeeds, reading them in a context that may read the tenant's data gives just
-- these settings, and the stored row of every other event is as before.
find_settings-save :
    (faults : Faults) (ctx : Context) (tenant event : Text) (settings : ObservationSettings)
    (rows rows' : List SettingsRow)
    → verify_ownership ctx tenant ≡ ok tt
    → save_settings faults tenant event settings rows ≡ (ok tt, rows')
    → (find_settings no_faults ctx event rows' ≡ (ok settings, rows'))
      × ((j : Text) → j ≢ event → find_row j rows' ≡ find_row j rows)
unfolding find_settings
find_settings-save faults ctx tenant event settings rows rows' owns saved =
    let (storable, affected, written) =
      save_settings_ok faults tenant event settings rows rows' saved in
    let new = row_of tenant event settings in
    let read = row-settings ctx tenant event settings owns storable in
    (
      ground (arith, find_row-upsert new rows event affected, written, text_eq_refl event, read),
      λ j other.
          ground (arith, find_row-upsert new rows j affected, written, text_eq_iff event j, other),
    )

owns-own :
    (ctx : Context) (tenant : Text)
    → tenant_public_id_from_context ctx ≡ some tenant
    → verify_ownership ctx tenant ≡ ok tt
unfolding verify_ownership
owns-own ctx tenant h = ground (arith, h, text_eq_refl tenant)

get-find :
    (ctx : Context) (event : Text) (rows : List SettingsRow) (found : ObservationSettings)
    → ensure_event ctx event ≡ ok tt
    → find_settings no_faults ctx event rows ≡ (ok found, rows)
    → get_observation_settings (postgres_settings no_faults ctx) ctx event rows ≡ (ok found, rows)
unfolding get_observation_settings find_observation_settings or_default
get-find ctx event rows found may h = ground (arith, may, h)

-- After an update of an event's settings that succeeded, whatever faults the driver may have, a
-- request in the same context for the settings of the event, if the driver answers it, is answered
-- with those of the update, and the stored settings of every other event are as before.
pub get_observation_settings-update :
    (faults : Faults) (ctx : Context) (event : Text) (days : ℤ) (event_type : EventType)
    (rows rows' : List SettingsRow) (made : ObservationSettings)
    → update_observation_settings (postgres_settings faults ctx) ctx event days event_type rows
      ≡ (ok made, rows')
    → (get_observation_settings (postgres_settings no_faults ctx) ctx event rows'
        ≡ (ok made, rows'))
      × ((j : Text) → j ≢ event → find_row j rows' ≡ find_row j rows)
get_observation_settings-update faults ctx event days event_type rows rows' made h =
    let s =
      update_observation_settings_ok (postgres_settings faults ctx) ctx event days event_type rows
        rows' made h in
    let (read, others) =
      find_settings-save faults ctx s.tenant event made rows rows'
        (owns-own ctx s.tenant s.of_context) s.saved in
    (get-find ctx event rows' made ((ensure_event_iff ctx event).1 s.event_allowed) read, others)
