-- ===== src/Db/Settings.antt =====
-- internal/infra/db/observation_settings.go over the table observation_settings (migration 000001),
-- whose key is the event and whose checks are those below.
pub mod RoundTrip
use tolo_observation.Settings.{
  ObservationSettings, ObservationSettingsRepository, EventType, short_term, long_term, unspecified,
  other_type,
}
use tolo_observation.TenantCtx.{Context, verify_ownership}
use tolo_observation.Errors.{
  Error, sentinel, external, postgres, other_state, wrapped, observation_settings_not_found,
  tenant_mismatch,
}
use tolo_observation.Common.{
  ℕ, zero, suc, ◌≡◌, refl, Bool, true, false, Option, none, some, List, [], ◌∷◌, arith,
  if◌then◌else◌, leb, not, ◌&&◌, is_some,
}
use tolo_observation.Common.Text.{Text, codes, text_eq}
use tolo_observation.Common.Result.{Result, err, Action, ok}
use tolo_observation.Common.Int.{ℤ, leb_ℤ, pos}

pub record SettingsRow : Type 0 where
  pub event_id : Text
  pub tenant_public_id : Text
  pub history_window_days : ℤ
  pub event_type : Text

-- `eventTypeValues`; a type without an entry is the empty text.
abbrev pub event_type_value : EventType → Text
event_type_value short_term = codes "short_term"
event_type_value long_term = codes "long_term"
event_type_value unspecified = []
event_type_value other_type = []

-- The loop over `eventTypeValues`.
unfoldable pub event_type_of : Text → Option EventType
event_type_of value =
    if text_eq value (codes "short_term")
    then some short_term
    else if text_eq value (codes "long_term")
    then some long_term
    else none

-- `SELECT … WHERE event_id = $1`.
abbrev pub find_row : Text → List SettingsRow → Option SettingsRow
find_row event [] = none
find_row event (r ∷ rows) = if text_eq r.event_id event then some r else find_row event rows

-- `INSERT … ON CONFLICT (event_id) DO UPDATE … WHERE` the tenants are the same, with whether a row
-- was affected.
abbrev pub upsert : SettingsRow → List SettingsRow → List SettingsRow × Bool
upsert new [] = (new ∷ [], true)
upsert new (r ∷ rows) =
    let (rest, affected) = upsert new rows in
    if not (text_eq r.event_id new.event_id)
    then (r ∷ rest, affected)
    else if text_eq r.tenant_public_id new.tenant_public_id
    then (
      record r { history_window_days = new.history_window_days; event_type = new.event_type }
          ∷ rows,
      true,
    )
    else (r ∷ rows, false)

-- The two CHECK constraints, which come before the conflict.
abbrev pub is_storable : SettingsRow → Bool
is_storable r = leb_ℤ (pos 1) r.history_window_days && is_some (event_type_of r.event_type)

unfoldable pub settings_of_row : Context → SettingsRow → Result ObservationSettings
settings_of_row ctx r = elim (verify_ownership ctx r.tenant_public_id) [
  | err e ↦ err e
  | ok _ ↦ elim (event_type_of r.event_type) [
    | none ↦ err (external "unknown stored event type")
    | some t ↦ ok (record { history_window_days = r.history_window_days; event_type = t })
  ]
]

-- The errors of the driver in the calls of the repository, where there are any.
pub record Faults : Type 0 where
  pub selecting : Option Error
  pub upserting : Option Error
  pub counting : Option Error

unfoldable pub find_settings :
    Faults → Context → Text → Action (List SettingsRow) ObservationSettings
find_settings faults ctx event rows = elim faults.selecting [
  | some e ↦ (err (wrapped "select observation settings" e), rows)
  | none ↦ elim (find_row event rows) [
    | none ↦ (err (sentinel observation_settings_not_found), rows)
    | some r ↦ (settings_of_row ctx r, rows)
  ]
]

abbrev pub row_of : Text → Text → ObservationSettings → SettingsRow
row_of tenant event settings = record {
  event_id = event;
  tenant_public_id = tenant;
  history_window_days = settings.history_window_days;
  event_type = event_type_value settings.event_type;
}

unfoldable pub save_settings :
    Faults → Text → Text → ObservationSettings → Action (List SettingsRow) (Unit {0})
save_settings faults tenant event settings rows =
    let (written, affected) = upsert (row_of tenant event settings) rows in
    elim faults.upserting [
      | some e ↦ (err (wrapped "upsert observation settings" e), rows)
      | none ↦
          if not (is_storable (row_of tenant event settings))
          then (err (wrapped "upsert observation settings" (postgres other_state)), rows)
          else elim faults.counting [
            | some e ↦ (err (wrapped "count upserted observation settings" e), written)
            | none ↦
                if affected then (ok tt, written) else (err (sentinel tenant_mismatch), written)
          ]
    ]

abbrev pub postgres_settings : Faults → Context → ObservationSettingsRepository (List SettingsRow)
postgres_settings faults ctx = record {
  find = find_settings faults ctx;
  save = save_settings faults;
}

-- Every call is answered.
abbrev pub no_faults : Faults
no_faults = record { selecting = none; upserting = none; counting = none }
