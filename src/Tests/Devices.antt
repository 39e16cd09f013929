-- ===== src/Tests/Devices.antt =====
-- Runs over single devices.
use tolo_observation.Tests.Data.{page, gate_id, read, hold_policy, gate, hall}
use tolo_observation.EdgeDevice.{
  observation_page, unregister, heartbeat, update_observation_point, online,
  new_edge_device_with_kind, EdgeDevice, disable, has_observation_point, new_device_of_kind,
  new_observation_points,
}
use tolo_observation.Common.Result.{ok, err}
use tolo_observation.Hold.{
  connected, observation_point_states, HeartbeatLossHold, active, recent_since, device_states,
  point_states,
}
use tolo_observation.Common.{◌≡◌, refl, true, false, none, some, [], ◌∷◌, arith, ◌↔◌}
use tolo_observation.Common.Int.{pos, ℤ, ◌+ℤ◌, ◌-ℤ◌, ◌≤ℤ◌, sat_i64, wrap_i64}
use tolo_observation.EdgeDevice.Beat.{
  HeartbeatOutcome, HeardWithin, heartbeat-HeartbeatOutcome, online-heartbeat,
}
use tolo_observation.EdgeDevice.Update.{UpdateOutcome, update_observation_point-UpdateOutcome}
use tolo_observation.EdgeDevice.Retire.{unregister_final}
use tolo_observation.Errors.{sentinel, edge_device_unregistered}
use tolo_observation.Common.Text.{codes, text_eq, trim_space, trim_left, trim_right, is_space}
use tolo_observation.EdgeDevice.Create.{
  IsNewDevice, new_edge_device_with_kind-IsNewDevice, IsValidInput, new_edge_device_with_kind_iff,
}
use tolo_observation.Hold.States.{HasState, observation_point_states_sound}
use tolo_observation.Common.Map.{lookup}
use tolo_observation.PublicId.{new_public_id, encode_to_string}
use tolo_observation.Hold.Bounds.{connected_bound}

abbrev beaten : EdgeDevice
beaten = record page {
  last_heartbeat_at = some (pos 500);
  observation_points = record gate { last_active_at = some (pos 500) } ∷ hall ∷ [];
}

abbrev gone : EdgeDevice
gone = record page { unregistered = true; observation_points = disable gate ∷ disable hall ∷ [] }

heartbeat-HeartbeatOutcome_example :
    HeartbeatOutcome page (pos 500) (gate_id ∷ []) (heartbeat page (pos 500) (gate_id ∷ []))
heartbeat-HeartbeatOutcome_example = heartbeat-HeartbeatOutcome page (pos 500) (gate_id ∷ [])

heartbeat-beaten : heartbeat page (pos 500) (gate_id ∷ []) ≡ ok beaten
unfolding heartbeat has_observation_point text_eq
heartbeat-beaten = refl

online-heartbeat_example :
    (online beaten (pos 540) (pos 60) ≡ true) ↔ (pos 540 -ℤ pos 500 ≤ℤ pos 60)
online-heartbeat_example =
    online-heartbeat page beaten (pos 500) (pos 540) (pos 60) (gate_id ∷ [])
      (omega arith, omega arith) heartbeat-beaten

update_observation_point-UpdateOutcome_example :
    UpdateOutcome page gate_id
      (codes " door ")
      false
      (update_observation_point page gate_id (codes " door ") false)
update_observation_point-UpdateOutcome_example =
    update_observation_point-UpdateOutcome page gate_id (codes " door ") false

unregister-gone : unregister page ≡ ok gone
unfolding unregister
unregister-gone = refl

unregister_final_example :
    (unregister gone ≡ err (sentinel edge_device_unregistered))
    × (online gone (pos 150) (pos 60) ≡ false)
    × (update_observation_point gone gate_id (codes "door") true
        ≡ err (sentinel edge_device_unregistered))
    × (heartbeat gone (pos 150) [] ≡ err (sentinel edge_device_unregistered))
unregister_final_example =
    unregister_final page gone (pos 150) (pos 60) [] gate_id (codes "door") true unregister-gone

new_edge_device_with_kind_iff_example :
    ((d : EdgeDevice) × ((new_edge_device_with_kind read
          (codes " tn")
          (codes "ev")
          (codes "page")
          observation_page
          (codes "gate" ∷ [])
          []
          []).0
        ≡ ok d))
    ↔ IsValidInput (codes " tn") (codes "ev") (codes "page") observation_page (codes "gate" ∷ []) []
new_edge_device_with_kind_iff_example =
    new_edge_device_with_kind_iff read (λ s. (_, refl)) (codes " tn") (codes "ev") (codes "page")
      observation_page (codes "gate" ∷ []) [] []

abbrev made : EdgeDevice
made = record {
  id = codes "0707070707070707";
  tenant_public_id = codes "tn";
  event_id = codes "ev";
  name = codes "page";
  unregistered = false;
  last_heartbeat_at = none;
  kind = observation_page;
  observation_points =
      record {
        id = codes "0707070707070707";
        name = codes "gate";
        enabled = true;
        last_active_at = none;
      }
      ∷ [];
  camera_links = [];
}

register-made :
    (new_edge_device_with_kind read
      (codes " tn")
      (codes "ev")
      (codes "page")
      observation_page
      (codes "gate" ∷ [])
      []
      []).0
    ≡ ok made
unfolding new_edge_device_with_kind new_device_of_kind new_observation_points new_public_id
    encode_to_string trim_space trim_left trim_right is_space
register-made = refl

new_edge_device_with_kind-IsNewDevice_example :
    IsNewDevice
      (codes " tn")
      (codes "ev")
      (codes "page")
      observation_page
      (codes "gate" ∷ [])
      []
      made
new_edge_device_with_kind-IsNewDevice_example =
    new_edge_device_with_kind-IsNewDevice read (codes " tn") (codes "ev") (codes "page")
      observation_page (codes "gate" ∷ []) [] [] made register-made

abbrev held : HeartbeatLossHold ℤ
held = record { policy = hold_policy; started_at = some (pos 200) }

page-connected : connected held page (pos 300) ≡ true
unfolding connected online recent_since sat_i64 ◌-ℤ◌ ◌+ℤ◌ wrap_i64
page-connected = refl

connected_bound_example :
    (false ≡ false) × HeardWithin (some (pos 100)) (pos 300) (pos 60 +ℤ pos 60 +ℤ pos 600)
connected_bound_example =
    connected_bound held page (pos 300)
      (record {
        timeout_nonneg = omega arith;
        timeout_small = omega arith;
        duration_nonneg = omega arith;
      })
      page-connected

gate-active :
    lookup text_eq gate_id (observation_point_states (page ∷ []) (pos 300) held) ≡ some active
unfolding observation_point_states device_states point_states connected online recent_since text_eq
    sat_i64 ◌-ℤ◌ ◌+ℤ◌ wrap_i64
gate-active = refl

observation_point_states_sound_example : HasState held (pos 300) (page ∷ []) gate_id active
observation_point_states_sound_example =
    observation_point_states_sound held (pos 300) (page ∷ []) gate_id active gate-active
