-- ===== src/EdgeDevice/Retire.antt =====
-- `Unregister`, and what an unregistered device still does.
use tolo_observation.EdgeDevice.{
  EdgeDevice, is_camera, disable, unregister, online, heartbeat, update_observation_point, ok, Time,
  Duration, Text, err, sentinel, edge_device_unregistered, edge_device_camera_unsupported,
}
use tolo_observation.Common.{◌≡◌, Bool, true, false, List, [], arith, map, if◌then◌else◌}

-- What unregistering leaves of a device: a camera loses its links, another device has all its points
-- disabled.
pub record Retires (d d' : EdgeDevice) : Type 0 where
  pub gone : d'.unregistered ≡ true
  pub rest : d' ≡ record d {
    unregistered = true;
    observation_points = d'.observation_points;
    camera_links = d'.camera_links;
  }
  pub of_camera :
      is_camera d.kind ≡ true
      → (d'.camera_links ≡ []) × (d'.observation_points ≡ d.observation_points)
  pub of_page :
      is_camera d.kind ≡ false
      → (d'.camera_links ≡ d.camera_links)
        × (d'.observation_points ≡ map disable d.observation_points)

-- Unregistering succeeds exactly once: it refuses a device that is unregistered already, and
-- otherwise marks the device, drops a camera's links and disables every point of another device,
-- and changes nothing else.
pub unregister-Retires :
    (d d' : EdgeDevice) → unregister d ≡ ok d' → (d.unregistered ≡ false) × Retires d d'
unfolding unregister
unregister-Retires d d' h = ground arith

-- An unregistered device refuses every further operation, and is never online.
pub unregister_final :
    (d d' : EdgeDevice) (now : Time) (timeout : Duration) (ids : List Text) (id name : Text)
    (enabled : Bool)
    → unregister d ≡ ok d'
    → (unregister d' ≡ err (sentinel edge_device_unregistered))
      × (online d' now timeout ≡ false)
      × (update_observation_point d' id name enabled ≡ err (sentinel edge_device_unregistered))
      × (heartbeat d' now ids
          ≡ err (
              sentinel (
                if is_camera d.kind
                then edge_device_camera_unsupported
                else edge_device_unregistered)))
unfolding unregister online heartbeat update_observation_point
unregister_final d d' now timeout ids id name enabled h = ground arith
