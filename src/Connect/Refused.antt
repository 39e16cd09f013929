-- ===== src/Connect/Refused.antt =====
-- What a request for an event that its context may not act on is answered.
use tolo_observation.Connect.{refusal, Action, Result, err}
use tolo_observation.Connect.Devices.{
  EdgeDeviceUseCases, handle_unregister, handle_list, handle_list_points, handle_heartbeat,
  handle_update_point,
}
use tolo_observation.Common.{
  ℕ, ◌≡◌, refl, Bool, Option, none, some, List, arith, Option-cases, inl, Bool-cases, subst, inr,
}
use tolo_observation.Float.{Float}
use tolo_observation.TenantCtx.{ensure_event, Context, event_public_id_from_context}
use tolo_observation.EdgeDeviceService.{
  EdgeDeviceRepository, register_edge_device, unregister_edge_device, heartbeat_edge_device,
}
use tolo_observation.Holds.{HeartbeatLossHoldRepository}
use tolo_observation.ClientErrors.{client_error_in, permission_denied}
use tolo_observation.Hold.{HeartbeatLossHoldPolicy}
use tolo_observation.Errors.{is, Error, sentinel, event_missing, event_mismatch}
use tolo_observation.GoTime.{Time, Duration}
use tolo_observation.Connect.Settings.{
  handle_get_settings, handle_update_settings, ProtoObservationSettings,
}
use tolo_observation.Connect.Status.{handle_overview, handle_guest_snapshot}
use tolo_observation.EdgeDeviceQueries.{
  list_edge_devices, list_observation_points, update_observation_point_config,
}
use tolo_observation.Settings.{
  get_observation_settings, update_observation_settings, ObservationSettingsRepository,
}
use tolo_observation.StatusQuery.{get_event_overview, get_guest_snapshot, SnapshotReads, Bytes}
use tolo_observation.Snapshot.{Snapshot}
use tolo_observation.Common.Text.{Text, text_eq}
use tolo_observation.Db.GuestStatuses.{GuestStatus}
use tolo_observation.ClientErrors.{client_error}

-- The use cases of devices as the server puts them together.
abbrev pub edge_device_use_cases :
    {S F : Type 0}
    → Float F
    → EdgeDeviceRepository S
    → HeartbeatLossHoldRepository S
    → HeartbeatLossHoldPolicy F
    → Action S Time
    → Action S (List ℕ)
    → Duration
    → EdgeDeviceUseCases S
edge_device_use_cases f devices holds p clock read timeout = record {
  register = λ ctx input. register_edge_device devices clock read timeout ctx input;
  unregister = λ ctx event id. unregister_edge_device devices clock timeout ctx event id;
  list = λ ctx event b. list_edge_devices f devices holds p clock timeout ctx event b;
  list_points = λ ctx event id. list_observation_points f devices holds p clock ctx event id;
  heartbeat = λ ctx event id ids. heartbeat_edge_device devices clock ctx event id ids;
  update_point = λ ctx event id name b.
      update_observation_point_config f devices holds p clock ctx event id name b;
}

refusal_of :
    (ctx : Context) (event : Text) (e : Error)
    → ensure_event ctx event ≡ err e
    → (client_error e).code ≡ permission_denied
unfolding ensure_event client_error client_error_in is
refusal_of none event e h = cc
refusal_of (some c) event e h = elim (Option-cases (event_public_id_from_context (some c))) [
  | inl u ↦ elim (Bool-cases c.is_event_access) [
    | inl v ↦
        let q : sentinel event_missing ≡ e = ground (arith, h, u, v) in
        subst (λ x. (client_error x).code ≡ permission_denied) q refl
    | inr v ↦ ground (arith, h, u, v)
  ]
  | inr (x, u) ↦ elim (Bool-cases (text_eq x event)) [
    | inl v ↦ ground (arith, h, u, v)
    | inr v ↦
        let q : sentinel event_mismatch ≡ e = ground (arith, h, u, v) in
        subst (λ y. (client_error y).code ≡ permission_denied) q refl
  ]
]

-- If the context may not act on the event of a request, the handlers that unregister a device, list
-- devices, list the points of a device, take its heartbeat and update a point answer with the
-- client's error of the check, whose code is permission denied, and leave the state as it was; so do
-- those that get and update settings, and those of the overview and of the guests.
pub handlers_refused :
    {S F D : Type 0} (f : Float F) (devices : EdgeDeviceRepository S)
    (holds : HeartbeatLossHoldRepository S) (p : HeartbeatLossHoldPolicy F) (clock : Action S Time)
    (read : Action S (List ℕ)) (timeout : Duration) (settings : ObservationSettingsRepository S)
    (reads : SnapshotReads S (Snapshot F)) (latest : Text → Action S (GuestStatus F))
    (decode : Bytes → Result D) (message : Option ProtoObservationSettings) (ctx : Context)
    (event id name : Text) (b : Bool) (ids : List Text) (s : S) (e : Error)
    → ensure_event ctx event ≡ err e
    → let cases = edge_device_use_cases f devices holds p clock read timeout in
      ((client_error e).code ≡ permission_denied)
      × (handle_unregister cases ctx event id s ≡ (refusal (client_error e), s))
      × (handle_list cases ctx event b s ≡ (refusal (client_error e), s))
      × (handle_list_points cases ctx event id s ≡ (refusal (client_error e), s))
      × (handle_heartbeat cases ctx event id ids s ≡ (refusal (client_error e), s))
      × (handle_update_point cases ctx event id name b s ≡ (refusal (client_error e), s))
      × (handle_get_settings (get_observation_settings settings) ctx event s
          ≡ (refusal (client_error e), s))
      × (handle_update_settings (update_observation_settings settings) ctx event message s
          ≡ (refusal (client_error e), s))
      × (handle_overview decode (get_event_overview reads) ctx event s
          ≡ (refusal (client_error e), s))
      × (handle_guest_snapshot (get_guest_snapshot latest) ctx event s
          ≡ (refusal (client_error e), s))
unfolding handle_unregister handle_list handle_list_points handle_heartbeat handle_update_point
    handle_get_settings handle_update_settings handle_overview handle_guest_snapshot
    unregister_edge_device heartbeat_edge_device list_edge_devices list_observation_points
    update_observation_point_config get_observation_settings update_observation_settings
    get_event_overview get_guest_snapshot
handlers_refused f devices holds p clock read timeout settings reads latest decode message ctx event
      id name b ids s e h =
    ground (arith, h, refusal_of ctx event e h)
