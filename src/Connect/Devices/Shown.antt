-- ===== src/Connect/Devices/Shown.antt =====
-- What a client is shown of a device.
use tolo_observation.Connect.Devices.{
  EdgeDeviceUseCases, ProtoEdgeDevice, RegisterEdgeDeviceRequest, RegisterEdgeDeviceResponse,
  new_proto_edge_device, proto_edge_device_kind, handle_register, handle_unregister, handle_list,
  proto_camera, EdgeDeviceKind, EdgeDeviceView, is_camera, Context, domain_edge_device_kind, Text,
}
use tolo_observation.Connect.{
  Response, response, refusal, ConnectError, Action, respond, client_error,
}
use tolo_observation.Common.{
  ◌≡◌, refl, Bool, true, false, none, List, [], ◌∷◌, arith, ◌≢◌, ◌⊎◌, inl, All, inr, map, subst,
}
use tolo_observation.Common.Result.{◌>>=◌, pure, Result-cases}
use tolo_observation.EdgeDevice.{camera, observation_page, other_kind}

-- What is answered has the property; a refusal answers nothing.
pub data Answers {A : Type 0} (P : A → Type 0) : Response A → Type 0 where
  answered : (a : A) → P a → Answers P (response a)
  refused : (e : ConnectError) → Answers P (refusal e)

-- A camera is shown neither online nor with a heartbeat.
abbrev pub HidesCamera : ProtoEdgeDevice → Type 0
HidesCamera p = (p.kind ≢ proto_camera) ⊎ ((p.online ≡ false) × (p.last_heartbeat_at ≡ none))

hides : (k : EdgeDeviceKind) → (proto_edge_device_kind k ≢ proto_camera) ⊎ (is_camera k ≡ true)
unfolding proto_edge_device_kind
hides camera = inr refl
hides observation_page = inl (λ q. cc q)
hides other_kind = inl (λ q. cc q)

new_proto_edge_device-HidesCamera : (v : EdgeDeviceView) → HidesCamera (new_proto_edge_device v)
unfolding new_proto_edge_device
new_proto_edge_device-HidesCamera v = elim (hides v.device.kind) [
  | inl u ↦ inl u
  | inr u ↦ inr (ground (arith, u), ground (arith, u))
]

views-HidesCamera : (vs : List EdgeDeviceView) → All HidesCamera (map new_proto_edge_device vs)
views-HidesCamera [] = tt
views-HidesCamera (v ∷ vs) = (new_proto_edge_device-HidesCamera v, views-HidesCamera vs)

respond-Answers :
    {S A B : Type 0} {P : B → Type 0} (m : Action S A) (g : A → B) (s : S)
    → ((a : A) → P (g a))
    → Answers P (respond (do a ← m; pure (g a)) s).0
respond-Answers {P = P} m g s h = elim (Result-cases (m s).0) [
  | inl (a, u) ↦ subst (Answers P) (ground (arith, u)) (answered (g a) (h a))
  | inr (e, u) ↦ subst (Answers P) (ground (arith, u)) (refused (client_error e))
]

handle_register-Answers :
    {S : Type 0} (use_cases : EdgeDeviceUseCases S) (ctx : Context)
    (req : RegisterEdgeDeviceRequest) (s : S)
    → Answers
        (λ (r : RegisterEdgeDeviceResponse). HidesCamera r.device)
        (handle_register use_cases ctx req s).0
unfolding handle_register
handle_register-Answers use_cases ctx req s =
    elim (Result-cases (domain_edge_device_kind req.kind)) [
      | inr (e, u) ↦ subst (Answers _) (ground (arith, u)) (refused (client_error e))
      | inl (k, u) ↦ subst (Answers _) (ground (arith, u)) (
          respond-Answers
            (use_cases.register ctx (record {
              event_id = req.event_id;
              name = req.name;
              observation_point_names = req.observation_point_names;
              kind = k;
              linked_observation_point_id = req.linked_observation_point_id;
            }))
            (λ output. record {
              device = new_proto_edge_device output.device;
              observation_page_path = output.observation_page_path;
            })
            s (λ output. new_proto_edge_device-HidesCamera output.device))
    ]

-- Whatever the use cases answer, a client that registers, unregisters or lists devices is shown no
-- camera that is online or has a heartbeat.
pub handlers-HidesCamera :
    {S : Type 0} (use_cases : EdgeDeviceUseCases S) (ctx : Context)
    (req : RegisterEdgeDeviceRequest) (event id : Text) (b : Bool) (s : S)
    → Answers
        (λ (r : RegisterEdgeDeviceResponse). HidesCamera r.device)
        (handle_register use_cases ctx req s).0
      × Answers HidesCamera (handle_unregister use_cases ctx event id s).0
      × Answers (All HidesCamera) (handle_list use_cases ctx event b s).0
unfolding handle_unregister handle_list
handlers-HidesCamera use_cases ctx req event id b s = (
  handle_register-Answers use_cases ctx req s,
  respond-Answers (use_cases.unregister ctx event id) new_proto_edge_device s
      new_proto_edge_device-HidesCamera,
  respond-Answers (use_cases.list ctx event b) (λ vs. map new_proto_edge_device vs) s
      views-HidesCamera,
)
