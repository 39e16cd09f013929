-- ===== src/FlowClient/Request.antt =====
-- internal/infra/connect/flow_client.go: newOptimizeRequest and Optimize. Protobuf's JSON, the remote
-- call and random texts are parameters, and so are the messages that the service only passes on: the
-- detection state `D`, the optimization result `R`, the diagnostics `G` and the feedback values `V`.
use Prim.Native.String.{String}
use tolo_observation.Cycle.{OptimizeInput}
use tolo_observation.FlowClient.Graph.{FlowGraph, flow_graph}
use tolo_observation.FlowClient.Observations.{
  Observations, FlowEvent, flow_observations, flow_events,
}
use tolo_observation.FlowClient.Digest.{HistoryDigest, flow_history_digest, hours}
use tolo_observation.StatusQuery.{Bytes, OptimizationOutcome}
use tolo_observation.Common.{ℕ, Option, none, some, List, [], get_or}
use tolo_observation.Settings.{EventType, long_term, short_term, unspecified, other_type}
use tolo_observation.Common.Text.{Text}
use tolo_observation.Common.Result.{
  Result, ok, wrap_result, Action, err, ◌>>=◌, lift, wrap_err, pure,
}
use tolo_observation.Float.{Float, quot, rem}
use tolo_observation.GoTime.{Time, Duration, sub}
use tolo_observation.Common.Int.{ℤ, max_ℤ, pos}
use tolo_observation.Snapshot.{Snapshot, GraphAnchor, anchor_eq}
use tolo_observation.Common.Map.{lookup}

pub data EventTerm : Type 0 where
  term_short term_long : EventTerm

unfoldable pub flow_event_term : EventType → EventTerm
flow_event_term long_term = term_long
flow_event_term short_term = term_short
flow_event_term unspecified = term_short
flow_event_term other_type = term_short

pub record OptimizeRequest (F D R : Type 0) : Type 0 where
  pub request_id : Text
  pub event_id : Text
  pub tenant_id : Text
  pub term : EventTerm
  pub available_history_hours : F
  pub graph : FlowGraph F
  pub observations : Observations F
  pub history_digest : HistoryDigest F
  pub detection_state : D
  pub previous_result : Option R
  pub events : List FlowEvent
  pub server_time : Time

pub record OptimizeResponse (D R G V : Type 0) : Type 0 where
  pub verdict : Text
  pub updated_detection_state : D
  pub optimization_result : Option R
  pub diagnostics : Option G
  pub feedback_values : Option V

-- Protobuf's JSON of a message.
pub record ProtoJson (M : Type 0) : Type 0 where
  pub encode : M → Result (List ℕ)
  pub decode : List ℕ → Result M

-- A nil slice decodes as no bytes.
abbrev pub bytes_of : Bytes → List ℕ
bytes_of none = []
bytes_of (some b) = b

-- An optional message of the response, encoded if it is there.
abbrev pub encode_optional : {M : Type 0} → String → ProtoJson M → Option M → Result Bytes
encode_optional context json none = ok none
encode_optional context json (some m) = elim (wrap_result context (json.encode m)) [
  | ok b ↦ ok (some b)
  | err e ↦ err e
]

module _ {D R : Type 0} (states : ProtoJson D) (results : ProtoJson R) (empty_state : D) where
  abbrev pub previous_state : Option OptimizationOutcome → Result D
  previous_state none = ok empty_state
  previous_state (some o) =
      wrap_result "decode previous detection state" (states.decode (bytes_of o.detection_state))

  abbrev pub decode_result : Bytes → Result (Option R)
  decode_result none = ok none
  decode_result (some b) =
      elim (wrap_result "decode previous optimization result" (results.decode b)) [
        | ok r ↦ ok (some r)
        | err e ↦ err e
      ]

  abbrev pub previous_result : Option OptimizationOutcome → Result (Option R)
  previous_result none = ok none
  previous_result (some o) = decode_result o.optimization_result

  module _ {S F : Type 0} (f : Float F) (to_int32 : F → ℤ) (random_text : Action S Text) where
    -- `Duration.Seconds`.
    abbrev pub seconds : Duration → F
    seconds d =
        f.plus (f.of_int (quot d 1_000_000_000))
          (f.over (f.of_int (rem d 1_000_000_000)) (f.of_int (pos 1_000_000_000)))

    unfoldable pub resolution : Snapshot F → GraphAnchor → ℤ
    resolution snap anchor = to_int32 (
        seconds (
          max_ℤ (get_or (lookup anchor_eq anchor snap.resolutions) (pos 0))
            (sub snap.window_end snap.window_start)))

    unfoldable pub new_optimize_request : OptimizeInput F → Action S (OptimizeRequest F D R)
    new_optimize_request input = do
      state ← lift (previous_state input.previous)
      previous ← lift (previous_result input.previous)
      let graph = flow_graph input.graph (resolution input.snapshot)
      id ← random_text
      pure (record {
        request_id = id;
        event_id = input.snapshot.event_id;
        tenant_id = input.tenant_public_id;
        term = flow_event_term input.event_type;
        available_history_hours = hours f input.available_history;
        graph = graph;
        observations = flow_observations f input.snapshot input.gaps graph.node_ids graph.edge_ids;
        history_digest = flow_history_digest f input.history input.arc_history graph.edge_ids;
        detection_state = state;
        previous_result = previous;
        events = flow_events input.sensor_set_changes graph.node_ids graph.edge_ids;
        server_time = input.server_time;
      })

    module _ {G V : Type 0} (diagnostics : ProtoJson G) (feedbacks : ProtoJson V)
        (call : OptimizeRequest F D R → Action S (OptimizeResponse D R G V)) where
      unfoldable pub optimize : OptimizeInput F → Action S OptimizationOutcome
      optimize input = do
        req ← new_optimize_request input
        res ← wrap_err "call Optimize" (call req)
        state ←
            lift (wrap_result "encode detection state" (states.encode res.updated_detection_state))
        result ← lift (encode_optional "encode optimization result" results res.optimization_result)
        found ← lift (encode_optional "encode diagnostics" diagnostics res.diagnostics)
        values ← lift (encode_optional "encode feedback values" feedbacks res.feedback_values)
        pure (record {
          snapshot_id = input.snapshot.id;
          server_time = input.server_time;
          verdict = res.verdict;
          detection_state = some state;
          optimization_result = result;
          feedback_values = values;
          diagnostics = found;
        })
