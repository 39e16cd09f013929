-- ===== src/OperationClient.antt =====
-- internal/infra/connect/operation_client.go: what the operation service is sent of an outcome.
-- Protobuf's JSON and the remote calls are parameters.
pub mod Calls
use tolo_observation.FlowClient.Request.{ProtoJson}
use tolo_observation.StatusQuery.{OptimizationOutcome, Bytes}
use tolo_observation.Common.{
  ℕ, zero, suc, ◌≡◌, refl, Bool, true, false, Option, none, some, List, [], ◌∷◌, arith, map, is_nil,
  not, ◌++◌, ◌&&◌,
}
use tolo_observation.Common.Text.{Text, codes}
use tolo_observation.GoTime.{Time}
use tolo_observation.Common.Result.{Action, wrap_err, pure, ◌>>=◌, lift, wrap_result}

-- The flow controller's enums are int32s; `other_…` is any value without a name.
pub data ImportanceDirection : Type 0 where
  importance_unspecified importance_a_to_b importance_b_to_a importance_none other_importance :
      ImportanceDirection

pub data ProposedDirection : Type 0 where
  proposed_unspecified proposed_a_to_b proposed_b_to_a proposed_bidirectional other_proposed :
      ProposedDirection

pub data DirectionChangeType : Type 0 where
  change_unspecified change_convert_oneway change_release_oneway change_flip_oneway :
      DirectionChangeType
  change_keep other_change : DirectionChangeType

pub data RestrictionAction : Type 0 where
  restriction_unspecified restriction_close restriction_limit restriction_resume : RestrictionAction
  other_restriction : RestrictionAction

pub data RestrictionReason : Type 0 where
  reason_unspecified undrainable_stagnation residual_tau puncture : RestrictionReason
  node_danger_upstream overload other_reason : RestrictionReason

pub data BoundaryAction : Type 0 where
  boundary_unspecified pause_ingress pause_egress boundary_resume other_boundary : BoundaryAction

-- The enums of the operation service.
pub data RouteDirection : Type 0 where
  route_unspecified forward backward both_ways : RouteDirection

pub data DirectionChange : Type 0 where
  unspecified convert_one_way release_one_way flip_one_way keep : DirectionChange

pub data OperationRestriction : Type 0 where
  action_unspecified action_close action_limit action_resume : OperationRestriction

pub data OperationReason : Type 0 where
  no_reason reason_undrainable reason_residual reason_puncture : OperationReason
  reason_danger_upstream reason_overload : OperationReason

pub data OperationBoundary : Type 0 where
  no_control control_pause_ingress control_pause_egress control_resume : OperationBoundary

-- The maps between them: a key that a map lacks reads as the zero value.
unfoldable pub importance_direction : ImportanceDirection → Option RouteDirection
importance_direction importance_none = none
importance_direction importance_a_to_b = some forward
importance_direction importance_b_to_a = some backward
importance_direction importance_unspecified = some route_unspecified
importance_direction other_importance = some route_unspecified

unfoldable pub proposed_direction : ProposedDirection → RouteDirection
proposed_direction proposed_a_to_b = forward
proposed_direction proposed_b_to_a = backward
proposed_direction proposed_bidirectional = both_ways
proposed_direction proposed_unspecified = route_unspecified
proposed_direction other_proposed = route_unspecified

unfoldable pub direction_change : DirectionChangeType → DirectionChange
direction_change change_convert_oneway = convert_one_way
direction_change change_release_oneway = release_one_way
direction_change change_flip_oneway = flip_one_way
direction_change change_keep = keep
direction_change change_unspecified = unspecified
direction_change other_change = unspecified

unfoldable pub restriction_action : RestrictionAction → OperationRestriction
restriction_action restriction_close = action_close
restriction_action restriction_limit = action_limit
restriction_action restriction_resume = action_resume
restriction_action restriction_unspecified = action_unspecified
restriction_action other_restriction = action_unspecified

unfoldable pub restriction_reason : RestrictionReason → OperationReason
restriction_reason undrainable_stagnation = reason_undrainable
restriction_reason residual_tau = reason_residual
restriction_reason puncture = reason_puncture
restriction_reason node_danger_upstream = reason_danger_upstream
restriction_reason overload = reason_overload
restriction_reason reason_unspecified = no_reason
restriction_reason other_reason = no_reason

unfoldable pub boundary_action : BoundaryAction → OperationBoundary
boundary_action pause_ingress = control_pause_ingress
boundary_action pause_egress = control_pause_egress
boundary_action boundary_resume = control_resume
boundary_action boundary_unspecified = no_control
boundary_action other_boundary = no_control

-- The proposals of an optimization result: the flow controller's and the operation service's.
pub record ImportanceMessage (F : Type 0) : Type 0 where
  pub edge_id : Text
  pub direction : ImportanceDirection
  pub importance : F

pub record DirectionMessage (F : Type 0) : Type 0 where
  pub edge_id : Text
  pub proposed : ProposedDirection
  pub change_type : DirectionChangeType
  pub confidence : F

pub record RestrictionMessage (F : Type 0) : Type 0 where
  pub edge_id : Text
  pub action : RestrictionAction
  pub limit_value : Option F
  pub limit_ratio : Option F
  pub reason : RestrictionReason
  pub confidence : F

pub record DetourMessage (F : Type 0) : Type 0 where
  pub origin_edge_id : Text
  pub edge_ids : List Text
  pub confidence : F

pub record ControlMessage : Type 0 where
  pub node_id : Text
  pub action : BoundaryAction

pub record RouteImportance (F : Type 0) : Type 0 where
  pub route_id : Text
  pub direction : Option RouteDirection
  pub importance : F

pub record DirectionProposal (F : Type 0) : Type 0 where
  pub route_id : Text
  pub proposed : RouteDirection
  pub change : DirectionChange
  pub confidence : F

pub record RestrictionProposal (F : Type 0) : Type 0 where
  pub route_id : Text
  pub action : OperationRestriction
  pub limit_value : Option F
  pub limit_ratio : Option F
  pub reason : OperationReason
  pub confidence : F

pub record DetourProposal (F : Type 0) : Type 0 where
  pub origin_route_id : Text
  pub route_ids : List Text
  pub confidence : F

pub record BoundaryControl : Type 0 where
  pub point_id : Text
  pub action : OperationBoundary

pub record OptimizationResult (F : Type 0) : Type 0 where
  pub route_importance : List (ImportanceMessage F)
  pub direction_proposal : List (DirectionMessage F)
  pub restriction_proposal : List (RestrictionMessage F)
  pub detour_paths : List (DetourMessage F)
  pub boundary_control : List ControlMessage
  pub solved_at : Option Time

pub record FlowProposals (F : Type 0) : Type 0 where
  pub route_importances : List (RouteImportance F)
  pub direction_proposals : List (DirectionProposal F)
  pub restriction_proposals : List (RestrictionProposal F)
  pub detour_proposals : List (DetourProposal F)
  pub boundary_controls : List BoundaryControl
  pub solved_at : Option Time

module _ {F : Type 0} where
  abbrev pub importance_of : ImportanceMessage F → RouteImportance F
  importance_of m = record {
    route_id = m.edge_id;
    direction = importance_direction m.direction;
    importance = m.importance;
  }

  abbrev pub direction_of : DirectionMessage F → DirectionProposal F
  direction_of m = record {
    route_id = m.edge_id;
    proposed = proposed_direction m.proposed;
    change = direction_change m.change_type;
    confidence = m.confidence;
  }

  abbrev pub restriction_of : RestrictionMessage F → RestrictionProposal F
  restriction_of m = record {
    route_id = m.edge_id;
    action = restriction_action m.action;
    limit_value = m.limit_value;
    limit_ratio = m.limit_ratio;
    reason = restriction_reason m.reason;
    confidence = m.confidence;
  }

  abbrev pub detour_of : DetourMessage F → DetourProposal F
  detour_of m = record {
    origin_route_id = m.origin_edge_id;
    route_ids = m.edge_ids;
    confidence = m.confidence;
  }

abbrev pub control_of : ControlMessage → BoundaryControl
control_of m = record { point_id = m.node_id; action = boundary_action m.action }

module _ {F : Type 0} where
  abbrev pub proposals_of : OptimizationResult F → FlowProposals F
  proposals_of r = record {
    route_importances = map importance_of r.route_importance;
    direction_proposals = map direction_of r.direction_proposal;
    restriction_proposals = map restriction_of r.restriction_proposal;
    detour_proposals = map detour_of r.detour_paths;
    boundary_controls = map control_of r.boundary_control;
    solved_at = r.solved_at;
  }

  abbrev pub has_no_proposal : FlowProposals F → Bool
  has_no_proposal p =
      is_nil p.route_importances
      && is_nil p.direction_proposals
      && is_nil p.restriction_proposals
      && is_nil p.detour_proposals
      && is_nil p.boundary_controls

  -- The proposals, and whether there are any.
  unfoldable pub operation_flow_proposals : OptimizationResult F → FlowProposals F × Bool
  operation_flow_proposals r = (proposals_of r, not (has_no_proposal (proposals_of r)))

-- `FeedbackValues` of the flow controller.
pub record FeedbackValues (F : Type 0) : Type 0 where
  -- tau star and the throughput of the objective, if there is one
  pub objective_values : Option (F × Option F)
  -- the tag and the estimate of eta
  pub per_tag_observations : List (Text × F)

pub record FeedbackEntry (F : Type 0) : Type 0 where
  pub attribute_tag : Text
  pub kind : Text
  pub value : F

module _ {F : Type 0} where
  abbrev pub throughput_entries : Option F → List (FeedbackEntry F)
  throughput_entries none = []
  throughput_entries (some x) =
      record { attribute_tag = []; kind = codes "throughput"; value = x } ∷ []

  abbrev pub objective_entries : Option (F × Option F) → List (FeedbackEntry F)
  objective_entries none = []
  objective_entries (some (tau, throughput)) =
      record { attribute_tag = []; kind = codes "tau_star"; value = tau }
      ∷ throughput_entries throughput

  abbrev pub tag_entry : Text × F → FeedbackEntry F
  tag_entry (tag, x) = record { attribute_tag = tag; kind = codes "eta_estimate"; value = x }

  -- The entries; `ComputedAt` is the server time of the outcome.
  unfoldable pub operation_feedback_values : FeedbackValues F → List (FeedbackEntry F)
  operation_feedback_values v =
      objective_entries v.objective_values ++ map tag_entry v.per_tag_observations

-- The calls of the operation service: tenant, event and what is sent.
pub record OperationService (S F : Type 0) : Type 0 where
  pub send_proposals : Text → Text → FlowProposals F → Action S (Unit {0})
  pub send_feedback : Text → Text → List (FeedbackEntry F) → Time → Action S (Unit {0})

module _ {S F : Type 0} (service : OperationService S F) where
  unfoldable pub send_if_any : Text → Text → FlowProposals F × Bool → Action S (Unit {0})
  send_if_any tenant event (proposals, true) =
      wrap_err "call RequestProposalDelivery" (service.send_proposals tenant event proposals)
  send_if_any tenant event (proposals, false) = pure tt

  module _ (results : ProtoJson (OptimizationResult F)) where
    unfoldable pub send_result : Text → Text → Bytes → Action S (Unit {0})
    send_result tenant event none = pure tt
    send_result tenant event (some bytes) = do
      result ← lift (wrap_result "decode optimization result" (results.decode bytes))
      send_if_any tenant event (operation_flow_proposals result)

    unfoldable pub request_proposal_delivery :
        Text → Text → OptimizationOutcome → Action S (Unit {0})
    request_proposal_delivery tenant event outcome =
        send_result tenant event outcome.optimization_result

  module _ (feedbacks : ProtoJson (FeedbackValues F)) where
    unfoldable pub send_values : Text → Text → Time → Bytes → Action S (Unit {0})
    send_values tenant event at none = pure tt
    send_values tenant event at (some bytes) = do
      values ← lift (wrap_result "decode feedback values" (feedbacks.decode bytes))
      wrap_err "call RecordFeedbackValues"
          (service.send_feedback tenant event (operation_feedback_values values) at)

    unfoldable pub record_feedback_values : Text → Text → OptimizationOutcome → Action S (Unit {0})
    record_feedback_values tenant event outcome =
        send_values tenant event outcome.server_time outcome.feedback_values
