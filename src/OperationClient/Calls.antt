-- ===== src/OperationClient/Calls.antt =====
-- When the operation service is called with proposals.
use tolo_observation.OperationClient.{
  OperationService, OptimizationResult, operation_flow_proposals, request_proposal_delivery,
  send_result, send_if_any, proposals_of, has_no_proposal, ProtoJson, Text, OptimizationOutcome,
  importance_of, direction_of, restriction_of, detour_of, control_of,
}
use tolo_observation.Common.{
  ℕ, ◌≡◌, refl, true, none, some, List, [], ◌∷◌, arith, is_nil, length, ◌↔◌, map, ◌+◌, ◌<◌,
  Bool-cases, Option-cases, inl, inr,
}
use tolo_observation.Common.Result.{Result, ok, err, wrap_err, Result-cases}
use tolo_observation.Errors.{Error, wrapped}

-- How many proposals a result has.
abbrev pub count_proposals : {F : Type 0} → OptimizationResult F → ℕ
count_proposals r =
    length r.route_importance
    + length r.direction_proposal
    + length r.restriction_proposal
    + length r.detour_paths
    + length r.boundary_control

-- What an outcome without a result, with an undecodable one, and with a decoded one lead to.
pub data Delivers {S F : Type 0} (service : OperationService S F)
    (results : ProtoJson (OptimizationResult F)) (tenant event : Text)
    (outcome : OptimizationOutcome) (s : S) (answer : Result (Unit {0}) × S) : Type 0 where
  no_result :
      outcome.optimization_result ≡ none
      → answer ≡ (ok tt, s)
      → Delivers service results tenant event outcome s answer
  undecoded :
      (bytes : List ℕ) (e : Error)
      → outcome.optimization_result ≡ some bytes
      → results.decode bytes ≡ err e
      → answer ≡ (err (wrapped "decode optimization result" e), s)
      → Delivers service results tenant event outcome s answer
  nothing_proposed :
      (bytes : List ℕ) (r : OptimizationResult F)
      → outcome.optimization_result ≡ some bytes
      → results.decode bytes ≡ ok r
      → count_proposals r ≡ 0
      → answer ≡ (ok tt, s)
      → Delivers service results tenant event outcome s answer
  sent :
      (bytes : List ℕ) (r : OptimizationResult F)
      → outcome.optimization_result ≡ some bytes
      → results.decode bytes ≡ ok r
      → 0 < count_proposals r
      → answer
        ≡ wrap_err "call RequestProposalDelivery"
            (service.send_proposals tenant event (proposals_of r))
            s
      → Delivers service results tenant event outcome s answer

is_nil-map_iff :
    {A B : Type 0} (g : A → B) (l : List A) → (is_nil (map g l) ≡ true) ↔ (length l ≡ 0)
is_nil-map_iff g [] = (λ h. refl, λ h. refl)
is_nil-map_iff g (a ∷ l) = (λ h. cc, λ h. ground (arith, h))

has_no_proposal_iff :
    {F : Type 0} (r : OptimizationResult F)
    → (has_no_proposal (proposals_of r) ≡ true) ↔ (count_proposals r ≡ 0)
has_no_proposal_iff r =
    let a = is_nil-map_iff importance_of r.route_importance in
    let b = is_nil-map_iff direction_of r.direction_proposal in
    let c = is_nil-map_iff restriction_of r.restriction_proposal in
    let d = is_nil-map_iff detour_of r.detour_paths in
    let e = is_nil-map_iff control_of r.boundary_control in
    (
      λ h. ground (arith, h, a.0, b.0, c.0, d.0, e.0),
      λ h. ground (arith, h, a.1, b.1, c.1, d.1, e.1),
    )

module _ {S F : Type 0} (service : OperationService S F)
    (results : ProtoJson (OptimizationResult F)) (tenant event : Text)
    (outcome : OptimizationOutcome) (s : S) where
  decoded-Delivers :
      (bytes : List ℕ) (r : OptimizationResult F)
      → outcome.optimization_result ≡ some bytes
      → results.decode bytes ≡ ok r
      → Delivers service results tenant event outcome s
          (request_proposal_delivery service results tenant event outcome s)
  unfolding request_proposal_delivery send_result send_if_any operation_flow_proposals
  decoded-Delivers bytes r u v = elim (Bool-cases (has_no_proposal (proposals_of r))) [
    | inl w ↦ nothing_proposed bytes r u v ((has_no_proposal_iff r).0 w) (ground (arith, u, v, w))
    | inr w ↦
        sent bytes r u v (ground (arith, w, (has_no_proposal_iff r).1)) (ground (arith, u, v, w))
  ]

  -- The operation service is sent the proposals of an outcome exactly once if its result decodes and
  -- has a proposal; without a result, or with one of no proposals, the delivery succeeds without a
  -- call, and with one that does not decode it fails without a call.
  pub request_proposal_delivery-Delivers :
      Delivers service results tenant event outcome s
        (request_proposal_delivery service results tenant event outcome s)
  unfolding request_proposal_delivery send_result
  request_proposal_delivery-Delivers = elim (Option-cases outcome.optimization_result) [
    | inl u ↦ no_result u (ground (arith, u))
    | inr (bytes, u) ↦ elim (Result-cases (results.decode bytes)) [
      | inr (e, v) ↦ undecoded bytes e u v (ground (arith, u, v))
      | inl (r, v) ↦ decoded-Delivers bytes r u v
    ]
  ]
