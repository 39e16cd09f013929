-- ===== src/FlowClient/Observations/OfGraph.antt =====
-- What is sent of a snapshot and its gaps is of the graph that is sent with it.
use tolo_observation.FlowClient.Observations.{
  Observations, ArcFlow, ArcStagnation, NodeOccupancy, is_hold, add_all, add_route, add_point,
  append_arc_observations, flow_observations, stagnations_of, RouteScore, ConfidenceFlag, Float,
  PointScore, Snapshot, Gaps, flag_invalid, flag_hold, flag_ok,
}
use tolo_observation.FlowClient.{Ids, has_id}
use tolo_observation.Common.{
  ◌≡◌, refl, true, false, Option, none, some, List, [], ◌∷◌, All, ◌⊎◌, ◌++◌, Bool-cases, ◌&&◌,
  if◌then◌else◌, inl, &&-eq-true, inr,
}

-- Every flow and stagnation is of an edge that is known, every occupancy of a known node, and an
-- occupancy that is held has no delta.
pub record AreOfGraph {F : Type 0} (nodes edges : Ids) (o : Observations F) : Type 0 where
  pub flows : All (λ (a : ArcFlow F). has_id edges a.edge_id ≡ true) o.arc_flows
  pub stagnations : All (λ (a : ArcStagnation F). has_id edges a.edge_id ≡ true) o.arc_stagnations
  pub occupancies :
      All
        (λ (n : NodeOccupancy F).
          (has_id nodes n.node_id ≡ true) × ((is_hold n.flag ≡ false) ⊎ (n.occupancy_delta ≡ none)))
        o.node_occupancies

All-append : {A : Type 0} (P : A → Type 0) (xs ys : List A) → All P xs → All P ys → All P (xs ++ ys)
All-append P [] ys h k = k
All-append P (x ∷ xs) ys h k = (h.0, All-append P xs ys h.1 k)

module _ {F : Type 0} (nodes edges : Ids) where
  stagnations_of-All :
      (s : RouteScore F) (flag : ConfidenceFlag) (x : Option F)
      → has_id edges s.route_id ≡ true
      → All (λ (a : ArcStagnation F). has_id edges a.edge_id ≡ true) (stagnations_of s flag x)
  stagnations_of-All s flag none h = tt
  stagnations_of-All s flag (some x) h = (h, tt)

  append-AreOfGraph :
      (o : Observations F) (s : RouteScore F) (flag : ConfidenceFlag)
      → has_id edges s.route_id ≡ true
      → AreOfGraph nodes edges o
      → AreOfGraph nodes edges (append_arc_observations o s flag)
  unfolding append_arc_observations
  append-AreOfGraph o s flag h k = record {
    flows = All-append _ o.arc_flows _ k.flows (h, (h, tt));
    stagnations =
        All-append _ o.arc_stagnations _ k.stagnations
          (stagnations_of-All s flag s.stagnation_score h);
    occupancies = k.occupancies;
  }

  add_route-AreOfGraph :
      (flag : ConfidenceFlag) (o : Observations F) (s : RouteScore F)
      → AreOfGraph nodes edges o
      → AreOfGraph nodes edges (add_route edges flag o s)
  unfolding add_route
  add_route-AreOfGraph flag o s k = elim (Bool-cases (has_id edges s.route_id && s.exhaustive)) [
    | inl u ↦ rw u (append-AreOfGraph o s flag ((&&-eq-true _ _ u).0) k)
    | inr u ↦ rw u k
  ]

  delta_held :
      (flag : ConfidenceFlag) (d : Option F)
      → (is_hold flag ≡ false) ⊎ ((if is_hold flag then none else d) ≡ none)
  delta_held flag_ok d = inl refl
  delta_held flag_invalid d = inl refl
  delta_held flag_hold d = inr refl

  add_point-AreOfGraph :
      (flag : ConfidenceFlag) (o : Observations F) (s : PointScore F)
      → AreOfGraph nodes edges o
      → AreOfGraph nodes edges (add_point nodes flag o s)
  unfolding add_point
  add_point-AreOfGraph flag o s k = elim (Bool-cases (has_id nodes s.point_id && s.exhaustive)) [
    | inl u ↦ rw u record {
      flows = k.flows;
      stagnations = k.stagnations;
      occupancies =
          All-append _ o.node_occupancies _ k.occupancies
            (((&&-eq-true _ _ u).0, delta_held flag s.occupancy_delta), tt);
    }
    | inr u ↦ rw u k
  ]

  add_all-AreOfGraph :
      {A : Type 0} (add : Observations F → A → Observations F) (l : List A) (o : Observations F)
      → ((o : Observations F) (a : A) → AreOfGraph nodes edges o → AreOfGraph nodes edges (add o a))
      → AreOfGraph nodes edges o
      → AreOfGraph nodes edges (add_all add l o)
  unfolding add_all
  add_all-AreOfGraph add [] o step k = k
  add_all-AreOfGraph add (a ∷ l) o step k = add_all-AreOfGraph add l (add o a) step (step o a k)

  routes-AreOfGraph :
      (flag : ConfidenceFlag) (l : List (RouteScore F)) (o : Observations F)
      → AreOfGraph nodes edges o
      → AreOfGraph nodes edges (add_all (add_route edges flag) l o)
  routes-AreOfGraph flag l o =
      add_all-AreOfGraph (add_route edges flag) l o (add_route-AreOfGraph flag)

  points-AreOfGraph :
      (flag : ConfidenceFlag) (l : List (PointScore F)) (o : Observations F)
      → AreOfGraph nodes edges o
      → AreOfGraph nodes edges (add_all (add_point nodes flag) l o)
  points-AreOfGraph flag l o =
      add_all-AreOfGraph (add_point nodes flag) l o (add_point-AreOfGraph flag)

-- What is sent of a snapshot and its gaps is of the graph: every flow and every stagnation is of an
-- edge of the IDs, every occupancy of a node, and an occupancy that is held has no delta.
pub flow_observations-AreOfGraph :
    {F : Type 0} (f : Float F) (snap : Snapshot F) (gaps : Gaps F) (nodes edges : Ids)
    → AreOfGraph nodes edges (flow_observations f snap gaps nodes edges)
unfolding flow_observations
flow_observations-AreOfGraph f snap gaps nodes edges =
    points-AreOfGraph nodes edges flag_invalid _ _ (
      points-AreOfGraph nodes edges flag_hold _ _ (
        points-AreOfGraph nodes edges flag_ok _ _ (
          routes-AreOfGraph nodes edges flag_invalid _ _ (
            routes-AreOfGraph nodes edges flag_hold _ _ (
              routes-AreOfGraph nodes edges flag_ok snap.route_scores _
                (record { flows = tt; stagnations = tt; occupancies = tt }))))))
