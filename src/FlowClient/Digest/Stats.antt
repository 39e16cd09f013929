-- ===== src/FlowClient/Digest/Stats.antt =====
-- The completeness of the history that is sent.
use tolo_observation.FlowClient.Digest.{
  arc_stat, arc_stats, count_established, flow_history_digest, Float, pos, Snapshot,
}
use tolo_observation.FlowClient.{Ids, has_id, Text, text_eq}
use tolo_observation.Snapshot.Flow.{ArcHistory}
use tolo_observation.Common.{
  ℕ, suc, ◌≡◌, refl, Bool, false, List, [], ◌∷◌, arith, any, if◌then◌else◌, ◌≤◌, ◌+◌, Bool-cases,
  length, inl, ◌&&◌, ◌⊎◌, inr, subst, sym,
}
use tolo_observation.Common.Text.{eq_of_text_eq}
use tolo_observation.GoTime.{sub}
use tolo_observation.Common.Int.{leb_ℤ}

-- No two of the histories are of one route.
abbrev pub AreDistinct : {F : Type 0} → List (ArcHistory F) → Type 0
AreDistinct [] = Unit
AreDistinct (a ∷ arcs) =
    (any (λ (b : ArcHistory _). text_eq a.route_id b.route_id) arcs ≡ false) × AreDistinct arcs

-- The histories of edges of the graph that span at least four hours.
abbrev pub count_long : {F : Type 0} → Ids → List (ArcHistory F) → ℕ
count_long ids [] = 0
count_long ids (a ∷ arcs) =
    let rest = count_long ids arcs in
    if has_id ids a.route_id && leb_ℤ (pos 14_400_000_000_000) (sub a.last_end a.first_start)
    then suc rest
    else rest

module _ {F : Type 0} where
  hits : Ids → List (ArcHistory F) → ℕ
  hits ids [] = 0
  hits ids (a ∷ arcs) = if has_id ids a.route_id then suc (hits ids arcs) else hits ids arcs

  same_route : Text → List (ArcHistory F) → ℕ
  same_route k [] = 0
  same_route k (a ∷ arcs) =
      if text_eq k a.route_id then suc (same_route k arcs) else same_route k arcs

  hits-empty : (arcs : List (ArcHistory F)) → hits [] arcs ≡ 0
  unfolding hits
  hits-empty [] = refl
  hits-empty (a ∷ arcs) = ground (arith, hits-empty arcs)

  hits-cons :
      (k : Text) (v : Bool) (ids : Ids) (arcs : List (ArcHistory F))
      → hits ((k, v) ∷ ids) arcs ≤ same_route k arcs + hits ids arcs
  unfolding hits same_route
  hits-cons k v ids [] = ground arith
  hits-cons k v ids (a ∷ arcs) = ground (arith, hits-cons k v ids arcs)

  same_route-none :
      (k : Text) (arcs : List (ArcHistory F))
      → any (λ (b : ArcHistory F). text_eq k b.route_id) arcs ≡ false
      → same_route k arcs ≡ 0
  unfolding same_route
  same_route-none k [] h = refl
  same_route-none k (a ∷ arcs) h = ground (arith, h, same_route-none k arcs)

  same_route-le : (k : Text) (arcs : List (ArcHistory F)) → AreDistinct arcs → same_route k arcs ≤ 1
  unfolding same_route
  same_route-le k [] h = ground arith
  same_route-le k (a ∷ arcs) h = elim (Bool-cases (text_eq k a.route_id)) [
    | inl u ↦
        let same = eq_of_text_eq k a.route_id u in
        ground (
          arith,
          u,
          same_route-none k arcs (
              subst (λ (x : Text). any (λ (b : ArcHistory F). text_eq x b.route_id) arcs ≡ false)
                (sym same) h.0),
        )
    | inr u ↦ ground (arith, u, same_route-le k arcs h.1)
  ]

  hits-le : (ids : Ids) (arcs : List (ArcHistory F)) → AreDistinct arcs → hits ids arcs ≤ length ids
  hits-le [] arcs h = ground (arith, hits-empty arcs)
  hits-le ((k, v) ∷ ids) arcs h =
      ground (arith, hits-cons k v ids arcs, same_route-le k arcs h, hits-le ids arcs h)

  module _ (f : Float F) where
    established-le :
        (ids : Ids) (arcs : List (ArcHistory F))
        → count_established (arc_stats f ids arcs) ≤ hits ids arcs
    unfolding count_established arc_stats hits arc_stat
    established-le ids [] = ground arith
    established-le ids (a ∷ arcs) = ground (arith, established-le ids arcs)

    count_established-arc_stats :
        (ids : Ids) (arcs : List (ArcHistory F))
        → count_established (arc_stats f ids arcs) ≡ count_long ids arcs
    unfolding count_established arc_stats arc_stat
    count_established-arc_stats ids [] = refl
    count_established-arc_stats ids (a ∷ arcs) =
        ground (arith, count_established-arc_stats ids arcs)

    -- The completeness is zero for a graph without edges, and otherwise the share of the edges whose
    -- history is long enough, which is not more than one.
    pub record IsShare (edges : Ids) (arcs : List (ArcHistory F)) (completeness : F) : Type 0 where
      pub share :
          ((edges ≡ []) × (completeness ≡ f.of_int (pos 0)))
          ⊎ ((1 ≤ length edges)
              × (completeness
                  ≡ f.over
                      (f.of_int (pos (count_long edges arcs)))
                      (f.of_int (pos (length edges)))))
      pub at_most_one : count_long edges arcs ≤ length edges

    -- If no two histories are of one route: the completeness of the digest is zero for a graph
    -- without edges, and otherwise the number of edges with a long history over the number of edges,
    -- and the former is at most the latter.
    pub flow_history_digest-IsShare :
        (history : List (Snapshot F)) (arcs : List (ArcHistory F)) (edges : Ids)
        → AreDistinct arcs
        → IsShare edges arcs (flow_history_digest f history arcs edges).completeness
    unfolding flow_history_digest
    flow_history_digest-IsShare history arcs [] h = record {
      share = inl (refl, refl);
      at_most_one =
          ground
            (arith, count_established-arc_stats [] arcs, established-le [] arcs, hits-le [] arcs h);
    }
    flow_history_digest-IsShare history arcs (e ∷ edges) h = record {
      share = inr (ground arith, ground (arith, count_established-arc_stats (e ∷ edges) arcs));
      at_most_one = ground (
        arith,
        count_established-arc_stats (e ∷ edges) arcs,
        established-le (e ∷ edges) arcs,
        hits-le (e ∷ edges) arcs h,
      );
    }
