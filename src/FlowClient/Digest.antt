-- ===== src/FlowClient/Digest.antt =====
-- internal/infra/connect/flow_client.go: flowHistoryDigest.
pub mod Stats
use tolo_observation.FlowClient.{Ids, has_id, Text, text_eq}
use tolo_observation.Snapshot.{Snapshot, RouteScore}
use tolo_observation.Snapshot.Flow.{ArcHistory, flow_sensitivity_eta}
use tolo_observation.Float.{Float, quot, rem}
use tolo_observation.Common.{
  ℕ, zero, suc, ◌≡◌, refl, Bool, true, false, Option, none, some, List, [], ◌∷◌, arith,
  if◌then◌else◌, leb, not, ◌++◌, is_some, ltb, ◌*◌, ◌||◌, length,
}
use tolo_observation.GoTime.{Duration, Time, sub}
use tolo_observation.Common.Int.{pos, leb_ℤ}

abbrev pub min_arc_history_span : Duration
min_arc_history_span = pos (4 * 3600 * 1_000_000_000)

pub record ArcHistoryStat (F : Type 0) : Type 0 where
  pub edge_id : Text
  pub p90_stagnation : Option F
  pub baseline_stagnation : Option F
  pub flow_sensitivity_eta : Option F
  pub available_span_hours : F
  pub flow_p90 : Option F
  pub free_flow_dwell_min : Option F

pub record TimedValue (F : Type 0) : Type 0 where
  pub at : Time
  pub value : F

pub record ArcWindowSeries (F : Type 0) : Type 0 where
  pub edge_id : Text
  pub flow_samples : List (TimedValue F)
  pub stagnation_samples : List (TimedValue F)

pub record HistoryDigest (F : Type 0) : Type 0 where
  pub arc_stats : List (ArcHistoryStat F)
  pub completeness : F
  pub window_series : List (ArcWindowSeries F)

-- `if span >= minArcHistorySpan`.
abbrev pub is_long : Duration → Bool
is_long span = leb_ℤ min_arc_history_span span

module _ {F : Type 0} (f : Float F) where
  -- `Duration.Hours`.
  unfoldable pub hours : Duration → F
  hours d =
      f.plus (f.of_int (quot d 3_600_000_000_000))
        (f.over (f.of_int (rem d 3_600_000_000_000)) (f.of_int (pos 3_600_000_000_000)))

  -- One round of the loop over the history of the routes, for a route of the graph.
  unfoldable pub arc_stat : ArcHistory F → ArcHistoryStat F
  arc_stat arc =
      let span = sub arc.last_end arc.first_start in
      record {
        edge_id = arc.route_id;
        p90_stagnation = if is_long span then some arc.p90_stagnation else none;
        baseline_stagnation = if is_long span then some arc.mean_stagnation else none;
        flow_sensitivity_eta = if is_long span then flow_sensitivity_eta f arc else none;
        available_span_hours = hours span;
        flow_p90 = if is_long arc.flow_dwell.span then some arc.flow_dwell.flow_p90 else none;
        free_flow_dwell_min =
            if is_long arc.flow_dwell.span then arc.flow_dwell.free_flow_dwell_min else none;
      }

  unfoldable pub arc_stats : Ids → List (ArcHistory F) → List (ArcHistoryStat F)
  arc_stats edges [] = []
  arc_stats edges (arc ∷ arcs) =
      let rest = arc_stats edges arcs in
      if not (has_id edges arc.route_id) then rest else arc_stat arc ∷ rest

  abbrev pub samples_of : Time → Option F → List (TimedValue F)
  samples_of at none = []
  samples_of at (some x) = record { at = at; value = x } ∷ []

  -- A route score appended to the series of its edge.
  abbrev pub extend_series : Time → RouteScore F → ArcWindowSeries F → ArcWindowSeries F
  extend_series at s series = record series {
    flow_samples =
        series.flow_samples ++ (record { at = at; value = f.plus s.forward s.backward } ∷ []);
    stagnation_samples = series.stagnation_samples ++ samples_of at s.stagnation_score;
  }

  -- The series of the edge, or a new one after the others.
  unfoldable pub add_sample :
      Time → RouteScore F → List (ArcWindowSeries F) → List (ArcWindowSeries F)
  add_sample at s [] =
      extend_series at s
        (record { edge_id = s.route_id; flow_samples = []; stagnation_samples = [] })
      ∷ []
  add_sample at s (series ∷ rest) =
      let others = add_sample at s rest in
      if text_eq series.edge_id s.route_id
      then extend_series at s series ∷ rest
      else series ∷ others

  unfoldable pub add_scores :
      Ids → Time → List (RouteScore F) → List (ArcWindowSeries F) → List (ArcWindowSeries F)
  add_scores edges at [] series = series
  add_scores edges at (s ∷ scores) series =
      add_scores edges at scores (
        if not (has_id edges s.route_id) || not s.exhaustive
        then series
        else add_sample at s series)

  unfoldable pub window_series :
      Ids → List (Snapshot F) → List (ArcWindowSeries F) → List (ArcWindowSeries F)
  window_series edges [] series = series
  window_series edges (snap ∷ history) series =
      window_series edges history (add_scores edges snap.window_end snap.route_scores series)

-- `established`.
unfoldable pub count_established : {F : Type 0} → List (ArcHistoryStat F) → ℕ
count_established [] = 0
count_established (stat ∷ stats) =
    if is_some stat.p90_stagnation then suc (count_established stats) else count_established stats

unfoldable pub flow_history_digest :
    {F : Type 0} → Float F → List (Snapshot F) → List (ArcHistory F) → Ids → HistoryDigest F
flow_history_digest f history arcs edges =
    let stats = arc_stats f edges arcs in
    record {
      arc_stats = stats;
      completeness =
          if ltb 0 (length edges)
          then f.over (f.of_int (pos (count_established stats))) (f.of_int (pos (length edges)))
          else f.of_int (pos 0);
      window_series = window_series f edges history [];
    }
