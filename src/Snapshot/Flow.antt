-- ===== src/Snapshot/Flow.antt =====
-- internal/domain/snapshot.go: FlowSensitivityEta, the sensitivity of stagnation to flow.
use tolo_observation.Float.{Float}
use tolo_observation.Common.Int.{ℤ, pos, leb_ℤ, ltb_ℤ, ◌≤ℤ◌, ◌<ℤ◌}
use tolo_observation.Common.{
  ◌≡◌, false, Option, none, some, arith, if◌then◌else◌, ◌⊎◌, Bool-cases, inl, inr,
}
use tolo_observation.GoTime.{Duration, Time}
use tolo_observation.Common.Text.{Text}

pub record FlowRegression (F : Type 0) : Type 0 where
  pub sample_count : ℤ  -- int
  pub stagnation_sum : F
  pub flow_sum : F
  pub flow_square_sum : F
  pub flow_stagnation_sum : F

pub record FlowDwellSummary (F : Type 0) : Type 0 where
  pub flow_p90 : F
  pub free_flow_dwell_min : Option F
  pub span : Duration

pub record ArcHistory (F : Type 0) : Type 0 where
  pub route_id : Text
  pub sample_count : ℤ  -- int
  pub p90_stagnation : F
  pub mean_stagnation : F
  pub first_start : Time
  pub last_end : Time
  pub flow : FlowRegression F
  pub same_sensor_flow : FlowRegression F
  pub flow_dwell : FlowDwellSummary F

abbrev pub min_flow_sensitivity_samples : ℤ
min_flow_sensitivity_samples = pos 12

module _ {F : Type 0} (f : Float F) where
  -- `flowVariance` and `covariance` of `eta`, for `n`.
  abbrev pub flow_variance : FlowRegression F → F → F
  flow_variance r n = f.minus (f.times n r.flow_square_sum) (f.times r.flow_sum r.flow_sum)

  abbrev pub flow_covariance : FlowRegression F → F → F
  flow_covariance r n =
      f.minus (f.times n r.flow_stagnation_sum) (f.times r.flow_sum r.stagnation_sum)

  -- The quotient, if it is positive.
  abbrev pub positive : F → Option F
  positive x = if f.le x (f.of_int (pos 0)) then none else some x

  unfoldable pub eta : FlowRegression F → Option F
  eta r =
      let n = f.of_int r.sample_count in
      if ltb_ℤ r.sample_count min_flow_sensitivity_samples
      then none
      else if f.le (flow_variance r n) (f.times (f.times f.nano n) r.flow_square_sum)
      then none
      else positive (f.over (f.negate (flow_covariance r n)) (flow_variance r n))

  unfoldable pub flow_sensitivity_eta : ArcHistory F → Option F
  flow_sensitivity_eta h =
      if leb_ℤ min_flow_sensitivity_samples h.same_sensor_flow.sample_count
      then eta h.same_sensor_flow
      else eta h.flow

  -- A regression yields a sensitivity.
  pub record Yields (r : FlowRegression F) (x : F) : Type 0 where
    pub enough : pos 12 ≤ℤ r.sample_count
    pub varies :
        f.le
          (flow_variance r (f.of_int r.sample_count))
          (f.times (f.times f.nano (f.of_int r.sample_count)) r.flow_square_sum)
        ≡ false
    pub quotient :
        x
        ≡ f.over
            (f.negate (flow_covariance r (f.of_int r.sample_count)))
            (flow_variance r (f.of_int r.sample_count))
    pub above_zero : f.le x (f.of_int (pos 0)) ≡ false

  eta-Yields : (r : FlowRegression F) (x : F) → eta r ≡ some x → Yields r x
  unfolding eta
  eta-Yields r x h = ground (arith, h)

  -- A sensitivity is reported only from at least twelve samples with a variance above the floor; it
  -- is the negated quotient of their covariance by their variance, and not at or below zero. The
  -- samples are those of a same sensor if there are twelve of these, and all others do not matter.
  pub flow_sensitivity_eta-some :
      (h : ArcHistory F) (x : F)
      → flow_sensitivity_eta h ≡ some x
      → ((pos 12 ≤ℤ h.same_sensor_flow.sample_count) × Yields h.same_sensor_flow x)
        ⊎ ((h.same_sensor_flow.sample_count <ℤ pos 12) × Yields h.flow x)
  unfolding flow_sensitivity_eta
  flow_sensitivity_eta-some h x e =
      elim (Bool-cases (leb_ℤ min_flow_sensitivity_samples h.same_sensor_flow.sample_count)) [
        | inl b ↦ inl (ground (arith, b), eta-Yields h.same_sensor_flow x (ground (arith, b, e)))
        | inr b ↦ inr (ground (arith, b), eta-Yields h.flow x (ground (arith, b, e)))
      ]
