-- ===== src/Connect/Ingest/Sources.antt =====
-- Which reports reach the use case, and with what input.
use tolo_observation.Connect.Ingest.{
  ReportMeasurementsRequest, ReportedMeasurement, MeasurementSource, source_edge, source_qr,
  source_unspecified, other_source, method_of, method_of_source, measurement_point_id,
  measurement_inputs, input_at, report_input, handle_report, MeasurementInput, Text, is_empty,
  point_id_by, camera_method, ok, qr_method, Context, ReportMeasurementsInput, ℤ, report_request,
}
use tolo_observation.Common.{
  ◌≡◌, refl, true, false, List, [], ◌∷◌, arith, map, ◌↔◌, All, inr, inl, ◌⊎◌, is_nil, Bool-cases,
}
use tolo_observation.Common.Result.{Result-cases, Action}
use tolo_observation.Connect.{response}

-- A measurement of an edge device: it names an observation point and no QR location.
pub record IsEdge {F : Type 0} (m : ReportedMeasurement F) : Type 0 where
  pub of_edge : m.source ≡ source_edge
  pub no_location : m.qr_location_id ≡ []

-- A count of QR codes: it names a QR location and no observation point.
pub record IsQr {F : Type 0} (m : ReportedMeasurement F) : Type 0 where
  pub of_qr : m.source ≡ source_qr
  pub no_point : m.observation_point_id ≡ []

abbrev pub edge_inputs : {F : Type 0} → List (ReportedMeasurement F) → List (MeasurementInput F)
edge_inputs ms = map (λ (m : ReportedMeasurement _). input_at m.observation_point_id m) ms

abbrev pub qr_inputs : {F : Type 0} → List (ReportedMeasurement F) → List (MeasurementInput F)
qr_inputs ms = map (λ (m : ReportedMeasurement _). input_at m.qr_location_id m) ms

is_empty_iff : (t : Text) → (is_empty t ≡ true) ↔ (t ≡ [])
is_empty_iff [] = (λ h. refl, λ h. refl)
is_empty_iff (c ∷ t) = (λ h. cc, λ h. cc)

point_by_edge_iff :
    (source : MeasurementSource) (point location id : Text)
    → (point_id_by source point location camera_method ≡ ok id)
      ↔ ((source ≡ source_edge) × (location ≡ []) × (point ≡ id))
point_by_edge_iff source_edge point [] id = (λ h. ground (arith, h), λ h. ground (arith, h))
point_by_edge_iff source_edge point (c ∷ t) id = (λ h. ground (arith, h), λ h. ground (arith, h))
point_by_edge_iff source_qr point location id = (λ h. ground (arith, h), λ h. ground (arith, h))
point_by_edge_iff source_unspecified point location id =
    (λ h. ground (arith, h), λ h. ground (arith, h))
point_by_edge_iff other_source point location id = (λ h. ground (arith, h), λ h. ground (arith, h))

point_by_qr_iff :
    (source : MeasurementSource) (point location id : Text)
    → (point_id_by source point location qr_method ≡ ok id)
      ↔ ((source ≡ source_qr) × (point ≡ []) × (location ≡ id))
point_by_qr_iff source_qr [] location id = (λ h. ground (arith, h), λ h. ground (arith, h))
point_by_qr_iff source_qr (c ∷ t) location id = (λ h. ground (arith, h), λ h. ground (arith, h))
point_by_qr_iff source_edge point location id = (λ h. ground (arith, h), λ h. ground (arith, h))
point_by_qr_iff source_unspecified point location id =
    (λ h. ground (arith, h), λ h. ground (arith, h))
point_by_qr_iff other_source point location id = (λ h. ground (arith, h), λ h. ground (arith, h))

method_of_source-cases :
    (source : MeasurementSource)
    → (method_of_source source ≡ camera_method) ⊎ (method_of_source source ≡ qr_method)
method_of_source-cases source_unspecified = inl refl
method_of_source-cases source_edge = inl refl
method_of_source-cases source_qr = inr refl
method_of_source-cases other_source = inl refl

module _ {F : Type 0} where
  edge_inputs_iff :
      (ms : List (ReportedMeasurement F)) (inputs : List (MeasurementInput F))
      → (measurement_inputs camera_method ms ≡ ok inputs)
        ↔ (All IsEdge ms × (edge_inputs ms ≡ inputs))
  unfolding measurement_inputs measurement_point_id
  edge_inputs_iff [] inputs = (λ h. (tt, ground (arith, h)), λ h. ground (arith, h))
  edge_inputs_iff (m ∷ ms) inputs =
      let (to, from) = edge_inputs_iff ms (edge_inputs ms) in
      let (of, made) =
        point_by_edge_iff m.source m.observation_point_id m.qr_location_id m.observation_point_id in
      (
        λ h. elim (Result-cases (measurement_point_id m camera_method)) [
          | inr (e, u) ↦ ground (arith, h, u)
          | inl (id, u) ↦ elim (Result-cases (measurement_inputs camera_method ms)) [
            | inr (e, v) ↦ ground (arith, h, u, v)
            | inl (rest, v) ↦
                let g =
                  (point_by_edge_iff m.source m.observation_point_id m.qr_location_id id).0 u in
                let k = (edge_inputs_iff ms rest).0 v in
                (
                  (record { of_edge = g.0; no_location = g.1 }, k.0),
                  ground (arith, h, u, v, g.2, k.1),
                )
          ]
        ],
        λ h. ground (arith, h, made (h.0.0.of_edge, h.0.0.no_location, refl), from (h.0.1, refl)),
      )

  qr_inputs_iff :
      (ms : List (ReportedMeasurement F)) (inputs : List (MeasurementInput F))
      → (measurement_inputs qr_method ms ≡ ok inputs) ↔ (All IsQr ms × (qr_inputs ms ≡ inputs))
  unfolding measurement_inputs measurement_point_id
  qr_inputs_iff [] inputs = (λ h. (tt, ground (arith, h)), λ h. ground (arith, h))
  qr_inputs_iff (m ∷ ms) inputs =
      let (to, from) = qr_inputs_iff ms (qr_inputs ms) in
      let (of, made) =
        point_by_qr_iff m.source m.observation_point_id m.qr_location_id m.qr_location_id in
      (
        λ h. elim (Result-cases (measurement_point_id m qr_method)) [
          | inr (e, u) ↦ ground (arith, h, u)
          | inl (id, u) ↦ elim (Result-cases (measurement_inputs qr_method ms)) [
            | inr (e, v) ↦ ground (arith, h, u, v)
            | inl (rest, v) ↦
                let g = (point_by_qr_iff m.source m.observation_point_id m.qr_location_id id).0 u in
                let k = (qr_inputs_iff ms rest).0 v in
                ((record { of_qr = g.0; no_point = g.1 }, k.0), ground (arith, h, u, v, g.2, k.1))
          ]
        ],
        λ h. ground (arith, h, made (h.0.0.of_qr, h.0.0.no_point, refl), from (h.0.1, refl)),
      )

  module _ {S : Type 0} (report : Context → ReportMeasurementsInput F → Action S ℤ) (ctx : Context)
      (req : ReportMeasurementsRequest F) where
    -- The use case accepted `n` measurements of an edge device.
    pub record EdgeAccepted (s : S) (n : ℤ) : Type 0 where
      pub edges : All IsEdge req.measurements
      pub edge_accepted :
          (report ctx (report_input req camera_method (edge_inputs req.measurements)) s).0 ≡ ok n

    -- The use case accepted `n` counts of QR codes, of a request that names no device.
    pub record QrAccepted (s : S) (n : ℤ) : Type 0 where
      pub any_count : is_nil req.measurements ≡ false
      pub no_device : req.edge_device_id ≡ []
      pub counts : All IsQr req.measurements
      pub qr_accepted :
          (report ctx (report_input req qr_method (qr_inputs req.measurements)) s).0 ≡ ok n

    report_edges_iff :
        (s : S) (n : ℤ)
        → ((report_request report ctx req camera_method s).0 ≡ ok n) ↔ EdgeAccepted s n
    unfolding report_request
    report_edges_iff s n = (
      λ h. elim (Result-cases (measurement_inputs camera_method req.measurements)) [
        | inr (e, u) ↦ ground (arith, h, u)
        | inl (inputs, u) ↦
            let g = (edge_inputs_iff req.measurements inputs).0 u in
            record { edges = g.0; edge_accepted = ground (arith, h, u, g.1) }
      ],
      λ g. ground (
        arith,
        g.edge_accepted,
        (edge_inputs_iff req.measurements (edge_inputs req.measurements)).1 (g.edges, refl),
      ),
    )

    report_counts_iff :
        (s : S) (n : ℤ)
        → is_nil req.measurements ≡ false
        → ((report_request report ctx req qr_method s).0 ≡ ok n) ↔ QrAccepted s n
    unfolding report_request
    report_counts_iff s n filled =
        let (empty, of_empty) = is_empty_iff req.edge_device_id in
        (
          λ h. elim (Bool-cases (is_empty req.edge_device_id)) [
            | inr b ↦ ground (arith, h, b)
            | inl b ↦ elim (Result-cases (measurement_inputs qr_method req.measurements)) [
              | inr (e, u) ↦ ground (arith, h, b, u)
              | inl (inputs, u) ↦
                  let g = (qr_inputs_iff req.measurements inputs).0 u in
                  record {
                    any_count = filled;
                    no_device = empty b;
                    counts = g.0;
                    qr_accepted = ground (arith, h, b, u, g.1);
                  }
            ]
          ],
          λ g. ground (
            arith,
            g.qr_accepted,
            of_empty g.no_device,
            (qr_inputs_iff req.measurements (qr_inputs req.measurements)).1 (g.counts, refl),
          ),
        )

  method_of-cases :
      (ms : List (ReportedMeasurement F))
      → (method_of ms ≡ camera_method) ⊎ ((method_of ms ≡ qr_method) × (is_nil ms ≡ false))
  unfolding method_of
  method_of-cases [] = inl refl
  method_of-cases (m ∷ ms) = elim (method_of_source-cases m.source) [
    | inl u ↦ inl u
    | inr u ↦ inr (u, refl)
  ]

  method_of-edges :
      (ms : List (ReportedMeasurement F)) → All IsEdge ms → method_of ms ≡ camera_method
  unfolding method_of
  method_of-edges [] h = refl
  method_of-edges (m ∷ ms) h = ground (arith, h.0.of_edge)

  method_of-counts :
      (ms : List (ReportedMeasurement F))
      → is_nil ms ≡ false
      → All IsQr ms
      → method_of ms ≡ qr_method
  unfolding method_of
  method_of-counts [] g h = cc
  method_of-counts (m ∷ ms) g h = ground (arith, h.0.of_qr)

  -- A report is answered with a number exactly if the use case answers with it and the request is of
  -- one of two forms: every measurement is of an edge device and names no QR location, and the use
  -- case is given the observation points; or there is a measurement, the request names no device,
  -- every measurement counts QR codes and names no observation point, and the use case is given the
  -- QR locations.
  pub handle_report_iff :
      {S : Type 0} (report : Context → ReportMeasurementsInput F → Action S ℤ) (ctx : Context)
      (req : ReportMeasurementsRequest F) (s : S) (n : ℤ)
      → ((handle_report report ctx req s).0 ≡ response n)
        ↔ (EdgeAccepted report ctx req s n ⊎ QrAccepted report ctx req s n)
  unfolding handle_report
  handle_report_iff report ctx req s n = (
    λ h. elim (method_of-cases req.measurements) [
      | inl u ↦ elim (Result-cases (report_request report ctx req camera_method s).0) [
        | inl (k, v) ↦ inl ((report_edges_iff report ctx req s n).0 (ground (arith, h, u, v)))
        | inr (e, v) ↦ ground (arith, h, u, v)
      ]
      | inr (u, filled) ↦ elim (Result-cases (report_request report ctx req qr_method s).0) [
        | inl (k, v) ↦
            inr ((report_counts_iff report ctx req s n filled).0 (ground (arith, h, u, v)))
        | inr (e, v) ↦ ground (arith, h, u, v)
      ]
    ],
    λ h. elim h [
      | inl g ↦ ground (
        arith,
        method_of-edges req.measurements g.edges,
        (report_edges_iff report ctx req s n).1 g,
      )
      | inr g ↦ ground (
        arith,
        method_of-counts req.measurements g.any_count g.counts,
        (report_counts_iff report ctx req s n g.any_count).1 g,
      )
    ],
  )
