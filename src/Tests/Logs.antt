-- ===== src/Tests/Logs.antt =====
-- A log entry under a span, of a handler with an attribute and a group.
use tolo_observation.Logging.{Attr, SlogHandler, LogRecord, SpanContext, string_value}
use tolo_observation.Logging.TopLevel.{attrs_added, group_added, Writes, trace_handle-Writes}
use tolo_observation.Common.{ℕ, true, some, List, [], ◌∷◌, map, ◌++◌}
use tolo_observation.Common.Text.{Text, codes}

-- A handler that collects the keys that it is given, and writes them with those of the record.
abbrev keys_of : List (Attr ℕ) → List Text
keys_of attrs = map (λ (a : Attr ℕ). a.key) attrs

abbrev keys : SlogHandler (List Text) ℕ ℕ (List Text)
keys = record {
  enabled = λ h level. true;
  with_attrs = λ h attrs. h ++ keys_of attrs;
  with_group = λ h name. h ++ (name ∷ []);
  handle = λ h r. h ++ keys_of r.attrs;
}

abbrev severity : Attr ℕ
severity = record { key = codes "severity"; value = string_value (codes "x") }

abbrev span : SpanContext
span = record { trace_id = codes "t"; span_id = codes "s"; is_sampled = true }

abbrev entry : LogRecord ℕ ℕ
entry = record { rest = 0; attrs = severity ∷ [] }

trace_handle-Writes_example :
    Writes keys []
      (codes "p")
      (attrs_added (severity ∷ []) ∷ group_added (codes "g") ∷ [])
      (some span)
      entry
trace_handle-Writes_example =
    trace_handle-Writes keys [] (codes "p")
      (attrs_added (severity ∷ []) ∷ group_added (codes "g") ∷ []) (some span) entry
