-- ===== src/Logging.antt =====
-- internal/logging/handler.go: the log levels, the reserved keys and the handler that puts the trace
-- of a request at the top level. log/slog's own handler is a parameter; a context has a valid span or
-- none.
pub mod TopLevel
use tolo_observation.Common.Text.{Text, text_eq, codes, is_empty, is_upper}
use tolo_observation.Common.{
  ℕ, ◌+◌, ◌==◌, ◌++◌, Bool, true, false, ◌||◌, not, Option, none, some, List, [], ◌∷◌, map, any,
  is_nil, if◌then◌else◌,
}
use tolo_observation.Common.Int.{ℤ, pos, negsuc, ltb_ℤ}
use tolo_observation.Common.Result.{Result, ok, err}
use tolo_observation.Errors.{external}
use tolo_observation.GoTime.{Time}

abbrev pub level_debug : ℤ
level_debug = negsuc 3

abbrev pub level_info : ℤ
level_info = pos 0

abbrev pub level_warn : ℤ
level_warn = pos 4

abbrev pub level_error : ℤ
level_error = pos 8

abbrev pub level_critical : ℤ
level_critical = pos 12

-- `unicode.ToLower`: of the letters outside ASCII, only U+0130 and U+212A have a lower case inside.
abbrev pub lower_rune : ℕ → ℕ
lower_rune c =
    if is_upper c then c + 32 else if c == 0x130 then 0x69 else if c == 0x212a then 0x6b else c

unfoldable pub parse_level : Text → Result ℤ
parse_level s =
    let word = map lower_rune s in
    if text_eq word (codes "debug")
    then ok level_debug
    else if text_eq word (codes "info")
    then ok level_info
    else if text_eq word (codes "warn") || text_eq word (codes "warning")
    then ok level_warn
    else if text_eq word (codes "error")
    then ok level_error
    else if text_eq word (codes "critical")
    then ok level_critical
    else err (external "unknown log level")

unfoldable pub severity_of : ℤ → Text
severity_of level =
    if ltb_ℤ level level_info
    then codes "DEBUG"
    else if ltb_ℤ level level_warn
    then codes "INFO"
    else if ltb_ℤ level level_error
    then codes "WARNING"
    else if ltb_ℤ level level_critical
    then codes "ERROR"
    else codes "CRITICAL"

-- `strings.HasPrefix`.
abbrev pub has_prefix : Text → Text → Bool
has_prefix s [] = true
has_prefix [] (b ∷ p) = false
has_prefix (a ∷ s) (b ∷ p) = if a == b then has_prefix s p else false

abbrev pub cloud_logging_prefix : Text
cloud_logging_prefix = codes "logging.googleapis.com/"

abbrev pub reserved_prefix : Text
reserved_prefix = codes "attr_"

-- The keys of the map `reservedKeys`.
abbrev pub reserved_keys : List Text
reserved_keys =
    codes "time"
    ∷ codes "severity"
    ∷ codes "message"
    ∷ codes "level"
    ∷ codes "msg"
    ∷ codes "source"
    ∷ []

unfoldable pub is_reserved : Text → Bool
is_reserved key = has_prefix key cloud_logging_prefix || any (text_eq key) reserved_keys

-- The values of attributes that the code makes or tells apart; `V` is any other value.
pub data Value (V : Type 0) : Type 0 where
  string_value : Text → Value V
  bool_value : Bool → Value V
  time_value : Time → Value V
  level_value : ℤ → Value V
  -- file, line and function
  source_value : Text → ℤ → Text → Value V
  -- keys with their texts
  group_value : List (Text × Text) → Value V
  other_value : V → Value V

pub record Attr (V : Type 0) : Type 0 where
  pub key : Text
  pub value : Value V

-- A record, as far as this handler reads it: its attributes, and the rest.
pub record LogRecord (V R : Type 0) : Type 0 where
  pub rest : R
  pub attrs : List (Attr V)

module _ {V : Type 0} where
  unfoldable pub rename_reserved : Attr V → Attr V
  rename_reserved a =
      if not (is_reserved a.key) then a else record a { key = reserved_prefix ++ a.key }

  abbrev pub any_reserved : List (Attr V) → Bool
  any_reserved attrs = any (λ (a : Attr V). is_reserved a.key) attrs

  unfoldable pub rename_reserved_attrs : List (Attr V) → List (Attr V)
  rename_reserved_attrs attrs =
      if not (any_reserved attrs) then attrs else map rename_reserved attrs

  unfoldable pub rename_reserved_record : {R : Type 0} → LogRecord V R → LogRecord V R
  rename_reserved_record r =
      if not (any_reserved r.attrs) then r else record r { attrs = map rename_reserved r.attrs }

  -- `replaceAttr`, with the formats of instants, numbers and values.
  module _ (format_time : Time → Text) (itoa : ℤ → Text) (value_string : Value V → Text) where
    abbrev pub replace_time : Attr V → Value V → Attr V
    replace_time a (time_value t) = record {
      key = codes "time";
      value = string_value (format_time t);
    }
    replace_time a _ = a

    abbrev pub replace_level : Attr V → Value V → Attr V
    replace_level a (level_value l) = record {
      key = codes "severity";
      value = string_value (severity_of l);
    }
    replace_level a _ = a

    abbrev pub replace_source : Attr V → Value V → Attr V
    replace_source a (source_value file line name) = record {
      key = cloud_logging_prefix ++ codes "sourceLocation";
      value =
          group_value
            ((codes "file", file) ∷ (codes "line", itoa line) ∷ (codes "function", name) ∷ []);
    }
    replace_source a _ = a

    unfoldable pub replace_attr : List Text → Attr V → Attr V
    replace_attr groups a =
        if not (is_nil groups)
        then a
        else if text_eq a.key (codes "time")
        then replace_time a a.value
        else if text_eq a.key (codes "level")
        then replace_level a a.value
        else if text_eq a.key (codes "msg")
        then record { key = codes "message"; value = string_value (value_string a.value) }
        else if text_eq a.key (codes "source")
        then replace_source a a.value
        else a

-- `slog.Handler` over its state `H`; `E` is what handling a record gives.
pub record SlogHandler (H V R E : Type 0) : Type 0 where
  pub enabled : H → ℤ → Bool
  pub with_attrs : H → List (Attr V) → H
  pub with_group : H → Text → H
  pub handle : H → LogRecord V R → E

pub record HandlerOp (V : Type 0) : Type 0 where
  pub attrs : List (Attr V)
  pub group : Text

pub record TraceHandler (H V : Type 0) : Type 0 where
  pub base : H
  pub inner : H
  pub ops : List (HandlerOp V)
  pub project_id : Text
  pub grouped : Bool

pub record SpanContext : Type 0 where
  pub trace_id : Text
  pub span_id : Text
  pub is_sampled : Bool

abbrev pub has_group : {V : Type 0} → HandlerOp V → Bool
has_group o = not (is_empty o.group)

abbrev pub trace_resource_name : Text → Text → Text
trace_resource_name project_id trace_id =
    if is_empty project_id
    then trace_id
    else codes "projects/" ++ project_id ++ codes "/traces/" ++ trace_id

abbrev pub trace_attrs : {V : Type 0} → Text → SpanContext → List (Attr V)
trace_attrs project_id span =
    record {
      key = cloud_logging_prefix ++ codes "trace";
      value = string_value (trace_resource_name project_id span.trace_id);
    }
    ∷ record { key = cloud_logging_prefix ++ codes "spanId"; value = string_value span.span_id }
    ∷ record {
      key = cloud_logging_prefix ++ codes "trace_sampled";
      value = bool_value span.is_sampled;
    }
    ∷ []

module _ {H V R E : Type 0} (slog : SlogHandler H V R E) where
  -- `handlerOp.apply`.
  unfoldable pub apply : HandlerOp V → H → H
  apply o h = if has_group o then slog.with_group h o.group else slog.with_attrs h o.attrs

  -- The loops over the operations.
  unfoldable pub replay : List (HandlerOp V) → H → H
  replay [] h = h
  replay (o ∷ ops) h = replay ops (apply o h)

  unfoldable pub new_trace_handler : H → List (HandlerOp V) → Text → TraceHandler H V
  new_trace_handler base ops project_id = record {
    base = base;
    inner = replay ops base;
    ops = ops;
    project_id = project_id;
    grouped = any has_group ops;
  }

  unfoldable pub trace_with_attrs : TraceHandler H V → List (Attr V) → TraceHandler H V
  trace_with_attrs h attrs =
      if is_nil attrs
      then h
      else new_trace_handler h.base
          (h.ops
            ++ (record {
              attrs = if h.grouped then attrs else rename_reserved_attrs attrs;
              group = [];
            }
                ∷ []))
          h.project_id

  unfoldable pub trace_with_group : TraceHandler H V → Text → TraceHandler H V
  trace_with_group h name =
      if is_empty name
      then h
      else new_trace_handler h.base (h.ops ++ (record { attrs = []; group = name } ∷ []))
          h.project_id

  unfoldable pub trace_enabled : TraceHandler H V → ℤ → Bool
  trace_enabled h level = slog.enabled h.inner level

  -- The handler that handles a record under a span, if there is one.
  abbrev pub traced : TraceHandler H V → Option SpanContext → H
  traced h none = h.inner
  traced h (some span) = replay h.ops (slog.with_attrs h.base (trace_attrs h.project_id span))

  abbrev pub renamed : TraceHandler H V → LogRecord V R → LogRecord V R
  renamed h r = if h.grouped then r else rename_reserved_record r

  unfoldable pub trace_handle : TraceHandler H V → Option SpanContext → LogRecord V R → E
  trace_handle h span r = slog.handle (traced h span) (renamed h r)
