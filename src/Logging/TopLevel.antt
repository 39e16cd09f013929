-- ===== src/Logging/TopLevel.antt =====
-- What is written at the top level of a log entry.
use tolo_observation.Logging.{
  Attr, HandlerOp, TraceHandler, SlogHandler, LogRecord, SpanContext, is_reserved, rename_reserved,
  rename_reserved_attrs, rename_reserved_record, any_reserved, reserved_prefix, has_group, replay,
  new_trace_handler, trace_with_attrs, trace_with_group, trace_handle, renamed, trace_attrs, Text,
  apply,
}
use tolo_observation.Common.{
  ◌≡◌, refl, Bool, ◌||◌, true, false, Option, none, some, List, [], ◌∷◌, arith, All, ◌⊎◌,
  Bool-cases, map, any, inl, ◌++◌, ap, if◌then◌else◌, inr, subst, sym, ◌∙◌,
}
use tolo_observation.Common.Text.{text_eq, codes}

abbrev pub AreFree : {V : Type 0} → List (Attr V) → Type 0
AreFree {V} attrs = All (λ (a : Attr V). is_reserved a.key ≡ false) attrs

-- Until the first group, no operation adds an attribute under a reserved key.
abbrev pub AreClean : {V : Type 0} → List (HandlerOp V) → Type 0
AreClean [] = Unit
AreClean (o ∷ ops) = (has_group o ≡ true) ⊎ (AreFree o.attrs × AreClean ops)

prefixed-free : (key : Text) → is_reserved (reserved_prefix ++ key) ≡ false
unfolding is_reserved text_eq
prefixed-free key = refl

module _ {V : Type 0} where
  rename_reserved-free : (a : Attr V) → is_reserved (rename_reserved a).key ≡ false
  unfolding rename_reserved
  rename_reserved-free a = elim (Bool-cases (is_reserved a.key)) [
    | inl u ↦ ground (arith, u, prefixed-free a.key)
    | inr u ↦ ground (arith, u)
  ]

  map-AreFree : (attrs : List (Attr V)) → AreFree (map rename_reserved attrs)
  map-AreFree [] = tt
  map-AreFree (a ∷ attrs) = (rename_reserved-free a, map-AreFree attrs)

  none-AreFree : (attrs : List (Attr V)) → any_reserved attrs ≡ false → AreFree attrs
  none-AreFree [] h = tt
  none-AreFree (a ∷ attrs) h = elim (Bool-cases (is_reserved a.key)) [
    | inl u ↦ ground (arith, h, u)
    | inr u ↦ (u, none-AreFree attrs (ground (arith, h, u)))
  ]

  rename_reserved_attrs-AreFree : (attrs : List (Attr V)) → AreFree (rename_reserved_attrs attrs)
  unfolding rename_reserved_attrs
  rename_reserved_attrs-AreFree attrs = elim (Bool-cases (any_reserved attrs)) [
    | inl u ↦ rw u (map-AreFree attrs)
    | inr u ↦ rw u (none-AreFree attrs u)
  ]

  rename_reserved_record-AreFree :
      {R : Type 0} (r : LogRecord V R) → AreFree (rename_reserved_record r).attrs
  unfolding rename_reserved_record
  rename_reserved_record-AreFree r = elim (Bool-cases (any_reserved r.attrs)) [
    | inl u ↦ rw u (map-AreFree r.attrs)
    | inr u ↦ rw u (none-AreFree r.attrs u)
  ]

  append-AreClean :
      (ops : List (HandlerOp V)) (o : HandlerOp V)
      → AreClean ops
      → (any has_group ops ≡ false → (has_group o ≡ true) ⊎ AreFree o.attrs)
      → AreClean (ops ++ (o ∷ []))
  append-AreClean [] o h k = elim (k refl) [ inl u ↦ inl u | inr u ↦ inr (u, tt) ]
  append-AreClean (p ∷ ops) o h k = elim h [
    | inl u ↦ inl u
    | inr (free, clean) ↦ elim (Bool-cases (has_group p)) [
      | inl u ↦ inl u
      | inr u ↦ inr (free, append-AreClean ops o clean (λ e. k (ground (arith, u, e))))
    ]
  ]

-- What is added to a handler, one after the other.
pub data Addition (V : Type 0) : Type 0 where
  attrs_added : List (Attr V) → Addition V
  group_added : Text → Addition V

-- The attribute under a key that is not reserved.
abbrev pub freed : {V : Type 0} → Attr V → Attr V
freed a = if is_reserved a.key then record a { key = codes "attr_" ++ a.key } else a

freed-free : {V : Type 0} (a : Attr V) → is_reserved (freed a).key ≡ false
freed-free a = elim (Bool-cases (is_reserved a.key)) [
  | inl u ↦ ground (arith, u, prefixed-free a.key)
  | inr u ↦ ground (arith, u)
]

map-freed : {V : Type 0} (attrs : List (Attr V)) → AreFree (map freed attrs)
map-freed [] = tt
map-freed (a ∷ attrs) = (freed-free a, map-freed attrs)

map-rename_reserved :
    {V : Type 0} (attrs : List (Attr V)) → map rename_reserved attrs ≡ map freed attrs
unfolding rename_reserved
map-rename_reserved [] = refl
map-rename_reserved (a ∷ attrs) = ground (arith, map-rename_reserved attrs)

map-freed_id :
    {V : Type 0} (attrs : List (Attr V)) → any_reserved attrs ≡ false → map freed attrs ≡ attrs
map-freed_id [] h = refl
map-freed_id (a ∷ attrs) h = ground (arith, h, map-freed_id attrs)

rename_reserved_attrs-freed :
    {V : Type 0} (attrs : List (Attr V)) → rename_reserved_attrs attrs ≡ map freed attrs
unfolding rename_reserved_attrs
rename_reserved_attrs-freed attrs = elim (Bool-cases (any_reserved attrs)) [
  | inl u ↦ ground (arith, u, map-rename_reserved attrs)
  | inr u ↦ ground (arith, u, map-freed_id attrs u)
]

rename_reserved_record-freed :
    {V R : Type 0} (r : LogRecord V R)
    → rename_reserved_record r ≡ record r { attrs = map freed r.attrs }
unfolding rename_reserved_record
rename_reserved_record-freed r = elim (Bool-cases (any_reserved r.attrs)) [
  | inl u ↦ ground (arith, u, map-rename_reserved r.attrs)
  | inr u ↦ ground (arith, u, map-freed_id r.attrs u)
]

-- Whether a group was opened.
abbrev pub opens_group : {V : Type 0} → List (Addition V) → Bool
opens_group [] = false
opens_group (attrs_added attrs ∷ l) = opens_group l
opens_group (group_added [] ∷ l) = opens_group l
opens_group (group_added (c ∷ name) ∷ l) = true

module _ {H V R E : Type 0} (slog : SlogHandler H V R E) (base : H) (project_id : Text) where
  -- The operations replayed on the base give the inner handler, and are clean.
  pub record IsSound (h : TraceHandler H V) : Type 0 where
    pub same_base : h.base ≡ base
    pub same_project : h.project_id ≡ project_id
    pub replayed : h.inner ≡ replay slog h.ops base
    pub groups : h.grouped ≡ any has_group h.ops
    pub clean : AreClean h.ops

  new-IsSound :
      (b : H) (p : Text) (ops : List (HandlerOp V))
      → b ≡ base
      → p ≡ project_id
      → AreClean ops
      → IsSound (new_trace_handler slog b ops p)
  unfolding new_trace_handler
  new-IsSound b p ops same project clean = record {
    same_base = same;
    same_project = project;
    replayed = ap (replay slog ops) same;
    groups = refl;
    clean = clean;
  }

  added : (h : TraceHandler H V) (attrs : List (Attr V)) → HandlerOp V
  added h attrs = record {
    attrs = if h.grouped then attrs else rename_reserved_attrs attrs;
    group = [];
  }

  attrs-IsSound :
      (h : TraceHandler H V) (attrs : List (Attr V))
      → IsSound h
      → IsSound (trace_with_attrs slog h attrs)
  unfolding trace_with_attrs added
  attrs-IsSound h [] s = s
  attrs-IsSound h (a ∷ attrs) s = new-IsSound h.base h.project_id _ s.same_base s.same_project (
      append-AreClean h.ops (added h (a ∷ attrs)) s.clean (λ e. inr (
        subst (λ b. AreFree (if b then a ∷ attrs else rename_reserved_attrs (a ∷ attrs)))
          (sym (s.groups ∙ e)) (rename_reserved_attrs-AreFree (a ∷ attrs)))))

  group-IsSound :
      (h : TraceHandler H V) (name : Text) → IsSound h → IsSound (trace_with_group slog h name)
  unfolding trace_with_group
  group-IsSound h [] s = s
  group-IsSound h (c ∷ name) s =
      new-IsSound h.base h.project_id _ s.same_base s.same_project
        (append-AreClean h.ops (record { attrs = []; group = c ∷ name }) s.clean (λ e. inl refl))

  -- The handler that a program makes of a new one.
  abbrev pub added_to : TraceHandler H V → List (Addition V) → TraceHandler H V
  added_to h [] = h
  added_to h (attrs_added attrs ∷ l) = added_to (trace_with_attrs slog h attrs) l
  added_to h (group_added name ∷ l) = added_to (trace_with_group slog h name) l

  -- What the additions ask of log/slog's handler, given whether a group is open.
  abbrev pub written : Bool → List (Addition V) → H → H
  written b [] h = h
  written b (attrs_added [] ∷ l) h = written b l h
  written b (attrs_added (a ∷ attrs) ∷ l) h =
      written b l (slog.with_attrs h (if b then a ∷ attrs else map freed (a ∷ attrs)))
  written b (group_added [] ∷ l) h = written b l h
  written b (group_added (c ∷ name) ∷ l) h = written true l (slog.with_group h (c ∷ name))

  added_to-IsSound :
      (h : TraceHandler H V) (l : List (Addition V)) → IsSound h → IsSound (added_to h l)
  added_to-IsSound h [] s = s
  added_to-IsSound h (attrs_added attrs ∷ l) s =
      added_to-IsSound (trace_with_attrs slog h attrs) l (attrs-IsSound h attrs s)
  added_to-IsSound h (group_added name ∷ l) s =
      added_to-IsSound (trace_with_group slog h name) l (group-IsSound h name s)

  replay-snoc :
      (ops : List (HandlerOp V)) (o : HandlerOp V) (b : H)
      → replay slog (ops ++ (o ∷ [])) b ≡ apply slog o (replay slog ops b)
  unfolding replay
  replay-snoc [] o b = refl
  replay-snoc (p ∷ ops) o b = replay-snoc ops o (apply slog p b)

  groups-snoc :
      (ops : List (HandlerOp V)) (o : HandlerOp V)
      → any has_group (ops ++ (o ∷ [])) ≡ any has_group ops || has_group o
  groups-snoc [] o = ground arith
  groups-snoc (p ∷ ops) o = ground (arith, groups-snoc ops o)

  grouped-attrs :
      (h : TraceHandler H V) (attrs : List (Attr V))
      → IsSound h
      → (trace_with_attrs slog h attrs).grouped ≡ h.grouped
  unfolding trace_with_attrs new_trace_handler added
  grouped-attrs h [] s = refl
  grouped-attrs h (a ∷ attrs) s = ground (arith, groups-snoc h.ops (added h (a ∷ attrs)), s.groups)

  grouped-added_to :
      (h : TraceHandler H V) (l : List (Addition V))
      → IsSound h
      → (added_to h l).grouped ≡ h.grouped || opens_group l
  unfolding trace_with_group new_trace_handler
  grouped-added_to h [] s = ground arith
  grouped-added_to h (attrs_added attrs ∷ l) s = ground (
    arith,
    grouped-added_to (trace_with_attrs slog h attrs) l (attrs-IsSound h attrs s),
    grouped-attrs h attrs s,
  )
  grouped-added_to h (group_added [] ∷ l) s = grouped-added_to h l s
  grouped-added_to h (group_added (c ∷ name) ∷ l) s = ground (
    arith,
    grouped-added_to (trace_with_group slog h (c ∷ name)) l (group-IsSound h (c ∷ name) s),
    groups-snoc h.ops (record { attrs = []; group = c ∷ name }),
  )

  replay-written :
      (h : TraceHandler H V) (l : List (Addition V)) (b : H)
      → IsSound h
      → replay slog (added_to h l).ops b ≡ written h.grouped l (replay slog h.ops b)
  unfolding trace_with_attrs trace_with_group new_trace_handler apply added
  replay-written h [] b s = refl
  replay-written h (attrs_added [] ∷ l) b s = replay-written h l b s
  replay-written h (attrs_added (a ∷ attrs) ∷ l) b s =
      let o = added h (a ∷ attrs) in
      let k : TraceHandler H V = trace_with_attrs slog h (a ∷ attrs) in
      let q : replay slog k.ops b
          ≡ slog.with_attrs (replay slog h.ops b)
              (if h.grouped then a ∷ attrs else map freed (a ∷ attrs)) =
        ground (arith, replay-snoc h.ops o b, rename_reserved_attrs-freed (a ∷ attrs)) in
      replay-written k l b (attrs-IsSound h (a ∷ attrs) s)
      ∙ ground (arith, q, grouped-attrs h (a ∷ attrs) s)
  replay-written h (group_added [] ∷ l) b s = replay-written h l b s
  replay-written h (group_added (c ∷ name) ∷ l) b s =
      let o : HandlerOp V = record { attrs = []; group = c ∷ name } in
      let k : TraceHandler H V = trace_with_group slog h (c ∷ name) in
      let q : replay slog k.ops b ≡ slog.with_group (replay slog h.ops b) (c ∷ name) =
        ground (arith, replay-snoc h.ops o b) in
      let g : k.grouped ≡ true = ground (arith, groups-snoc h.ops o) in
      replay-written k l b (group-IsSound h (c ∷ name) s) ∙ ground (arith, q, g)

  -- What is handled: the operations on a base that has the trace's attributes, and a record.
  abbrev pub with_trace : Option SpanContext → H
  with_trace none = base
  with_trace (some span) = slog.with_attrs base (trace_attrs project_id span)

  abbrev pub made_by : List (Addition V) → TraceHandler H V
  made_by l = added_to (new_trace_handler slog base [] project_id) l

  pub record Writes (l : List (Addition V)) (span : Option SpanContext) (r : LogRecord V R)
      : Type 0 where
    pub handled :
        trace_handle slog (made_by l) span r
        ≡ slog.handle
            (written false l (with_trace span))
            (if opens_group l then r else record r { attrs = map freed r.attrs })
    pub free : (attrs : List (Attr V)) → AreFree (map freed attrs)

  handled_span :
      (h : TraceHandler H V) (span : Option SpanContext) (r : LogRecord V R)
      → IsSound h
      → trace_handle slog h span r
        ≡ slog.handle (replay slog h.ops (with_trace span)) (renamed slog h r)
  unfolding trace_handle
  handled_span h none r s = ap (λ x. slog.handle x (renamed slog h r)) s.replayed
  handled_span h (some span) r s = ground (arith, s.same_base, s.same_project)

  -- Of the handler that is made of a new one by any additions of attributes and groups: a record is
  -- handled by log/slog's handler with just these additions in their order, on a base that has the
  -- trace at the top level if there is a span; and until the first group is opened, an attribute
  -- under a reserved key, of an addition or of the record, goes under the key with a prefix, which is
  -- not reserved, and every other attribute as it is.
  pub trace_handle-Writes :
      (l : List (Addition V)) (span : Option SpanContext) (r : LogRecord V R) → Writes l span r
  unfolding new_trace_handler replay
  trace_handle-Writes l span r =
      let new : TraceHandler H V = new_trace_handler slog base [] project_id in
      let begins = new-IsSound base project_id [] refl refl tt in
      let s = added_to-IsSound new l begins in
      record {
        handled =
            handled_span (made_by l) span r s
            ∙ ground (
              arith,
              replay-written new l (with_trace span) begins,
              grouped-added_to new l begins,
              rename_reserved_record-freed r,
            );
        free = map-freed;
      }
