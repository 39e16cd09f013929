-- ===== src/Db/GuestStatuses/RoundTrip.antt =====
-- The status of an event that was saved is the one that is read, under the next number.
use tolo_observation.Db.GuestStatuses.{
  CrowdStatus, QueueStatus, GuestStatus, CrowdStatusJson, crowd_json, crowd_of_json, Codec,
  GuestStatusRow, find_row, updated_row, upsert, row_of, write_status, save_guest_status,
  status_of_row, latest_guest_status, ok, Time, Error,
}
use tolo_observation.Common.Text.{Text, text_eq, text_eq_refl, text_eq_iff, eq_of_text_eq}
use tolo_observation.Common.{
  ℕ, ◌≡◌, refl, Option, none, some, List, [], ◌∷◌, arith, ◌+◌, if◌then◌else◌, Bool-cases, inl, inr,
  Option-cases, map, ◌≢◌,
}
use tolo_observation.Common.Result.{Result-cases}

-- The bytes that are stored decode to what was encoded.
abbrev pub RoundTrips : {A : Type 0} → Codec A → Type 0
RoundTrips {A} codec =
    (a : A) (bytes : List ℕ)
    → codec.marshal a ≡ ok bytes
    → codec.unmarshal (codec.jsonb bytes) ≡ ok a

-- The number under which the next status of an event is stored.
abbrev pub next_sequence : Option GuestStatusRow → ℕ
next_sequence none = 1
next_sequence (some r) = r.sequence + 1

abbrev pub written_row : GuestStatusRow → Option GuestStatusRow → GuestStatusRow
written_row new none = new
written_row new (some r) = updated_row new r

find_row-upsert :
    (new : GuestStatusRow) (rows rows' : List GuestStatusRow) (n : ℕ) (j : Text)
    → new.sequence ≡ 1
    → upsert new rows ≡ some (rows', n)
    → (n ≡ next_sequence (find_row new.event_id rows))
      × (find_row j rows' ≡ (
          if text_eq new.event_id j
          then some (written_row new (find_row new.event_id rows))
          else find_row j rows))
find_row-upsert new [] rows' n j one h = ground (arith, h, one)
find_row-upsert new (r ∷ rows) rows' n j one h =
    elim (Bool-cases (text_eq r.event_id new.event_id)) [
      | inl e ↦ let same = eq_of_text_eq r.event_id new.event_id e in ground (arith, e, h, same)
      | inr e ↦ elim (Option-cases (upsert new rows)) [
        | inl u ↦ ground (arith, e, h, u)
        | inr ((w, k), u) ↦
            let rest = find_row-upsert new rows w k j one u in
            let shape : rows' ≡ r ∷ w = ground (arith, e, h, u) in
            let number : n ≡ k = ground (arith, e, h, u) in
            ground (
              arith,
              e,
              rest,
              shape,
              number,
              text_eq_iff r.event_id j,
              text_eq_iff new.event_id j,
              text_eq_iff r.event_id new.event_id,
            )
      ]
    ]

map-map_id : (l : List CrowdStatus) → map crowd_of_json (map crowd_json l) ≡ l
map-map_id [] = refl
map-map_id (c ∷ l) = cc (map-map_id l)

module _ {F : Type 0} (crowds : Codec (List CrowdStatusJson))
    (queues : Codec (List (QueueStatus F))) (stored : Time → Time) where
  -- The bytes and the row that a save has written.
  record Writes (tenant : Text) (status saved : GuestStatus F) (rows rows' : List GuestStatusRow)
      : Type 0 where
    crowd : List ℕ
    queue : List ℕ
    crowd_encoded : crowds.marshal (map crowd_json status.crowd) ≡ ok crowd
    queue_encoded : queues.marshal status.queues ≡ ok queue
    number : ℕ
    written :
        upsert (row_of crowds queues stored tenant status crowd queue) rows ≡ some (rows', number)
    answer : saved ≡ record status { sequence = number }

  save_guest_status-Writes :
      (fault : Option Error) (tenant : Text) (status saved : GuestStatus F)
      (rows rows' : List GuestStatusRow)
      → save_guest_status crowds queues stored fault tenant status rows ≡ (ok saved, rows')
      → Writes tenant status saved rows rows'
  unfolding save_guest_status write_status
  save_guest_status-Writes (some x) tenant status saved rows rows' h =
      elim (Result-cases (crowds.marshal (map crowd_json status.crowd))) [
        | inr (e, u) ↦ ground (arith, h, u)
        | inl (c, u) ↦ elim (Result-cases (queues.marshal status.queues)) [
          | inr (e, v) ↦ ground (arith, h, u, v)
          | inl (q, v) ↦ ground (arith, h, u, v)
        ]
      ]
  save_guest_status-Writes none tenant status saved rows rows' h =
      elim (Result-cases (crowds.marshal (map crowd_json status.crowd))) [
        | inr (e, u) ↦ ground (arith, h, u)
        | inl (c, u) ↦ elim (Result-cases (queues.marshal status.queues)) [
          | inr (e, v) ↦ ground (arith, h, u, v)
          | inl (q, v) ↦
              elim (Option-cases (upsert (row_of crowds queues stored tenant status c q) rows)) [
                | inl w ↦ ground (arith, h, u, v, w)
                | inr ((made, n), w) ↦ record {
                  crowd = c;
                  queue = q;
                  crowd_encoded = u;
                  queue_encoded = v;
                  number = n;
                  written = ground (arith, h, u, v, w);
                  answer = ground (arith, h, u, v, w);
                }
              ]
        ]
      ]

  status_of_written :
      (tenant : Text) (status : GuestStatus F) (c q : List ℕ) (o : Option GuestStatusRow)
      → RoundTrips crowds
      → RoundTrips queues
      → crowds.marshal (map crowd_json status.crowd) ≡ ok c
      → queues.marshal status.queues ≡ ok q
      → ((r : GuestStatusRow) → o ≡ some r → r.event_id ≡ status.event_id)
      → status_of_row crowds queues stored
          (written_row (row_of crowds queues stored tenant status c q) o)
        ≡ ok (record status { sequence = next_sequence o; taken_at = stored status.taken_at })
  unfolding status_of_row
  status_of_written tenant status c q none crowd_trip queue_trip u v own = ground (
    arith,
    crowd_trip (map crowd_json status.crowd) c u,
    queue_trip status.queues q v,
    map-map_id status.crowd,
  )
  status_of_written tenant status c q (some r) crowd_trip queue_trip u v own = ground (
    arith,
    crowd_trip (map crowd_json status.crowd) c u,
    queue_trip status.queues q v,
    map-map_id status.crowd,
    own r refl,
  )

  find_row-event :
      (event : Text) (rows : List GuestStatusRow) (r : GuestStatusRow)
      → find_row event rows ≡ some r
      → r.event_id ≡ event
  find_row-event event [] r h = cc
  find_row-event event (x ∷ rows) r h = elim (Bool-cases (text_eq x.event_id event)) [
    | inl e ↦ let same = eq_of_text_eq x.event_id event e in ground (arith, e, h, same)
    | inr e ↦ find_row-event event rows r (ground (arith, e, h))
  ]

  -- What the table holds after a status was saved.
  pub record IsSaved (status saved : GuestStatus F) (rows rows' : List GuestStatusRow)
      : Type 0 where
    pub answer : saved ≡ record status { sequence = next_sequence (find_row status.event_id rows) }
    pub latest :
        latest_guest_status crowds queues stored none status.event_id rows'
        ≡ (ok (record saved { taken_at = stored status.taken_at }), rows')
    pub others : (j : Text) → j ≢ status.event_id → find_row j rows' ≡ find_row j rows

  latest-row :
      (event : Text) (rows : List GuestStatusRow) (r : GuestStatusRow) (status : GuestStatus F)
      → find_row event rows ≡ some r
      → status_of_row crowds queues stored r ≡ ok status
      → latest_guest_status crowds queues stored none event rows ≡ (ok status, rows)
  unfolding latest_guest_status
  latest-row event rows r status h k = ground (arith, h, k)

  -- If what JSON encodes is what the stored bytes decode to: a status that was saved gets the number
  -- after the one that was stored for its event, or 1 for the first; reading the event's latest
  -- status, if the driver answers, gives the status that was saved, with its number and its time as it is stored; and the
  -- row of every other event is as before.
  pub save_guest_status-IsSaved :
      (fault : Option Error) (tenant : Text) (status saved : GuestStatus F)
      (rows rows' : List GuestStatusRow)
      → RoundTrips crowds
      → RoundTrips queues
      → save_guest_status crowds queues stored fault tenant status rows ≡ (ok saved, rows')
      → IsSaved status saved rows rows'
  save_guest_status-IsSaved fault tenant status saved rows rows' crowd_trip queue_trip h =
      let w = save_guest_status-Writes fault tenant status saved rows rows' h in
      let new = row_of crowds queues stored tenant status w.crowd w.queue in
      let old = find_row status.event_id rows in
      let (number, here) = find_row-upsert new rows rows' w.number status.event_id refl w.written in
      let named : saved ≡ record status { sequence = next_sequence old } =
        ground (arith, w.answer, number) in
      let stored_row : find_row status.event_id rows' ≡ some (written_row new old) =
        ground (arith, here, text_eq_refl status.event_id) in
      let decoded =
        status_of_written tenant status w.crowd w.queue old crowd_trip queue_trip w.crowd_encoded
          w.queue_encoded (find_row-event status.event_id rows) in
      record {
        answer = named;
        latest = ground (
          arith,
          latest-row status.event_id rows' (written_row new old) _ stored_row decoded,
          named,
        );
        others = λ j other. ground (
          arith,
          (find_row-upsert new rows rows' w.number j refl w.written).1,
          text_eq_iff status.event_id j,
          other,
        );
      }
