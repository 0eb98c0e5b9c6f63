-- ===== src/Event/Repository/Changes.antt =====
-- What create and updateStatus do to the event table, by the documented behaviour of the session.
use device_ops.Prelude.{
  ℕ, ◌+◌, ◌%◌, ◌^◌, ◌<◌, ℤ, pos, is_positive, [], ◌≡◌, refl, sym, ap, subst, ◌∙◌, true, Bool, ◌||◌,
  Option, none, some, append_assoc, ◌++◌, ◌∷◌, inl, inr, if◌then◌else◌, arith,
}
use device_ops.Str.{Str, lit, is_empty, str_eq, decimal, signed_decimal}
use device_ops.Str.Decimal.{dashed_sequence-injective}
use device_ops.Odb.{Odb, Column, IsOdb}
use device_ops.Odb.Transaction.{Outcome-cases, returned, accepted, rejected, transaction, catching}
use device_ops.Event.{
  EventEntity, CreateEventRequest, nullable_string, nullable_int64, stored_severity,
  severity_from_string-to_string,
}
use device_ops.Event.Status.{
  EventStatus, opened, resolved, closed, status_eq, stored, status_from_string,
  status_from_string-to_string,
}
use device_ops.Event.Repository.{
  Event, Events, new_entity, moved_entity, next_event_id, to_proto, create, update_status,
}

abbrev pub event_column : (Str → Str → Bool) → Column EventEntity
event_column same = record {
  key = λ r. r.event_id;
  ident = λ r. r.id;
  with_ident = λ n r. record r { id = n };
  same = same;
}

-- The ids of one process: whatever the clock shows, two sequence numbers give two ids.
pub next_event_id-injective :
    (t u : ℤ) (m n : ℕ) → m < 2 ^ 64 → n < 2 ^ 64 → next_event_id t m ≡ next_event_id u n → m ≡ n
unfolding next_event_id
next_event_id-injective t u m n hm hn h =
    dashed_sequence-injective (lit "evt-" ++ signed_decimal t) (lit "evt-" ++ signed_decimal u) m n
      hm hn
      (append_assoc (lit "evt-") (signed_decimal t) (b'-' ∷ decimal m)
        ∙ h
        ∙ sym (append_assoc (lit "evt-") (signed_decimal u) (b'-' ∷ decimal n)))

module _ {DB : Type 0} (o : Odb EventEntity DB) where
  -- A create that is refused, for whatever reason, leaves the table as it was.
  pub create_refused :
      (request : CreateEventRequest) (now : ℤ) (s s' : Events DB) (e : Str)
      → create o request now s ≡ (rejected e, s')
      → s'.db ≡ s.db
  unfolding create transaction catching
  create_refused request now s s' e h = ground arith

  -- A change of status that is refused, for whatever reason, leaves the table as it was.
  pub update_status_refused :
      (event_id : Str) (status : EventStatus) (now : ℤ) (db db' : DB) (e : Str)
      → update_status o event_id status now db ≡ (rejected e, db')
      → db' ≡ db
  unfolding update_status transaction catching
  update_status_refused event_id status now db db' e h = ground arith

  create-eq-accepted :
      (request : CreateEventRequest) (now : ℤ) (s s' : Events DB) (r : Event)
      → create o request now s ≡ (accepted r, s')
      → (entity : EventEntity) × (o.persist
            (new_entity request now (next_event_id now s.sequence))
            s.db
          ≡ returned (entity, s'.db))
        × (r ≡ to_proto entity)
        × (s'.sequence ≡ (s.sequence + 1) % 2 ^ 64)
  unfolding create transaction catching
  create-eq-accepted request now s s' r h =
      elim (Outcome-cases
        (o.persist (new_entity request now (next_event_id now s.sequence)) s.db)) [
          | inl (e, p) ↦ absurd (ground arith)
          | inr ((entity, db1), p) ↦ (entity, ground arith, ground arith, ground arith)
        ]

  update_status-eq-accepted :
      (event_id : Str) (status : EventStatus) (now : ℤ) (db db' : DB) (r : Event)
      → update_status o event_id status now db ≡ (accepted r, db')
      → (old : EventEntity) × (o.query_one event_id db ≡ returned (some old))
        × (o.update (moved_entity status now old) db ≡ returned db')
        × (r ≡ to_proto (moved_entity status now old))
  unfolding update_status transaction catching
  update_status-eq-accepted event_id status now db db' r h =
      elim (Outcome-cases (o.query_one event_id db)) [
        | inl (e, p) ↦ absurd (ground arith)
        | inr (none, p) ↦ absurd (ground arith)
        | inr (some old, p) ↦ (old, ground arith, ground arith, ground arith)
      ]

status_of :
    (status : EventStatus) (now : ℤ) (old : EventEntity)
    → (to_proto (moved_entity status now old)).status ≡ stored status
unfolding to_proto moved_entity
status_of status now old = status_from_string-to_string status

resolved_of :
    (status : EventStatus) (now : ℤ) (old : EventEntity)
    → (to_proto (moved_entity status now old)).resolved_at ≡ (
        if status_eq status resolved || status_eq status closed
        then now
        else nullable_int64 old.resolved_at)
unfolding to_proto moved_entity
resolved_of status now old = ground arith

-- The event that a create makes of its request, as a message.
abbrev pub IsNewEvent : CreateEventRequest → ℤ → Str → Event → Type 0
IsNewEvent request now event_id event =
    (event.event_id ≡ event_id)
    × (event.device_id ≡ request.device_id)
    × (event.event_type ≡ request.event_type)
    × (event.severity ≡ stored_severity request.severity)
    × (event.status ≡ opened)
    × (event.error_code ≡ request.error_code)
    × (event.title ≡ request.title)
    × (event.description ≡ request.description)
    × (event.metric_snapshot_json ≡ request.metric_snapshot_json)
    × (event.rule_name ≡ request.rule_name)
    × (event.occurred_at ≡ (if is_positive request.occurred_at then request.occurred_at else now))
    × (event.resolved_at ≡ pos 0)
    × (event.created_at ≡ now)
    × (event.updated_at ≡ now)

given_or_null : (s : Str) → nullable_string (if is_empty s then none else some s) ≡ s
given_or_null [] = refl
given_or_null (c ∷ s) = refl

new_entity-IsNewEvent :
    (request : CreateEventRequest) (now : ℤ) (event_id : Str) (id : ℕ)
    → IsNewEvent request now event_id
        (to_proto (record (new_entity request now event_id) { id = id }))
unfolding new_entity to_proto status_from_string str_eq
new_entity-IsNewEvent request now event_id id = (
  refl,
  refl,
  refl,
  severity_from_string-to_string request.severity,
  refl,
  given_or_null request.error_code,
  refl,
  given_or_null request.description,
  given_or_null request.metric_snapshot_json,
  given_or_null request.rule_name,
  refl,
  refl,
  refl,
  refl,
)

module _ {DB : Type 0} (o : Odb EventEntity DB) (same : Str → Str → Bool)
    (find : DB → Str → Option EventEntity) (laws : IsOdb o (event_column same) find) where
  -- An accepted create replies with the request's event, field by field: open, unresolved, under the
  -- id made of the clock and the sequence number, and of now where the request gives no time. The
  -- table holds under that id the row that reads so, with the identity that the database chose; the
  -- other keys are as before; and the next create has the next sequence number.
  pub create_stored :
      (request : CreateEventRequest) (now : ℤ) (s s' : Events DB) (r : Event)
      → create o request now s ≡ (accepted r, s')
      → let event_id = next_event_id now s.sequence in
        (id : ℕ) × IsNewEvent request now event_id r
        × (r ≡ to_proto (record (new_entity request now event_id) { id = id }))
        × ((k : Str)
            → find s'.db k ≡ (
                if same event_id k
                then some (record (new_entity request now event_id) { id = id })
                else find s.db k))
        × (s'.sequence ≡ (s.sequence + 1) % 2 ^ 64)
  unfolding new_entity
  create_stored request now s s' r h =
      let event_id = next_event_id now s.sequence in
      let fresh = new_entity request now event_id in
      let (entity, persisted, reply, counted) = create-eq-accepted o request now s s' r h in
      let is_new = laws.persist_ident fresh entity s.db s'.db persisted in
      (
        entity.id,
        subst (IsNewEvent request now event_id) (sym (reply ∙ ap to_proto is_new))
            (new_entity-IsNewEvent request now event_id entity.id),
        reply ∙ ap to_proto is_new,
        λ k.
            subst (λ e. find s'.db k ≡ (if same event_id k then some e else find s.db k)) is_new
              (laws.persist_find fresh entity s.db s'.db k persisted),
        counted,
      )

  -- An accepted change of status had found the event; the reply has the new status (unspecified for
  -- a number that the enum does not name), the time of the change as its resolution where the new
  -- status is resolved or closed, and else the resolution that it had; the table holds the reply's
  -- row under the event's id and what it held under the other keys. No order of the statuses is
  -- asked for.
  pub update_status_lem :
      (event_id : Str) (status : EventStatus) (now : ℤ) (db db' : DB) (r : Event)
      → update_status o event_id status now db ≡ (accepted r, db')
      → (old : EventEntity) × (find db event_id ≡ some old)
        × (r.status ≡ stored status)
        × (r.resolved_at ≡ (
            if status_eq status resolved || status_eq status closed
            then now
            else nullable_int64 old.resolved_at))
        × (r ≡ to_proto (moved_entity status now old))
        × ((k : Str)
            → find db' k
              ≡ (if same event_id k then some (moved_entity status now old) else find db k))
  unfolding moved_entity
  update_status_lem event_id status now db db' r h =
      let (old, found, updated, reply) =
        update_status-eq-accepted o event_id status now db db' r h in
      let is_old : find db event_id ≡ some old =
        sym (laws.query_one_find event_id db (some old) found) in
      let its_key : same old.event_id event_id ≡ true = laws.find_key db event_id old is_old in
      let under_key : find db old.event_id ≡ some old =
        laws.find_same db old.event_id event_id its_key ∙ is_old in
      (
        old,
        is_old,
        ap (λ (e : Event). e.status) reply ∙ status_of status now old,
        ap (λ (e : Event). e.resolved_at) reply ∙ resolved_of status now old,
        reply,
        λ k.
            subst (λ b. find db' k ≡ (if b then some (moved_entity status now old) else find db k))
              (laws.same_congr old.event_id event_id k its_key)
              (laws.update_find (moved_entity status now old) old db db' k under_key refl updated),
      )
