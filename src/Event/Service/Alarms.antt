-- ===== src/Event/Service/Alarms.antt =====
-- When CreateEvent announces an alarm, and what the answers' codes say of the table.
use device_ops.Prelude.{ℤ, ◌≡◌, refl, Bool, none, some, [], ◌∷◌, ◌⊎◌, inl, inr, if◌then◌else◌}
use device_ops.Str.{Str}
use device_ops.Rpc.{set_response}
use device_ops.Mq.{alarm_created_route}
use device_ops.Odb.{Odb}
use device_ops.Odb.Transaction.{Reply, accepted, rejected}
use device_ops.Event.{EventEntity, EventSeverity, CreateEventRequest}
use device_ops.Event.Status.{EventStatus}
use device_ops.Event.Repository.{Event, Events, create}
use device_ops.Event.Repository.Changes.{create_refused}
use device_ops.Event.Service.{alarm_payload, alarms, answer, create_event}

module _ {D DB : Type 0} (severity_name : EventSeverity → Str) (status_name : EventStatus → Str)
    (o : Odb EventEntity DB) where
  announces :
      (publishing : Bool) (trace_id : Str) (s : Events DB) (x : Reply Event × Events DB)
      → ((s' : Events DB) (e : Str) → x ≡ (rejected e, s') → s'.db ≡ s.db)
      → let response = answer (λ e. 400) x.0 in
        let publications = alarms {D = D} severity_name status_name publishing trace_id x.0 in
        ((event : Event) × (x.0 ≡ accepted event)
          × (response.response.code ≡ 0)
          × (response.event ≡ some event)
          × (publications ≡ (
              if publishing
              then record {
                route = alarm_created_route;
                payload = alarm_payload severity_name status_name event;
                trace_id = trace_id;
              }
                ∷ []
              else [])))
        ⊎ ((e : Str) × (x.0 ≡ rejected e)
            × (response.response ≡ set_response 400 e)
            × (response.event ≡ none)
            × (publications ≡ [])
            × (x.1.db ≡ s.db))
  unfolding answer alarms
  announces publishing trace_id s (accepted event, s') kept = inl (event, refl, refl, refl, refl)
  announces publishing trace_id s (rejected e, s') kept =
      inr (e, refl, refl, refl, refl, kept s' e refl)

  -- CreateEvent answers 0 with the event exactly when the repository stored it, and then, if the
  -- publisher is on, asks for one publication of that event to the alarm route, under the request's
  -- trace id. Otherwise it answers 400 with the repository's message, asks for none, and the table
  -- is as it was.
  pub create_event_announces :
      (publishing : Bool) (request : CreateEventRequest) (now : ℤ) (s : Events DB)
      → let (reply, s') = create o request now s in
        let (response, after, publications) =
          create_event {D = D} severity_name status_name o publishing request now s in
        (after ≡ s')
        × (((event : Event) × (reply ≡ accepted event)
              × (response.response.code ≡ 0)
              × (response.event ≡ some event)
              × (publications ≡ (
                  if publishing
                  then record {
                    route = alarm_created_route;
                    payload = alarm_payload severity_name status_name event;
                    trace_id = request.trace_id;
                  }
                    ∷ []
                  else [])))
            ⊎ ((e : Str) × (reply ≡ rejected e)
                × (response.response ≡ set_response 400 e)
                × (response.event ≡ none)
                × (publications ≡ [])
                × (after.db ≡ s.db)))
  unfolding create_event
  create_event_announces publishing request now s = (
    refl,
    announces publishing request.trace_id s (create o request now s)
        (create_refused o request now s),
  )
