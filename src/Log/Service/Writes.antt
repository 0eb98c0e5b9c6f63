-- ===== src/Log/Service/Writes.antt =====
-- What WriteLog answers, stores and publishes (services/log_service/src/log_service_impl.cc).
use device_ops.Prelude.{
  ℤ, ◌≡◌, refl, Bool, Bool-cases, true, false, ◌⊎◌, inl, inr, List, [], ◌∷◌, ◌++◌, is_positive,
  if◌then◌else◌,
}
use device_ops.Str.{Str, lit, is_empty}
use device_ops.Rpc.{CommonResponse, set_response}
use device_ops.Mq.{Publication, text, int64, texts, log_received_route}
use device_ops.Odb.Transaction.{Outcome, Outcome-cases, returned, thrown}
use device_ops.Log.{
  LogEntry, Repository, Elastic, next_log_id, normalize, index_name_for_timestamp, write,
}
use device_ops.Log.Recent.{last_n, push_recent-last_n}
use device_ops.Log.Service.{log_payload, write_log}

-- The log that is stored for a request's: with an id, a level, a source type and a time, where it has
-- none.
abbrev pub completed : LogEntry → Str → ℤ → LogEntry
completed log generated_id now = record log {
  log_id = if is_empty log.log_id then generated_id else log.log_id;
  level = if is_empty log.level then lit "info" else log.level;
  source_type = if is_empty log.source_type then lit "service" else log.source_type;
  timestamp = if is_positive log.timestamp then log.timestamp else now;
}

-- The publication of a request's log.
abbrev pub log_notice : {D : Type 0} → LogEntry → Publication D
log_notice log = record {
  route = log_received_route;
  payload =
      (lit "log_id", text log.log_id)
      ∷ (lit "trace_id", text log.trace_id)
      ∷ (lit "device_id", text log.device_id)
      ∷ (lit "service_name", text log.service_name)
      ∷ (lit "source_type", text log.source_type)
      ∷ (lit "level", text log.level)
      ∷ (lit "message", text log.message)
      ∷ (lit "error_code", text log.error_code)
      ∷ (lit "event_id", text log.event_id)
      ∷ (lit "timestamp", int64 log.timestamp)
      ∷ (lit "tags", texts log.tags)
      ∷ [];
  trace_id = log.trace_id;
}

module _ {S D : Type 0} (es : Elastic S) where
  -- `made` is what Elasticsearch made of the insert of `kept`.
  abbrev pub IsWriteAnswer :
      Bool
      → LogEntry
      → Repository S
      → LogEntry
      → Outcome Bool × S
      → CommonResponse × Repository S × List (Publication D)
      → Type 0
  IsWriteAnswer publishing log s kept made (response, after, publications) =
      ((is_empty log.message ≡ true)
        × (response ≡ set_response 503 (lit "message is required"))
        × (after ≡ s)
        × (publications ≡ []))
      ⊎ ((is_empty log.message ≡ false)
          × (made.0 ≡ returned true)
          × (response ≡ set_response 0 (lit "ok"))
          × (after.recent ≡ last_n s.max_query_size (s.recent ++ kept ∷ []))
          × (after.store ≡ made.1)
          × (publications ≡ (if publishing then log_notice log ∷ [] else [])))
      ⊎ ((is_empty log.message ≡ false)
          × (((made.0 ≡ returned false)
                × (response ≡ set_response 503 (lit "failed to write log to elasticsearch")))
              ⊎ ((e : Str) × (made.0 ≡ thrown e) × (response ≡ set_response 503 e)))
          × (after.recent ≡ s.recent)
          × (after.store ≡ made.1)
          × (publications ≡ []))

  -- WriteLog with no message answers 503 and changes nothing. With one, it asks Elasticsearch to insert
  -- the log, completed, into the index of the log's own time. Where that returns true it answers 0, the
  -- recent logs are the last `max_query_size` of those before followed by the log, and a publisher that
  -- is on is asked for one publication, of the request's log. Where it returns false or throws, it
  -- answers 503 with the error, and the recent logs are as they were. With 503 it asks for no
  -- publication.
  pub write_log_lem :
      (publishing : Bool) (log : LogEntry) (now : ℤ) (s : Repository S)
      → let kept = completed log (next_log_id now s.sequence) now in
        IsWriteAnswer publishing log s kept
          (es.insert (index_name_for_timestamp es s.index_prefix kept.timestamp) kept now s.store)
          (write_log es {D = D} publishing log now s)
  unfolding write_log write normalize log_payload
  write_log_lem publishing log now s =
      let kept = completed log (next_log_id now s.sequence) now in
      let made =
        es.insert (index_name_for_timestamp es s.index_prefix kept.timestamp) kept now s.store in
      elim (Bool-cases (is_empty log.message)) [
        | inl missing ↦ rw missing (inl (refl, refl, refl, refl))
        | inr given ↦ elim (Outcome-cases made.0) [
          | inl (e, failed) ↦
              rw (given, failed) (inr (inr (refl, inr (e, refl, refl), refl, refl, refl)))
          | inr (false, refused) ↦
              rw (given, refused) (inr (inr (refl, inl (refl, refl), refl, refl, refl)))
          | inr (true, stored) ↦
              rw (given, stored)
                (inr (
                  inl (
                    refl,
                    refl,
                    refl,
                    push_recent-last_n s.max_query_size kept s.recent,
                    refl,
                    refl,
                  )))
        ]
      ]
