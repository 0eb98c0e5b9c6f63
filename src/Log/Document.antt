-- ===== src/Log/Document.antt =====
-- insertToElastic, appendTags, fromJson and addTagsFromJson of
-- services/log_service/src/log_repository.cc: the document that Elasticsearch keeps of a log. The
-- client and jsoncpp are parameters.
use device_ops.Prelude.{ℤ, ◌≡◌, refl, Bool, true, false, Option, none, some, List, [], ◌∷◌, All}
use device_ops.Str.{Str, lit}
use device_ops.Json.{Json}
use device_ops.Odb.Transaction.{Outcome, returned}
use device_ops.Outcome.{◌>>=◌}
use device_ops.Log.{LogEntry, Search, Elastic}

-- A member of a document.
pub data Member : Type 0 where
  text : Str → Member
  int64 : ℤ → Member
  texts : List Str → Member

-- The member `tags` is there only if a tag has been appended.
tags_member : List Str → List (Str × Member) → List (Str × Member)
tags_member [] rest = rest
tags_member (tag ∷ tags) rest = (lit "tags", texts (tag ∷ tags)) ∷ rest

unfoldable pub document : LogEntry → ℤ → List (Str × Member)
unfolding tags_member
document log ingested_at =
    (lit "log_id", text log.log_id)
    ∷ (lit "trace_id", text log.trace_id)
    ∷ (lit "device_id", text log.device_id)
    ∷ (lit "service_name", text log.service_name)
    ∷ (lit "source_type", text log.source_type)
    ∷ (lit "level", text log.level)
    ∷ (lit "message", text log.message)
    ∷ (lit "error_code", text log.error_code)
    ∷ (lit "event_id", text log.event_id)
    ∷ tags_member log.tags (
        (lit "context_json", text log.context_json)
        ∷ (lit "timestamp", int64 log.timestamp)
        ∷ (lit "ingested_at", int64 ingested_at)
        ∷ [])

-- tewics::ESClient over the store's state: insert(index, id, members) and search, with the hits as
-- jsoncpp values.
pub record EsClient (V S : Type 0) : Type 0 where
  pub insert : Str → Str → List (Str × Member) → S → Outcome Bool × S
  pub search : Search → S → Outcome (Option (List V))

module _ {V D : Type 0} (j : Json V D) where
  text_of : V → Str → Outcome Str
  text_of value name = do member ← j.member value name; j.as_string member

  read_texts : List V → Outcome (List Str)
  read_texts [] = returned []
  read_texts (v ∷ vs) = do s ← j.as_string v; ss ← read_texts vs; returned (s ∷ ss)

  texts_of : V → Bool → Outcome (List Str)
  texts_of member true = read_texts (j.elements member)
  texts_of member false = returned []

  tags_if : V → Bool → Outcome (List Str)
  tags_if value false = returned []
  tags_if value true = do member ← j.member value (lit "tags"); texts_of member (j.is_array member)

  unfoldable pub tags_from_json : V → Outcome (List Str)
  unfolding tags_if texts_of read_texts
  tags_from_json value = do present ← j.is_member value (lit "tags"); tags_if value present

  unfoldable pub from_json : V → Outcome LogEntry
  unfolding text_of
  from_json value = do
    log_id ← text_of value (lit "log_id")
    trace_id ← text_of value (lit "trace_id")
    device_id ← text_of value (lit "device_id")
    service_name ← text_of value (lit "service_name")
    source_type ← text_of value (lit "source_type")
    level ← text_of value (lit "level")
    message ← text_of value (lit "message")
    error_code ← text_of value (lit "error_code")
    event_id ← text_of value (lit "event_id")
    tags ← tags_from_json value
    context_json ← text_of value (lit "context_json")
    time ← j.member value (lit "timestamp")
    timestamp ← j.as_int64 time
    returned (record {
      log_id = log_id;
      trace_id = trace_id;
      device_id = device_id;
      service_name = service_name;
      source_type = source_type;
      level = level;
      message = message;
      error_code = error_code;
      event_id = event_id;
      tags = tags;
      context_json = context_json;
      timestamp = timestamp;
    })

  read_hits : List V → Outcome (List LogEntry)
  read_hits [] = returned []
  read_hits (v ∷ vs) = do log ← from_json v; logs ← read_hits vs; returned (log ∷ logs)

  logs_of : Option (List V) → Outcome (Option (List LogEntry))
  logs_of none = returned none
  logs_of (some hits) = do logs ← read_hits hits; returned (some logs)

  search_hits : {S : Type 0} → EsClient V S → Search → S → Outcome (Option (List LogEntry))
  search_hits client search s = do hits ← client.search search s; logs_of hits

  -- The store of LogRepository over the client.
  unfoldable pub elastic : {S : Type 0} → EsClient V S → (ℤ → Str) → Elastic S
  unfolding search_hits logs_of read_hits
  elastic client month = record {
    insert = λ index log ingested_at s. client.insert index log.log_id (document log ingested_at) s;
    search = search_hits client;
    month = month;
  }

  abbrev pub AreTexts : List V → List Str → Type 0
  AreTexts [] [] = Unit {0}
  AreTexts (v ∷ vs) (s ∷ ss) = (j.as_string v ≡ returned s) × AreTexts vs ss
  AreTexts [] (s ∷ ss) = ⊥
  AreTexts (v ∷ vs) [] = ⊥

  -- How a value of jsoncpp holds a member: its text, its number, or its array of texts.
  abbrev pub Holds : V → Str × Member → Type 0
  Holds value (name, text s) =
      (m : V) × (j.member value name ≡ returned m) × (j.as_string m ≡ returned s)
  Holds value (name, int64 n) =
      (m : V) × (j.member value name ≡ returned m) × (j.as_int64 m ≡ returned n)
  Holds value (name, texts ss) =
      (m : V) × (j.member value name ≡ returned m)
      × (j.is_array m ≡ true)
      × ((vs : List V) × (j.elements m ≡ vs) × AreTexts vs ss)

  abbrev pub has_tags : List Str → Bool
  has_tags [] = false
  has_tags (tag ∷ tags) = true

  -- A hit that Elasticsearch gives for a document: an object with its members.
  pub record IsHit (value : V) (log : LogEntry) (ingested_at : ℤ) : Type 0 where
    pub holds : All (Holds value) (document log ingested_at)
    pub tagged : j.is_member value (lit "tags") ≡ returned (has_tags log.tags)

  read_texts-AreTexts : (vs : List V) (ss : List Str) → AreTexts vs ss → read_texts vs ≡ returned ss
  unfolding read_texts
  read_texts-AreTexts [] [] h = refl
  read_texts-AreTexts (v ∷ vs) (s ∷ ss) h = rw h.0 (rw (read_texts-AreTexts vs ss h.1) refl)
  read_texts-AreTexts [] (s ∷ ss) h = absurd h
  read_texts-AreTexts (v ∷ vs) [] h = absurd h

  text_of-Holds :
      (value : V) (name s : Str) → Holds value (name, text s) → text_of value name ≡ returned s
  unfolding text_of
  text_of-Holds value name s (m, found, reads) = rw found reads

  after_tags :
      (value : V) (tags : List Str) (rest : List (Str × Member))
      → All (Holds value) (tags_member tags rest)
      → All (Holds value) rest
  unfolding tags_member
  after_tags value [] rest h = h
  after_tags value (tag ∷ tags) rest h = h.1

  tags_from_json-Holds :
      (value : V) (tags : List Str) (rest : List (Str × Member))
      → j.is_member value (lit "tags") ≡ returned (has_tags tags)
      → All (Holds value) (tags_member tags rest)
      → tags_from_json value ≡ returned tags
  unfolding tags_from_json tags_member tags_if texts_of
  tags_from_json-Holds value [] rest tagged h = rw tagged refl
  tags_from_json-Holds value (tag ∷ tags) rest tagged
        ((m, found, array, (vs, elements, reads)), h) =
      rw tagged (rw found (rw array (rw elements (read_texts-AreTexts vs (tag ∷ tags) reads))))

  -- fromJson reads back the log of which insertToElastic made the document, from any hit that holds the
  -- document's members, and so whatever the tags are and whenever it was ingested.
  pub from_json-document :
      (value : V) (log : LogEntry) (ingested_at : ℤ)
      → IsHit value log ingested_at
      → from_json value ≡ returned log
  unfolding from_json document
  from_json-document value log ingested_at hit =
      let (
        log_id,
        (
          trace_id,
          (
            device_id,
            (service_name, (source_type, (level, (message, (error_code, (event_id, tagged)))))),
          ),
        ),
      ) =
        hit.holds in
      let rest : List (Str × Member) =
        (lit "context_json", text log.context_json)
        ∷ (lit "timestamp", int64 log.timestamp)
        ∷ (lit "ingested_at", int64 ingested_at)
        ∷ [] in
      let (context, ((time, found, reads), _)) = after_tags value log.tags rest tagged in
      simp (
        log_id.1,
        log_id.2,
        trace_id.1,
        trace_id.2,
        device_id.1,
        device_id.2,
        service_name.1,
        service_name.2,
        source_type.1,
        source_type.2,
        level.1,
        level.2,
        message.1,
        message.2,
        error_code.1,
        error_code.2,
        event_id.1,
        event_id.2,
        tags_from_json-Holds value log.tags rest hit.tagged tagged,
        context.1,
        context.2,
        found,
        reads,
      )
