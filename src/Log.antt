-- ===== src/Log.antt =====
-- services/log_service/src/log_repository.cc: the log store in Elasticsearch with the recent logs in
-- memory. The Elasticsearch client, the printing of a month and std::sort are parameters.
pub mod Recent
pub mod Document
pub mod Config
pub mod Query
pub mod Service
mod Tests
use device_ops.Prelude.{
  ℕ, zero, suc, ◌+◌, ◌-◌, ◌%◌, ◌^◌, ◌≤◌, min, ℤ, pos, negsuc, ◌+ℤ◌, ◌-ℤ◌, Bool, true, false, not,
  ◌&&◌, ◌||◌, Option, none, some, List, [], ◌∷◌, ◌++◌, map, keep_if, length, drop, ltb_ℤ, ltb,
  is_positive, if◌then◌else◌,
}
use device_ops.Str.{Str, lit, is_empty, str_eq, finds, decimal, signed_decimal}
use device_ops.Paging.{normalize_page, normalize_page_size, page_slice}
use device_ops.Sorting.{Sort, later_by, earlier_by}
use device_ops.Odb.Transaction.{Outcome, returned, thrown, Reply, accepted, rejected}

pub record LogEntry : Type 0 where
  pub log_id : Str
  pub trace_id : Str
  pub device_id : Str
  pub service_name : Str
  pub source_type : Str
  pub level : Str
  pub message : Str
  pub error_code : Str
  pub event_id : Str
  pub tags : List Str
  pub context_json : Str
  pub timestamp : ℤ

pub record LogQueryFilter : Type 0 where
  pub page : ℤ
  pub page_size : ℤ
  pub device_id : Str
  pub service_name : Str
  pub level : Str
  pub keyword : Str
  pub event_id : Str
  pub start_time : ℤ
  pub end_time : ℤ

-- What the query to Elasticsearch says: the fields to match, the time range if there is one, the
-- keyword, and whether it asks for everything.
pub record Search : Type 0 where
  pub index : Str
  pub size : ℕ
  pub matches : List (Str × Str)
  pub range : Option (ℤ × ℤ)
  pub keyword : Option Str
  pub match_all : Bool

-- tewics::ESClient over the store's state: insert(index, id, log) and search. `search` gives the logs
-- that fromJson reads, or nothing; `month` is the text that strftime("%Y.%m") prints of a time.
pub record Elastic (S : Type 0) : Type 0 where
  pub insert : Str → LogEntry → ℤ → S → Outcome Bool × S
  pub search : Search → S → Outcome (Option (List LogEntry))
  pub month : ℤ → Str

pub record Repository (S : Type 0) : Type 0 where
  pub index_prefix : Str
  pub max_query_size : ℕ
  pub store : S
  pub recent : List LogEntry
  pub sequence : ℕ

unfoldable pub next_log_id : ℤ → ℕ → Str
next_log_id timestamp sequence =
    lit "log-" ++ (signed_decimal timestamp ++ (lit "-" ++ decimal sequence))

unfoldable pub normalize : LogEntry → Str → ℤ → LogEntry
normalize input generated_id now = record input {
  log_id = if is_empty input.log_id then generated_id else input.log_id;
  level = if is_empty input.level then lit "info" else input.level;
  source_type = if is_empty input.source_type then lit "service" else input.source_type;
  timestamp = if is_positive input.timestamp then input.timestamp else now;
}

unfoldable pub in_time_range : ℤ → ℤ → ℤ → Bool
in_time_range timestamp start_time end_time =
    not (is_positive start_time && ltb_ℤ timestamp start_time)
    && not (is_positive end_time && ltb_ℤ end_time timestamp)

abbrev pub contains : Str → Str → Bool
contains value keyword = is_empty keyword || finds value keyword

unfoldable pub matches : LogEntry → LogQueryFilter → Bool
matches log filter =
    (is_empty filter.device_id || str_eq log.device_id filter.device_id)
    && (is_empty filter.service_name || str_eq log.service_name filter.service_name)
    && (is_empty filter.level || str_eq log.level filter.level)
    && (is_empty filter.event_id || str_eq log.event_id filter.event_id)
    && in_time_range log.timestamp filter.start_time filter.end_time
    && (is_empty filter.keyword
        || contains log.message filter.keyword
        || contains log.error_code filter.keyword
        || contains log.context_json filter.keyword)

-- _recent.push_back(log), and the erase of what is over the limit.
unfoldable pub push_recent : ℕ → LogEntry → List LogEntry → List LogEntry
push_recent max_query_size log recent =
    let all = recent ++ log ∷ [] in
    if ltb max_query_size (length all) then drop (length all - max_query_size) all else all

abbrev when : Bool → Str × Str → List (Str × Str)
when true m = m ∷ []
when false m = []

module _ {S : Type 0} (es : Elastic S) where
  unfoldable pub index_name_for_timestamp : Str → ℤ → Str
  index_name_for_timestamp index_prefix timestamp = index_prefix ++ (lit "-" ++ es.month timestamp)

  keep_log : LogEntry → Repository S → Outcome Bool × S → Reply (Unit {0}) × Repository S
  keep_log log s (thrown e, store) = (rejected e, record s { store = store })
  keep_log log s (returned false, store) =
      (rejected (lit "failed to write log to elasticsearch"), record s { store = store })
  keep_log log s (returned true, store) =
      (accepted tt, record s { store = store; recent = push_recent s.max_query_size log s.recent })

  unfoldable pub write : LogEntry → ℤ → Repository S → Reply (Unit {0}) × Repository S
  unfolding keep_log
  write input now s =
      if is_empty input.message
      then (rejected (lit "message is required"), s)
      else let log = normalize input (next_log_id now s.sequence) now in
        let counted = record s { sequence = (s.sequence + 1) % 2 ^ 64 } in
        keep_log log counted
          (es.insert (index_name_for_timestamp s.index_prefix log.timestamp) log now s.store)

  unfoldable pub search_for : LogQueryFilter → ℤ → Repository S → Search
  search_for filter now s = record {
    index =
        index_name_for_timestamp s.index_prefix
          (if is_positive filter.start_time then filter.start_time else now);
    size = s.max_query_size;
    matches =
        when (not (is_empty filter.device_id)) (lit "device_id", filter.device_id)
        ++ (when (not (is_empty filter.service_name)) (lit "service_name", filter.service_name)
            ++ (when (not (is_empty filter.level)) (lit "level", filter.level)
                ++ when (not (is_empty filter.event_id)) (lit "event_id", filter.event_id)));
    range =
        if is_positive filter.start_time || is_positive filter.end_time
        then some (filter.start_time, if is_positive filter.end_time then filter.end_time else now)
        else none;
    keyword = if is_empty filter.keyword then none else some filter.keyword;
    match_all =
        is_empty filter.device_id
        && is_empty filter.service_name
        && is_empty filter.level
        && is_empty filter.event_id
        && not (is_positive filter.start_time)
        && not (is_positive filter.end_time)
        && is_empty filter.keyword;
  }

  -- The logs that Elasticsearch found, filtered once more; none if it failed.
  found_in : LogQueryFilter → Outcome (Option (List LogEntry)) → List LogEntry
  found_in filter (thrown e) = []
  found_in filter (returned none) = []
  found_in filter (returned (some logs)) = keep_if (λ log. matches log filter) logs

  unfoldable pub search_elastic : LogQueryFilter → ℤ → Repository S → List LogEntry
  unfolding found_in
  search_elastic filter now s = found_in filter (es.search (search_for filter now s) s.store)

abbrev pub has_id : Str → List LogEntry → Bool
has_id id [] = false
has_id id (item ∷ rest) = str_eq item.log_id id || has_id id rest

-- The loop that adds the recent logs which match and whose id is not there yet.
unfoldable pub add_recent : LogQueryFilter → List LogEntry → List LogEntry → List LogEntry
add_recent filter matched [] = matched
add_recent filter matched (log ∷ recent) =
    add_recent filter
      (if matches log filter && not (has_id log.log_id matched)
        then matched ++ log ∷ []
        else matched)
      recent

-- The comparisons that query and context sort by.
abbrev pub later : LogEntry → LogEntry → Bool
later = later_by (λ log. log.timestamp)

abbrev pub earlier : LogEntry → LogEntry → Bool
earlier = earlier_by (λ log. log.timestamp)

unfoldable pub context_limit : ℤ → ℕ
context_limit (pos zero) = 50
context_limit (pos (suc n)) = min (suc n) 200
context_limit (negsuc n) = 50

abbrev pub at_least_zero : ℤ → ℤ
at_least_zero n = if is_positive n then n else pos 0

unfoldable pub context_filter : Str → ℤ → ℤ → ℤ → ℤ → LogQueryFilter
context_filter device_id center_time before_ms after_ms limit = record {
  page = pos 1;
  page_size = pos (context_limit limit);
  device_id = device_id;
  service_name = [];
  level = [];
  keyword = [];
  event_id = [];
  start_time = center_time -ℤ at_least_zero before_ms;
  end_time = center_time +ℤ at_least_zero after_ms;
}

module _ {S : Type 0} (es : Elastic S) (sort : Sort LogEntry) where
  unfoldable pub all_matched : LogQueryFilter → ℤ → Repository S → List LogEntry
  all_matched filter now s =
      sort later (add_recent filter (search_elastic es filter now s) s.recent)

  -- The page and `*total`.
  unfoldable pub query : LogQueryFilter → ℤ → Repository S → List LogEntry × ℕ
  query filter now s =
      let matched = all_matched filter now s in
      (
        page_slice matched (normalize_page filter.page) (normalize_page_size filter.page_size),
        length matched,
      )

  unfoldable pub context : Str → ℤ → ℤ → ℤ → ℤ → ℤ → Repository S → List LogEntry
  context device_id center_time before_ms after_ms limit now s =
      sort earlier (query (context_filter device_id center_time before_ms after_ms limit) now s).0
