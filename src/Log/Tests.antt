-- ===== src/Log/Tests.antt =====
-- Runs of the log repository on a store that takes every log, and the theorems at concrete inputs.
use device_ops.Prelude.{
  none, ◌||◌, map, Bool, false, if◌then◌else◌, ℕ, ◌≤◌, ℤ, pos, ◌≡◌, refl, true, List, [], ◌∷◌, All,
  length,
}
use device_ops.Str.{Str, lit, str_eq}
use device_ops.Odb.Transaction.{Outcome, returned, thrown}
use device_ops.Log.{LogEntry, LogQueryFilter, Repository, Elastic, all_matched, context}
use device_ops.Log.{next_log_id}
use device_ops.Log.Service.{write_log}
use device_ops.Log.Service.Writes.{completed, IsWriteAnswer, write_log_lem}
use device_ops.Sorting.Insertion.{insertion_sort, insertion_sort-IsSort}
use device_ops.Json.{Json}
use device_ops.Log.Document.{
  Member, text, int64, texts, document, from_json, IsHit, from_json-document,
}
use device_ops.Log.Recent.{last_n, write_all, write_all-recent}
use device_ops.Log.Query.{is_found, all_matched_lem, context_lem}

-- The store keeps every log, and its search fails.
abbrev store : Elastic (List LogEntry)
store = record {
  insert = λ index log now s. (returned true, log ∷ s);
  search = λ search s. thrown (lit "no connection");
  month = λ t. lit "2025.01";
}

abbrev log_at : ℤ → LogEntry
log_at t = record {
  log_id = [];
  trace_id = [];
  device_id = lit "r1";
  service_name = [];
  source_type = [];
  level = [];
  message = lit "stuck";
  error_code = [];
  event_id = [];
  tags = [];
  context_json = [];
  timestamp = t;
}

abbrev empty : Repository (List LogEntry)
empty = record {
  index_prefix = lit "logs";
  max_query_size = 2;
  store = [];
  recent = [];
  sequence = 1;
}

abbrev three : List (LogEntry × ℤ)
three = (log_at (pos 1), pos 9) ∷ (log_at (pos 2), pos 9) ∷ (log_at (pos 3), pos 9) ∷ []

write_all-recent_example :
    let (logs, after) = write_all store three empty in after.recent ≡ last_n 2 logs
write_all-recent_example = write_all-recent store three empty [] refl

abbrev every_log : LogQueryFilter
every_log = record {
  page = pos 1;
  page_size = pos 10;
  device_id = lit "r1";
  service_name = [];
  level = [];
  keyword = [];
  event_id = [];
  start_time = pos 1;
  end_time = pos 5;
}

abbrev one_kept : Repository (List LogEntry)
one_kept = record empty { recent = log_at (pos 2) ∷ [] }

all_matched_lem_example :
    All
      (λ log.
        is_found every_log (all_matched store insertion_sort every_log (pos 9) one_kept) log ≡ true)
      one_kept.recent
all_matched_lem_example =
    (all_matched_lem store insertion_sort insertion_sort-IsSort every_log (pos 9) one_kept).2

context_lem_example :
    length
      (context store insertion_sort (lit "r1") (pos 3) (pos 2) (pos 2) (pos 200) (pos 9) one_kept)
    ≤ 100
context_lem_example =
    (context_lem store insertion_sort insertion_sort-IsSort (lit "r1") (pos 3) (pos 2) (pos 2)
      (pos 200) (pos 9) one_kept).0

write_log_lem_example :
    IsWriteAnswer {D = ℕ} store true
      (log_at (pos 1))
      empty
      (completed (log_at (pos 1)) (next_log_id (pos 9) 1) (pos 9))
      (returned true, completed (log_at (pos 1)) (next_log_id (pos 9) 1) (pos 9) ∷ [])
      (write_log store true (log_at (pos 1)) (pos 9) empty)
write_log_lem_example = write_log_lem {D = ℕ} store true (log_at (pos 1)) (pos 9) empty

-- A hit is an object with the members of a document.
data Hit : Type 0 where
  members : List (Str × Member) → Hit
  leaf : Member → Hit

member_of : List (Str × Member) → Str → Outcome Hit
member_of [] name = thrown (lit "no member")
member_of ((k, m) ∷ ms) name = if str_eq k name then returned (leaf m) else member_of ms name

has : List (Str × Member) → Str → Bool
has [] name = false
has ((k, m) ∷ ms) name = str_eq k name || has ms name

text_hit : Hit → Outcome Str
text_hit (leaf (text s)) = returned s
text_hit hit = thrown (lit "no text")

number_hit : Hit → Outcome ℤ
number_hit (leaf (int64 n)) = returned n
number_hit hit = thrown (lit "no number")

array_hit : Hit → Bool
array_hit (leaf (texts ss)) = true
array_hit hit = false

element_hits : Hit → List Hit
element_hits (leaf (texts ss)) = map (λ s. leaf (text s)) ss
element_hits hit = []

in_hit : Hit → Str → Outcome Hit
in_hit (members ms) name = member_of ms name
in_hit (leaf m) name = thrown (lit "no object")

has_hit : Hit → Str → Outcome Bool
has_hit (members ms) name = returned (has ms name)
has_hit (leaf m) name = thrown (lit "no object")

hits : Json Hit ℕ
unfolding text_hit number_hit array_hit element_hits in_hit has_hit member_of has
hits = record {
  parse = λ s. returned none;
  write = λ v. [];
  is_object = λ v. true;
  is_array = array_hit;
  is_string = λ v. false;
  is_numeric = λ v. false;
  is_bool = λ v. false;
  is_member = has_hit;
  member = in_hit;
  as_string = text_hit;
  as_int64 = number_hit;
  as_double = λ v. thrown [];
  as_bool = λ v. thrown [];
  elements = element_hits;
  member_names = λ v. [];
}

abbrev tagged_log : LogEntry
tagged_log = record (log_at (pos 3)) { tags = lit "a" ∷ lit "b" ∷ [] }

abbrev hit : Hit
hit = members (document tagged_log (pos 9))

hit-IsHit : IsHit hits hit tagged_log (pos 9)
unfolding hits document str_eq
hit-IsHit = record {
  holds = (
    (leaf (text []), refl, refl),
    (
      (leaf (text []), refl, refl),
      (
        (leaf (text (lit "r1")), refl, refl),
        (
          (leaf (text []), refl, refl),
          (
            (leaf (text []), refl, refl),
            (
              (leaf (text []), refl, refl),
              (
                (leaf (text (lit "stuck")), refl, refl),
                (
                  (leaf (text []), refl, refl),
                  (
                    (leaf (text []), refl, refl),
                    (
                      (
                        leaf (texts (lit "a" ∷ lit "b" ∷ [])),
                        refl,
                        refl,
                        (
                          leaf (text (lit "a")) ∷ leaf (text (lit "b")) ∷ [],
                          refl,
                          (refl, (refl, tt)),
                        ),
                      ),
                      (
                        (leaf (text []), refl, refl),
                        (
                          (leaf (int64 (pos 3)), refl, refl),
                          ((leaf (int64 (pos 9)), refl, refl), tt),
                        ),
                      ),
                    ),
                  ),
                ),
              ),
            ),
          ),
        ),
      ),
    ),
  );
  tagged = refl;
}

from_json-document_example : from_json hits hit ≡ returned tagged_log
from_json-document_example = from_json-document hits hit tagged_log (pos 9) hit-IsHit
