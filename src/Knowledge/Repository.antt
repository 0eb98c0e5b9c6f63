-- ===== src/Knowledge/Repository.antt =====
-- services/knowledge_service/src/knowledge_repository.cc: the document table behind
-- KnowledgeRepository, with the process's document sequence.
pub mod Changes
pub mod Search
use device_ops.Prelude.{
  ℕ, zero, suc, ◌+◌, ◌%◌, ◌^◌, ◌==◌, min, ltb, ℤ, pos, negsuc, Bool, true, not, ◌&&◌, ◌||◌, Option,
  List, [], ◌∷◌, ◌++◌, map, keep_if, length, take, if◌then◌else◌,
}
use device_ops.Str.{Str, lit, is_empty, str_eq, finds, decimal, signed_decimal, lower_string}
use device_ops.StdMap.{StdMap, assign}
use device_ops.Sorting.{Sort, later_by}
use device_ops.Sorting.Page.{sorted_page}
use device_ops.Odb.{Odb}
use device_ops.Odb.Calls.{nullable_string, unless_empty, insert_row, get_row, all_rows}
use device_ops.Odb.Transaction.{Reply, accepted, rejected}
use device_ops.Knowledge.{
  KnowledgeEntity, KnowledgeDocument, KnowledgeSnippet, to_proto, CreateKnowledgeDocumentRequest,
  SearchKnowledgeRequest, KnowledgeListFilter,
}

-- The id for the present value of `_sequence`, which is then one more, modulo 2 ^ 64.
unfoldable pub next_document_id : ℤ → ℕ → Str
next_document_id now sequence = lit "doc-" ++ (signed_decimal now ++ (lit "-" ++ decimal sequence))

unfoldable pub new_entity : CreateKnowledgeDocumentRequest → ℤ → Str → KnowledgeEntity
new_entity request now document_id = record {
  id = 0;
  document_id = document_id;
  title = request.title;
  category = request.category;
  device_type = unless_empty request.device_type;
  error_code = unless_empty request.error_code;
  content = request.content;
  status = lit "active";
  created_by = request.created_by;
  created_at = now;
  updated_at = now;
}

abbrev pub contains : Str → Str → Bool
contains value keyword = is_empty keyword || finds value keyword

unfoldable pub matches_list_filter : KnowledgeListFilter → KnowledgeDocument → Bool
matches_list_filter filter document =
    (is_empty filter.category || str_eq document.category filter.category)
    && (is_empty filter.device_type || str_eq document.device_type filter.device_type)
    && (is_empty filter.status || str_eq document.status filter.status)
    && (is_empty filter.keyword
        || contains document.title filter.keyword
        || contains document.content filter.keyword
        || contains document.error_code filter.keyword)

unfoldable pub matches_search_filter : SearchKnowledgeRequest → KnowledgeEntity → Bool
matches_search_filter request entity =
    str_eq entity.status (lit "active")
    && (is_empty request.device_type
        || str_eq (nullable_string entity.device_type) request.device_type)
    && (is_empty request.error_code
        || str_eq (nullable_string entity.error_code) request.error_code)

-- `points` if the test holds.
abbrev pub add_if : Bool → ℕ → ℕ
add_if test points = if test then points else 0

-- In halves.
unfoldable pub score_document : KnowledgeEntity → Str → ℕ
score_document entity query =
    if is_empty query
    then 2
    else let q = lower_string query in
      add_if (contains (lower_string entity.title) q) 6
      + add_if (contains (lower_string entity.category) q) 3
      + add_if (contains (lower_string (nullable_string entity.error_code)) q) 4
      + add_if (contains (lower_string entity.content) q) 2

unfoldable pub first_chunk : Str → Str
first_chunk content = if ltb 360 (length content) then take 360 content else content

unfoldable pub to_snippet : Str → KnowledgeEntity → KnowledgeSnippet
to_snippet query entity = record {
  document_id = entity.document_id;
  chunk_id = entity.document_id ++ lit "#chunk-0";
  title = entity.title;
  content = first_chunk entity.content;
  score = score_document entity query;
  metadata = assign (lit "query") query (
      assign (lit "error_code") (nullable_string entity.error_code) (
        assign (lit "device_type") (nullable_string entity.device_type)
          (assign (lit "category") entity.category [])));
}

-- The tests of the search loop that end in `continue`, negated.
unfoldable pub is_wanted : SearchKnowledgeRequest → KnowledgeEntity → Bool
is_wanted request entity =
    matches_search_filter request entity
    && (is_empty request.query || not (score_document entity request.query == 0))

unfoldable pub top_k : ℤ → ℕ
top_k (pos zero) = 5
top_k (pos (suc n)) = min (suc n) 50
top_k (negsuc n) = 5

abbrev pub higher : KnowledgeSnippet → KnowledgeSnippet → Bool
higher lhs rhs = ltb rhs.score lhs.score

-- The table and `_sequence`.
pub record Knowledge (DB : Type 0) : Type 0 where
  pub db : DB
  pub sequence : ℕ

module _ {DB : Type 0} (o : Odb KnowledgeEntity DB) where
  unfoldable pub create :
      CreateKnowledgeDocumentRequest → ℤ → Knowledge DB → Reply KnowledgeDocument × Knowledge DB
  create request now s =
      if is_empty request.title
      then (rejected (lit "title is required"), s)
      else if is_empty request.category
      then (rejected (lit "category is required"), s)
      else if is_empty request.content
      then (rejected (lit "content is required"), s)
      else let entity = new_entity request now (next_document_id now s.sequence) in
        let (reply, db') = insert_row o to_proto entity s.db in
        (reply, record { db = db'; sequence = (s.sequence + 1) % 2 ^ 64 })

  unfoldable pub get : Str → DB → Option KnowledgeDocument
  get document_id db = get_row o to_proto document_id db

  -- The page and `*total`.
  unfoldable pub list :
      Sort KnowledgeDocument → KnowledgeListFilter → DB → List KnowledgeDocument × ℕ
  list sort filter db =
      sorted_page sort (later_by (λ d. d.updated_at)) (matches_list_filter filter)
        (all_rows o to_proto db) filter.page filter.page_size

  -- The snippets that the loop collects.
  unfoldable pub candidates : SearchKnowledgeRequest → DB → List KnowledgeSnippet
  candidates request db =
      map (to_snippet request.query) (keep_if (is_wanted request) (all_rows o (λ e. e) db))

  unfoldable pub search :
      Sort KnowledgeSnippet → SearchKnowledgeRequest → DB → List KnowledgeSnippet
  search sort request db =
      let snippets = sort higher (candidates request db) in
      let k = top_k request.top_k in if ltb k (length snippets) then take k snippets else snippets
