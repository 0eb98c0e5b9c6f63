-- ===== src/Knowledge/Repository/Search.antt =====
-- KnowledgeRepository::search: the best documents, and no better one left out.
use mathlib.Core.List.{Permᴰ}
use device_ops.Prelude.{
  ℕ, zero, suc, ◌≤◌, min, ltb, ◌==◌, ℤ, pos, negsuc, ◌≡◌, refl, sym, ap, ◌∙◌, subst, Bool, true,
  false, not, ◌&&◌, ◌||◌, Bool-cases, inl, inr, List, [], ◌∷◌, ◌++◌, map, All, keep_if, length,
  length-take, take, drop, take_all, take-All, arith,
}
use device_ops.Str.{Str, is_empty}
use device_ops.Sorting.{Sort, IsSort, IsOrder, InOrder, length-Permᴰ, Permᴰ-All}
use device_ops.Sorting.Top.{IsFirst, take-IsFirst, take-InOrder, take-append-drop}
use device_ops.Odb.{Odb}
use device_ops.Odb.Calls.{all_rows}
use device_ops.Knowledge.{KnowledgeEntity, KnowledgeSnippet, SearchKnowledgeRequest}
use device_ops.Knowledge.Repository.{
  candidates, search, top_k, higher, to_snippet, is_wanted, matches_search_filter, score_document,
  first_chunk,
}

pub higher-IsOrder : IsOrder higher
higher-IsOrder = record {
  asym = λ x y h. lt_asym x.score y.score h;
  cotrans = λ x y z h. lt_cotrans x.score y.score z.score h;
}
  where
    lt_asym : (m n : ℕ) → ltb n m ≡ true → ltb m n ≡ false
    lt_asym m n h = ground arith

    lt_cotrans : (m n k : ℕ) → ltb k m ≡ true → (ltb n m || ltb k n) ≡ true
    lt_cotrans m n k h = ground arith

top_k-le : (n : ℤ) → top_k n ≤ 50
unfolding top_k
top_k-le (pos zero) = omega arith
top_k-le (pos (suc n)) = omega arith
top_k-le (negsuc n) = omega arith

-- A snippet worth showing for the query.
abbrev pub IsRelevant : Str → KnowledgeSnippet → Type 0
IsRelevant query snippet =
    ((is_empty query || not (snippet.score == 0)) ≡ true) × (length snippet.content ≤ 360)

is_wanted-score :
    (request : SearchKnowledgeRequest) (entity : KnowledgeEntity)
    → is_wanted request entity ≡ true
    → (is_empty request.query || not (score_document entity request.query == 0)) ≡ true
unfolding is_wanted
is_wanted-score request entity h =
    second (matches_search_filter request entity)
      (is_empty request.query || not (score_document entity request.query == 0)) h
  where
    second : (a b : Bool) → (a && b) ≡ true → b ≡ true
    second true b h = h
    second false b h = cc

length-first_chunk : (content : Str) → length (first_chunk content) ≤ 360
unfolding first_chunk
length-first_chunk content = elim (Bool-cases (ltb 360 (length content))) [
  | inl long ↦
      rw long (bound 360 (length content) (length (take 360 content)) (length-take 360 content))
  | inr short ↦ rw short (fits 360 (length content) short)
]
  where
    bound : (k n m : ℕ) → m ≡ min k n → m ≤ k
    bound k n m h = omega arith

    fits : (k n : ℕ) → ltb k n ≡ false → n ≤ k
    fits k n h = ground arith

to_snippet-IsRelevant :
    (request : SearchKnowledgeRequest) (entity : KnowledgeEntity)
    → is_wanted request entity ≡ true
    → IsRelevant request.query (to_snippet request.query entity)
unfolding to_snippet
to_snippet-IsRelevant request entity h =
    (is_wanted-score request entity h, length-first_chunk entity.content)

collected-All :
    (request : SearchKnowledgeRequest) (rows : List KnowledgeEntity)
    → All
        (IsRelevant request.query)
        (map (to_snippet request.query) (keep_if (is_wanted request) rows))
collected-All request [] = tt
collected-All request (row ∷ rows) = elim (Bool-cases (is_wanted request row)) [
  | inl h ↦ rw h (to_snippet-IsRelevant request row h, collected-All request rows)
  | inr h ↦ rw h (collected-All request rows)
]

module _ {DB : Type 0} (o : Odb KnowledgeEntity DB) where
  search-take :
      (sort : Sort KnowledgeSnippet) (request : SearchKnowledgeRequest) (db : DB)
      → search o sort request db
        ≡ take (top_k request.top_k) (sort higher (candidates o request db))
  unfolding search
  search-take sort request db =
      let snippets = sort higher (candidates o request db) in
      let k = top_k request.top_k in
      elim (Bool-cases (ltb k (length snippets))) [
        | inl more ↦ rw more refl
        | inr fits ↦ rw fits (sym (take_all k snippets (le_of k (length snippets) fits)))
      ]
    where
      le_of : (k n : ℕ) → ltb k n ≡ false → n ≤ k
      le_of k n h = ground arith

  collected :
      (request : SearchKnowledgeRequest) (db : DB)
      → All (IsRelevant request.query) (candidates o request db)
  unfolding candidates
  collected request db = collected-All request (all_rows o (λ e. e) db)

  -- For a sort that sorts: what a search returns is, the best first, the best of the snippets that it
  -- collects: as many as asked for, or all if there are fewer, and never more than 50. Together with
  -- those that it leaves out, none of which scores higher than one that it returns, they are the
  -- collected ones. Each returned one has at most 360 characters of content and, if the query is not
  -- empty, a positive score.
  pub search_lem :
      (sort : Sort KnowledgeSnippet)
      → IsSort sort
      → (request : SearchKnowledgeRequest) (db : DB)
      → let found = candidates o request db in
        let result = search o sort request db in
        (length result ≡ min (top_k request.top_k) (length found))
        × (length result ≤ 50)
        × InOrder higher result
        × All (IsRelevant request.query) result
        × ((rest : List KnowledgeSnippet) × Permᴰ found (result ++ rest)
            × All (λ s. IsFirst higher higher-IsOrder s rest) result)
  search_lem sort laws request db =
      let found = candidates o request db in
      let sorted = sort higher found in
      let k = top_k request.top_k in
      let p = laws.permutes higher found higher-IsOrder in
      let s = laws.sorts higher found higher-IsOrder in
      rw (search-take sort request db) (
        length-take k sorted ∙ ap (min k) (sym (length-Permᴰ p)),
        omega (arith, length-take k sorted, top_k-le request.top_k),
        take-InOrder higher k sorted s,
        take-All (IsRelevant request.query) k sorted
            (Permᴰ-All (IsRelevant request.query) p (collected request db)),
        (
          drop k sorted,
          subst (Permᴰ found) (sym (take-append-drop k sorted)) p,
          take-IsFirst higher higher-IsOrder k sorted s,
        ),
      )
