-- ===== src/Log/Query.antt =====
-- LogRepository::query and context, over any sort that sorts.
use mathlib.Core.List.{Permᴰ}
use device_ops.Prelude.{
  ℕ, ◌≤◌, ℤ, ◌≡◌, refl, ap, subst, Bool, true, ◌&&◌, ◌||◌, not, Bool-cases, inl, inr, Option, none,
  some, List, [], ◌∷◌, ◌++◌, All, length, keep_if, if◌then◌else◌, arith,
}
use device_ops.Str.{Str, str_eq, str_eq_refl}
use device_ops.Paging.{normalize_page, normalize_page_size}
use device_ops.Paging.Laws.{length-page_slice, normalize_page_size_bounds, page_slice-All}
use device_ops.Odb.Transaction.{Outcome, returned, thrown}
use device_ops.Sorting.{
  InOrder, IsSort, length-Permᴰ, Permᴰ-All, later_by-IsOrder, earlier_by-IsOrder, Sort,
}
use device_ops.Log.{
  LogEntry, LogQueryFilter, Repository, Elastic, later, earlier, matches, has_id, add_recent,
  found_in, search_elastic, search_for, all_matched, query, context, context_filter,
}

keep_if-All :
    (filter : LogQueryFilter) (logs : List LogEntry)
    → All (λ log. matches log filter ≡ true) (keep_if (λ log. matches log filter) logs)
keep_if-All filter [] = tt
keep_if-All filter (log ∷ logs) = ground (arith, keep_if-All filter logs)

All-append :
    (P : LogEntry → Type 0) (xs ys : List LogEntry) → All P xs → All P ys → All P (xs ++ ys)
All-append P [] ys h k = k
All-append P (x ∷ xs) ys h k = (h.0, All-append P xs ys h.1 k)

add_recent-All :
    (filter : LogQueryFilter) (matched recent : List LogEntry)
    → All (λ log. matches log filter ≡ true) matched
    → All (λ log. matches log filter ≡ true) (add_recent filter matched recent)
unfolding add_recent
add_recent-All filter matched [] h = h
add_recent-All filter matched (log ∷ recent) h =
    elim (Bool-cases (matches log filter && not (has_id log.log_id matched))) [
      | inl fresh ↦ rw fresh (
          add_recent-All filter (matched ++ log ∷ []) recent
            (All-append _ matched (log ∷ []) h (ground arith, tt)))
      | inr known ↦ rw known (add_recent-All filter matched recent h)
    ]

has_id-append :
    (id : Str) (xs ys : List LogEntry) → has_id id (xs ++ ys) ≡ (has_id id xs || has_id id ys)
has_id-append id [] ys = refl
has_id-append id (x ∷ xs) ys = ground (arith, has_id-append id xs ys)

-- Ids that are in stay in, and every recent log that matches is in, by its id.
add_recent-keeps :
    (filter : LogQueryFilter) (id : Str) (recent matched : List LogEntry)
    → has_id id matched ≡ true
    → has_id id (add_recent filter matched recent) ≡ true
unfolding add_recent
add_recent-keeps filter id [] matched h = h
add_recent-keeps filter id (log ∷ recent) matched h =
    add_recent-keeps filter id recent
      (if matches log filter && not (has_id log.log_id matched)
        then matched ++ log ∷ []
        else matched)
      (ground (arith, has_id-append id matched (log ∷ [])))

-- Whether a log is among `logs`, by its id, if it matches the filter.
unfoldable pub is_found : LogQueryFilter → List LogEntry → LogEntry → Bool
is_found filter logs log = not (matches log filter) || has_id log.log_id logs

add_recent-covers :
    (filter : LogQueryFilter) (recent matched : List LogEntry)
    → All (λ log. is_found filter (add_recent filter matched recent) log ≡ true) recent
unfolding add_recent is_found
add_recent-covers filter [] matched = tt
add_recent-covers filter (log ∷ recent) matched =
    let here =
      if matches log filter && not (has_id log.log_id matched)
      then matched ++ log ∷ []
      else matched in
    (
      ground (
        arith,
        add_recent-keeps filter log.log_id recent here,
        has_id-append log.log_id matched (log ∷ []),
        str_eq_refl log.log_id,
      ),
      add_recent-covers filter recent here,
    )

has_id-Permᴰ :
    (id : Str) {xs ys : List LogEntry} → Permᴰ xs ys → has_id id xs ≡ true → has_id id ys ≡ true
has_id-Permᴰ id Permᴰ.nil h = h
has_id-Permᴰ id (Permᴰ.cons {a} {b} e p) h =
    ground (arith, has_id-Permᴰ id p, ap (λ (log : LogEntry). str_eq log.log_id id) e)
has_id-Permᴰ id (Permᴰ.swap e f) h = ground (
  arith,
  ap (λ (log : LogEntry). str_eq log.log_id id) e,
  ap (λ (log : LogEntry). str_eq log.log_id id) f,
)
has_id-Permᴰ id (Permᴰ.trans p q) h = has_id-Permᴰ id q (has_id-Permᴰ id p h)

All-is_found :
    (filter : LogQueryFilter) (xs ys logs : List LogEntry)
    → Permᴰ xs ys
    → All (λ log. is_found filter xs log ≡ true) logs
    → All (λ log. is_found filter ys log ≡ true) logs
unfolding is_found
All-is_found filter xs ys [] p h = tt
All-is_found filter xs ys (log ∷ logs) p h =
    (ground (arith, has_id-Permᴰ log.log_id p), All-is_found filter xs ys logs p h.1)

module _ {S : Type 0} (es : Elastic S) (sort : Sort LogEntry) (laws : IsSort sort) where
  found_in-All :
      (filter : LogQueryFilter) (found : Outcome (Option (List LogEntry)))
      → All (λ log. matches log filter ≡ true) (found_in es filter found)
  unfolding found_in
  found_in-All filter (thrown e) = tt
  found_in-All filter (returned none) = tt
  found_in-All filter (returned (some logs)) = keep_if-All filter logs

  search_elastic-All :
      (filter : LogQueryFilter) (now : ℤ) (s : Repository S)
      → All (λ log. matches log filter ≡ true) (search_elastic es filter now s)
  unfolding search_elastic
  search_elastic-All filter now s =
      found_in-All filter (es.search (search_for es filter now s) s.store)

  -- What is matched are logs that match the filter, the newest first, and whatever Elasticsearch
  -- answers, if it throws too, every recent log that matches is there, by its id.
  pub all_matched_lem :
      (filter : LogQueryFilter) (now : ℤ) (s : Repository S)
      → let matched = all_matched es sort filter now s in
        All (λ log. matches log filter ≡ true) matched
        × InOrder later matched
        × All (λ log. is_found filter matched log ≡ true) s.recent
  unfolding all_matched
  all_matched_lem filter now s =
      let found = search_elastic es filter now s in
      let merged = add_recent filter found s.recent in
      let p = laws.permutes later merged (later_by-IsOrder (λ log. log.timestamp)) in
      (
        Permᴰ-All _ p (add_recent-All filter found s.recent (search_elastic-All filter now s)),
        laws.sorts later merged (later_by-IsOrder (λ log. log.timestamp)),
        All-is_found filter merged _ s.recent p (add_recent-covers filter s.recent found),
      )

  -- A page of a query has at most 100 logs, all of which match the filter, and the total is the
  -- number of logs that match, on whatever page.
  pub query_lem :
      (filter : LogQueryFilter) (now : ℤ) (s : Repository S)
      → let (page, total) = query es sort filter now s in
        (length page ≤ 100)
        × All (λ log. matches log filter ≡ true) page
        × (total ≡ length (all_matched es sort filter now s))
  unfolding query
  query_lem filter now s =
      let matched = all_matched es sort filter now s in
      (
        omega (
          arith,
          length-page_slice matched (normalize_page filter.page)
              (normalize_page_size filter.page_size),
          normalize_page_size_bounds filter.page_size,
        ),
        page_slice-All _ matched (normalize_page filter.page) (normalize_page_size filter.page_size)
            (all_matched_lem filter now s).0,
        refl,
      )

  -- The limit of a context may be up to 200, but no more than 100 logs are ever returned: the query
  -- that context makes caps its page. They all match the filter that context builds, the oldest
  -- first.
  pub context_lem :
      (device_id : Str) (center_time before_ms after_ms limit now : ℤ) (s : Repository S)
      → let logs = context es sort device_id center_time before_ms after_ms limit now s in
        (length logs ≤ 100)
        × All
            (λ log.
              matches log (context_filter device_id center_time before_ms after_ms limit) ≡ true)
            logs
        × InOrder earlier logs
  unfolding context
  context_lem device_id center_time before_ms after_ms limit now s =
      let filter = context_filter device_id center_time before_ms after_ms limit in
      let (short, fits, total) = query_lem filter now s in
      let p =
        laws.permutes earlier (query es sort filter now s).0
          (earlier_by-IsOrder (λ log. log.timestamp)) in
      (
        subst (λ (n : ℕ). n ≤ 100) (length-Permᴰ p) short,
        Permᴰ-All _ p fits,
        laws.sorts earlier _ (earlier_by-IsOrder (λ log. log.timestamp)),
      )
