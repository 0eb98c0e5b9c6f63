-- ===== src/Log/Recent.antt =====
-- LogRepository::write and the recent logs that it keeps.
use native.Mathlib.Nat.{zero-add}
use device_ops.Prelude.{
  ℕ, zero, suc, ◌+◌, ◌-◌, ◌≤◌, ℤ, ◌≡◌, refl, sym, ap, ◌∙◌, false, inl, inr, List, [], ◌∷◌, ◌++◌,
  length, drop, length-append, length-drop, drop_all, append_assoc, append-nil, ltb, Bool-cases,
  arith,
}
use device_ops.Str.{Str}
use device_ops.Odb.Transaction.{Reply, accepted, rejected, Reply-cases}
use device_ops.Log.{LogEntry, Repository, Elastic, next_log_id, normalize, push_recent, write}

-- The last `n` of a list.
abbrev pub last_n {ℓ} : {A : Type ℓ} → ℕ → List A → List A
last_n n xs = drop (length xs - n) xs

drop-append {ℓ} :
    {A : Type ℓ} (n : ℕ) (xs ys : List A) → n ≤ length xs → drop n (xs ++ ys) ≡ drop n xs ++ ys
drop-append zero xs ys h = refl
drop-append (suc n) [] ys h = absurd (omega arith)
drop-append (suc n) (x ∷ xs) ys h = drop-append n xs ys (omega arith)

drop-drop {ℓ} : {A : Type ℓ} (m n : ℕ) (xs : List A) → drop m (drop n xs) ≡ drop (n + m) xs
drop-drop m zero xs = ap (λ (k : ℕ). drop k xs) (sym (zero-add m))
drop-drop m (suc n) [] = drop_all m [] (omega arith) ∙ sym (drop_all (suc n + m) [] (omega arith))
drop-drop m (suc n) (x ∷ xs) = drop-drop m n xs ∙ ap (λ (k : ℕ). drop k (x ∷ xs)) (suc_add n)
  where
    suc_add : (n : ℕ) → suc (n + m) ≡ suc n + m
    suc_add n = omega arith

pub push_recent-last_n :
    (max : ℕ) (log : LogEntry) (recent : List LogEntry)
    → push_recent max log recent ≡ last_n max (recent ++ log ∷ [])
unfolding push_recent
push_recent-last_n max log recent =
    let all = recent ++ log ∷ [] in
    elim (Bool-cases (ltb max (length all))) [
      | inl over ↦ rw over
      | inr fits ↦ rw fits (ap (λ (k : ℕ). drop k all) (nothing_over (length all) fits))
    ]
  where
    nothing_over : (n : ℕ) → ltb max n ≡ false → 0 ≡ n - max
    nothing_over n h = ground arith

-- Pushing the logs of `logs`, one after the other.
abbrev pub push_all : ℕ → List LogEntry → List LogEntry → List LogEntry
push_all max recent [] = recent
push_all max recent (log ∷ logs) = push_all max (push_recent max log recent) logs

last_n-step :
    (max : ℕ) (all : List LogEntry) (log : LogEntry)
    → last_n max (last_n max all ++ log ∷ []) ≡ last_n max (all ++ log ∷ [])
last_n-step max all log =
    let k = length all - max in
    let more = all ++ log ∷ [] in
    let moved : drop k all ++ log ∷ [] ≡ drop k more =
      sym (drop-append k all (log ∷ []) (omega arith)) in
    ap (last_n max) moved
    ∙ drop-drop (length (drop k more) - max) k more
    ∙ ap (λ (n : ℕ). drop n more) (omega (arith, length-drop k more, length-append all (log ∷ [])))

-- However many logs are pushed, what is kept is the last of them, as many as the query size allows,
-- in the order in which they came.
push_all-last_n :
    (max : ℕ) (before logs : List LogEntry)
    → push_all max (last_n max before) logs ≡ last_n max (before ++ logs)
push_all-last_n max before [] = ap (last_n max) (sym (append-nil before))
push_all-last_n max before (log ∷ logs) =
    ap (λ (recent : List LogEntry). push_all max recent logs)
      (push_recent-last_n max log (last_n max before) ∙ last_n-step max before log)
    ∙ push_all-last_n max (before ++ log ∷ []) logs
    ∙ ap (last_n max) (append_assoc before (log ∷ []) logs)

if_stored : Reply (Unit {0}) → LogEntry → List LogEntry → List LogEntry
if_stored (accepted _) log logs = log ∷ logs
if_stored (rejected e) log logs = logs

module _ {S : Type 0} (es : Elastic S) where
  -- The logs that a list of writes has stored, each as it was stored, and the repository after them.
  unfoldable pub write_all : List (LogEntry × ℤ) → Repository S → List LogEntry × Repository S
  unfolding if_stored
  write_all [] s = ([], s)
  write_all ((input, now) ∷ rest) s =
      let (reply, s') = write es input now s in
      let (logs, s'') = write_all rest s' in
      (if_stored reply (normalize input (next_log_id now s.sequence) now) logs, s'')

  write_accepted :
      (input : LogEntry) (now : ℤ) (s : Repository S) (u : Unit {0})
      → (write es input now s).0 ≡ accepted u
      → let log = normalize input (next_log_id now s.sequence) now in
        ((write es input now s).1.recent ≡ push_recent s.max_query_size log s.recent)
        × ((write es input now s).1.max_query_size ≡ s.max_query_size)
  unfolding write
  write_accepted input now s u h = ground arith

  write_rejected :
      (input : LogEntry) (now : ℤ) (s : Repository S) (e : Str)
      → (write es input now s).0 ≡ rejected e
      → ((write es input now s).1.recent ≡ s.recent)
        × ((write es input now s).1.max_query_size ≡ s.max_query_size)
  unfolding write
  write_rejected input now s e h = ground arith

  -- After any writes, the recent logs are the last `max_query_size` of all that were stored, each as
  -- it was stored and in that order; a write that is refused, or that Elasticsearch fails, adds none.
  pub write_all-recent :
      (inputs : List (LogEntry × ℤ)) (s : Repository S) (before : List LogEntry)
      → s.recent ≡ last_n s.max_query_size before
      → let (logs, after) = write_all inputs s in
        after.recent ≡ last_n s.max_query_size (before ++ logs)
  unfolding write_all if_stored
  write_all-recent [] s before h = h ∙ ap (last_n s.max_query_size) (sym (append-nil before))
  write_all-recent ((input, now) ∷ rest) s before h =
      let max = s.max_query_size in
      let log = normalize input (next_log_id now s.sequence) now in
      let s' = (write es input now s).1 in
      let logs = (write_all rest s').0 in
      elim (Reply-cases (write es input now s).0) [
        | inl (u, stored) ↦
            let (pushed, size) = write_accepted input now s u stored in
            let start : s'.recent ≡ last_n s'.max_query_size (before ++ log ∷ []) =
              pushed
              ∙ ap (push_recent max log) h
              ∙ push_recent-last_n max log (last_n max before)
              ∙ last_n-step max before log
              ∙ ap (λ (n : ℕ). last_n n (before ++ log ∷ [])) (sym size) in
            write_all-recent rest s' (before ++ log ∷ []) start
            ∙ ap (λ (n : ℕ). last_n n ((before ++ log ∷ []) ++ logs)) size
            ∙ ap (last_n max) (append_assoc before (log ∷ []) logs)
            ∙ ap (λ (r : Reply (Unit {0})). last_n max (before ++ if_stored r log logs))
                (sym stored)
        | inr (e, refused) ↦
            let (kept, size) = write_rejected input now s e refused in
            let start : s'.recent ≡ last_n s'.max_query_size before =
              kept ∙ h ∙ ap (λ (n : ℕ). last_n n before) (sym size) in
            write_all-recent rest s' before start
            ∙ ap (λ (n : ℕ). last_n n (before ++ logs)) size
            ∙ ap (λ (r : Reply (Unit {0})). last_n max (before ++ if_stored r log logs))
                (sym refused)
      ]
