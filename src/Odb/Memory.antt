-- ===== src/Odb/Memory.antt =====
-- A session that meets `IsOdb`: the rows in memory, texts compared byte by byte, identities counted
-- up from one, and no call that throws but a persist of a key that is taken.
use device_ops.Prelude.{
  ℕ, suc, ◌≡◌, refl, sym, ap, ◌∙◌, true, Option, none, some, List, [], ◌∷◌, ◌++◌, arith,
  if◌then◌else◌,
}
use device_ops.Str.{Str, lit}
use device_ops.Odb.{Odb, Column, IsOdb}
use device_ops.Odb.Transaction.{Outcome, returned, thrown}

pub record Rows (Row : Type 0) : Type 0 where
  pub rows : List Row
  pub next : ℕ

module _ {Row : Type 0} (c : Column Row) where
  find_row : List Row → Str → Option Row
  find_row [] k = none
  find_row (r ∷ rs) k = if c.same (c.key r) k then some r else find_row rs k

  replace_row : Row → List Row → List Row
  replace_row r [] = []
  replace_row r (x ∷ xs) = if c.same (c.key x) (c.key r) then r ∷ xs else x ∷ replace_row r xs

  unfoldable pub find_in : Rows Row → Str → Option Row
  unfolding find_row
  find_in db k = find_row db.rows k

  persist_row : Row → Rows Row → Outcome (Row × Rows Row)
  persist_row r db = elim (find_row db.rows (c.key r)) [
    | some old ↦ thrown (lit "Duplicate entry")
    | none ↦
        let r' = c.with_ident db.next r in
        returned (r', record { rows = db.rows ++ r' ∷ []; next = suc db.next })
  ]

  unfoldable pub memory : Odb Row (Rows Row)
  unfolding find_row replace_row persist_row
  memory = record {
    begin = λ db. none;
    commit = λ db. none;
    query_one = λ k db. returned (find_row db.rows k);
    query = λ db. returned db.rows;
    persist = λ r db. persist_row r db;
    update = λ r db. returned (record db { rows = replace_row r db.rows });
  }

  module _ (same_refl : (s : Str) → c.same s s ≡ true)
      (same_congr : (s t u : Str) → c.same s t ≡ true → c.same s u ≡ c.same t u)
      (key_kept : (n : ℕ) (r : Row) → c.key (c.with_ident n r) ≡ c.key r)
      (ident_set : (n : ℕ) (r : Row) → c.ident (c.with_ident n r) ≡ n) where
    find_row_key :
        (rs : List Row) (k : Str) (r : Row) → find_row rs k ≡ some r → c.same (c.key r) k ≡ true
    unfolding find_row
    find_row_key [] k r h = cc
    find_row_key (x ∷ rs) k r h = ground (arith, find_row_key rs k r)

    same_turn : (s t u : Str) → c.same s t ≡ true → c.same u s ≡ c.same u t
    same_turn s t u h =
        ground (arith, same_congr u s t, same_congr u t s, same_congr s t s, same_refl s)

    find_row_same : (rs : List Row) (s t : Str) → c.same s t ≡ true → find_row rs s ≡ find_row rs t
    unfolding find_row
    find_row_same [] s t h = refl
    find_row_same (x ∷ rs) s t h = rw (same_turn s t (c.key x) h) (rw (find_row_same rs s t h))

    find_row-append :
        (rs : List Row) (r : Row) (k : Str)
        → find_row rs (c.key r) ≡ none
        → find_row (rs ++ r ∷ []) k ≡ (if c.same (c.key r) k then some r else find_row rs k)
    unfolding find_row
    find_row-append [] r k h = refl
    find_row-append (x ∷ rs) r k h = ground (
      arith,
      find_row-append rs r k,
      same_congr (c.key x) k (c.key r),
      same_congr (c.key r) k (c.key r),
      same_refl (c.key r),
    )

    find_row-replace_row :
        (rs : List Row) (r old : Row) (k : Str)
        → find_row rs (c.key r) ≡ some old
        → find_row (replace_row r rs) k ≡ (if c.same (c.key r) k then some r else find_row rs k)
    unfolding find_row replace_row
    find_row-replace_row [] r old k h = cc
    find_row-replace_row (x ∷ rs) r old k h = ground (
      arith,
      find_row-replace_row rs r old k,
      same_congr (c.key x) (c.key r) k,
      same_congr (c.key x) k (c.key r),
      same_congr (c.key r) k (c.key r),
      same_refl (c.key r),
    )

    persist_row-eq-returned :
        (r r' : Row) (db db' : Rows Row)
        → persist_row r db ≡ returned (r', db')
        → (find_row db.rows (c.key r) ≡ none)
          × (r' ≡ c.with_ident db.next r)
          × (db'.rows ≡ db.rows ++ c.with_ident db.next r ∷ [])
    unfolding persist_row
    persist_row-eq-returned r r' db db' h = ground arith

    persist_row-find :
        (r r' : Row) (db db' : Rows Row) (k : Str)
        → persist_row r db ≡ returned (r', db')
        → find_row db'.rows k ≡ (if c.same (c.key r) k then some r' else find_row db.rows k)
    persist_row-find r r' db db' k h =
        let (absent, is_r', is_rows) = persist_row-eq-returned r r' db db' h in
        let kept : c.key (c.with_ident db.next r) ≡ c.key r = key_kept db.next r in
        let added = find_row-append db.rows (c.with_ident db.next r) k (rw kept absent) in
        rw (is_rows, is_r')
          (added
            ∙ ap
                (λ (s : Str).
                  if c.same s k then some (c.with_ident db.next r) else find_row db.rows k)
                kept)

    pub memory-IsOdb : IsOdb memory c find_in
    unfolding memory find_in
    memory-IsOdb = record {
      same_refl = same_refl;
      same_congr = same_congr;
      find_key = λ db k r h. find_row_key db.rows k r h;
      find_same = λ db s t h. find_row_same db.rows s t h;
      query_one_find = λ k db found h. cc;
      persist_ident = λ r r' db db' h.
          let e : r' ≡ c.with_ident db.next r = (persist_row-eq-returned r r' db db' h).1 in
          e ∙ ap (λ (n : ℕ). c.with_ident n r) (sym (ap c.ident e ∙ ident_set db.next r));
      persist_find = λ r r' db db' k h. persist_row-find r r' db db' k h;
      update_find =
          λ r old db db' k held same_ident h. ground (arith, find_row-replace_row db.rows r old k);
    }
