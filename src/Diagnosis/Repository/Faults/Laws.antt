-- ===== src/Diagnosis/Repository/Faults/Laws.antt =====
-- What the fault operations do to the fault table, by the documented behaviour of the session, and what
-- a listing shows.
use device_ops.Prelude.{
  ℕ, ◌+◌, ◌%◌, ◌^◌, ◌≤◌, ℤ, ◌≡◌, refl, ◌⊎◌, inl, inr, Bool, true, false, not, ◌&&◌, ◌||◌, ◌==◌,
  Option, some, All, List, [], ◌∷◌, length, keep_if, ltb_ℤ, is_positive, if◌then◌else◌, arith,
}
use device_ops.Str.{Str, is_empty, str_eq, str_eq_iff}
use device_ops.Sorting.{Sort, IsSort, InOrder, later_by, later_by-IsOrder}
use device_ops.Sorting.Page.{sorted_page_lem}
use device_ops.Odb.{Odb, Column, IsOdb}
use device_ops.Odb.Calls.{insert_row, all_rows}
use device_ops.Odb.Calls.Laws.{insert_row-accepted}
use device_ops.Odb.Transaction.{accepted}
use device_ops.Diagnosis.{FaultRecordEntity, FaultRecord, CreateFaultRecordRequest, FaultListFilter}
use device_ops.Diagnosis.Status.{fault_status_number}
use device_ops.Diagnosis.Repository.{Diagnosis}
use device_ops.Diagnosis.Repository.Convert.{
  next_fault_id, new_fault, fault_to_proto, matches_fault_filter, in_time_range,
}
use device_ops.Diagnosis.Repository.Faults.{create_fault, list_faults}

abbrev pub fault_column : (Str → Str → Bool) → Column FaultRecordEntity
fault_column same = record {
  key = λ r. r.fault_id;
  ident = λ r. r.id;
  with_ident = λ n r. record r { id = n };
  same = same;
}

module _ {F R : Type 0} (o : Odb FaultRecordEntity F) where
  create_fault-eq-accepted :
      (request : CreateFaultRecordRequest) (now : ℤ) (s s' : Diagnosis F R) (r : FaultRecord)
      → create_fault o request now s ≡ (accepted r, s')
      → (is_empty request.device_id ≡ false)
        × (is_empty request.fault_type ≡ false)
        × (is_empty request.symptom ≡ false)
        × (insert_row o fault_to_proto
              (new_fault request now (next_fault_id now s.fault_sequence))
              s.faults
            ≡ (accepted r, s'.faults))
        × (s'.fault_sequence ≡ (s.fault_sequence + 1) % 2 ^ 64)
        × (s'.reports ≡ s.reports)
        × (s'.report_sequence ≡ s.report_sequence)
  unfolding create_fault
  create_fault-eq-accepted request now s s' r h = ground arith

module _ {F R : Type 0} (o : Odb FaultRecordEntity F) (same : Str → Str → Bool)
    (find : F → Str → Option FaultRecordEntity) (laws : IsOdb o (fault_column same) find) where
  -- An accepted fault had a device, a fault type and a symptom; it is stored, new, under the id made of
  -- the clock and the fault sequence, with the identity that the database chose, and is the reply; the
  -- other keys are as before, the fault sequence is one further, and the reports are as they were.
  pub create_fault_stored :
      (request : CreateFaultRecordRequest) (now : ℤ) (s s' : Diagnosis F R) (r : FaultRecord)
      → create_fault o request now s ≡ (accepted r, s')
      → let fault_id = next_fault_id now s.fault_sequence in
        (is_empty request.device_id ≡ false)
        × (is_empty request.fault_type ≡ false)
        × (is_empty request.symptom ≡ false)
        × (s'.fault_sequence ≡ (s.fault_sequence + 1) % 2 ^ 64)
        × (s'.reports ≡ s.reports)
        × (s'.report_sequence ≡ s.report_sequence)
        × ((id : ℕ) × (r ≡ fault_to_proto (record (new_fault request now fault_id) { id = id }))
            × ((k : Str)
                → find s'.faults k ≡ (
                    if same fault_id k
                    then some (record (new_fault request now fault_id) { id = id })
                    else find s.faults k)))
  unfolding new_fault
  create_fault_stored request now s s' r h =
      let (device, kind, symptom, stored, counted, reports, sequence) =
        create_fault-eq-accepted o request now s s' r h in
      (
        device,
        kind,
        symptom,
        counted,
        reports,
        sequence,
        insert_row-accepted o (fault_column same) find laws fault_to_proto
            (new_fault request now (next_fault_id now s.fault_sequence)) s.faults s'.faults r
            stored,
      )

-- What a listing asks of a fault: each part of the filter is open, or it is met.
abbrev pub IsAsked : FaultListFilter → FaultRecord → Type 0
IsAsked filter fault =
    ((filter.device_id ≡ []) ⊎ (fault.device_id ≡ filter.device_id))
    × ((filter.event_id ≡ []) ⊎ (fault.event_id ≡ filter.event_id))
    × ((fault_status_number filter.status ≡ 0)
        ⊎ (fault_status_number fault.status ≡ fault_status_number filter.status))
    × ((is_positive filter.start_time ≡ false) ⊎ (ltb_ℤ fault.started_at filter.start_time ≡ false))
    × ((is_positive filter.end_time ≡ false) ⊎ (ltb_ℤ filter.end_time fault.started_at ≡ false))

text_asked :
    (asked text : Str)
    → (is_empty asked || str_eq text asked) ≡ true
    → (asked ≡ []) ⊎ (text ≡ asked)
text_asked [] text h = inl refl
text_asked (c ∷ asked) text h = inr ((str_eq_iff text (c ∷ asked)).0 h)

number_asked : (asked n : ℕ) → (asked == 0 || n == asked) ≡ true → (asked ≡ 0) ⊎ (n ≡ asked)
number_asked asked n h = ground arith

bound_asked : (a b : Bool) → not (a && b) ≡ true → (a ≡ false) ⊎ (b ≡ false)
bound_asked true b h = inr (ground arith)
bound_asked false b h = inl refl

and_parts : (a b : Bool) → (a && b) ≡ true → (a ≡ true) × (b ≡ true)
and_parts true b h = (refl, h)
and_parts false b h = cc

matches_fault_filter-IsAsked :
    (filter : FaultListFilter) (fault : FaultRecord)
    → matches_fault_filter filter fault ≡ true
    → IsAsked filter fault
unfolding matches_fault_filter in_time_range
matches_fault_filter-IsAsked filter fault h =
    let device = is_empty filter.device_id || str_eq fault.device_id filter.device_id in
    let event = is_empty filter.event_id || str_eq fault.event_id filter.event_id in
    let status =
      fault_status_number filter.status == 0
      || fault_status_number fault.status == fault_status_number filter.status in
    let after = not (is_positive filter.start_time && ltb_ℤ fault.started_at filter.start_time) in
    let before = not (is_positive filter.end_time && ltb_ℤ filter.end_time fault.started_at) in
    let (texts, times) = and_parts (device && event && status) (after && before) h in
    let (both, f) = and_parts (device && event) status texts in
    let (d, e) = and_parts device event both in
    let (a, b) = and_parts after before times in
    (
      text_asked filter.device_id fault.device_id d,
      text_asked filter.event_id fault.event_id e,
      number_asked (fault_status_number filter.status) (fault_status_number fault.status) f,
      bound_asked (is_positive filter.start_time) (ltb_ℤ fault.started_at filter.start_time) a,
      bound_asked (is_positive filter.end_time) (ltb_ℤ filter.end_time fault.started_at) b,
    )

All-IsAsked :
    (filter : FaultListFilter) (xs : List FaultRecord)
    → All (λ x. matches_fault_filter filter x ≡ true) xs
    → All (IsAsked filter) xs
All-IsAsked filter [] h = tt
All-IsAsked filter (x ∷ xs) h =
    (matches_fault_filter-IsAsked filter x h.0, All-IsAsked filter xs h.1)

-- A page of faults has at most 100, each as the filter asks (its device, its event, its status and the
-- time span of its start, as far as they are given), the latest started first; and the total is the
-- number of faults in the table that match.
pub list_faults_lem :
    {F : Type 0} (o : Odb FaultRecordEntity F) (sort : Sort FaultRecord)
    → IsSort sort
    → (filter : FaultListFilter) (faults : F)
    → let (shown, total) = list_faults o sort filter faults in
      (length shown ≤ 100)
      × All (IsAsked filter) shown
      × InOrder (later_by (λ fault. fault.started_at)) shown
      × (total ≡ length (keep_if (matches_fault_filter filter) (all_rows o fault_to_proto faults)))
unfolding list_faults
list_faults_lem o sort laws filter faults =
    let (short, fits, ordered, counted) =
      sorted_page_lem sort (later_by (λ fault. fault.started_at)) (matches_fault_filter filter) laws
        (later_by-IsOrder (λ fault. fault.started_at)) (all_rows o fault_to_proto faults)
        filter.page filter.page_size in
    (short, All-IsAsked filter _ fits, ordered, counted)
