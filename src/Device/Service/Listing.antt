-- ===== src/Device/Service/Listing.antt =====
-- What one call of ListDevices shows (services/device_service/src/device_service_impl.cc). The rows
-- stand in the order in which the database gave them to that call: the query asks for none.
use device_ops.Prelude.{
  ℕ, ◌-◌, ◌*◌, ◌^◌, ◌<◌, ◌≤◌, pos, ◌≡◌, refl, ap, ◌∙◌, ◌⊎◌, inl, inr, Bool, Bool-cases, true, false,
  ◌&&◌, ◌||◌, ◌==◌, List, [], ◌∷◌, map, keep_if, length, take, drop, All, arith,
}
use device_ops.Str.{Str, is_empty, str_eq, str_eq_iff, finds}
use device_ops.Paging.{page_or_default, page_size_or_default, page_slice}
use device_ops.Paging.Laws.{
  normalize_page-page_or_default, normalize_page_size-page_size_or_default,
  normalize_page_size_bounds, page_slice_window, length-page_slice, page_slice-All,
}
use device_ops.Odb.{Odb}
use device_ops.Odb.Calls.{all_rows}
use device_ops.Odb.Transaction.{Outcome-cases, reads, transaction}
use device_ops.Device.{
  DeviceEntity, Device, DeviceRecord, DeviceStatus, unspecified, enabled, disabled, maintenance,
  unrecognized, status_eq, to_record,
}
use device_ops.Device.Repository.{list, matched, passes, contains}
use device_ops.Device.Service.{ListDevicesRequest, list_devices, list_filter}

-- What a listing asks of a device: its type and its status, as far as they are given, and that the
-- keyword, if there is one, stands in its id, its name, its model or its location.
abbrev pub IsAsked : ListDevicesRequest → Device → Type 0
IsAsked request device =
    ((request.device_type ≡ []) ⊎ (device.device_type ≡ request.device_type))
    × ((request.status ≡ unspecified) ⊎ (device.status ≡ request.status))
    × ((request.keyword ≡ [])
        ⊎ (finds device.device_id request.keyword ≡ true)
        ⊎ (finds device.device_name request.keyword ≡ true)
        ⊎ (finds device.model request.keyword ≡ true)
        ⊎ (finds device.location request.keyword ≡ true))

status_eq-true : (s t : DeviceStatus) → status_eq s t ≡ true → s ≡ t
unfolding status_eq
status_eq-true unspecified unspecified h = refl
status_eq-true unspecified enabled h = cc
status_eq-true unspecified disabled h = cc
status_eq-true unspecified maintenance h = cc
status_eq-true unspecified (unrecognized n) h = cc
status_eq-true enabled unspecified h = cc
status_eq-true enabled enabled h = refl
status_eq-true enabled disabled h = cc
status_eq-true enabled maintenance h = cc
status_eq-true enabled (unrecognized n) h = cc
status_eq-true disabled unspecified h = cc
status_eq-true disabled enabled h = cc
status_eq-true disabled disabled h = refl
status_eq-true disabled maintenance h = cc
status_eq-true disabled (unrecognized n) h = cc
status_eq-true maintenance unspecified h = cc
status_eq-true maintenance enabled h = cc
status_eq-true maintenance disabled h = cc
status_eq-true maintenance maintenance h = refl
status_eq-true maintenance (unrecognized n) h = cc
status_eq-true (unrecognized m) unspecified h = cc
status_eq-true (unrecognized m) enabled h = cc
status_eq-true (unrecognized m) disabled h = cc
status_eq-true (unrecognized m) maintenance h = cc
status_eq-true (unrecognized m) (unrecognized n) h = ap unrecognized (same m n h)
  where
    same : (m n : ℕ) → (m == n) ≡ true → m ≡ n
    same m n h = ground arith

type_asked :
    (given text : Str)
    → (is_empty given || str_eq text given) ≡ true
    → (given ≡ []) ⊎ (text ≡ given)
type_asked [] text h = inl refl
type_asked (c ∷ given) text h = inr ((str_eq_iff text (c ∷ given)).0 h)

status_asked :
    (given status : DeviceStatus)
    → (status_eq given unspecified || status_eq status given) ≡ true
    → (given ≡ unspecified) ⊎ (status ≡ given)
status_asked given status h = elim (Bool-cases (status_eq given unspecified)) [
  | inl open_to ↦ inl (status_eq-true given unspecified open_to)
  | inr closed ↦ inr (status_eq-true status given (ground (arith, closed)))
]

keyword_asked :
    (given : Str) (a b c d : Str)
    → (is_empty given
        || contains a given
        || contains b given
        || contains c given
        || contains d given)
      ≡ true
    → (given ≡ [])
      ⊎ (finds a given ≡ true)
      ⊎ (finds b given ≡ true)
      ⊎ (finds c given ≡ true)
      ⊎ (finds d given ≡ true)
unfolding contains
keyword_asked [] a b c d h = inl refl
keyword_asked (x ∷ given) a b c d h =
    inr (
      pick (finds a (x ∷ given)) (finds b (x ∷ given)) (finds c (x ∷ given)) (finds d (x ∷ given))
        h)
  where
    pick :
        (p q r s : Bool)
        → (p || q || r || s) ≡ true
        → (p ≡ true) ⊎ (q ≡ true) ⊎ (r ≡ true) ⊎ (s ≡ true)
    pick true q r s h = inl refl
    pick false true r s h = inr (inl refl)
    pick false false true s h = inr (inr (inl refl))
    pick false false false s h = inr (inr (inr h))

and_parts : (a b : Bool) → (a && b) ≡ true → (a ≡ true) × (b ≡ true)
and_parts true b h = (refl, h)
and_parts false b h = cc

passes-IsAsked :
    (request : ListDevicesRequest) (device : Device)
    → passes (list_filter request) device ≡ true
    → IsAsked request device
unfolding passes list_filter
passes-IsAsked request device h =
    let kind = is_empty request.device_type || str_eq device.device_type request.device_type in
    let state = status_eq request.status unspecified || status_eq device.status request.status in
    let word =
      is_empty request.keyword
      || contains device.device_id request.keyword
      || contains device.device_name request.keyword
      || contains device.model request.keyword
      || contains device.location request.keyword in
    let (both, w) = and_parts (kind && state) word h in
    let (k, s) = and_parts kind state both in
    (
      type_asked request.device_type device.device_type k,
      status_asked request.status device.status s,
      keyword_asked request.keyword device.device_id device.device_name device.model device.location
          w,
    )

keep_if-IsAsked :
    (request : ListDevicesRequest) (rows : List DeviceRecord)
    → All
        (λ r. IsAsked request r.device)
        (keep_if (λ r. passes (list_filter request) r.device) rows)
keep_if-IsAsked request [] = tt
keep_if-IsAsked request (r ∷ rows) = elim (Bool-cases (passes (list_filter request) r.device)) [
  | inl h ↦ rw h (passes-IsAsked request r.device h, keep_if-IsAsked request rows)
  | inr h ↦ rw h (keep_if-IsAsked request rows)
]

All-devices :
    (request : ListDevicesRequest) (rows : List DeviceRecord)
    → All (λ r. IsAsked request r.device) rows
    → All (IsAsked request) (map (λ (r : DeviceRecord). r.device) rows)
All-devices request [] h = tt
All-devices request (r ∷ rows) h = (h.0, All-devices request rows h.1)

length-devices :
    (rows : List DeviceRecord) → length (map (λ (r : DeviceRecord). r.device) rows) ≡ length rows
length-devices [] = refl
length-devices (r ∷ rows) = ground (arith, length-devices rows)

module _ {DB : Type 0} (o : Odb DeviceEntity DB) (request : ListDevicesRequest) (db : DB) where
  -- The devices that match, of the rows that the database gives.
  abbrev pub asked_rows : List DeviceRecord
  asked_rows = keep_if (λ r. passes (list_filter request) r.device) (all_rows o to_record db)

  matched_rows : matched o (list_filter request) db ≡ asked_rows
  unfolding matched all_rows
  matched_rows = elim (Outcome-cases (transaction o.begin o.commit (reads o.query) db)) [
    | inl (e, failed) ↦ ground (arith, failed)
    | inr ((rows, after), found) ↦ ground (arith, found)
  ]

  shown_page :
      (list_devices o request db).devices
      ≡ map
          (λ r. r.device)
          (page_slice asked_rows
            (page_or_default request.page.page)
            (page_size_or_default request.page.page_size))
  unfolding list_devices list list_filter
  shown_page =
      rw
        (
          normalize_page-page_or_default request.page.page,
          normalize_page_size-page_size_or_default request.page.page_size,
          matched_rows,
        )
        refl

  -- While the number of rows before the page is an `int`, an answer of ListDevices has the window of
  -- the matching devices that the page number and the page size say, in the order in which the database
  -- gave the rows to this call. It has at most 100 devices, each with the type, the status and the
  -- keyword that the request asks for, and the total is the number of devices that match.
  pub list_devices_lem :
      (page_or_default request.page.page - 1) * page_size_or_default request.page.page_size < 2 ^ 31
      → let page = page_or_default request.page.page in
        let size = page_size_or_default request.page.page_size in
        let answer = list_devices o request db in
        (answer.devices ≡ map (λ r. r.device) (take size (drop ((page - 1) * size) asked_rows)))
        × (length answer.devices ≤ 100)
        × All (IsAsked request) answer.devices
        × (answer.page.total ≡ length asked_rows)
  unfolding list_devices list
  list_devices_lem h =
      let page = page_or_default request.page.page in
      let size = page_size_or_default request.page.page_size in
      let slice = page_slice asked_rows page size in
      (
        shown_page
            ∙ ap (map (λ (r : DeviceRecord). r.device)) (page_slice_window asked_rows page size h),
        rw shown_page (
            omega (
              arith,
              length-devices slice,
              length-page_slice asked_rows page size,
              (normalize_page_size_bounds (pos size)).1,
              normalize_page_size-page_size_or_default request.page.page_size,
            )),
        rw shown_page (
            All-devices request slice (
              page_slice-All (λ r. IsAsked request r.device) asked_rows page size
                (keep_if-IsAsked request (all_rows o to_record db)))),
        ap length matched_rows,
      )
