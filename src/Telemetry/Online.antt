-- ===== src/Telemetry/Online.antt =====
-- withComputedOnlineStatus: what a client is shown of devices that have fallen silent.
use device_ops.Prelude.{
  ℤ, ◌-ℤ◌, ◌≡◌, Bool, true, false, ◌&&◌, All, [], ◌∷◌, map, keep_if, ltb_ℤ, is_positive, arith,
}
use device_ops.Str.{Str}
use device_ops.StdMap.{StdMap}
use device_ops.Paging.{normalize_page, normalize_page_size}
use device_ops.Paging.Laws.{page_slice-All}
use device_ops.Telemetry.{
  DeviceTelemetry, Repository, ListTelemetryFilter, with_computed_online_status, listed,
  matched_realtime, list_realtime,
}

-- The telemetry is older than the offline timeout, where there is one.
abbrev pub is_stale : {D : Type 0} → ℤ → ℤ → DeviceTelemetry D → Bool
is_stale offline_timeout_ms now t =
    is_positive offline_timeout_ms
    && is_positive t.reported_at
    && ltb_ℤ offline_timeout_ms (now -ℤ t.reported_at)

module _ {D : Type 0} (timeout now : ℤ) where
  shown_fresh :
      (t : DeviceTelemetry D)
      → let shown = with_computed_online_status timeout now t in
        (shown.online && is_stale timeout now shown) ≡ false
  unfolding with_computed_online_status
  shown_fresh t = ground arith

  keep_shown :
      (filter : ListTelemetryFilter) (m : StdMap (DeviceTelemetry D))
      → All
          (λ t. (listed filter t ≡ true) × ((t.online && is_stale timeout now t) ≡ false))
          (keep_if (listed filter) (
            map
              (λ (item : Str × DeviceTelemetry D). with_computed_online_status timeout now item.1)
              m))
  keep_shown filter [] = tt
  keep_shown filter ((k, t) ∷ m) = ground (arith, keep_shown filter m, shown_fresh t)

-- Every device on a page of ListRealtimeStatus passes the request's filter by the status that is
-- shown, and none is shown as online whose last report is older than the offline timeout.
pub list_realtime_fresh :
    {D R : Type 0} (filter : ListTelemetryFilter) (now : ℤ) (s : Repository D R)
    → All
        (λ t.
          (listed filter t ≡ true) × ((t.online && is_stale s.offline_timeout_ms now t) ≡ false))
        (list_realtime filter now s).0
unfolding list_realtime matched_realtime
list_realtime_fresh filter now s =
    page_slice-All _ _ (normalize_page filter.page) (normalize_page_size filter.page_size)
      (keep_shown s.offline_timeout_ms now filter s.latest)
