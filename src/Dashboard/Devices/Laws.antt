-- ===== src/Dashboard/Devices/Laws.antt =====
-- Laws of the summary of devices/summary.ts.
use cloud_photo_delivery.Prelude.{
  ℕ, ◌+◌, ◌≤◌, ◌≡◌, refl, String, Bool, not, Option, none, some, List, [], ◌∷◌, filter, length,
  arith, All,
}
use cloud_photo_delivery.Dashboard.Devices.{
  DeviceSummaryInput, LastUpload, is_active, used_at, step_of, Latest, latest_of, summarize_devices,
}

-- A time, behind no time.
abbrev pub rank : Option ℕ → ℕ
rank none = 0
rank (some at) = at + 1

abbrev pub text_of : Option LastUpload → Option String
text_of none = none
text_of (some upload) = some upload.last_used_at

-- The upload that is kept is the one at the time that is kept.
abbrev IsDated : (String → Option ℕ) → Latest → Type 0
IsDated parse l = used_at parse (text_of l.upload) ≡ l.at

module _ (parse : String → Option ℕ) where
  step_of-rank :
      (d : DeviceSummaryInput) (at : Option ℕ) (l : Latest)
      → (rank l.at ≤ rank (step_of d at l).at) × (rank at ≤ rank (step_of d at l).at)
  step_of-rank d none l = (omega arith, omega arith)
  step_of-rank d (some at) l = ground arith

  step_of-IsDated :
      (d : DeviceSummaryInput) (l : Latest)
      → IsDated parse l
      → IsDated parse (step_of d (used_at parse d.last_used_at) l)
  step_of-IsDated d l h = ground (arith, h)

  latest_of-rank :
      (ds : List DeviceSummaryInput) (l : Latest) → rank l.at ≤ rank (latest_of parse ds l).at
  unfolding latest_of
  latest_of-rank [] l = omega arith
  latest_of-rank (d ∷ ds) l =
      let at = used_at parse d.last_used_at in
      omega (arith, latest_of-rank ds (step_of d at l), (step_of-rank d at l).0)

  latest_of-IsDated :
      (ds : List DeviceSummaryInput) (l : Latest)
      → IsDated parse l
      → IsDated parse (latest_of parse ds l)
  unfolding latest_of
  latest_of-IsDated [] l h = h
  latest_of-IsDated (d ∷ ds) l h =
      latest_of-IsDated ds (step_of d (used_at parse d.last_used_at) l) (step_of-IsDated d l h)

  latest_of-All :
      (ds : List DeviceSummaryInput) (l : Latest)
      → All (λ d. rank (used_at parse d.last_used_at) ≤ rank (latest_of parse ds l).at) ds
  unfolding latest_of
  latest_of-All [] l = tt
  latest_of-All (d ∷ ds) l =
      let at = used_at parse d.last_used_at in
      (
        omega (arith, latest_of-rank ds (step_of d at l), (step_of-rank d at l).1),
        latest_of-All ds (step_of d at l),
      )

-- The last upload of the summary is not earlier than that of any device that is not revoked; a text
-- that is missing or no date is behind every date.
pub summarize_devices_latest :
    (parse : String → Option ℕ) (devices : List DeviceSummaryInput)
    → All
        (λ d.
          rank (used_at parse d.last_used_at)
          ≤ rank (used_at parse (text_of (summarize_devices parse devices).last_upload)))
        (filter is_active devices)
unfolding summarize_devices
summarize_devices_latest parse devices =
    let active = filter is_active devices in
    let start : Latest = record { at = none; upload = none } in
    rw (latest_of-IsDated parse active start refl) (latest_of-All parse active start)

length-filter_split :
    (p : DeviceSummaryInput → Bool) (ds : List DeviceSummaryInput)
    → length (filter p ds) + length (filter (λ d. not (p d)) ds) ≡ length ds
length-filter_split p [] = refl
length-filter_split p (d ∷ ds) = ground (arith, length-filter_split p ds)

-- Every device is counted once, as active or as revoked: the second count is that of the devices
-- with a time of revocation.
pub summarize_devices_counts :
    (parse : String → Option ℕ) (devices : List DeviceSummaryInput)
    → ((summarize_devices parse devices).active_count
          + (summarize_devices parse devices).revoked_count
        ≡ length devices)
      × ((summarize_devices parse devices).revoked_count
          ≡ length (filter (λ d. not (is_active d)) devices))
unfolding summarize_devices
summarize_devices_counts parse devices =
    let e = length-filter_split is_active devices in (omega (arith, e), omega (arith, e))
