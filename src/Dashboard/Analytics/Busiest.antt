-- ===== src/Dashboard/Analytics/Busiest.antt =====
-- The busiest days of analytics/format.ts: which days are shown, and which are left out.
use mathlib.Core.Path.{subst}
use mathlib.Core.List.{Perm}
use mathlib.Core.List.Perm
use cloud_photo_delivery.Prelude.{
  ℕ, suc, ◌+◌, min, ◌≡◌, refl, sym, ap, ◌∙◌, String, Bool, true, false, not, ◌&&◌, ◌||◌, ◌==◌, List,
  [], ◌∷◌, ◌++◌, filter, take, drop, take-append-drop, length, length-take, ltb, arith, Bool-cases,
  inl, inr,
}
use cloud_photo_delivery.Dashboard.Analytics.{
  AnalyticsDay, is_busy, goes_before, place, sort_days, busiest_days,
}

-- Whether a day has anything to show.
abbrev pub has_traffic : AnalyticsDay → Bool
has_traffic day = ltb 0 (day.gallery_views + day.downloads)

filter-is_busy : (days : List AnalyticsDay) → filter is_busy days ≡ filter has_traffic days
filter-is_busy [] = refl
filter-is_busy (day ∷ days) =
    let one : is_busy day ≡ has_traffic day = ground arith in rw (one, filter-is_busy days) refl

-- Whether day `b` may stand behind day `a`: by its views; by its downloads, with as many views; and
-- by its date, with as many of both.
abbrev pub may_follow : (String → String → Bool) → AnalyticsDay → AnalyticsDay → Bool
may_follow later a b =
    ltb b.gallery_views a.gallery_views
    || (b.gallery_views == a.gallery_views
        && (ltb b.downloads a.downloads
            || (b.downloads == a.downloads && not (later b.date a.date))))

abbrev pub Heads : (String → String → Bool) → AnalyticsDay → List AnalyticsDay → Type 0
Heads later day [] = Unit
Heads later day (d ∷ days) = may_follow later day d ≡ true

-- Each day may stand behind the one before it.
abbrev pub Ranked : (String → String → Bool) → List AnalyticsDay → Type 0
Ranked later [] = Unit
Ranked later (day ∷ days) = Heads later day days × Ranked later days

module _ (later : String → String → Bool) where
  Perm-place :
      (day : AnalyticsDay) (days : List AnalyticsDay) → Perm (place later day days) (day ∷ days)
  unfolding place
  Perm-place day [] = Perm.refl (day ∷ [])
  Perm-place day (d ∷ days) = elim (Bool-cases (goes_before later d day)) [
    | inl first ↦ rw first (Perm.trans (Perm.cons d (Perm-place day days)) (Perm.swap day d days))
    | inr behind ↦ rw behind (Perm.refl (day ∷ d ∷ days))
  ]

  Perm-sort_days : (days : List AnalyticsDay) → Perm (sort_days later days) days
  unfolding sort_days
  Perm-sort_days [] = Perm.refl []
  Perm-sort_days (day ∷ days) =
      Perm.trans (Perm-place day (sort_days later days)) (Perm.cons day (Perm-sort_days days))

  length-place :
      (day : AnalyticsDay) (days : List AnalyticsDay)
      → length (place later day days) ≡ suc (length days)
  unfolding place
  length-place day [] = refl
  length-place day (d ∷ days) = ground (arith, length-place day days)

  length-sort_days : (days : List AnalyticsDay) → length (sort_days later days) ≡ length days
  unfolding sort_days
  length-sort_days [] = refl
  length-sort_days (day ∷ days) =
      length-place day (sort_days later days) ∙ ap suc (length-sort_days days)

  -- A day that does not go before another may follow it.
  not_before : (a b : AnalyticsDay) → goes_before later b a ≡ false → may_follow later a b ≡ true
  not_before a b h = ground (arith, h)

  module _ (one_way : (s t : String) → later s t ≡ true → later t s ≡ false) where
    before : (a b : AnalyticsDay) → goes_before later a b ≡ true → may_follow later a b ≡ true
    before a b h = ground (arith, h, one_way a.date b.date)

    place-Heads :
        (a day : AnalyticsDay) (days : List AnalyticsDay)
        → may_follow later a day ≡ true
        → Heads later a days
        → Heads later a (place later day days)
    unfolding place
    place-Heads a day [] h k = h
    place-Heads a day (d ∷ days) h k = elim (Bool-cases (goes_before later d day)) [
      | inl first ↦ rw first k
      | inr behind ↦ rw behind h
    ]

    place-Ranked :
        (day : AnalyticsDay) (days : List AnalyticsDay)
        → Ranked later days
        → Ranked later (place later day days)
    unfolding place
    place-Ranked day [] k = (tt, tt)
    place-Ranked day (d ∷ days) k = elim (Bool-cases (goes_before later d day)) [
      | inl first ↦
          rw first (place-Heads d day days (before d day first) k.0, place-Ranked day days k.1)
      | inr behind ↦ rw behind (not_before day d behind, k)
    ]

    sort_days-Ranked : (days : List AnalyticsDay) → Ranked later (sort_days later days)
    unfolding sort_days
    sort_days-Ranked [] = tt
    sort_days-Ranked (day ∷ days) = place-Ranked day (sort_days later days) (sort_days-Ranked days)

-- Where no two dates are each later than the other: the days shown, followed by those left out, are
-- the days with views or downloads, each as often as the answer has it, in falling order of their
-- views, by the downloads among as many views, and among as many of both with no later date behind
-- an earlier one; and as many are shown as asked for, or all where there are fewer.
pub busiest_days_lem :
    (later : String → String → Bool) (daily : List AnalyticsDay) (count : ℕ)
    → ((s t : String) → later s t ≡ true → later t s ≡ false)
    → (left_out : List AnalyticsDay) × Perm
        (busiest_days later daily count ++ left_out)
        (filter has_traffic daily)
      × Ranked later (busiest_days later daily count ++ left_out)
      × (length (busiest_days later daily count) ≡ min count (length (filter has_traffic daily)))
unfolding busiest_days
busiest_days_lem later daily count one_way =
    let sorted : List AnalyticsDay = sort_days later (filter is_busy daily) in
    let whole : take count sorted ++ drop count sorted ≡ sorted = take-append-drop count sorted in
    let perm : Perm sorted (filter has_traffic daily) =
      subst (λ days. Perm sorted days) (filter-is_busy daily)
        (Perm-sort_days later (filter is_busy daily)) in
    (
      drop count sorted,
      subst (λ days. Perm days (filter has_traffic daily)) (sym whole) perm,
      subst (Ranked later) (sym whole) (sort_days-Ranked later one_way (filter is_busy daily)),
      length-take count sorted
          ∙ ap (min count)
              (length-sort_days later (filter is_busy daily) ∙ ap length (filter-is_busy daily)),
    )
