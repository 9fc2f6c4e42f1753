-- ===== src/Photos/Api/Laws.antt =====
-- A photo that is removed before the server has confirmed it.
use cloud_photo_delivery.Prelude.{
  ◌≡◌, refl, ap, ◌∙◌, String, Bool, false, not, ◌&&◌, Option, none, some, List, [], ◌∷◌, map,
  filter, any, if◌then◌else◌, str_eq, get, arith, eq_iff, All, Option-cases, Bool-cases, inl, inr,
  is_some,
}
use cloud_photo_delivery.Query.{QueryCache}
use cloud_photo_delivery.Photos.Api.{
  Photo, PhotoList, PhotoPages, without_photo, page_without, Snapshots, on_mutate, restore,
  on_error,
}

-- Whether a photo stands in a page, in pages, and in the data of a query.
abbrev pub in_list : String → List PhotoList → Bool
in_list photo_id pages = any (λ page. any (λ photo. str_eq photo.id photo_id) page.items) pages

abbrev pub shows : String → Option PhotoPages → Bool
shows photo_id none = false
shows photo_id (some data_of) = in_list photo_id data_of.pages

any-filter :
    (photo_id : String) (photos : List Photo)
    → any
        (λ photo. str_eq photo.id photo_id)
        (filter (λ photo. not (str_eq photo.id photo_id)) photos)
      ≡ false
any-filter photo_id [] = refl
any-filter photo_id (p ∷ photos) = ground (arith, any-filter photo_id photos)

in_list-page_without :
    (photo_id : String) (pages : List PhotoList)
    → in_list photo_id (map (page_without photo_id) pages) ≡ false
in_list-page_without photo_id [] = refl
in_list-page_without photo_id (p ∷ pages) =
    ground (arith, any-filter photo_id p.items, in_list-page_without photo_id pages)

module _ {Q : Type 0} (cache : QueryCache PhotoPages Q) where
  -- Once a photo is being removed, no list shows it, and only the lists that were there are there.
  pub on_mutate-shows :
      (photo_id key : String) (q : Q)
      → let after = cache.data_at key (on_mutate cache photo_id q).0 in
        (shows photo_id after ≡ false) × (is_some after ≡ is_some (cache.data_at key q))
  unfolding on_mutate without_photo
  on_mutate-shows photo_id key q =
      rw (cache.data_at-update_all (without_photo photo_id) key q)
        (elim (Option-cases (cache.data_at key q)) [
          | inl e ↦ rw e (refl, refl)
          | inr (d, e) ↦ rw e (in_list-page_without photo_id d.pages, refl)
        ])

  data_at-restore :
      (key j : String) (d : Option PhotoPages) (q : Q)
      → cache.data_at j (restore cache key d q)
        ≡ (if str_eq key j && is_some d then d else cache.data_at j q)
  data_at-restore key j none q = ground arith
  data_at-restore key j (some d) q = cache.data_at-set_data key j d q ∙ ground arith

  -- Behind the snapshots, a list is what they hold of it, or what it was.
  data_at-on_error :
      (j : String) (target : String → Option PhotoPages) (snapshots : Snapshots) (q : Q)
      → All (λ x. x.1 ≡ target x.0) snapshots
      → cache.data_at j (on_error cache snapshots q)
        ≡ (if is_some (target j) && is_some (get j snapshots) then target j else cache.data_at j q)
  unfolding on_error get
  data_at-on_error j target [] q h = ground arith
  data_at-on_error j target ((key, d) ∷ snapshots) q h = elim (Bool-cases (str_eq key j)) [
    | inl e ↦
        let same : d ≡ target j = h.0 ∙ ap target (ground (arith, eq_iff key j)) in
        ground (
          arith,
          same,
          data_at-on_error j target snapshots (restore cache key d q) h.1,
          data_at-restore key j d q,
        )
    | inr e ↦ ground (
      arith,
      data_at-on_error j target snapshots (restore cache key d q) h.1,
      data_at-restore key j d q,
    )
  ]

  -- Where the server refuses the removal, and nothing else has changed the lists by then, every list
  -- is again what it was before.
  pub on_error-on_mutate :
      (photo_id key : String) (q : Q)
      → let x = on_mutate cache photo_id q in
        cache.data_at key (on_error cache x.1 x.0) ≡ cache.data_at key q
  unfolding on_mutate
  on_error-on_mutate photo_id key q =
      let restored =
        data_at-on_error key (λ k. cache.data_at k q) (cache.all_data q)
          (cache.update_all (without_photo photo_id) q) (cache.all_data-data_at q) in
      let updated = cache.data_at-update_all (without_photo photo_id) key q in
      elim (Option-cases (cache.data_at key q)) [
        | inl e ↦ ground (arith, restored, updated, e)
        | inr (d, e) ↦ ground (arith, restored, cache.get-all_data key d q e, e)
      ]
