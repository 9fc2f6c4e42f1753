-- ===== src/Photos/Queue/Resolving/Statuses.antt =====
-- What `applyPhotoStatuses` means for one item, by the first photo of the list with the item's id.
use cloud_photo_delivery.Prelude.{
  ◌≡◌, ◌≢◌, refl, ap, ◌∙◌, true, false, not, ◌||◌, String, Option, none, some, List, [], ◌∷◌, ◌++◌,
  arith, find, str_eq, eq_iff, truthy, or_default, Option-cases, Bool-cases, inl, inr, All,
}
use cloud_photo_delivery.Photos.Item.{UploadItem, UploadItemStatus, processing, ready, failed}
use cloud_photo_delivery.Photos.Queue.Actions.{
  PhotoStatus, photo_of, apply_status, is_processing, resolve_item,
}

abbrev pub IsOther : String → PhotoStatus → Type 0
IsOther id photo = photo.id ≢ id

-- The first photo of a list with an id.
pub record IsFirst (id : String) (photos : List PhotoStatus) (photo : PhotoStatus) : Type 0 where
  pub before : List PhotoStatus
  pub behind : List PhotoStatus
  pub place : photos ≡ before ++ photo ∷ behind
  pub others : All (IsOther id) before
  pub own : photo.id ≡ id

-- What becomes of an item: only one that is processed and has the id of a photo of the list changes,
-- and only when that photo is ready or has failed.
pub data Resolves (photos : List PhotoStatus) (item : UploadItem) : UploadItem → Type 0 where
  not_processed : item.status ≢ processing → Resolves photos item item
  not_named : truthy item.photo_id ≡ false → Resolves photos item item
  not_listed :
      {id : String} → item.photo_id ≡ some id → All (IsOther id) photos → Resolves photos item item
  not_finished :
      {id : String} {photo : PhotoStatus}
      → item.photo_id ≡ some id
      → IsFirst id photos photo
      → photo.status ≢ "READY"
      → photo.status ≢ "FAILED"
      → Resolves photos item item
  is_ready :
      {id : String} {photo : PhotoStatus}
      → item.status ≡ processing
      → item.photo_id ≡ some id
      → id ≢ ""
      → IsFirst id photos photo
      → photo.status ≡ "READY"
      → Resolves photos item (record item { status = ready; error = none })
  has_failed :
      {id : String} {photo : PhotoStatus}
      → item.status ≡ processing
      → item.photo_id ≡ some id
      → id ≢ ""
      → IsFirst id photos photo
      → photo.status ≡ "FAILED"
      → Resolves photos item (record item {
        status = failed;
        error = some (or_default photo.error_message "Processing failed.");
      })

differs : (a b : String) → str_eq a b ≡ false → a ≢ b
differs a b h p = ground (arith, eq_iff a b, p, h)

same : (a b : String) → str_eq a b ≡ true → a ≡ b
same a b h = (eq_iff a b).0 h

find-All :
    (id : String) (photos : List PhotoStatus)
    → find (λ p. str_eq p.id id) photos ≡ none
    → All (IsOther id) photos
find-All id [] h = tt
find-All id (p ∷ photos) h = elim (Bool-cases (str_eq p.id id)) [
  | inl t ↦ ground (arith, h, t)
  | inr t ↦ (differs p.id id t, find-All id photos (ground (arith, h, t)))
]

find-IsFirst :
    (id : String) (photos : List PhotoStatus) (photo : PhotoStatus)
    → find (λ p. str_eq p.id id) photos ≡ some photo
    → IsFirst id photos photo
find-IsFirst id [] photo h = ground (arith, h)
find-IsFirst id (p ∷ photos) photo h = elim (Bool-cases (str_eq p.id id)) [
  | inl t ↦
      let found : p ≡ photo = ground (arith, h, t) in
      record {
        before = [];
        behind = photos;
        place = ap (λ x. x ∷ photos) found;
        others = tt;
        own = ground (arith, same p.id id t, ap (λ (x : PhotoStatus). x.id) found);
      }
  | inr t ↦
      let rest = find-IsFirst id photos photo (ground (arith, h, t)) in
      record {
        before = p ∷ rest.before;
        behind = rest.behind;
        place = ap (λ x. p ∷ x) rest.place;
        others = (differs p.id id t, rest.others);
        own = rest.own;
      }
]

is_processing-cases : (s : UploadItemStatus) → is_processing s ≡ true → s ≡ processing
is_processing-cases processing h = refl
is_processing-cases UploadItemStatus.queued h = cc
is_processing-cases UploadItemStatus.uploading h = cc
is_processing-cases ready h = cc
is_processing-cases failed h = cc
is_processing-cases UploadItemStatus.interrupted h = cc

apply_status-Resolves :
    (photos : List PhotoStatus) (item : UploadItem) (id : String) (photo : PhotoStatus)
    → item.status ≡ processing
    → item.photo_id ≡ some id
    → id ≢ ""
    → IsFirst id photos photo
    → Resolves photos item (apply_status photo item).0
unfolding apply_status
apply_status-Resolves photos item id photo busy named full first =
    elim (Bool-cases (str_eq photo.status "READY")) [
      | inl t ↦ rw t (is_ready busy named full first (same photo.status "READY" t))
      | inr t ↦ elim (Bool-cases (str_eq photo.status "FAILED")) [
        | inl u ↦ rw (t, u) (has_failed busy named full first (same photo.status "FAILED" u))
        | inr u ↦
            rw (t, u)
              (not_finished named first (differs photo.status "READY" t)
                (differs photo.status "FAILED" u))
      ]
    ]

resolve_found :
    (photos : List PhotoStatus) (item : UploadItem) (id : String)
    → item.status ≡ processing
    → item.photo_id ≡ some id
    → id ≢ ""
    → Resolves photos item (resolve_item photos item).0
unfolding resolve_item
resolve_found photos item id busy named full =
    let passes : not (truthy item.photo_id) || not (is_processing item.status) ≡ false =
      rw (busy, named) (ground (arith, eq_iff id "", full)) in
    let list = ap (λ o. photo_of o photos) named in
    elim (Option-cases (photo_of (some id) photos)) [
      | inl e ↦ rw (resolve_item, passes, list ∙ e) (not_listed named (find-All id photos e))
      | inr (photo, e) ↦
          rw (resolve_item, passes, list ∙ e)
            (apply_status-Resolves photos item id photo busy named full
              (find-IsFirst id photos photo e))
    ]

truthy-named : (o : Option String) → truthy o ≡ true → (id : String) × (o ≡ some id) × (id ≢ "")
truthy-named none h = cc
truthy-named (some id) h = (id, refl, λ p. ground (arith, eq_iff id "", p, h))

pub resolve_item-Resolves :
    (photos : List PhotoStatus) (item : UploadItem)
    → Resolves photos item (resolve_item photos item).0
unfolding resolve_item
resolve_item-Resolves photos item = elim (Bool-cases (truthy item.photo_id)) [
  | inl t ↦ elim (Bool-cases (is_processing item.status)) [
    | inl u ↦
        let (id, named, full) = truthy-named item.photo_id t in
        resolve_found photos item id (is_processing-cases item.status u) named full
    | inr u ↦ rw (resolve_item, t, u) (not_processed (λ p. ground (arith, ap is_processing p, u)))
  ]
  | inr t ↦ rw (resolve_item, t) (not_named t)
]
