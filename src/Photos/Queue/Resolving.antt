-- ===== src/Photos/Queue/Resolving.antt =====
-- `applyPhotoStatuses`: the loop over the rows against what it makes of each row by itself.
pub mod Statuses
use cloud_photo_delivery.Prelude.{
  ◌⊎◌, ℕ, ◌≡◌, refl, ap, sym, ◌∙◌, Bool, true, false, not, ◌||◌, List, [], ◌∷◌, ◌==◌, if◌then◌else◌,
  arith, any, values, Keyed, str_eq, truthy, Option-cases, Bool-cases, inl, inr,
}
use mathlib.Core.Path.{subst}
use cloud_photo_delivery.Photos.Queue.Resolving.Statuses.{Resolves, resolve_item-Resolves}
use cloud_photo_delivery.Photos.Item.{UploadItem}
use cloud_photo_delivery.Photos.Queue.State.{UploadQueue, write, notify}
use cloud_photo_delivery.Photos.Queue.Actions.{
  PhotoStatus, photo_of, apply_status, is_processing, resolve_item, apply_loop,
  apply_photo_statuses,
}

-- What the list of photos makes of an item.
abbrev pub resolved : List PhotoStatus → UploadItem → UploadItem
resolved photos item = (resolve_item photos item).0

-- An item that is not being processed stays as it is.
resolved_settled :
    (photos : List PhotoStatus) (item : UploadItem)
    → is_processing item.status ≡ false
    → resolved photos item ≡ item
unfolding resolve_item
resolved_settled photos item h = elim (Bool-cases (truthy item.photo_id)) [
  | inl t ↦ rw (resolved, t, h) refl
  | inr t ↦ rw (resolved, t) refl
]

apply_status-settles :
    (photo : PhotoStatus) (item : UploadItem)
    → (is_processing (apply_status photo item).0.status ≡ false)
      ⊎ ((apply_status photo item).0 ≡ item)
unfolding apply_status
apply_status-settles photo item = elim (Bool-cases (str_eq photo.status "READY")) [
  | inl t ↦ rw t (inl refl)
  | inr t ↦ rw t (elim (Bool-cases (str_eq photo.status "FAILED")) [
    | inl u ↦ rw u (inl refl)
    | inr u ↦ rw u (inr refl)
  ])
]

-- An item is settled once it is resolved, or the list has left it as it was.
resolved_cases :
    (photos : List PhotoStatus) (item : UploadItem)
    → (is_processing (resolved photos item).status ≡ false) ⊎ (resolved photos item ≡ item)
unfolding resolve_item
resolved_cases photos item =
    elim (Bool-cases (not (truthy item.photo_id) || not (is_processing item.status))) [
      | inl t ↦ rw (resolved, t) (inr refl)
      | inr t ↦ elim (Option-cases (photo_of item.photo_id photos)) [
        | inl n ↦ rw (resolved, t, n) (inr refl)
        | inr (photo, n) ↦ rw (resolved, t, n) (apply_status-settles photo item)
      ]
    ]

resolved-twice :
    (photos : List PhotoStatus) (item : UploadItem)
    → resolved photos (resolved photos item) ≡ resolved photos item
resolved-twice photos item = elim (resolved_cases photos item) [
  | inl settled ↦ resolved_settled photos (resolved photos item) settled
  | inr same ↦ ap (resolved photos) same
]

-- What a row is in the loop behind one of its rounds.
if-resolved :
    (photos : List PhotoStatus) (t : Bool) (item : UploadItem)
    → (if t then resolved photos (resolved photos item) else resolved photos item)
      ≡ resolved photos item
if-resolved photos true item = resolved-twice photos item
if-resolved photos false item = refl

heap-apply_loop :
    (photos : List PhotoStatus) (rs : List ℕ) (changed : Bool) (q : UploadQueue) (r : ℕ)
    → (apply_loop photos rs changed q).0.heap r
      ≡ (if any (λ k. k == r) rs then resolved photos (q.heap r) else q.heap r)
unfolding apply_loop
heap-apply_loop photos [] changed q r = refl
heap-apply_loop photos (k ∷ rs) changed q r =
    let rest =
      heap-apply_loop photos rs (changed || (resolve_item photos (q.heap k)).1)
        (write k (resolve_item photos (q.heap k)).0 q) r in
    elim (Bool-cases (k == r)) [
      | inl t ↦
          let same : k ≡ r = ground arith in
          ground (
            arith,
            rest,
            if-resolved photos (any (λ j. j == r) rs) (q.heap r),
            ap (λ j. resolved photos (q.heap j)) same,
          )
      | inr t ↦ ground (arith, rest)
    ]

frame-apply_loop :
    (photos : List PhotoStatus) (rs : List ℕ) (changed : Bool) (q : UploadQueue)
    → let q' = (apply_loop photos rs changed q).0 in
      (q'.items ≡ q.items)
      × (q'.active ≡ q.active)
      × (q'.registry ≡ q.registry)
      × (q'.tasks ≡ q.tasks)
unfolding apply_loop
frame-apply_loop photos [] changed q = (refl, refl, refl, refl)
frame-apply_loop photos (k ∷ rs) changed q =
    frame-apply_loop photos rs (changed || (resolve_item photos (q.heap k)).1)
      (write k (resolve_item photos (q.heap k)).0 q)

if-notify :
    (t : Bool) (q : UploadQueue)
    → let q' = if t then notify q else q in
      (q'.heap ≡ q.heap)
      × (q'.items ≡ q.items)
      × (q'.active ≡ q.active)
      × (q'.registry ≡ q.registry)
      × (q'.tasks ≡ q.tasks)
unfolding notify
if-notify true q = (refl, refl, refl, refl, refl)
if-notify false q = (refl, refl, refl, refl, refl)

heap-apply_photo_statuses :
    (photos : List PhotoStatus) (q : UploadQueue) (r : ℕ)
    → (apply_photo_statuses photos q).heap r
      ≡ (if any (λ k. k == r) (values q.items) then resolved photos (q.heap r) else q.heap r)
unfolding apply_photo_statuses
heap-apply_photo_statuses photos q r =
    let x = apply_loop photos (values q.items) false q in
    ap (λ h. h r) (if-notify x.1 x.0).0 ∙ heap-apply_loop photos (values q.items) false q r

frame-apply_photo_statuses :
    (photos : List PhotoStatus) (q : UploadQueue)
    → let q' = apply_photo_statuses photos q in
      (q'.items ≡ q.items)
      × (q'.active ≡ q.active)
      × (q'.registry ≡ q.registry)
      × (q'.tasks ≡ q.tasks)
unfolding apply_photo_statuses
frame-apply_photo_statuses photos q =
    let x = apply_loop photos (values q.items) false q in
    let n = if-notify x.1 x.0 in
    let f = frame-apply_loop photos (values q.items) false q in
    (n.1 ∙ f.0, n.2 ∙ f.1, n.3 ∙ f.2, n.4 ∙ f.3)

settled_row :
    (photos : List PhotoStatus) (t : Bool) (item once again : UploadItem)
    → once ≡ (if t then resolved photos item else item)
    → again ≡ (if t then resolved photos once else once)
    → again ≡ once
settled_row photos true item once again h k =
    k ∙ ap (resolved photos) h ∙ resolved-twice photos item ∙ sym h
settled_row photos false item once again h k = k

-- What becomes of an item that is a row, and of one that is none.
abbrev pub Becomes : Bool → List PhotoStatus → UploadItem → UploadItem → Type 0
Becomes true photos before after = Resolves photos before after
Becomes false photos before after = after ≡ before

Becomes-resolved :
    (t : Bool) (photos : List PhotoStatus) (before after : UploadItem)
    → after ≡ (if t then resolved photos before else before)
    → Becomes t photos before after
Becomes-resolved true photos before after h =
    subst (Resolves photos before) (sym h) (resolve_item-Resolves photos before)
Becomes-resolved false photos before after h = h

-- By the list of photos, every row becomes ready or failed that is processed and has an id that is
-- not empty and is that of a
-- photo of the list, by the first such photo and as soon as that is "READY" or "FAILED", with the
-- photo's message in the second case; every other item stays as it is. A second time the same list
-- changes no item; and the rows, the count of running uploads, the registry and the pending
-- requests stay.
pub apply_photo_statuses_lem :
    (photos : List PhotoStatus) (q : UploadQueue) (r : ℕ)
    → let q' = apply_photo_statuses photos q in
      Becomes (any (λ k. k == r) (values q.items)) photos (q.heap r) (q'.heap r)
      × ((apply_photo_statuses photos q').heap r ≡ q'.heap r)
      × (q'.items ≡ q.items)
      × (q'.active ≡ q.active)
      × (q'.registry ≡ q.registry)
      × (q'.tasks ≡ q.tasks)
apply_photo_statuses_lem photos q r =
    let q' = apply_photo_statuses photos q in
    let once = heap-apply_photo_statuses photos q r in
    let again = heap-apply_photo_statuses photos q' r in
    let frame = frame-apply_photo_statuses photos q in
    (
      Becomes-resolved (any (λ k. k == r) (values q.items)) photos (q.heap r) (q'.heap r) once,
      settled_row photos (any (λ k. k == r) (values q.items)) (q.heap r) (q'.heap r)
          ((apply_photo_statuses photos q').heap r) once
          (again
            ∙ ap
                (λ (items : Keyed ℕ).
                  if any (λ k. k == r) (values items)
                  then resolved photos (q'.heap r)
                  else q'.heap r)
                frame.0),
      frame.0,
      frame.1,
      frame.2,
      frame.3,
    )
