-- ===== src/Photos/View/Laws.antt =====
-- The rows of the queue and the removal of photos.
use cloud_photo_delivery.Prelude.{
  ◌+◌, ◌≡◌, refl, ap, ◌∙◌, String, Option, none, some, List, [], ◌∷◌, ◌++◌, length, length-append,
  append_nil, append_assoc, arith,
}
use cloud_photo_delivery.Photos.Errors.{UploadError}
use cloud_photo_delivery.Photos.View.{Removal, count_answer, delete_photos}

count_answer_asked : (o : Option UploadError) (r : Removal) → (count_answer o r).asked ≡ r.asked
count_answer_asked none r = refl
count_answer_asked (some e) r = refl

count_answer_counted :
    (o : Option UploadError) (r : Removal)
    → (count_answer o r).deleted + length (count_answer o r).failures
      ≡ r.deleted + length r.failures + 1
count_answer_counted none r = omega arith
count_answer_counted (some e) r = omega (arith, length-append r.failures (e ∷ []))

delete_photos_asked :
    (answer_to : String → Option UploadError) (targets : List String) (r : Removal)
    → (delete_photos answer_to targets r).asked ≡ r.asked ++ targets
unfolding delete_photos
delete_photos_asked answer_to [] r = rw (append_nil r.asked) refl
delete_photos_asked answer_to (p ∷ targets) r =
    let asking : Removal = record r { asked = r.asked ++ p ∷ [] } in
    delete_photos_asked answer_to targets (count_answer (answer_to p) asking)
    ∙ ap (λ asked. asked ++ targets) (count_answer_asked (answer_to p) asking)
    ∙ append_assoc r.asked (p ∷ []) targets

delete_photos_counted :
    (answer_to : String → Option UploadError) (targets : List String) (r : Removal)
    → let r' = delete_photos answer_to targets r in
      r'.deleted + length r'.failures ≡ r.deleted + length r.failures + length targets
unfolding delete_photos
delete_photos_counted answer_to [] r = omega arith
delete_photos_counted answer_to (p ∷ targets) r =
    let asking : Removal = record r { asked = r.asked ++ p ∷ [] } in
    omega (
      arith,
      delete_photos_counted answer_to targets (count_answer (answer_to p) asking),
      count_answer_counted (answer_to p) asking,
    )

abbrev pub no_removal : Removal
no_removal = record { asked = []; deleted = 0; failures = [] }

-- Whatever the server answers, each photo that was chosen is asked for once, in order, a failure
-- does not keep the photos behind it, and every one of them is counted as deleted or as failed.
pub delete_photos_lem :
    (answer_to : String → Option UploadError) (targets : List String)
    → let r = delete_photos answer_to targets no_removal in
      (r.asked ≡ targets) × (r.deleted + length r.failures ≡ length targets)
delete_photos_lem answer_to targets = (
  delete_photos_asked answer_to targets no_removal,
  omega (arith, delete_photos_counted answer_to targets no_removal),
)
