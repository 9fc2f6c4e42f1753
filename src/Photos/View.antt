-- ===== src/Photos/View.antt =====
-- What the page of an event's photos does and shows: apps/web/src/features/photos/upload-queue.tsx,
-- for the rows of the queue, and photos-panel.tsx, for the removal of photos.
pub mod Laws
use Prim.Native.String
use cloud_photo_delivery.Prelude.{
  ℕ, ◌+◌, String, Bool, true, false, not, ◌&&◌, ◌||◌, Option, none, some, List, [], ◌∷◌, ◌++◌,
  length, filter, if◌then◌else◌, ◌==◌, ltb, is_some, show, round_percent,
}
use cloud_photo_delivery.Photos.Item.{
  UploadItem, UploadItemStatus, queued, uploading, processing, ready, failed, interrupted,
}
use cloud_photo_delivery.Photos.Errors.{UploadError, photo_error_message}

pub data RowTone : Type 0 where
  default_tone success danger : RowTone

pub record RowMeta : Type 0 where
  pub text : String
  pub tone : RowTone

abbrev meta_of : UploadItemStatus → ℕ → RowMeta
meta_of queued progress = record { text = "Waiting"; tone = default_tone }
meta_of uploading progress = record { text = String.◌++◌ (show progress) "%"; tone = default_tone }
meta_of processing progress = record { text = "Processing"; tone = success }
meta_of ready progress = record { text = "Done"; tone = success }
meta_of interrupted progress = record { text = "Interrupted"; tone = danger }
meta_of failed progress = record { text = "Failed"; tone = danger }

unfoldable pub row_meta : UploadItem → RowMeta
row_meta item = meta_of item.status item.progress

abbrev pub active_status : UploadItemStatus → Bool
active_status queued = true
active_status uploading = true
active_status processing = true
active_status _ = false

unfoldable pub is_active : UploadItem → Bool
is_active item = active_status item.status

abbrev progress_at : UploadItemStatus → ℕ → ℕ
progress_at ready progress = 100
progress_at processing progress = 100
progress_at queued progress = 0
progress_at _ progress = progress

-- The progress of a row, and the buttons that it has.
unfoldable pub row_progress : UploadItem → ℕ
row_progress item = progress_at item.status item.progress

pub record RowButtons : Type 0 where
  pub retry : Bool
  pub cancel : Bool
  pub remove : Bool

abbrev is_failed : UploadItemStatus → Bool
is_failed failed = true
is_failed _ = false

abbrev is_interrupted : UploadItemStatus → Bool
is_interrupted interrupted = true
is_interrupted _ = false

unfoldable pub row_buttons : UploadItem → RowButtons
row_buttons item = record {
  retry = is_failed item.status && is_some item.file;
  cancel = is_active item;
  remove = is_failed item.status || is_interrupted item.status;
}

abbrev is_ready : UploadItemStatus → Bool
is_ready ready = true
is_ready _ = false

pub record BatchProgress : Type 0 where
  pub total : ℕ
  pub ready : ℕ
  pub percent : ℕ

abbrev ready_count : List UploadItem → ℕ
ready_count items = length (filter (λ item. is_ready item.status) items)

unfoldable pub batch_progress : List UploadItem → BatchProgress
batch_progress items =
    if length items == 0 then record { total = 0; ready = 0; percent = 0 } else record {
      total = length items;
      ready = ready_count items;
      percent = round_percent (ready_count items) (length items);
    }

-- `handleConfirmDelete`: each target is asked for in turn, and an answer is an error or none.
pub record Removal : Type 0 where
  pub asked : List String
  pub deleted : ℕ
  pub failures : List UploadError

abbrev pub count_answer : Option UploadError → Removal → Removal
count_answer none r = record r { deleted = r.deleted + 1 }
count_answer (some e) r = record r { failures = r.failures ++ e ∷ [] }

unfoldable pub delete_photos : (String → Option UploadError) → List String → Removal → Removal
delete_photos answer_to [] r = r
delete_photos answer_to (photo_id ∷ targets) r =
    delete_photos answer_to targets
      (count_answer (answer_to photo_id) (record r { asked = r.asked ++ photo_id ∷ [] }))

abbrev several : ℕ → String → String
several n text = String.◌++◌ (show n) text

abbrev deleted_message : ℕ → Option String
deleted_message deleted =
    if deleted == 0
    then none
    else some (if deleted == 1 then "Photo deleted" else several deleted " photos deleted")

abbrev failed_message : List UploadError → Option String
failed_message [] = none
failed_message (e ∷ []) = some (photo_error_message e)
failed_message (e ∷ e' ∷ es) =
    some (several (length (e ∷ e' ∷ es)) " photos could not be deleted. Please try again.")

-- What the user reads: of success and of failure.
unfoldable pub removal_messages : Removal → Option String × Option String
removal_messages r = (deleted_message r.deleted, failed_message r.failures)
