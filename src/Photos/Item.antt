-- ===== src/Photos/Item.antt =====
-- The types of apps/web/src/features/photos/uploader.ts that the queue and its uploads share.
use cloud_photo_delivery.Prelude.{ℕ, String, Bool, false, Option, none, some, List, []}
use cloud_photo_delivery.Photos.Schema.{FileDescriptor, UploadKind, upload_kind_for}
use cloud_photo_delivery.Photos.Errors.{UploadError}

pub data UploadItemStatus : Type 0 where
  queued uploading processing ready failed interrupted : UploadItemStatus

-- `Set<number>` is the list of its members in order of insertion, `Map<number, string>` that of its
-- pairs.
pub record UploadItem : Type 0 where
  pub key : String
  pub filename : String
  pub size : ℕ
  pub mime_type : String
  pub status : UploadItemStatus
  pub progress : ℕ
  pub attempts : ℕ
  pub error : Option String
  pub error_code : Option String
  pub photo_id : Option String
  pub upload_kind : Option UploadKind
  pub from_registry : Bool
  pub file : Option FileDescriptor
  pub part_size : Option ℕ
  pub uploaded_parts : List ℕ
  pub part_etags : List (ℕ × String)

-- A settled promise.
pub data Result (A : Type 0) : Type 0 where
  ok : A → Result A
  err : UploadError → Result A

-- The item that `addFiles` puts into the queue for a file.
unfoldable pub new_item : String → FileDescriptor → UploadItem
new_item key file = record {
  key = key;
  filename = file.name;
  size = file.size;
  mime_type = file.type;
  status = queued;
  progress = 0;
  attempts = 0;
  error = none;
  error_code = none;
  photo_id = none;
  upload_kind = some (upload_kind_for file.size);
  from_registry = false;
  file = some file;
  part_size = none;
  uploaded_parts = [];
  part_etags = [];
}
