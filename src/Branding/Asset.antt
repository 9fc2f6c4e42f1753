-- ===== src/Branding/Asset.antt =====
-- apps/web/src/features/branding/asset-upload.tsx: the upload of an image, in one or two attempts. An
-- attempt is what its presigned request and its `put` settle with.
pub mod Laws
use cloud_photo_delivery.Prelude.{
  ℕ, zero, suc, ◌+◌, String, Bool, true, false, ◌||◌, Option, none, some, List, [], ◌∷◌, ◌==◌,
  if◌then◌else◌, ltb, min, round_percent,
}
use cloud_photo_delivery.Branding.{BrandingAssetFile, validate_branding_asset}

-- An `ApiError`, an `UploadTransportError` with its status, or another one.
pub data AssetError : Type 0 where
  api_error other_error : AssetError
  transport_error : (status : ℕ) → AssetError

unfoldable pub is_expired_url_error : AssetError → Bool
is_expired_url_error (transport_error status) = status == 400 || status == 403
is_expired_url_error _ = false

pub data Attempt : Type 0 where
  not_presigned : AssetError → Attempt
  not_put : (storage_key : String) → AssetError → Attempt
  stored : (storage_key : String) → Attempt

pub data Upload : Type 0 where
  uploaded : (storage_key : String) → Upload
  upload_failed : AssetError → Upload

abbrev pub result_of : Attempt → Upload
result_of (not_presigned e) = upload_failed e
result_of (not_put storage_key e) = upload_failed e
result_of (stored storage_key) = uploaded storage_key

-- `uploadBrandingAsset`, with the number of its attempts: the second one is made only behind an
-- error of the first that is that of an expired URL.
abbrev after_first : Attempt → Upload → Upload × ℕ
after_first second (uploaded storage_key) = (uploaded storage_key, 1)
after_first second (upload_failed e) =
    if is_expired_url_error e then (result_of second, 2) else (upload_failed e, 1)

unfoldable pub upload_branding_asset : Attempt → Attempt → Upload × ℕ
upload_branding_asset first second = after_first second (result_of first)

-- `onProgress`
unfoldable pub percent_of : ℕ → ℕ → ℕ
percent_of loaded total = if ltb 0 total then min 100 (round_percent loaded total) else 0

unfoldable pub upload_error_message : AssetError → String
upload_error_message api_error = "The upload could not be started. Please try again."
upload_error_message (transport_error status) =
    "The upload failed. Check your connection and try again."
upload_error_message other_error = "The upload failed. Please try again."

-- The state of the field, and the images that were handed to `onUploaded`.
pub record Field : Type 0 where
  pub progress : ℕ
  pub uploading : Bool
  pub error : Option String
  pub last_file : Option BrandingAssetFile
  pub handed : List (String × BrandingAssetFile)

abbrev begin_with : BrandingAssetFile → Option String → Field → Field
begin_with file (some reason) f = record f { error = some reason }
begin_with file none f = record f {
  last_file = some file;
  error = none;
  progress = 0;
  uploading = true;
}

-- `upload` up to its `await`, and behind it.
unfoldable pub begin_upload : BrandingAssetFile → Field → Field
begin_upload file f = begin_with file (validate_branding_asset file) f

abbrev settle : BrandingAssetFile → Upload → Field → Field
settle file (uploaded storage_key) f = record f {
  handed = (storage_key, file) ∷ f.handed;
  uploading = false;
}
settle file (upload_failed e) f = record f {
  error = some (upload_error_message e);
  uploading = false;
}

unfoldable pub after_upload : BrandingAssetFile → Upload → Field → Field
after_upload file upload f = settle file upload f
