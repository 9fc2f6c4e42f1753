-- ===== src/Branding/Asset/Laws.antt =====
-- The attempts of an upload.
use mathlib.Core.Path.{subst}
use cloud_photo_delivery.Prelude.{
  ℕ, ◌≡◌, ◌≢◌, ◌⊎◌, refl, ap, String, true, false, ◌==◌, if◌then◌else◌, arith, Bool-cases, inl, inr,
}
use cloud_photo_delivery.Branding.Asset.{
  AssetError, api_error, other_error, transport_error, is_expired_url_error, Attempt, not_presigned,
  not_put, stored, Upload, uploaded, upload_failed, upload_branding_asset, result_of,
}

-- An attempt is rejected with an error, by the presigned request or by the `put`.
pub data Rejects : Attempt → AssetError → Type 0 where
  in_request : {e : AssetError} → Rejects (not_presigned e) e
  in_put : {key : String} {e : AssetError} → Rejects (not_put key e) e

-- An attempt is rejected as storage rejects an expired URL: by the transport, with the status 400 or
-- 403.
abbrev pub Expires : Attempt → Type 0
Expires attempt = Rejects attempt (transport_error 400) ⊎ Rejects attempt (transport_error 403)

-- How an upload ends by its attempts, and how many of them it makes.
pub data Ends (first second : Attempt) : Upload × ℕ → Type 0 where
  stored_first : {key : String} → first ≡ stored key → Ends first second (uploaded key, 1)
  rejected_first :
      {e : AssetError}
      → Rejects first e
      → e ≢ transport_error 400
      → e ≢ transport_error 403
      → Ends first second (upload_failed e, 1)
  stored_second :
      {key : String} → Expires first → second ≡ stored key → Ends first second (uploaded key, 2)
  rejected_second :
      {e : AssetError} → Expires first → Rejects second e → Ends first second (upload_failed e, 2)

abbrev status_of : AssetError → ℕ
status_of (transport_error status) = status
status_of api_error = 0
status_of other_error = 0

is_expired_url_error-statuses :
    (e : AssetError)
    → is_expired_url_error e ≡ true
    → (e ≡ transport_error 400) ⊎ (e ≡ transport_error 403)
unfolding is_expired_url_error
is_expired_url_error-statuses api_error h = cc
is_expired_url_error-statuses other_error h = cc
is_expired_url_error-statuses (transport_error status) h = elim (Bool-cases (status == 400)) [
  | inl t ↦ inl (ap transport_error (ground arith))
  | inr t ↦ inr (ap transport_error (ground arith))
]

is_expired_url_error-others :
    (e : AssetError)
    → is_expired_url_error e ≡ false
    → (e ≢ transport_error 400) × (e ≢ transport_error 403)
unfolding is_expired_url_error
is_expired_url_error-others api_error h = (λ p. cc, λ p. cc)
is_expired_url_error-others other_error h = (λ p. cc, λ p. cc)
is_expired_url_error-others (transport_error status) h = (
  λ p. let s : status ≡ 400 = ap status_of p in ground arith,
  λ p. let s : status ≡ 403 = ap status_of p in ground arith,
)

Expires-of :
    (first : Attempt) (e : AssetError)
    → Rejects first e
    → (e ≡ transport_error 400) ⊎ (e ≡ transport_error 403)
    → Expires first
Expires-of first e r (inl p) = inl (subst (Rejects first) p r)
Expires-of first e r (inr p) = inr (subst (Rejects first) p r)

Ends-second : (first second : Attempt) → Expires first → Ends first second (result_of second, 2)
Ends-second first (not_presigned e) x = rejected_second x in_request
Ends-second first (not_put key e) x = rejected_second x in_put
Ends-second first (stored key) x = stored_second x refl

Ends-rejected :
    (first second : Attempt) (e : AssetError)
    → Rejects first e
    → Ends first second
        (if is_expired_url_error e then (result_of second, 2) else (upload_failed e, 1))
Ends-rejected first second e r = elim (Bool-cases (is_expired_url_error e)) [
  | inl t ↦
      rw t (Ends-second first second (Expires-of first e r (is_expired_url_error-statuses e t)))
  | inr t ↦ let other = is_expired_url_error-others e t in rw t (rejected_first r other.0 other.1)
]

-- Whatever its attempts settle with: an upload whose first attempt stores the image ends well with
-- its key; one whose first attempt is rejected by the transport with the status 400 or 403 makes a
-- second attempt and ends as that does, with its key or its error; and one whose first attempt is rejected
-- with any other error ends with that error and makes no second attempt.
pub upload_branding_asset_lem :
    (first second : Attempt) → Ends first second (upload_branding_asset first second)
unfolding upload_branding_asset
upload_branding_asset_lem (not_presigned e) second =
    Ends-rejected (not_presigned e) second e in_request
upload_branding_asset_lem (not_put key e) second = Ends-rejected (not_put key e) second e in_put
upload_branding_asset_lem (stored key) second = stored_first refl
