-- ===== src/Gallery/Unlock/Laws.antt =====
-- Laws of the token store of unlock.ts.
use cloud_photo_delivery.Prelude.{
  ℕ, ◌+◌, ◌*◌, ◌≡◌, String, true, Option, none, some, ltb, if◌then◌else◌, get, put, remove, get-put,
  get-remove, eq_refl, str_eq, arith, Option-cases, inl, inr,
}
use cloud_photo_delivery.Gallery.Unlock.{
  Unlocks, Stored, Session, entry, expiry_margin_ms, storage_key, unlock_for, store_unlock_token,
  read_unlock_token, clear_unlock_token,
}

-- What the session storage gives for a gallery, if it can be read.
abbrev pub Agrees : Option Session → Type 0
Agrees none = Unit
Agrees (some s) = s.writable ≡ true

text_put :
    (slug : String) (e : Stored) (s : Session)
    → get (storage_key slug) (put (storage_key slug) e s.texts) ≡ some e
text_put slug e s =
    rw (get-put (storage_key slug) (storage_key slug) e s.texts, eq_refl (storage_key slug))

text_remove :
    (slug : String) (s : Session)
    → get (storage_key slug) (remove (storage_key slug) s.texts) ≡ none
text_remove slug s =
    rw (get-remove (storage_key slug) (storage_key slug) s.texts, eq_refl (storage_key slug))

-- A token that was stored for a gallery is read back exactly while more than 5 seconds of its life
-- are left, on a session storage that takes writes or that is absent; what other galleries had in
-- memory stays.
pub read-store :
    (slug other token : String) (seconds then_ now : ℕ) (u : Unlocks)
    → Agrees u.session
    → ((read_unlock_token slug now (store_unlock_token slug token seconds then_ u)).1
        ≡ (if ltb (now + expiry_margin_ms) (then_ + seconds * 1000) then some token else none))
      × (get other (store_unlock_token slug token seconds then_ u).memory ≡ (
          if str_eq slug other then some (unlock_for token seconds then_) else get other u.memory))
unfolding read_unlock_token store_unlock_token
read-store slug other token seconds then_ now u w = (
  elim (Option-cases u.session) [
    | inl e ↦
        ground (arith, get-put slug slug (unlock_for token seconds then_) u.memory, eq_refl slug)
    | inr (s, e) ↦ ground (
      arith,
      get-put slug slug (unlock_for token seconds then_) u.memory,
      eq_refl slug,
      text_put slug (entry (unlock_for token seconds then_)) s,
    )
  ],
  get-put slug other (unlock_for token seconds then_) u.memory,
)

-- After `clearUnlockToken` nothing is read, on such a session storage.
pub read-clear :
    (slug : String) (now : ℕ) (u : Unlocks)
    → Agrees u.session
    → (read_unlock_token slug now (clear_unlock_token slug u)).1 ≡ none
unfolding read_unlock_token clear_unlock_token
read-clear slug now u w = elim (Option-cases u.session) [
  | inl e ↦ ground (arith, get-remove slug slug u.memory, eq_refl slug)
  | inr (s, e) ↦ ground (arith, get-remove slug slug u.memory, eq_refl slug, text_remove slug s)
]
