-- ===== src/Photos/Transport/Laws.antt =====
-- What an upload does with the end of its request.
use cloud_photo_delivery.Prelude.{
  ℕ, ◌≡◌, refl, String, Bool, true, false, ◌&&◌, ◌||◌, Option, none, some, leb, ltb, ◌==◌, arith,
  List, [], ◌∷◌,
}
use cloud_photo_delivery.Photos.Errors.{is_abort_error, is_retryable_error}
use cloud_photo_delivery.Photos.Item.{Result, ok, err}
use cloud_photo_delivery.Photos.Transport.{
  End, loads, errs, times_out, aborts, result_of, Put, put_with_progress, on_abort, on_end,
}

abbrev pub is_ok : Result (Option String) → Bool
is_ok (ok etag) = true
is_ok (err e) = false

abbrev pub is_retried : Result (Option String) → Bool
is_retried (ok etag) = false
is_retried (err e) = is_retryable_error e

abbrev pub is_abort : Result (Option String) → Bool
is_abort (ok etag) = false
is_abort (err e) = is_abort_error e

abbrev pub is_load : End → (ℕ → Bool) → Bool
is_load (loads status etag) p = p status
is_load e p = false

abbrev pub is_lost : End → Bool
is_lost errs = true
is_lost times_out = true
is_lost e = false

abbrev pub is_aborts : End → Bool
is_aborts aborts = true
is_aborts e = false

-- Each end of a request is one of four things to the upload: a success for a status from 200 to
-- 299; a retry for a lost connection, a timeout, and the statuses 0, 429 and from 500 on; an abort
-- for an abort; and in all other cases a failure.
pub result_of_lem :
    (e : End)
    → (is_ok (result_of e) ≡ is_load e (λ s. leb 200 s && ltb s 300))
      × (is_retried (result_of e) ≡ (is_lost e || is_load e (λ s. s == 0 || s == 429 || leb 500 s)))
      × (is_abort (result_of e) ≡ is_aborts e)
unfolding result_of is_retryable_error is_abort_error
result_of_lem (loads status etag) = ground arith
result_of_lem errs = ground arith
result_of_lem times_out = ground arith
result_of_lem aborts = ground arith

-- Later ends, and aborts of the signal.
unfoldable pub follow : List (Option End) → Put → Put
follow [] p = p
follow (none ∷ events) p = follow events (on_abort p)
follow (some e ∷ events) p = follow events (on_end e p)

record IsEnded (result : Option (Result (Option String))) (aborted : Bool) (p : Put) : Type 0 where
  kept : p.result ≡ result
  quiet : p.listens ≡ false
  calm : p.aborted ≡ aborted

follow-IsEnded :
    (events : List (Option End)) (r : Result (Option String)) (a : Bool) (p : Put)
    → IsEnded (some r) a p
    → IsEnded (some r) a (follow events p)
unfolding follow on_abort on_end
follow-IsEnded [] r a p h = h
follow-IsEnded (none ∷ events) r a p h = follow-IsEnded events r a (on_abort p) (record {
  kept = ground (arith, h.kept, h.quiet);
  quiet = ground (arith, h.quiet);
  calm = ground (arith, h.calm, h.quiet);
})
follow-IsEnded (some e ∷ events) r a p h =
    follow-IsEnded events r a (on_end e p)
      (record { kept = ground (arith, h.kept); quiet = refl; calm = h.calm })

-- A request that has ended stays as it is: whichever ends and aborts of the signal follow, in any
-- order, its promise keeps the result of the first end, and `abort` is not called on it.
pub follow-on_end :
    (timeout_ms : Option ℕ) (size : ℕ) (signal : Bool) (e : End) (events : List (Option End))
    → let p = follow events (on_end e (put_with_progress timeout_ms size signal)) in
      (p.result ≡ some (result_of e)) × (p.aborted ≡ false)
unfolding on_end put_with_progress
follow-on_end timeout_ms size signal e events =
    let p : Put = on_end e (put_with_progress timeout_ms size signal) in
    let h =
      follow-IsEnded events (result_of e) false p
        (record { kept = refl; quiet = refl; calm = refl }) in
    (h.kept, h.calm)
