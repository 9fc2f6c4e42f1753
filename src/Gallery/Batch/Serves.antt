-- ===== src/Gallery/Batch/Serves.antt =====
-- The batched fetcher against the service that it stands for, which answers each call by itself: a
-- function of the photo and the variant. A batch is answered from that function, or fails.
pub mod Moves
pub mod Laws
pub mod Runs
use cloud_photo_delivery.Prelude.{
  ℕ, zero, suc, ◌+◌, ◌<◌, ◌≡◌, refl, ap, sym, ◌∙◌, String, Bool, true, false, Option, none, some,
  List, [], ◌∷◌, ◌++◌, map, length, length-append, get_elem?, All, All-append, All-map, any, ◌==◌,
  if◌then◌else◌, arith, Keyed, get, put, get-put, values, str_eq, eq_refl, eq_iff, inl, inr, ◌⊎◌,
  Option-cases, concat,
}
use cloud_photo_delivery.Photos.Parts.{chunk}
use cloud_photo_delivery.Gallery.Variant.{UrlVariant, key_of, key_of_injective}
use cloud_photo_delivery.Gallery.UrlCache.{SignedUrl}
use cloud_photo_delivery.Gallery.Batch.{
  PendingEntry, Outcome, Batcher, BatchReply, urls_for, failed_with, add_to_group, group,
  with_variant, cut_groups, flush, schedule, fetch, add_waiter, settle_waiters, settle_ok,
  settle_error, settle_entries, entries_at, without_batch, dispatched, outcome_of, rejected_with,
}
use cloud_photo_delivery.Gallery.Batch.Runs.{new_batcher}

pub data ServiceEvent (E : Type 0) : Type 0 where
  asks : String → UrlVariant → ServiceEvent E
  timer_fires : ServiceEvent E
  serves : ℕ → ServiceEvent E
  fails : ℕ → E → ServiceEvent E

-- The calls so far; that of a waiter stands at its number.
abbrev pub Calls : Type 0
Calls = List (String × UrlVariant)

abbrev pub calls_of : {E : Type 0} → List (ServiceEvent E) → Calls
calls_of [] = []
calls_of (asks photo_id variant ∷ es) = (photo_id, variant) ∷ calls_of es
calls_of (timer_fires ∷ es) = calls_of es
calls_of (serves i ∷ es) = calls_of es
calls_of (fails i x ∷ es) = calls_of es

module _ (serve : String → UrlVariant → Option SignedUrl) where
  abbrev put_if : String → Option SignedUrl → Keyed SignedUrl → Keyed SignedUrl
  put_if photo_id none urls = urls
  put_if photo_id (some url) urls = put photo_id url urls

  abbrev sign_all : UrlVariant → List PendingEntry → Keyed SignedUrl
  sign_all v [] = []
  sign_all v (e ∷ es) = put_if e.photo_id (serve e.photo_id v) (sign_all v es)

  abbrev sign_batch : Option (UrlVariant × List PendingEntry) → Keyed SignedUrl
  sign_batch none = []
  sign_batch (some (v, es)) = sign_all v es

  module _ {E : Type 0} where
    unfoldable pub on_service : ServiceEvent E → Batcher E → Batcher E
    on_service (asks photo_id variant) b = fetch photo_id variant b
    on_service timer_fires b = if b.timer then flush b else b
    on_service (serves i) b = dispatched i (urls_for (sign_batch (get_elem? b.batches i))) b
    on_service (fails i x) b = dispatched i (failed_with x) b

    unfoldable pub run_service : List (ServiceEvent E) → Batcher E → Batcher E
    run_service [] b = b
    run_service (e ∷ es) b = run_service es (on_service e b)

-- A waiter asked for a photo and a variant.
abbrev pub AskedFor : Calls → String → UrlVariant → ℕ → Type 0
AskedFor calls photo_id variant w = get_elem? calls w ≡ some (photo_id, variant)

abbrev EntryOk : Calls → PendingEntry → Type 0
EntryOk calls e = All (AskedFor calls e.photo_id e.variant) e.waiters

abbrev PendingOk : Calls → String × PendingEntry → Type 0
PendingOk calls x = (x.0 ≡ key_of x.1.photo_id x.1.variant) × EntryOk calls x.1

abbrev InGroup : Calls → UrlVariant → PendingEntry → Type 0
InGroup calls v e = (e.variant ≡ v) × EntryOk calls e

abbrev BatchOk : Calls → UrlVariant × List PendingEntry → Type 0
BatchOk calls x = All (InGroup calls x.0) x.1

-- An outcome is that of the waiter's own call, or an error of a batch.
abbrev pub IsServed :
    {E : Type 0} (serve : String → UrlVariant → Option SignedUrl) → Calls → ℕ × Outcome E → Type 0
IsServed serve calls x =
    (photo_id : String) × (variant : UrlVariant) × AskedFor calls photo_id variant x.0
    × ((x.1 ≡ outcome_of (serve photo_id variant)) ⊎ ((e : _) × (x.1 ≡ rejected_with e)))

get_elem?-append :
    {A : Type 0} (xs ys : List A) (i : ℕ) (x : A)
    → get_elem? xs i ≡ some x
    → get_elem? (xs ++ ys) i ≡ some x
get_elem?-append [] ys i x e = cc
get_elem?-append (y ∷ xs) ys zero x e = e
get_elem?-append (y ∷ xs) ys (suc i) x e = get_elem?-append xs ys i x e

get_elem?-last : {A : Type 0} (xs : List A) (x : A) → get_elem? (xs ++ x ∷ []) (length xs) ≡ some x
get_elem?-last [] x = refl
get_elem?-last (y ∷ xs) x = get_elem?-last xs x

module _ (calls more : Calls) where
  AskedFor-grows :
      (photo_id : String) (variant : UrlVariant) (w : ℕ)
      → AskedFor calls photo_id variant w
      → AskedFor (calls ++ more) photo_id variant w
  AskedFor-grows photo_id variant w h = get_elem?-append calls more w (photo_id, variant) h

  EntryOk-grows : (e : PendingEntry) → EntryOk calls e → EntryOk (calls ++ more) e
  EntryOk-grows e h =
      All-map (AskedFor calls e.photo_id e.variant) (AskedFor (calls ++ more) e.photo_id e.variant)
        e.waiters (AskedFor-grows e.photo_id e.variant) h

  PendingOk-grows : (x : String × PendingEntry) → PendingOk calls x → PendingOk (calls ++ more) x
  PendingOk-grows x h = (h.0, EntryOk-grows x.1 h.1)

  BatchOk-grows : (x : UrlVariant × List PendingEntry) → BatchOk calls x → BatchOk (calls ++ more) x
  BatchOk-grows x h =
      All-map (InGroup calls x.0) (InGroup (calls ++ more) x.0) x.1
        (λ e i. (i.0, EntryOk-grows e i.1)) h

  IsServed-grows :
      {E : Type 0} (serve : String → UrlVariant → Option SignedUrl) (x : ℕ × Outcome E)
      → IsServed serve calls x
      → IsServed serve (calls ++ more) x
  IsServed-grows serve x (p, v, asked, o) = (p, v, AskedFor-grows p v x.0 asked, o)
