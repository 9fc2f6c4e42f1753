-- ===== src/Gallery/Batch.antt =====
-- `createBatchedUrlFetcher` of apps/web/src/features/gallery/batch-url-fetcher.ts. A caller that
-- waits is named by the number of its call. A call of `dispatch` stands at `fetchBatch` as a batch
-- that is not answered.
pub mod Settled
pub mod Runs
pub mod Serves
use cloud_photo_delivery.Prelude.{
  ℕ, zero, suc, ◌+◌, String, Bool, true, false, Option, none, some, List, [], ◌∷◌, ◌++◌, map, leb,
  ◌==◌, if◌then◌else◌, Keyed, get, put, values, length, str_eq,
}
use cloud_photo_delivery.Photos.Parts.{chunk}
use cloud_photo_delivery.Gallery.Variant.{UrlVariant, thumbnail, medium, large, original, key_of}
use cloud_photo_delivery.Gallery.UrlCache.{SignedUrl}

abbrev pub url_batch_max_size : ℕ
url_batch_max_size = 100

pub record PendingEntry : Type 0 where
  pub photo_id : String
  pub variant : UrlVariant
  pub waiters : List ℕ

-- What a waiter's promise settles with: a URL, the error for a variant that the answer lacks, or
-- the error of the whole batch.
pub data Outcome (E : Type 0) : Type 0 where
  resolved : SignedUrl → Outcome E
  unavailable : Outcome E
  rejected_with : E → Outcome E

pub record Batcher (E : Type 0) : Type 0 where
  pub max_batch_size : ℕ
  pub pending : Keyed PendingEntry
  -- whether `timer` is set
  pub timer : Bool
  pub batches : List (UrlVariant × List PendingEntry)
  pub settled : List (ℕ × Outcome E)
  pub next_waiter : ℕ

abbrev pub same_variant : UrlVariant → UrlVariant → Bool
same_variant thumbnail thumbnail = true
same_variant medium medium = true
same_variant large large = true
same_variant original original = true
same_variant _ _ = false

-- `groups`: the variants in the order of their first entry.
unfoldable pub add_to_group :
    PendingEntry → List (UrlVariant × List PendingEntry) → List (UrlVariant × List PendingEntry)
add_to_group e [] = (e.variant, e ∷ []) ∷ []
add_to_group e ((v, es) ∷ groups) =
    if same_variant v e.variant then (v, es ++ e ∷ []) ∷ groups else (v, es) ∷ add_to_group e groups

unfoldable pub group :
    List PendingEntry
    → List (UrlVariant × List PendingEntry)
    → List (UrlVariant × List PendingEntry)
group [] groups = groups
group (e ∷ es) groups = group es (add_to_group e groups)

-- The loop that cuts a group into batches, and the loop over the groups.
abbrev pub with_variant :
    UrlVariant → List (List PendingEntry) → List (UrlVariant × List PendingEntry)
with_variant v [] = []
with_variant v (es ∷ ess) = (v, es) ∷ with_variant v ess

unfoldable pub cut_groups :
    ℕ → List (UrlVariant × List PendingEntry) → List (UrlVariant × List PendingEntry)
cut_groups size [] = []
cut_groups size ((v, es) ∷ groups) = with_variant v (chunk es size) ++ cut_groups size groups

abbrev pub add_waiter : ℕ → String → UrlVariant → Option PendingEntry → PendingEntry
add_waiter w photo_id variant none = record {
  photo_id = photo_id;
  variant = variant;
  waiters = w ∷ [];
}
add_waiter w photo_id variant (some e) = record e { waiters = e.waiters ++ w ∷ [] }

module _ {E : Type 0} where
  unfoldable pub flush : Batcher E → Batcher E
  flush b = record b {
    timer = false;
    pending = [];
    batches = b.batches ++ cut_groups b.max_batch_size (group (values b.pending) []);
  }

  unfoldable pub schedule : Batcher E → Batcher E
  schedule b =
      if leb b.max_batch_size (length b.pending) then flush b else record b { timer = true }

  unfoldable pub fetch : String → UrlVariant → Batcher E → Batcher E
  fetch photo_id variant b =
      let key = key_of photo_id variant in
      schedule (record b {
        pending = put key (add_waiter b.next_waiter photo_id variant (get key b.pending)) b.pending;
        next_waiter = b.next_waiter + 1;
      })

  -- Each waiter of an entry settles alike.
  abbrev pub settle_waiters : Outcome E → List ℕ → List (ℕ × Outcome E)
  settle_waiters o [] = []
  settle_waiters o (w ∷ ws) = (w, o) ∷ settle_waiters o ws

  -- `urls[entry.photoId]`
  abbrev pub outcome_of : Option SignedUrl → Outcome E
  outcome_of none = unavailable
  outcome_of (some result) = resolved result

  unfoldable pub settle_ok : Keyed SignedUrl → List PendingEntry → List (ℕ × Outcome E)
  settle_ok urls [] = []
  settle_ok urls (e ∷ es) =
      settle_waiters (outcome_of (get e.photo_id urls)) e.waiters ++ settle_ok urls es

  unfoldable pub settle_error : E → List PendingEntry → List (ℕ × Outcome E)
  settle_error x [] = []
  settle_error x (e ∷ es) = settle_waiters (rejected_with x) e.waiters ++ settle_error x es

-- The answer to a batch: the URLs by photo, or an error.
pub data BatchReply (E : Type 0) : Type 0 where
  urls_for : Keyed SignedUrl → BatchReply E
  failed_with : E → BatchReply E

abbrev pub settle_entries : {E : Type 0} → BatchReply E → List PendingEntry → List (ℕ × Outcome E)
settle_entries (urls_for urls) es = settle_ok urls es
settle_entries (failed_with x) es = settle_error x es

-- `dispatch` behind its `await`, for the batch at place `i`.
abbrev pub entries_at : ℕ → List (UrlVariant × List PendingEntry) → List PendingEntry
entries_at i [] = []
entries_at zero ((v, es) ∷ bs) = es
entries_at (suc i) (b ∷ bs) = entries_at i bs

abbrev pub without_batch :
    ℕ → List (UrlVariant × List PendingEntry) → List (UrlVariant × List PendingEntry)
without_batch i [] = []
without_batch zero (b ∷ bs) = bs
without_batch (suc i) (b ∷ bs) = b ∷ without_batch i bs

unfoldable pub dispatched : {E : Type 0} → ℕ → BatchReply E → Batcher E → Batcher E
dispatched i reply b = record b {
  batches = without_batch i b.batches;
  settled = b.settled ++ settle_entries reply (entries_at i b.batches);
}
