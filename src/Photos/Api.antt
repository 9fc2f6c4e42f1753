-- ===== src/Photos/Api.antt =====
-- apps/web/src/features/photos/api.ts and keys.ts: the lists of an event's photos in the cache of
-- queries, and the removal of a photo before the server has confirmed it. The cache is a parameter;
-- the key of a query is the text that it is filed under.
pub mod Laws
use cloud_photo_delivery.Prelude.{
  ℕ, String, Bool, true, false, not, ◌||◌, Option, none, some, List, [], ◌∷◌, ◌++◌, map, filter,
  any, if◌then◌else◌, truthy, str_eq, Keyed,
}
use cloud_photo_delivery.Query.{QueryCache}

pub data PhotoStatus : Type 0 where
  uploading processing ready failed : PhotoStatus

pub data PhotoStatusFilter : Type 0 where
  all_statuses : PhotoStatusFilter
  only : PhotoStatus → PhotoStatusFilter

pub record Photo : Type 0 where
  pub id : String
  pub status : PhotoStatus

pub record PhotoList : Type 0 where
  pub items : List Photo
  pub next_cursor : Option String

-- `InfiniteData<PhotoList>`: the pages so far, and the cursors that they were asked with.
pub record PhotoPages : Type 0 where
  pub pages : List PhotoList
  pub page_params : List (Option String)

abbrev is_pending : PhotoStatus → Bool
is_pending uploading = true
is_pending processing = true
is_pending _ = false

abbrev page_pending : PhotoList → Bool
page_pending page = any (λ photo. is_pending photo.status) page.items

unfoldable pub has_pending_photos : Option PhotoPages → Bool
has_pending_photos none = false
has_pending_photos (some data_of) = any page_pending data_of.pages

-- The query of a page, and how long until the lists are asked for again: `false` is `none`.
pub record PhotosQuery : Type 0 where
  pub limit : ℕ
  pub cursor : Option String
  pub status : Option PhotoStatus

abbrev status_of : PhotoStatusFilter → Option PhotoStatus
status_of all_statuses = none
status_of (only status) = some status

unfoldable pub photos_query : PhotoStatusFilter → Option String → PhotosQuery
photos_query status page_param = record {
  limit = 60;
  cursor = if truthy page_param then page_param else none;
  status = status_of status;
}

unfoldable pub refetch_interval : Option PhotoPages → Option ℕ
refetch_interval data_of = if has_pending_photos data_of then some 4000 else none

-- `withoutPhoto`, for data that is there.
abbrev page_without : String → PhotoList → PhotoList
page_without photo_id page = record page {
  items = filter (λ photo. not (str_eq photo.id photo_id)) page.items;
}

unfoldable pub without_photo : String → PhotoPages → PhotoPages
without_photo photo_id data_of = record data_of {
  pages = map (page_without photo_id) data_of.pages;
}

-- `useDeletePhoto`: the lists as they were, which `onMutate` gives to `onError`.
abbrev pub Snapshots : Type 0
Snapshots = Keyed (Option PhotoPages)

module _ {Q : Type 0} (cache : QueryCache PhotoPages Q) where
  unfoldable pub on_mutate : String → Q → Q × Snapshots
  on_mutate photo_id q = (cache.update_all (without_photo photo_id) q, cache.all_data q)

  -- `setQueryData(key, data)`, which changes nothing where the data is `undefined`.
  abbrev pub restore : String → Option PhotoPages → Q → Q
  restore key none q = q
  restore key (some data_of) q = cache.set_data key data_of q

  unfoldable pub on_error : Snapshots → Q → Q
  on_error [] q = q
  on_error ((key, data_of) ∷ snapshots) q = on_error snapshots (restore key data_of q)
