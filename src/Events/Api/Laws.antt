-- ===== src/Events/Api/Laws.antt =====
-- The events that a list of options has.
use cloud_photo_delivery.Prelude.{
  append_nil, append_assoc, take_nil, ℕ, zero, suc, ◌≡◌, refl, ap, sym, ◌∙◌, String, true, false,
  Option, none, some, List, [], ◌∷◌, ◌++◌, take, concat, truthy,
}
use cloud_photo_delivery.Events.Api.{EventPage, read_pages, event_options, max_pages}

-- The pages that the API has from a cursor on: each but the last names the next one.
pub data HasPages {A : Type 0} (page_at : Option String → Option (EventPage A))
    : Option String → List (List A) → Type 0 where
  last_page :
      (cursor : Option String) (page : EventPage A)
      → page_at cursor ≡ some page
      → truthy page.next_cursor ≡ false
      → HasPages page_at cursor (page.items ∷ [])
  more_pages :
      (cursor : Option String) (page : EventPage A) (pages : List (List A))
      → page_at cursor ≡ some page
      → truthy page.next_cursor ≡ true
      → HasPages page_at page.next_cursor pages
      → HasPages page_at cursor (page.items ∷ pages)

module _ {A : Type 0} (page_at : Option String → Option (EventPage A)) where
  read_pages-HasPages :
      (left : ℕ) (cursor : Option String) (items : List A) (pages : List (List A))
      → HasPages page_at cursor pages
      → read_pages page_at left cursor items ≡ some (items ++ concat (take left pages))
  unfolding read_pages
  read_pages-HasPages zero cursor items pages h = ap some (sym (append_nil items))
  read_pages-HasPages (suc left) cursor items pages (last_page c page e end) =
      rw e (rw end (rw (take_nil {A = List A} left) (rw (append_nil page.items) refl)))
  read_pages-HasPages (suc left) cursor items pages (more_pages c page rest e more h) = rw e (
      rw more (
        read_pages-HasPages left page.next_cursor (items ++ page.items) rest h
        ∙ ap some (append_assoc items page.items (concat (take left rest)))))

  -- Where the API gives pages of events, each but the last with a cursor for the next: the options
  -- are the events of the first ten pages, in order, so all of them where there are at most ten.
  pub event_options-HasPages :
      (pages : List (List A))
      → HasPages page_at none pages
      → event_options page_at ≡ some (concat (take max_pages pages))
  unfolding event_options
  event_options-HasPages pages h = read_pages-HasPages max_pages none [] pages h
