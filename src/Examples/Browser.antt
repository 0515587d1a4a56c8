-- ===== src/Examples/Browser.antt =====
-- The theorems of the HTML browser, with two episodes of a show below a virtual path.
use warpbox.Base.{◌≡◌, refl, arith, false, none, true, List, [], ◌∷◌}
use warpbox.Base.Text.{codes, text_eq, index_byte, has_prefix}
use warpbox.Base.Assoc.{lookup}
use warpbox.Server.Setup.{map_filters}
use warpbox.Metadata.Record.{FileRecord}
use warpbox.Library.Filter.{Filter}
use warpbox.Server.Browser.{
  Place, place_of, raw_virtual_path, encode_dav_href, dir_link, file_link, all_items, HtmlEntry,
  by_size, less_directed,
}
use warpbox.Server.Browser.Below.{inside}
use warpbox.Server.Browser.Totals.{total_size}
use warpbox.Server.Browser.Items.{IsListing, all_items-IsListing}
use warpbox.Server.Browser.Order.{IsStrictWeak, less_directed-IsStrictWeak}
use warpbox.Server.Browser.Links.{joined, links-Lead}
use warpbox.Server.Page.{handle_http}
use warpbox.Server.Page.Serves.{Answers, handle_http-Answers}
use warpbox.Examples.Data.{row}
use warpbox.Examples.Setup.{settings, server}
use warpbox.Examples.Proxy.{busy_world, request, server-Sound}
use warpbox.Examples.Browsing.{films}

abbrev episodes : List FileRecord
episodes =
    record (row 1 7 4) { path = codes "Show/S01/a.mkv" }
    ∷ record (row 2 7 4) { path = codes "Show/S01/b.mkv" }
    ∷ record (row 3 7 4) { path = codes "Show/c.mkv" }
    ∷ []

abbrev shelf_place : Place
shelf_place = record { filter = none; mount_prefix = []; virtual_path = codes "Show" }

all_items-IsListing_example :
    IsListing
      (λ s. s)
      shelf_place
      episodes
      (all_items (λ s. s) (films ∷ []) (codes "Show") shelf_place episodes)
unfolding total_size inside has_prefix
all_items-IsListing_example =
    all_items-IsListing (λ s. s) (films ∷ []) (codes "Show") shelf_place episodes
      (λ e. (let no_path = e in cc))
      (
        (codes "S01/a.mkv", refl, refl),
        ((codes "S01/b.mkv", refl, refl), ((codes "c.mkv", refl, refl), tt)),
      )
      (refl, (refl, (refl, tt))) (omega arith)

abbrev plain_films : Filter
plain_films = record films { largest_file_only = false }

less_directed-IsStrictWeak_example :
    IsStrictWeak (less_directed by_size false)
    × ((a : HtmlEntry) → less_directed by_size true a a ≡ true)
less_directed-IsStrictWeak_example = less_directed-IsStrictWeak by_size

links-Lead_example :
    let place = place_of [] (codes "Show") in
    let rec = record (row 3 7 4) { path = codes "Show/c.mkv" } in
    (place_of [] (raw_virtual_path (encode_dav_href (λ s. s) (dir_link place (codes "c.mkv"))))
      ≡ record place { virtual_path = joined place (codes "c.mkv") })
    × (place_of [] (raw_virtual_path (encode_dav_href (λ s. s) (file_link place rec)))
        ≡ record place { virtual_path = rec.path })
unfolding place_of text_eq index_byte lookup map_filters
links-Lead_example =
    links-Lead (λ s. s) (λ s. s) (λ s. refl) (λ s t. refl) refl [] (codes "Show") (codes "c.mkv")
      (record (row 3 7 4) { path = codes "Show/c.mkv" }) (λ e. (let no_path = e in cc))
      (codes "c.mk", b'v', refl, refl) refl

handle_http-Answers_example : Answers 0 (
    handle_http busy_world settings
      (λ rows. rows)
      (λ s. s)
      (λ less items. items)
      (films ∷ [])
      9
      (codes "-size")
      (record request { path = codes "/http/movies/Show/a.mkv" })
      server)
handle_http-Answers_example =
    handle_http-Answers busy_world settings (λ rows. rows) (λ s. s) (λ less items. items)
      (films ∷ []) (codes "-size") (record request { path = codes "/http/movies/Show/a.mkv" }) 2 9 0
      server (omega arith) refl (omega arith) server-Sound
