-- ===== src/Server/Dispatch/Directories.antt =====
-- The two ways to list a directory, below the root or inside a virtual path.
use warpbox.Base.{◌≡◌, refl, false, Bool, List, [], any, Bool-cases, Option-cases, inl, inr}
use warpbox.Base.Text.{Text, codes, text_eq}
use warpbox.Base.Assoc.{Assoc, lookup}
use warpbox.Metadata.Record.{FileRecord, text_keys}
use warpbox.Library.Filter.{Filter}
use warpbox.Server.State.{Server, World}
use warpbox.Server.Setup.{make_virtual_path_map}
use warpbox.Server.Listing.{
  webdav_root, root_for_request, is_outside, ChildInfo, serve_dir_listing, handle_propfind,
}
use warpbox.Server.Listing.Dates.{is_short_row, listed_rows}
use warpbox.Server.Listing.Agree.{Agree, listing_agrees}
use warpbox.Server.Dispatch.{mount_of, virtual_path_name}

mount_outside :
    (filters : List Filter) (path : Text)
    → text_eq (root_for_request (mount_of filters path).1) webdav_root
      ≡ is_outside (mount_of filters path).1
unfolding mount_of root_for_request text_eq
mount_outside filters path =
    let name = virtual_path_name path in
    elim (Bool-cases (text_eq name (codes "__all__"))) [
      | inl all ↦ rw (all, mount_of) refl
      | inr other ↦ elim (Option-cases (lookup name (make_virtual_path_map filters))) [
        | inl none_there ↦ rw (other, none_there, mount_of) refl
        | inr (f, there) ↦ rw (other, there, mount_of) refl
      ]
    ]

-- serveDirListing, which answers a GET of a directory with rows, and a PROPFIND without a Depth header
-- list the same hrefs at a path, or report the same error. This holds if an iteration of a Go map visits
-- just the entries of the map, and if no row listed has a date that is not empty and shorter than 19
-- bytes.
pub get_propfind-Agree :
    (w : World) (by_name : List FileRecord → List FileRecord)
    (range_map : Assoc Text ChildInfo → Assoc Text ChildInfo) (filters : List Filter) (path : Text)
    (s : Server)
    → ((p : Text × ChildInfo → Bool) (m : Assoc Text ChildInfo) → any p (range_map m) ≡ any p m)
    → any is_short_row
        (listed_rows by_name path (mount_of filters path).0 (mount_of filters path).1 s)
      ≡ false
    → let (f, mount) = mount_of filters path in
      Agree
        (serve_dir_listing w by_name range_map filters path f (root_for_request mount) s).0
        (handle_propfind w by_name range_map filters path [] f mount s).0
get_propfind-Agree w by_name range_map filters path s ranges dates =
    let (f, mount) = mount_of filters path in
    listing_agrees w by_name range_map filters ranges path f mount s (mount_outside filters path)
      dates
