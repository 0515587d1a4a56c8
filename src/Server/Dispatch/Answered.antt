-- ===== src/Server/Dispatch/Answered.antt =====
-- No handler that only reads panics, if no row that it lists has a short date.
use warpbox.Base.{
  ℕ, suc, ◌≡◌, false, Option, List, [], ◌∷◌, any, Bool, Bool-cases, Option-cases, inl, inr,
}
use warpbox.Base.Text.{Text, text_eq}
use warpbox.Base.Assoc.{Assoc}
use warpbox.Metadata.Record.{FileRecord}
use warpbox.Metadata.Store.{get_file_by_path}
use warpbox.Metadata.Store.Dir.{list_dir}
use warpbox.Library.Filter.{Filter}
use warpbox.Server.State.{Server, Config, World}
use warpbox.Server.Answer.{Answer, panicked, Request}
use warpbox.Server.Listing.{ChildInfo, root_for_request, strip, serve_dir_listing, handle_propfind}
use warpbox.Server.Listing.Dates.{is_short_row, listed_rows, rendered-dated}
use warpbox.Server.Dispatch.{not_found, get_directory, handle_head}

abbrev pub IsAnswered : Answer → Type 0
IsAnswered panicked = ⊥
IsAnswered _ = Unit

module _ (w : World) (cfg : Config) (by_name : List FileRecord → List FileRecord)
    (range_map : Assoc Text ChildInfo → Assoc Text ChildInfo) (filters : List Filter)
    (ranges : (p : Text × ChildInfo → Bool) (m : Assoc Text ChildInfo)
      → any p (range_map m) ≡ any p m) where
  pub serve_dir_listing-IsAnswered :
      (path : Text) (f : Option Filter) (mount : Option Text) (s : Server)
      → any is_short_row (listed_rows by_name path f mount s) ≡ false
      → IsAnswered
          (serve_dir_listing w by_name range_map filters path f (root_for_request mount) s).0
  unfolding serve_dir_listing
  serve_dir_listing-IsAnswered path f mount s dates = elim (Option-cases (w.query_error s.events)) [
    | inr (e, failed) ↦ rw (failed, serve_dir_listing) tt
    | inl fine ↦
        rw (fine, serve_dir_listing)
          (rw (rendered-dated w by_name range_map filters ranges _ _ _ _ _ _ dates) tt)
  ]

  pub handle_propfind-IsAnswered :
      (path depth : Text) (f : Option Filter) (mount : Option Text) (s : Server)
      → any is_short_row (listed_rows by_name path f mount s) ≡ false
      → IsAnswered (handle_propfind w by_name range_map filters path depth f mount s).0
  unfolding handle_propfind
  handle_propfind-IsAnswered path depth f mount s dates =
      elim (Option-cases (w.query_error s.events)) [
        | inr (e, failed) ↦ rw (failed, handle_propfind) tt
        | inl fine ↦
            rw (fine, handle_propfind)
              (rw (rendered-dated w by_name range_map filters ranges _ _ _ _ _ _ dates) tt)
      ]

  module _ (fuel : ℕ) where
    pub handle_head-IsAnswered :
        (mount : Option Text) (req : Request) (s : Server)
        → IsAnswered (handle_head w cfg by_name range_map filters fuel mount req s).0
    unfolding handle_head
    handle_head-IsAnswered mount req s =
        let virtual = strip req.path (root_for_request mount) in
        elim (Bool-cases (text_eq virtual [])) [
          | inl root ↦ rw (root, handle_head) tt
          | inr file ↦ elim (Option-cases (w.query_error s.events)) [
            | inr (e, failed) ↦ rw (file, failed, handle_head) tt
            | inl fine ↦ elim (Option-cases (get_file_by_path virtual s.store)) [
              | inl absent ↦ rw (file, fine, absent, handle_head) tt
              | inr (row, found) ↦ rw (file, fine, found, handle_head) tt
            ]
          ]
        ]

    pub get_directory-IsAnswered :
        (virtual path : Text) (f : Option Filter) (mount : Option Text) (s : Server)
        → any is_short_row (listed_rows by_name path f mount s) ≡ false
        → IsAnswered
            (get_directory w cfg by_name range_map filters fuel virtual path f
              (root_for_request mount)
              s).0
    unfolding get_directory
    get_directory-IsAnswered virtual path f mount s dates =
        let s₁ : Server = record s { events = suc s.events } in
        elim (Option-cases (w.query_error s.events)) [
          | inr (e, failed) ↦ rw (failed, get_directory) tt
          | inl fine ↦ rw (fine, get_directory) (rows (list_dir by_name virtual s.store) s₁ dates)
        ]
      where
        rows :
            (records : List FileRecord) (s' : Server)
            → any is_short_row (listed_rows by_name path f mount s') ≡ false
            → IsAnswered
                (elim records as (λ x. Answer × Server) [
                  | [] ↦ (not_found, s')
                  | r ∷ rs ↦
                      serve_dir_listing w by_name range_map filters path f
                        (root_for_request mount)
                        s'
                ]).0
        rows [] s' fine_dates = tt
        rows (r ∷ rs) s' fine_dates = serve_dir_listing-IsAnswered path f mount s' fine_dates
