-- ===== src/Server/Dispatch/Reads.antt =====
-- All methods of WebDAV but GET only read.
use warpbox.Base.{
  ℕ, suc, any, List, ◌≡◌, refl, Option, List, [], ◌∷◌, Bool-cases, Option-cases, inl, inr,
}
use warpbox.Base.Text.{Text, text_eq}
use warpbox.Base.Assoc.{Assoc}
use warpbox.Metadata.Record.{FileRecord}
use warpbox.Metadata.Store.{get_file_by_path}
use warpbox.Metadata.Store.Dir.{list_dir}
use warpbox.Library.Filter.{Filter}
use warpbox.Server.State.{Server, Config, World}
use warpbox.Server.Answer.{Answer, Entry, streamed, silent, Request}
use warpbox.Server.Listing.{
  ChildInfo, root_for_request, strip, serve_dir_listing, handle_propfind, rendered, is_short_date,
}
use warpbox.Server.Dispatch.{not_found, get_directory, handle_head}

-- Not a reply that holds the file's data, or waits for them.
abbrev pub IsBodiless : Answer → Type 0
IsBodiless (streamed h reply) = ⊥
IsBodiless (silent h) = ⊥
IsBodiless _ = Unit

-- Nothing of the server is changed but the count of its dealings with the outside.
abbrev pub OnlyReads : Server → Answer × Server → Type 0
OnlyReads s r = (r.1 ≡ record s { events = r.1.events }) × IsBodiless r.0

rendered-IsBodiless : (es : List Entry) → IsBodiless (rendered es)
rendered-IsBodiless es = elim (Bool-cases (any (λ e. is_short_date e.created_at) es)) [
  | inl short ↦ rw short tt
  | inr fine ↦ rw fine tt
]

module _ (w : World) (cfg : Config) (by_name : List FileRecord → List FileRecord)
    (range_map : Assoc Text ChildInfo → Assoc Text ChildInfo) (filters : List Filter) where
  pub serve_dir_listing-OnlyReads :
      (path : Text) (f : Option Filter) (root : Text) (s : Server)
      → OnlyReads s (serve_dir_listing w by_name range_map filters path f root s)
  unfolding serve_dir_listing
  serve_dir_listing-OnlyReads path f root s = elim (Option-cases (w.query_error s.events)) [
    | inl fine ↦ rw (fine, serve_dir_listing) (refl, rendered-IsBodiless _)
    | inr (e, failed) ↦ rw (failed, serve_dir_listing) (refl, tt)
  ]

  pub handle_propfind-OnlyReads :
      (path depth : Text) (f : Option Filter) (mount : Option Text) (s : Server)
      → OnlyReads s (handle_propfind w by_name range_map filters path depth f mount s)
  unfolding handle_propfind
  handle_propfind-OnlyReads path depth f mount s = elim (Option-cases (w.query_error s.events)) [
    | inl fine ↦ rw (fine, handle_propfind) (refl, rendered-IsBodiless _)
    | inr (e, failed) ↦ rw (failed, handle_propfind) (refl, tt)
  ]

  module _ (fuel : ℕ) where
    pub handle_head-OnlyReads :
        (mount : Option Text) (req : Request) (s : Server)
        → OnlyReads s (handle_head w cfg by_name range_map filters fuel mount req s)
    unfolding handle_head
    handle_head-OnlyReads mount req s =
        let virtual = strip req.path (root_for_request mount) in
        elim (Bool-cases (text_eq virtual [])) [
          | inl root ↦ rw (root, handle_head) (refl, tt)
          | inr file ↦ elim (Option-cases (w.query_error s.events)) [
            | inr (e, failed) ↦ rw (file, failed, handle_head) (refl, tt)
            | inl fine ↦ elim (Option-cases (get_file_by_path virtual s.store)) [
              | inl absent ↦ rw (file, fine, absent, handle_head) (refl, tt)
              | inr (row, found) ↦ rw (file, fine, found, handle_head) (refl, tt)
            ]
          ]
        ]

    pub get_directory-OnlyReads :
        (virtual path : Text) (f : Option Filter) (root : Text) (s : Server)
        → OnlyReads s (get_directory w cfg by_name range_map filters fuel virtual path f root s)
    unfolding get_directory
    get_directory-OnlyReads virtual path f root s =
        let s₁ : Server = record s { events = suc s.events } in
        elim (Option-cases (w.query_error s.events)) [
          | inr (e, failed) ↦ rw (failed, get_directory) (refl, tt)
          | inl fine ↦ rw (fine, get_directory) (rows (list_dir by_name virtual s.store) s₁)
        ]
      where
        rows :
            (records : List FileRecord) (s' : Server)
            → OnlyReads s' (elim records as (λ x. Answer × Server) [
              | [] ↦ (not_found, s')
              | r ∷ rs ↦ serve_dir_listing w by_name range_map filters path f root s'
            ])
        rows [] s' = (refl, tt)
        rows (r ∷ rs) s' = serve_dir_listing-OnlyReads path f root s'
