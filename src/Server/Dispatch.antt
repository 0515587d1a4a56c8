-- ===== src/Server/Dispatch.antt =====
-- internal/server: handleWebDAV in server.go, and handleGet and handleHead in get.go.
pub mod Reads
pub mod Answered
pub mod Serves
pub mod Directories
use warpbox.Base.{ℕ, suc, Bool, Option, none, some, List, [], ◌∷◌, ◌++◌, take, drop, if◌then◌else◌}
use warpbox.Base.Text.{Text, codes, text_eq, has_prefix, index_byte}
use warpbox.Base.Assoc.{Assoc, lookup}
use warpbox.Metadata.Record.{FileRecord, text_keys}
use warpbox.Metadata.Store.{get_file_by_path, get_cdn_url}
use warpbox.Metadata.Store.Dir.{list_dir}
use warpbox.Library.Filter.{Filter}
use warpbox.Server.State.{Server, Config, World}
use warpbox.Server.Answer.{Answer, error_reply, redirect, capabilities, head_only, Request, mime_of}
use warpbox.Server.Stream.{stream_file_content}
use warpbox.Server.Setup.{make_virtual_path_map}
use warpbox.Server.Listing.{
  webdav_root, root_for_request, internal_error, strip, ChildInfo, serve_dir_listing,
  handle_propfind,
}

pub data Method : Type 0 where
  get head options propfind other : Method

-- The path of Infuse's alias, under the root.
unfoldable pub alias_path : Text → Text
alias_path path = if has_prefix path (codes "/infuse") then webdav_root ++ drop 7 path else path

unfoldable pub virtual_path_name : Text → Text
virtual_path_name path =
    let p = strip path webdav_root in elim (index_byte p b'/') [ none ↦ p | some i ↦ take i p ]

-- The filter and the root that the context holds.
unfoldable pub mount_of : List Filter → Text → Option Filter × Option Text
mount_of filters path =
    let name = virtual_path_name path in
    let mount = webdav_root ++ (codes "/" ++ name) in
    if text_eq name (codes "__all__")
    then (none, some mount)
    else elim (lookup name (make_virtual_path_map filters)) [
      | some f ↦ (some f, some mount)
      | none ↦ (none, none)
    ]

abbrev pub not_found : Answer
not_found = error_reply 404 (codes "not found")

module _ (w : World) (cfg : Config) (by_name : List FileRecord → List FileRecord)
    (range_map : Assoc Text ChildInfo → Assoc Text ChildInfo) (filters : List Filter)
    (fuel : ℕ) where
  -- Not a file: a directory if there are rows below.
  unfoldable pub get_directory : Text → Text → Option Filter → Text → Server → Answer × Server
  get_directory virtual path f root s =
      let s₁ : Server = record s { events = suc s.events } in
      elim (w.query_error s.events) [
        | some e ↦ (internal_error, s₁)
        | none ↦ elim (list_dir by_name virtual s.store) [
          | [] ↦ (not_found, s₁)
          | r ∷ rs ↦ serve_dir_listing w by_name range_map filters path f root s₁
        ]
      ]

  -- Without a Range header a cached URL is passed on to the client.
  unfoldable pub get_file : FileRecord → Request → Server → Option (Answer × Server)
  get_file file req s = elim req.range [
    | c ∷ range ↦ stream_file_content w cfg file req fuel s
    | [] ↦
        let s₁ : Server = record s { events = suc s.events } in
        elim (w.query_error s.events) [
          | some e ↦ stream_file_content w cfg file req fuel s₁
          | none ↦ elim (get_cdn_url w.parse_time s.clock file.id s.store) [
            | [] ↦ stream_file_content w cfg file req fuel s₁
            | c ∷ url ↦ some (redirect (c ∷ url), s₁)
          ]
        ]
  ]

  unfoldable pub handle_get :
      Option Filter → Option Text → Request → Server → Option (Answer × Server)
  handle_get f mount req s =
      let root = root_for_request mount in
      let virtual = strip req.path root in
      let s₁ : Server = record s { events = suc s.events } in
      if text_eq virtual []
      then some (serve_dir_listing w by_name range_map filters req.path f root s)
      else elim (w.query_error s.events) [
        | some e ↦ some (internal_error, s₁)
        | none ↦ elim (get_file_by_path virtual s.store) [
          | none ↦ some (get_directory virtual req.path f root s₁)
          | some file ↦ get_file file req s₁
        ]
      ]

  unfoldable pub handle_head : Option Text → Request → Server → Answer × Server
  handle_head mount req s =
      let virtual = strip req.path (root_for_request mount) in
      let s₁ : Server = record s { events = suc s.events } in
      if text_eq virtual [] then (not_found, s) else elim (w.query_error s.events) [
        | some e ↦ (internal_error, s₁)
        | none ↦ elim (get_file_by_path virtual s.store) [
          | none ↦ (not_found, s₁)
          | some file ↦ (
            head_only (record {
              content_type = mime_of file;
              content_length = file.size;
              content_range = none;
              file_size = file.size;
            }),
            s₁,
          )
        ]
      ]

  -- The methods, on a path with the alias resolved.
  unfoldable pub handle_method : Method → Text → Request → Server → Option (Answer × Server)
  handle_method get depth req s =
      let (f, mount) = mount_of filters req.path in handle_get f mount req s
  handle_method head depth req s =
      let (f, mount) = mount_of filters req.path in some (handle_head mount req s)
  handle_method options depth req s = some (capabilities, s)
  handle_method propfind depth req s =
      let (f, mount) = mount_of filters req.path in
      some (handle_propfind w by_name range_map filters req.path depth f mount s)
  handle_method other depth req s = some (error_reply 405 (codes "Method not allowed"), s)

  unfoldable pub handle_webdav : Method → Text → Request → Server → Option (Answer × Server)
  handle_webdav method depth req s =
      handle_method method depth (record req { path = alias_path req.path }) s
