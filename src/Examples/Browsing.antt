-- ===== src/Examples/Browsing.antt =====
-- The theorems of the WebDAV handlers, with a virtual path for films.
use warpbox.Base.{any, keep, inl, inr, ◌≡◌, refl, arith, true, none, some, List, [], ◌∷◌}
use warpbox.Base.Int.{pos}
use warpbox.Base.Text.{
  codes, trim_prefix, has_prefix, index_byte, contains, to_lower, trim_space, parse_int, text_eq,
}
use warpbox.Config.Entries.{IsNamed, IsEntry}
use warpbox.Config.Size.{parse_file_size, multiplier, to_upper}
use warpbox.Config.Defaults.{set_defaults}
use warpbox.Config.Accept.{IsAccepted, load_iff}
use warpbox.Metadata.Store.Dir.{list_dir, latest, like, some_suffix, fold}
use warpbox.Library.Filter.{
  Filter, apply, keep_largest, collect, keep_loop, apply_loop, verdict, match_directory, match_file,
  match_size, keep_step,
}
use warpbox.Base.Assoc.{lookup, insert}
use warpbox.Server.State
use warpbox.Server.Answer.{Answer, Request}
use warpbox.Server.Setup.{server_config, build_filters, make_virtual_path_map, map_filters}
use warpbox.Server.Setup.Settings.{IsSensible, server_config-load}
use warpbox.Server.Setup.Mounts.{Mounted, virtual_path_map-Mounted}
use warpbox.Server.Listing.{
  trim_right_slash, is_short_date, root_for_request, serve_dir_listing, handle_propfind,
}
use warpbox.Server.Listing.Agree.{Agree}
use warpbox.Server.Dispatch.{get, handle_webdav, mount_of, virtual_path_name, alias_path}
use warpbox.Server.Dispatch.Serves.{Serves, handle_webdav-Serves}
use warpbox.Server.Dispatch.Directories.{get_propfind-Agree}
use warpbox.Examples.Setup.{settings, server}
use warpbox.Examples.Proxy.{busy_world, request, server-Sound}
use warpbox.Examples.Settings.{floats, movies, file}

abbrev pub films : Filter
films = record {
  mount = codes "/movies";
  directory_include = none;
  directory_exclude = none;
  file_regex = some (λ s. true);
  largest_file_only = true;
  min_size = pos 0;
  max_size = pos 0;
}

abbrev asked : Request
asked = record request { path = codes "/infuse/movies/Show/a.mkv" }

handle_webdav-Serves_example :
    Serves 0
      (handle_webdav busy_world settings (λ rows. rows) (λ m. m) (films ∷ []) 9 get [] asked server)
unfolding any keep list_dir latest like some_suffix fold mount_of virtual_path_name text_eq
    trim_prefix has_prefix index_byte trim_right_slash is_short_date root_for_request alias_path
    lookup map_filters insert apply keep_largest collect keep_loop apply_loop verdict
    match_directory match_file match_size keep_step
handle_webdav-Serves_example =
    handle_webdav-Serves busy_world settings (λ rows. rows) (λ m. m) (films ∷ []) get [] asked 2 9 0
      server (λ p m. refl) refl (omega arith) refl (omega arith) server-Sound

get_propfind-Agree_example :
    let mount = mount_of (films ∷ []) (codes "/webdav/__all__/Show/") in
    Agree
      (serve_dir_listing busy_world
        (λ rows. rows)
        (λ m. m)
        (films ∷ [])
        (codes "/webdav/__all__/Show/")
        mount.0
        (root_for_request mount.1)
        server).0
      (handle_propfind busy_world
        (λ rows. rows)
        (λ m. m)
        (films ∷ [])
        (codes "/webdav/__all__/Show/")
        []
        mount.0
        mount.1
        server).0
unfolding any keep list_dir latest like some_suffix fold mount_of virtual_path_name text_eq
    trim_prefix has_prefix index_byte trim_right_slash is_short_date root_for_request
get_propfind-Agree_example =
    get_propfind-Agree busy_world (λ rows. rows) (λ m. m) (films ∷ [])
      (codes "/webdav/__all__/Show/") server (λ p m. refl) refl

movies-IsNamed : IsNamed movies
unfolding contains
movies-IsNamed = (λ e. (let no_name = e in cc), refl)

movies-IsEntry : IsEntry floats (λ s. s) (λ s. none) movies
unfolding parse_file_size trim_space parse_int multiplier text_eq to_upper
movies-IsEntry =
    (inl refl, inl refl, inr refl, (pos 300, pos 0, refl, refl, inr (inl (omega arith))))

file-IsAccepted : IsAccepted floats (λ s. s) (λ s. none) file
unfolding to_lower
file-IsAccepted = (
  (
    (λ e. (let no_key = e in cc)),
    (inl refl, (inr (inr (inr (inl refl))), (inl refl, (inl refl, tt)))),
  ),
  (
    (inl refl, (inl refl, tt)),
    (
      (inl refl, (inl refl, (inl refl, (tt, (tt, tt))))),
      (
        (inl refl, (inl refl, (inl refl, (inl refl, tt)))),
        (
          (
            (omega arith, omega arith),
            (tt, (tt, (tt, (tt, (tt, (tt, (tt, (tt, (tt, (tt, (tt, tt))))))))))),
          ),
          (
            inr (omega arith, omega arith),
            (inl refl, ((((movies-IsNamed, inr (movies-IsEntry, tt), tt)), (inl refl, tt)), tt)),
          ),
        ),
      ),
    ),
  ),
)

server_config-load_example :
    (cfg : State.Config) × (server_config (set_defaults file) ≡ some cfg) × IsSensible cfg
server_config-load_example =
    server_config-load floats (λ s. s) (λ s. none) file (set_defaults file)
      ((load_iff floats (λ s. s) (λ s. none) file (set_defaults file)).1 (file-IsAccepted, refl))

virtual_path_map-Mounted_example :
    (fs : List Filter) × (build_filters floats (λ s. s) (λ s. some (λ t. true)) (movies ∷ [])
      ≡ some fs)
    × Mounted floats
        (λ s. s)
        (λ s. none)
        (λ s. some (λ t. true))
        (λ s fine. ((λ t. true), refl))
        (make_virtual_path_map fs)
        (movies ∷ [])
virtual_path_map-Mounted_example =
    virtual_path_map-Mounted floats (λ s. s) (λ s. none) (λ s. some (λ t. true))
      (λ s fine. ((λ t. true), refl)) (movies ∷ []) (movies-IsNamed, inr (movies-IsEntry, tt), tt)
      (movies-IsEntry, tt)
