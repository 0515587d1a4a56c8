-- ===== src/Server/Setup/Mounts.antt =====
-- The filters of accepted virtual paths, and the map that finds them by name.
use warpbox.Base.{
  ◌≡◌, refl, ap, ◌∙◌, ◌⊎◌, inl, inr, Option, none, some, List, [], ◌∷◌, ◌++◌, if◌then◌else◌,
}
use warpbox.Base.Text.{Text, codes, text_eq, text_eq_refl, has_prefix, trim_prefix}
use warpbox.Base.Assoc.{Assoc, lookup, insert, lookup-insert}
use warpbox.Metadata.Record.{text_keys}
use warpbox.Library.Filter.{Regexp, Filter, compile_field, new_filter}
use warpbox.Config.{VirtualPathConfig}
use warpbox.Config.Size.{Floats}
use warpbox.Config.Entries.{Fresh, IsPattern, IsEntry, IsPaths}
use warpbox.Server.Setup.{
  build_filter, build_filters, map_filters, make_virtual_path_map, ◌>>=◌, bind,
}

trim_prefix-slash : (name : Text) → trim_prefix (codes "/" ++ name) (codes "/") ≡ name
unfolding trim_prefix has_prefix
trim_prefix-slash [] = refl
trim_prefix-slash (c ∷ s) = refl

-- `agree`: the call that validates a pattern and the call that builds a filter are the same, so a
-- pattern without an error has a compiled form.
module _ (F : Floats) (quote : Text → Text) (compile_error : Text → Option Text)
    (compile : Text → Option Regexp)
    (agree : (s : Text) → compile_error s ≡ none → (r : Regexp) × (compile s ≡ some r)) where
  abbrev built : VirtualPathConfig → Option Filter
  built = build_filter F quote compile

  compile_field-IsPattern :
      (s : Text)
      → IsPattern F quote compile_error s
      → (r : Option Regexp) × (compile_field compile s ≡ some r)
  unfolding compile_field
  compile_field-IsPattern [] h = (none, refl)
  compile_field-IsPattern (c ∷ s) (inl empty) = absurd cc
  compile_field-IsPattern (c ∷ s) (inr fine) =
      let (r, compiled) = agree (c ∷ s) fine in (some r, rw (compiled, compile_field) refl)

  build_filter-IsEntry :
      (vp : VirtualPathConfig)
      → IsEntry F quote compile_error vp
      → (f : Filter) × (built vp ≡ some f) × (f.mount ≡ codes "/" ++ vp.name)
  unfolding build_filter new_filter ◌>>=◌
  build_filter-IsEntry vp (include, exclude, file, (lo, hi, low, high, sorted)) =
      let (a, e1) = compile_field-IsPattern vp.directory_include include in
      let (b, e2) = compile_field-IsPattern vp.directory_exclude exclude in
      let (c, e3) = compile_field-IsPattern vp.file_regex file in
      (
        record {
          mount = codes "/" ++ vp.name;
          directory_include = a;
          directory_exclude = b;
          file_regex = c;
          largest_file_only = vp.largest_file_only;
          min_size = lo;
          max_size = hi;
        },
        rw (e1, e2, e3, low, high, build_filter, new_filter, ◌>>=◌) refl,
        refl,
      )

  -- An accepted entry that is called __all__ is not checked by Load.
  abbrev pub AllEntries : List VirtualPathConfig → Type 0
  AllEntries [] = Unit
  AllEntries (vp ∷ vps) = IsEntry F quote compile_error vp × AllEntries vps

  -- The map finds the filter of each path by its name.
  abbrev pub Mounted : Assoc Text Filter → List VirtualPathConfig → Type 0
  Mounted m [] = Unit
  Mounted m (vp ∷ vps) =
      ((vp.name ≡ codes "__all__")
        ⊎ ((f : Filter) × (built vp ≡ some f) × (lookup vp.name m ≡ some f)))
      × Mounted m vps

  -- The loops from a map m on, which keep what other names find.
  abbrev Mounts : Assoc Text Filter → List VirtualPathConfig → Type 0
  Mounts m vps =
      (fs : List Filter) × (build_filters F quote compile vps ≡ some fs)
      × Mounted (map_filters m fs) vps
      × ((name : Text) → Fresh name vps → lookup name (map_filters m fs) ≡ lookup name m)

  lookup-mount :
      (name other : Text) (f : Filter) (m : Assoc Text Filter)
      → f.mount ≡ codes "/" ++ name
      → lookup other (insert (trim_prefix f.mount (codes "/")) f m)
        ≡ (if text_eq name other then some f else lookup other m)
  lookup-mount name other f m mount =
      let key = ap (λ s. trim_prefix s (codes "/")) mount ∙ trim_prefix-slash name in
      rw key (lookup-insert name other f m)

  paths-Mounts :
      (m : Assoc Text Filter) (vps : List VirtualPathConfig)
      → IsPaths F quote compile_error vps
      → AllEntries vps
      → Mounts m vps
  unfolding build_filters map_filters
  paths-Mounts m [] paths entries = ([], refl, tt, λ name fresh. refl)
  paths-Mounts m (vp ∷ vps) (named, own, later) (entry, entries) =
      let (f, e, mount) = build_filter-IsEntry vp entry in
      let m' = insert (trim_prefix f.mount (codes "/")) f m in
      let (fs, e', mounted, keeps) = paths-Mounts m' vps later entries in
      let found : lookup vp.name m' ≡ some f =
        rw (lookup-mount vp.name vp.name f m mount, text_eq_refl vp.name) refl in
      (
        f ∷ fs,
        bind _ _ f e ∙ bind _ _ fs e',
        (
          elim own [ inl all ↦ inl all | inr (x, fresh) ↦ inr (f, e, keeps vp.name fresh ∙ found) ],
          mounted,
        ),
        λ name (other, fresh).
            keeps name fresh ∙ rw (lookup-mount vp.name name f m mount, other) refl,
      )

  -- The virtual paths of a configuration that Load accepts, where an entry called __all__ has patterns
  -- and sizes like the others: their filters are built, and the server's map finds the filter of every
  -- path that is not called __all__ under the path's name.
  pub virtual_path_map-Mounted :
      (vps : List VirtualPathConfig)
      → IsPaths F quote compile_error vps
      → AllEntries vps
      → (fs : List Filter) × (build_filters F quote compile vps ≡ some fs)
        × Mounted (make_virtual_path_map fs) vps
  virtual_path_map-Mounted vps paths entries =
      let (fs, e, mounted, keeps) = paths-Mounts [] vps paths entries in (fs, e, mounted)
