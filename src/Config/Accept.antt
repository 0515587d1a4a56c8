-- ===== src/Config/Accept.antt =====
-- Which configurations Load accepts.
use warpbox.Base.{
  ◌≡◌, ◌≢◌, refl, sym, ap, ◌↔◌, ◌⊎◌, inl, inr, Bool, true, false, Option, none, [], ◌∷◌, ◌++◌,
  arith, if◌then◌else◌, Option-cases,
}
use warpbox.Base.Int.{pos}
use warpbox.Base.Text.{Text, codes, text_eq_iff, to_lower}
use warpbox.Base.Result.{ok}
use warpbox.Config.{LibraryConfig, Config}
use warpbox.Config.Size.{Floats}
use warpbox.Config.Defaults.{or_int, or_text, set_defaults}
use warpbox.Config.Validate.{
  check_range, wrapped, parse_format, parse_level, prefixed, required, validate_paths,
  validate_library, checks_before_sync, sync_checks, stats_checks, cache_checks, head_checks,
  tail_checks, validate, load,
}
use warpbox.Config.Checks.{
  IsGiven, AllNone, first_error_iff, or_int_iff, prefixed_iff, required_iff,
}
use warpbox.Config.Entries.{IsPaths, IsPaths-iff}
use warpbox.Config.Sections.{
  ◌⊗◌, ◌⊠◌, join, end, IsCdnTimed, IsSyncing, IsCounted, IsCaching, IsCdnTimed-iff, IsSyncing-iff,
  IsCounted-iff, IsCaching-iff,
}

abbrev pub IsFormat : Text → Type 0
IsFormat s = (to_lower s ≡ codes "text") ⊎ (to_lower s ≡ codes "json")

abbrev pub IsLevel : Text → Type 0
IsLevel s =
    (to_lower s ≡ codes "debug")
    ⊎ ((to_lower s ≡ codes "info") ⊎ ((to_lower s ≡ codes "warn") ⊎ (to_lower s ≡ codes "error")))

module _ (F : Floats) (quote : Text → Text) (compile_error : Text → Option Text) where
  parse_format_iff : (s : Text) → (parse_format F quote compile_error s ≡ none) ↔ IsFormat s
  unfolding parse_format
  parse_format_iff s =
      ground
        (arith, text_eq_iff (to_lower s) (codes "text"), text_eq_iff (to_lower s) (codes "json"))

  parse_level_iff :
      (s : Text)
      → (wrapped (codes "logging.level") (parse_level F quote compile_error s) ≡ none) ↔ IsLevel s
  unfolding parse_level
  parse_level_iff s =
      let d = text_eq_iff (to_lower s) (codes "debug") in
      let i = text_eq_iff (to_lower s) (codes "info") in
      let w = text_eq_iff (to_lower s) (codes "warn") in
      let e = text_eq_iff (to_lower s) (codes "error") in ground arith

  abbrev pub IsHead : Config → Type 0
  IsHead c =
      (c.torbox.api_key ≢ [])
      ⊠ ((c.logging.format ≡ []) ⊎ IsFormat c.logging.format)
      ⊠ ((c.logging.level ≡ []) ⊎ IsLevel c.logging.level)
      ⊠ IsGiven 1 1440 c.cache.cdn_url_ttl_minutes
      ⊠ IsGiven 5 600 c.torbox.request_timeout_seconds
      ⊠ Unit

  abbrev pub IsLibrary : LibraryConfig → Type 0
  IsLibrary l =
      IsPaths F quote compile_error l.virtual_paths ⊠ IsGiven 1 3600 l.hook_timeout_sec ⊠ Unit

  abbrev pub IsTail : Config → Type 0
  IsTail c =
      IsGiven 10 1000 c.throttle.requests_per_minute
      ⊠ ((c.auth.enabled ≡ false) ⊎ (c.auth.password ≢ []))
      ⊠ IsLibrary c.library
      ⊠ Unit

  IsFormat-default :
      (s : Text)
      → (prefixed
            (codes "logging.format: ")
            (parse_format F quote compile_error (or_text (codes "text") s))
          ≡ none)
        ↔ ((s ≡ []) ⊎ IsFormat s)
  unfolding to_lower
  IsFormat-default [] = (
    λ h. inl refl,
    λ h.
        (prefixed_iff (codes "logging.format: ") _).1
          ((parse_format_iff (codes "text")).1 (inl refl)),
  )
  IsFormat-default (c ∷ s) = (
    λ h. inr ((parse_format_iff (c ∷ s)).0 ((prefixed_iff (codes "logging.format: ") _).0 h)),
    λ h.
        (prefixed_iff (codes "logging.format: ") _).1
          ((parse_format_iff (c ∷ s)).1 (elim h [ inl empty ↦ absurd cc | inr format ↦ format ])),
  )

  IsLevel-default :
      (s : Text)
      → (wrapped
            (codes "logging.level")
            (parse_level F quote compile_error (or_text (codes "info") s))
          ≡ none)
        ↔ ((s ≡ []) ⊎ IsLevel s)
  unfolding to_lower
  IsLevel-default [] = (λ h. inl refl, λ h. (parse_level_iff (codes "info")).1 (inr (inl refl)))
  IsLevel-default (c ∷ s) = (
    λ h. inr ((parse_level_iff (c ∷ s)).0 h),
    λ h. (parse_level_iff (c ∷ s)).1 (elim h [ inl empty ↦ absurd cc | inr level ↦ level ]),
  )

  password_iff :
      (message : Text) (enabled : Bool) (password : Text)
      → ((if enabled then required message password else none) ≡ none)
        ↔ ((enabled ≡ false) ⊎ (password ≢ []))
  password_iff message false password = (λ h. inl refl, λ h. refl)
  password_iff message true password = (
    λ h. inr ((required_iff message password).0 h),
    λ h. (required_iff message password).1 (elim h [ inl no_auth ↦ absurd cc | inr set ↦ set ]),
  )

  IsHead-iff :
      (c : Config) → AllNone (head_checks F quote compile_error (set_defaults c)) ↔ IsHead c
  unfolding set_defaults
  IsHead-iff c =
      required_iff _ c.torbox.api_key
      ⊗ IsFormat-default c.logging.format
      ⊗ IsLevel-default c.logging.level
      ⊗ or_int_iff _ 1 1440 120 c.cache.cdn_url_ttl_minutes (omega arith) (omega arith)
      ⊗ or_int_iff _ 5 600 90 c.torbox.request_timeout_seconds (omega arith) (omega arith)
      ⊗ end

  library_iff :
      (c : Config)
      → (validate_library F quote compile_error (set_defaults c).library ≡ none)
        ↔ IsLibrary c.library
  unfolding set_defaults validate_library
  library_iff c =
      let checks = first_error_iff (
        validate_paths F quote compile_error [] 0 c.library.virtual_paths
        ∷ check_range (codes "library.hook_timeout_seconds must be 1–3600") 1 3600
            (or_int (pos 30) c.library.hook_timeout_sec)
        ∷ []) in
      let parts =
        IsPaths-iff F quote compile_error c.library.virtual_paths
        ⊗ or_int_iff _ 1 3600 30 c.library.hook_timeout_sec (omega arith) (omega arith)
        ⊗ end in
      (λ h. parts.0 (checks.0 h), λ h. checks.1 (parts.1 h))

  IsTail-iff :
      (c : Config) → AllNone (tail_checks F quote compile_error (set_defaults c)) ↔ IsTail c
  unfolding set_defaults
  IsTail-iff c =
      or_int_iff _ 10 1000 250 c.throttle.requests_per_minute (omega arith) (omega arith)
      ⊗ password_iff _ c.auth.enabled c.auth.password
      ⊗ library_iff c
      ⊗ end

  -- The conditions on the fields of a configuration file, of which many may be left out.
  abbrev pub IsAccepted : Config → Type 0
  IsAccepted c =
      IsHead c
      ⊠ IsCdnTimed c.cache
      ⊠ IsSyncing c.sync
      ⊠ IsCounted c.stats
      ⊠ IsCaching c.cache
      ⊠ IsTail c

  checks_iff :
      (c : Config) → (validate F quote compile_error (set_defaults c) ≡ none) ↔ IsAccepted c
  unfolding validate set_defaults
  checks_iff c =
      let d = set_defaults c in
      let tail = tail_checks F quote compile_error d in
      let caching = cache_checks d.cache ++ tail in
      let counted = stats_checks d.stats ++ caching in
      let syncing = sync_checks d.sync ++ counted in
      let timed = checks_before_sync d.cache ++ syncing in
      let all = head_checks F quote compile_error d ++ timed in
      let checks = join (head_checks F quote compile_error d) timed (IsHead-iff c) (
        join (checks_before_sync d.cache) syncing (IsCdnTimed-iff c.cache) (
          join (sync_checks d.sync) counted (IsSyncing-iff c.sync) (
            join (stats_checks d.stats) caching (IsCounted-iff c.stats)
              (join (cache_checks d.cache) tail (IsCaching-iff c.cache) (IsTail-iff c))))) in
      (λ h. checks.0 ((first_error_iff all).0 h), λ h. (first_error_iff all).1 (checks.1 h))

  pub load_iff :
      (c d : Config) → (load F quote compile_error c ≡ ok d) ↔ (IsAccepted c × (d ≡ set_defaults c))
  unfolding load
  load_iff c d = elim (Option-cases (validate F quote compile_error (set_defaults c))) [
    | inl fine ↦ (
      λ h. ((checks_iff c).0 fine, (let same = rw (fine, load) at h in cc)),
      λ h. rw (fine, load) (ap ok (sym h.1)),
    )
    | inr (e, bad) ↦ (
      λ h. absurd (let no_value = (rw (bad, load) at h) in cc),
      λ h. absurd (let fine = (checks_iff c).1 h.0 in cc),
    )
  ]
