-- ===== src/Config/Entries.antt =====
-- validateLibrary: which virtual paths are accepted.
use warpbox.Base.{
  ℕ, suc, ◌≡◌, ◌≢◌, refl, ◌↔◌, ◌⊎◌, inl, inr, true, false, Option, none, List, [], ◌∷◌, any, arith,
  Bool-cases, Option-cases,
}
use warpbox.Base.Int.{ℤ, pos, negsuc, ◌≤ℤ◌}
use warpbox.Base.Text.{Text, codes, contains, text_eq, text_eq_iff}
use warpbox.Base.Result.{ok, Result-cases}
use warpbox.Config.{VirtualPathConfig}
use warpbox.Config.Size.{Floats, parse_file_size}
use warpbox.Config.Validate.{
  first_failure, check_regexp, check_sizes, entry_checks, all_name, ordered, validate_paths,
}
use warpbox.Config.Checks.{first_error_iff}

abbrev pub IsNamed : VirtualPathConfig → Type 0
IsNamed vp = (vp.name ≢ []) × (contains vp.name (codes "/") ≡ false)

-- No later entry has the name.
abbrev pub Fresh : Text → List VirtualPathConfig → Type 0
Fresh name [] = Unit
Fresh name (vp ∷ vps) = (text_eq vp.name name ≡ false) × Fresh name vps

-- Bounds that are set are in order.
abbrev pub IsOrdered : ℤ → ℤ → Type 0
IsOrdered lo hi = (lo ≤ℤ pos 0) ⊎ ((hi ≤ℤ pos 0) ⊎ (lo ≤ℤ hi))

ordered_iff : (lo hi : ℤ) → (ordered lo hi ≡ true) ↔ IsOrdered lo hi
ordered_iff (pos a) (pos b) = ground arith
ordered_iff (pos a) (negsuc b) = ground arith
ordered_iff (negsuc a) (pos b) = ground arith
ordered_iff (negsuc a) (negsuc b) = ground arith

wrong_order : (lo hi x y : ℤ) → lo ≡ x → hi ≡ y → ordered lo hi ≡ false → ¬ IsOrdered x y
wrong_order lo hi x y same same' wrong sorted =
    let fine = (ordered_iff x y).1 sorted in
    let wrong' : ordered x y ≡ false = rw (same, same') at wrong in cc

module _ (F : Floats) (quote : Text → Text) (compile_error : Text → Option Text) where
  abbrev pub IsPattern : Text → Type 0
  IsPattern s = (s ≡ []) ⊎ (compile_error s ≡ none)

  abbrev pub IsSized : VirtualPathConfig → Type 0
  IsSized vp =
      (lo : ℤ) × (hi : ℤ) × (parse_file_size F quote vp.min_file_size ≡ ok lo)
      × (parse_file_size F quote vp.max_file_size ≡ ok hi)
      × IsOrdered lo hi

  abbrev pub IsEntry : VirtualPathConfig → Type 0
  IsEntry vp =
      IsPattern vp.directory_include
      × IsPattern vp.directory_exclude
      × IsPattern vp.file_regex
      × IsSized vp

  -- Every entry has a name without a slash; one that is not called __all__ has a name of its own,
  -- patterns that compile, and sizes in order.
  abbrev pub IsPaths : List VirtualPathConfig → Type 0
  IsPaths [] = Unit
  IsPaths (vp ∷ vps) =
      IsNamed vp × ((vp.name ≡ codes "__all__") ⊎ (IsEntry vp × Fresh vp.name vps)) × IsPaths vps

  check_regexp_iff :
      (i : ℕ) (field s : Text) → (check_regexp F quote compile_error i field s ≡ none) ↔ IsPattern s
  unfolding check_regexp
  check_regexp_iff i field [] = (λ h. inl refl, λ h. refl)
  check_regexp_iff i field (c ∷ s) = elim (Option-cases (compile_error (c ∷ s))) [
    | inl good ↦ (λ h. inr good, λ h. rw (good, check_regexp) refl)
    | inr (e, bad) ↦ (
      λ h. absurd (let no = (rw (bad, check_regexp) at h) in cc),
      λ h. elim h [ inl empty ↦ absurd cc | inr good ↦ absurd cc ],
    )
  ]

  check_sizes_iff :
      (i : ℕ) (vp : VirtualPathConfig)
      → (check_sizes F quote compile_error i vp ≡ none) ↔ IsSized vp
  unfolding check_sizes
  check_sizes_iff i vp = elim (Result-cases (parse_file_size F quote vp.min_file_size)) [
    | inr (e, bad) ↦ (
      λ h. absurd (let no = (rw (bad, check_sizes) at h) in cc),
      λ h. absurd (let (x, y, good, good', rest) = h in cc),
    )
    | inl (lo, min_good) ↦ elim (Result-cases (parse_file_size F quote vp.max_file_size)) [
      | inr (e, bad) ↦ (
        λ h. absurd (let no = (rw (min_good, bad, check_sizes) at h) in cc),
        λ h. absurd (let (lo, hi, good, good', rest) = h in cc),
      )
      | inl (hi, max_good) ↦ elim (Bool-cases (ordered lo hi)) [
        | inl fine ↦ (
          λ h. (lo, hi, min_good, max_good, (ordered_iff lo hi).0 fine),
          λ h. rw (min_good, max_good, fine, check_sizes) refl,
        )
        | inr wrong ↦ (
          λ h. absurd (let no = (rw (min_good, max_good, wrong, check_sizes) at h) in cc),
          λ h. absurd (
              let (x, y, good, good', sorted) = h in
              let same : lo ≡ x = cc in
              let same' : hi ≡ y = cc in wrong_order lo hi x y same same' wrong sorted),
        )
      ]
    ]
  ]

  entry_checks_iff :
      (i : ℕ) (vp : VirtualPathConfig)
      → (first_failure (entry_checks F quote compile_error i vp) ≡ none) ↔ IsEntry vp
  entry_checks_iff i vp =
      let checks = first_error_iff (entry_checks F quote compile_error i vp) in
      let include = check_regexp_iff i (codes ".directory_include") vp.directory_include in
      let exclude = check_regexp_iff i (codes ".directory_exclude") vp.directory_exclude in
      let file = check_regexp_iff i (codes ".file_regex") vp.file_regex in
      let sizes = check_sizes_iff i vp in
      (
        λ h.
            (let (a, (b, (c, (d, t)))) = checks.0 h in
              (include.0 a, exclude.0 b, file.0 c, sizes.0 d)),
        λ h.
            (let (a, b, c, d) = h in
              checks.1 (include.1 a, (exclude.1 b, (file.1 c, (sizes.1 d, tt))))),
      )

  -- No accepted entry has a name among `seen`.
  abbrev Unseen : List Text → List VirtualPathConfig → Type 0
  Unseen seen [] = Unit
  Unseen seen (vp ∷ vps) =
      ((vp.name ≡ all_name) ⊎ (any (text_eq vp.name) seen ≡ false)) × Unseen seen vps

  Unseen-cons :
      (name : Text) (seen : List Text) (vps : List VirtualPathConfig)
      → text_eq name all_name ≡ false
      → Unseen (name ∷ seen) vps ↔ (Fresh name vps × Unseen seen vps)
  unfolding any
  Unseen-cons name seen [] other = (λ h. (tt, tt), λ h. tt)
  Unseen-cons name seen (vp ∷ vps) other = ground (
    arith,
    Unseen-cons name seen vps other,
    text_eq_iff vp.name all_name,
    text_eq_iff vp.name name,
    text_eq_iff name all_name,
  )

  validate_paths_iff :
      (seen : List Text) (i : ℕ) (vps : List VirtualPathConfig)
      → (validate_paths F quote compile_error seen i vps ≡ none) ↔ (IsPaths vps × Unseen seen vps)
  unfolding validate_paths first_failure
  validate_paths_iff seen i [] = (λ h. (tt, tt), λ h. refl)
  validate_paths_iff seen i (vp ∷ vps) = elim (Bool-cases (text_eq vp.name [])) [
    | inl empty ↦ (
      λ h. absurd (let no = (rw (empty, validate_paths) at h) in cc),
      λ h. absurd (h.0.0.0 ((text_eq_iff vp.name []).0 empty)),
    )
    | inr full ↦ elim (Bool-cases (contains vp.name (codes "/"))) [
      | inl slash ↦ (
        λ h. absurd (let no = (rw (full, slash, validate_paths) at h) in cc),
        λ h. absurd (let no = h.0.0.1 in cc),
      )
      | inr flat ↦
          let named : IsNamed vp = (λ e. (let yes = (text_eq_iff vp.name []).1 e in cc), flat) in
          elim (Bool-cases (text_eq vp.name all_name)) [
            | inl all ↦
                let later = validate_paths_iff seen (suc i) vps in
                let is_all = (text_eq_iff vp.name all_name).0 all in
                (
                  λ h.
                      (let (p, u) = later.0 (rw (full, flat, all, validate_paths) at h) in
                        ((named, inl is_all, p), (inl is_all, u))),
                  λ h. rw (full, flat, all, validate_paths) (later.1 (h.0.2, h.1.1)),
                )
            | inr other ↦
                let later = validate_paths_iff (vp.name ∷ seen) (suc i) vps in
                let fresh = Unseen-cons vp.name seen vps other in
                let entry_fine = entry_checks_iff i vp in
                let not_all : ¬ (vp.name ≡ all_name) =
                  λ e. (let yes = (text_eq_iff vp.name all_name).1 e in cc) in
                elim (Bool-cases (any (text_eq vp.name) seen)) [
                  | inl twice ↦ (
                    λ h.
                        absurd
                          (let no = (rw (full, flat, other, twice, validate_paths) at h) in cc),
                    λ h.
                        absurd
                          (elim h.1.0 [ inl all ↦ not_all all | inr new ↦ (let once = new in cc) ]),
                  )
                  | inr once ↦
                      let checks = first_error_iff (
                        first_failure (entry_checks F quote compile_error i vp)
                        ∷ validate_paths F quote compile_error (vp.name ∷ seen) (suc i) vps
                        ∷ []) in
                      (
                        λ h.
                            (let (a, (b, t)) =
                                checks.0 (rw (full, flat, other, once, validate_paths) at h) in
                              let (p, u) = later.0 b in
                              let (f, u') = fresh.0 u in
                              ((named, inr (entry_fine.0 a, f), p), (inr once, u'))),
                        λ h. elim h.0.1 [
                          | inl all ↦ absurd (not_all all)
                          | inr (e, f) ↦
                              rw (full, flat, other, once, validate_paths)
                                (checks.1
                                  (entry_fine.1 e, (later.1 (h.0.2, fresh.1 (f, h.1.1)), tt)))
                        ],
                      )
                ]
          ]
    ]
  ]

  Unseen-none : (vps : List VirtualPathConfig) → Unseen [] vps
  unfolding any
  Unseen-none [] = tt
  Unseen-none (vp ∷ vps) = (inr refl, Unseen-none vps)

  pub IsPaths-iff :
      (vps : List VirtualPathConfig)
      → (validate_paths F quote compile_error [] 0 vps ≡ none) ↔ IsPaths vps
  IsPaths-iff vps =
      let both = validate_paths_iff [] 0 vps in
      (λ h. (both.0 h).0, λ h. both.1 (h, Unseen-none vps))
