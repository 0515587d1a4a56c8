-- ===== src/Server/Listing/Agree.antt =====
-- serveDirListing and a PROPFIND list the same hrefs.
use warpbox.Base.{
  ◌≡◌, refl, sym, ap, ap₂, ◌∙◌, Bool, true, false, ◌&&◌, ◌||◌, Option, none, some, List, [], ◌∷◌,
  ◌++◌, map, any, if◌then◌else◌, arith, Bool-cases, Option-cases, inl, inr,
}
use warpbox.Base.Text.{Text, codes, text_eq, text_eq_iff}
use warpbox.Base.Assoc.{Assoc, lookup, insert, remove}
use warpbox.Metadata.Record.{FileRecord, text_keys}
use warpbox.Metadata.Store.Dir.{list_dir}
use warpbox.Library.Filter.{Filter}
use warpbox.Server.State.{Server, World}
use warpbox.Server.Answer.{Answer, error_reply, listing, Entry}
use warpbox.Server.Listing.Dates.{any-append, any-map, is_short_row, listed_rows, rendered-dated}
use warpbox.Server.Listing.{
  webdav_root, root_for_request, ChildInfo, immediate_name, child_info, add_child, immediate, strip,
  normalised, is_outside, filtered, children, child_entry, is_deep, dir_entry, dir_href,
  append_response, append_all, entries, serve_dir_listing, handle_propfind, trim_right_slash,
}

abbrev pub has_href : Text → List Entry → Bool
has_href h es = any (λ e. text_eq e.href h) es

has_href-append_response :
    (h : Text) (e : Entry) (rs : List Entry)
    → has_href h (append_response e rs) ≡ (has_href h rs || text_eq e.href h)
unfolding append_response any
has_href-append_response h e rs = elim (Bool-cases (has_href e.href rs)) [
  | inr new ↦
      rw (new, append_response) (any-append (λ r. text_eq r.href h) rs (e ∷ []) ∙ ground arith)
  | inl seen ↦
      rw (seen, append_response)
        (elim (Bool-cases (text_eq e.href h)) [
          | inl same ↦
              let there : has_href h rs ≡ true =
                ap (λ t. has_href t rs) (sym ((text_eq_iff e.href h).0 same)) ∙ seen in
              ground arith
          | inr different ↦ ground arith
        ])
]

has_href-append_all :
    (h : Text) (es rs : List Entry)
    → has_href h (append_all es rs) ≡ (has_href h rs || has_href h es)
unfolding append_all any
has_href-append_all h [] rs = ground arith
has_href-append_all h (e ∷ es) rs =
    ground (arith, has_href-append_all h es (append_response e rs), has_href-append_response h e rs)

-- One child after the other, by name and kind.
abbrev Similar : Assoc Text ChildInfo → Assoc Text ChildInfo → Type 0
Similar [] [] = Unit
Similar [] (p ∷ m) = ⊥
Similar (p ∷ m) [] = ⊥
Similar (p ∷ m) (p' ∷ m') = (p.0 ≡ p'.0) × (p.1.is_dir ≡ p'.1.is_dir) × Similar m m'

remove-Similar :
    (k : Text) (m m' : Assoc Text ChildInfo) → Similar m m' → Similar (remove k m) (remove k m')
unfolding remove
remove-Similar k [] [] h = tt
remove-Similar k [] (p ∷ m) h = absurd h
remove-Similar k (p ∷ m) [] h = absurd h
remove-Similar k ((a, i) ∷ m) ((b, j) ∷ m') (name, kind, rest) = elim (Bool-cases (text_eq a k)) [
  | inl here ↦
      let here' : text_eq b k ≡ true = rw name at here in
      rw (here, here') (remove-Similar k m m' rest)
  | inr there ↦
      let there' : text_eq b k ≡ false = rw name at there in
      rw (there, there') (name, kind, remove-Similar k m m' rest)
]

abbrev known : Text → Assoc Text ChildInfo → Bool
known k m = elim (lookup k m) [ none ↦ false | some i ↦ true ]

known-Similar : (k : Text) (m m' : Assoc Text ChildInfo) → Similar m m' → known k m ≡ known k m'
unfolding lookup
known-Similar k [] [] h = refl
known-Similar k [] (p ∷ m) h = absurd h
known-Similar k (p ∷ m) [] h = absurd h
known-Similar k ((a, i) ∷ m) ((b, j) ∷ m') (name, kind, rest) = elim (Bool-cases (text_eq a k)) [
  | inl here ↦
      let here' : text_eq b k ≡ true = rw name at here in rw (here, here', known, lookup) refl
  | inr there ↦
      let there' : text_eq b k ≡ false = rw name at there in
      rw (there, there', known, lookup) (known-Similar k m m' rest)
]

add_child-Similar :
    (name : Text) (i i' : ChildInfo) (m m' : Assoc Text ChildInfo)
    → i.is_dir ≡ i'.is_dir
    → Similar m m'
    → Similar (add_child name i m) (add_child name i' m')
unfolding insert
add_child-Similar name i i' m m' kind same =
    let both = known-Similar name m m' same in
    elim (Option-cases (lookup name m)) [
      | inl new ↦ elim (Option-cases (lookup name m')) [
        | inl new' ↦ rw (new, new', add_child) (refl, kind, remove-Similar name m m' same)
        | inr (j', old') ↦ absurd (let no = (rw (new, old', known) at both) in cc)
      ]
      | inr (j, old) ↦ elim (Option-cases (lookup name m')) [
        | inl new' ↦ absurd (let no = (rw (old, new', known) at both) in cc)
        | inr (j', old') ↦ rw (old, old', add_child) same
      ]
    ]

child_kind :
    (nested : Bool) (rec : FileRecord)
    → (child_info false nested rec).is_dir ≡ (child_info true nested rec).is_dir
child_kind true rec = refl
child_kind false rec = refl

immediate-Similar :
    (prefix : Text) (records : List FileRecord) (m m' : Assoc Text ChildInfo)
    → Similar m m'
    → Similar (immediate false prefix m records) (immediate true prefix m' records)
unfolding immediate
immediate-Similar prefix [] m m' same = same
immediate-Similar prefix (rec ∷ records) m m' same =
    let (name, nested) = immediate_name (strip rec.path prefix) in
    immediate-Similar prefix records _ _ (
      add_child-Similar name (child_info false nested rec) (child_info true nested rec) m m'
        (child_kind nested rec) same)

-- A child's href is decided by its name and its kind.
child_hrefs :
    (h base : Text) (m m' : Assoc Text ChildInfo)
    → Similar m m'
    → any (λ p. text_eq (child_entry base p).href h) m
      ≡ any (λ p. text_eq (child_entry base p).href h) m'
unfolding any
child_hrefs h base [] [] same = refl
child_hrefs h base [] (p ∷ m) same = absurd same
child_hrefs h base (p ∷ m) [] same = absurd same
child_hrefs h base ((a, i) ∷ m) ((b, j) ∷ m') (name, kind, rest) =
    ap₂ (λ x y. x || y)
      (ap₂ (λ n d. text_eq (if d then base ++ (n ++ codes "/") else base ++ n) h) name kind)
      (child_hrefs h base m m' rest)

-- Both report the same error, or list the same hrefs.
abbrev pub Agree : Answer → Answer → Type 0
Agree (error_reply a s) (error_reply b t) = (a ≡ b) × (s ≡ t)
Agree (listing es) (listing es') = (h : Text) → has_href h es ≡ has_href h es'
Agree _ _ = ⊥

-- `ranges`: an iteration of a Go map visits its entries, each once, in some order.
module _ (w : World) (by_name : List FileRecord → List FileRecord)
    (range_map : Assoc Text ChildInfo → Assoc Text ChildInfo) (filters : List Filter)
    (ranges : (p : Text × ChildInfo → Bool) (m : Assoc Text ChildInfo)
      → any p (range_map m) ≡ any p m) where
  ranged_hrefs :
      (h base : Text) (m : Assoc Text ChildInfo)
      → has_href h (map (child_entry base) (range_map m))
        ≡ any (λ p. text_eq (child_entry base p).href h) m
  ranged_hrefs h base m =
      any-map (λ e. text_eq e.href h) (child_entry base) (range_map m)
      ∙ ranges (λ p. text_eq (child_entry base p).href h) m

  children_agree :
      (h : Text) (mounts : Bool) (path prefix : Text) (records : List FileRecord)
      → has_href h (children w by_name range_map filters false mounts path prefix records)
        ≡ has_href h (children w by_name range_map filters true mounts path prefix records)
  children_agree h true path prefix records = refl
  children_agree h false path prefix records =
      let base = trim_right_slash path ++ codes "/" in
      let found = immediate false prefix [] records in
      let dated = immediate true prefix [] records in
      ranged_hrefs h base found
      ∙ (child_hrefs h base found dated (immediate-Similar prefix records [] [] tt)
          ∙ sym (ranged_hrefs h base dated))

  entries_agree :
      (h depth : Text) (mounts : Bool) (path prefix : Text) (records : List FileRecord)
      → has_href h (entries w by_name range_map filters false depth mounts path prefix records)
        ≡ has_href h (entries w by_name range_map filters true depth mounts path prefix records)
  unfolding entries
  entries_agree h depth mounts path prefix records =
      let own = append_response (dir_entry (dir_href path) []) [] in
      let found = children w by_name range_map filters false mounts path prefix records in
      let dated = children w by_name range_map filters true mounts path prefix records in
      elim (Bool-cases (is_deep depth)) [
        | inr shallow ↦ rw (shallow, entries) refl
        | inl deep ↦
            rw (deep, entries)
              (has_href-append_all h found own
                ∙ (ap (λ b. has_href h own || b) (children_agree h mounts path prefix records)
                    ∙ sym (has_href-append_all h dated own)))
      ]

  pub listing_agrees :
      (path : Text) (f : Option Filter) (mount : Option Text) (s : Server)
      → text_eq (root_for_request mount) webdav_root ≡ is_outside mount
      → any is_short_row (listed_rows by_name path f mount s) ≡ false
      → Agree
          (serve_dir_listing w by_name range_map filters path f (root_for_request mount) s).0
          (handle_propfind w by_name range_map filters path [] f mount s).0
  unfolding serve_dir_listing handle_propfind
  listing_agrees path f mount s outside fine_dates =
      let p = normalised path in
      let prefix = strip p (root_for_request mount) in
      let records = filtered f (list_dir by_name prefix s.store) in
      let shown = λ (dated mounts : Bool).
        rendered-dated w by_name range_map filters ranges dated (codes "1") mounts p prefix records
          fine_dates in
      elim (Option-cases (w.query_error s.events)) [
        | inr (e, failed) ↦ rw (failed, serve_dir_listing, handle_propfind) (refl, refl)
        | inl fine ↦
            rw (fine, serve_dir_listing, handle_propfind)
              (rw (shown false (text_eq prefix [] && text_eq (root_for_request mount) webdav_root))
                (rw (shown true (text_eq prefix [] && is_outside mount)) (λ h.
                  ap
                    (λ b. has_href h (
                      entries w by_name range_map filters false (codes "1") (text_eq prefix [] && b)
                        p prefix records))
                    outside
                  ∙ entries_agree h (codes "1") (text_eq prefix [] && is_outside mount) p prefix
                      records)))
      ]
