-- ===== src/Server/Listing/Dates.antt =====
-- A listing of rows without short dates does not panic.
use warpbox.Base.{
  ◌≡◌, refl, ap, ◌∙◌, Bool, true, false, ◌||◌, Option, List, [], ◌∷◌, ◌++◌, map, any, arith,
  Bool-cases, Option-cases, inl, inr,
}
use warpbox.Base.Text.{Text, codes, text_eq, trim_prefix}
use warpbox.Base.Assoc.{Assoc, lookup, insert, remove}
use warpbox.Metadata.Record.{FileRecord, text_keys}
use warpbox.Metadata.Store.Dir.{list_dir}
use warpbox.Library.Filter.{Filter}
use warpbox.Server.State.{Server, World}
use warpbox.Server.Answer.{listing, Entry}
use warpbox.Server.Listing.{
  ChildInfo, immediate_name, child_info, add_child, immediate, strip, is_short_date, rendered,
  children, child_entry, is_deep, dir_entry, dir_href, append_response, append_all, entries,
  trim_right_slash, filtered, normalised, root_for_request,
}

pub any-append :
    {A : Type 0} (p : A → Bool) (xs ys : List A) → any p (xs ++ ys) ≡ (any p xs || any p ys)
unfolding any
any-append p [] ys = refl
any-append p (x ∷ xs) ys = ground (arith, any-append p xs ys)

pub any-map :
    {A B : Type 0} (p : B → Bool) (f : A → B) (xs : List A)
    → any p (map f xs) ≡ any (λ x. p (f x)) xs
unfolding any
any-map p f [] = refl
any-map p f (x ∷ xs) = ap (λ b. p (f x) || b) (any-map p f xs)

abbrev pub is_short_row : FileRecord → Bool
is_short_row rec = is_short_date rec.created_at

abbrev is_short_child : Text × ChildInfo → Bool
is_short_child p = is_short_date p.1.created_at

abbrev is_short_entry : Entry → Bool
is_short_entry e = is_short_date e.created_at

remove-dated :
    (k : Text) (m : Assoc Text ChildInfo)
    → any is_short_child m ≡ false
    → any is_short_child (remove k m) ≡ false
unfolding any remove
remove-dated k [] h = refl
remove-dated k (p ∷ m) h = ground (arith, remove-dated k m)

add_child-dated :
    (name : Text) (i : ChildInfo) (m : Assoc Text ChildInfo)
    → is_short_date i.created_at ≡ false
    → any is_short_child m ≡ false
    → any is_short_child (add_child name i m) ≡ false
unfolding any insert
add_child-dated name i m fine h = elim (Option-cases (lookup name m)) [
  | inl new ↦ rw (new, add_child) (ground (arith, remove-dated name m h))
  | inr (j, old) ↦ rw (old, add_child) h
]

child_info-dated :
    (dated nested : Bool) (rec : FileRecord)
    → is_short_row rec ≡ false
    → is_short_date (child_info dated nested rec).created_at ≡ false
unfolding is_short_date
child_info-dated true true rec h = h
child_info-dated false true rec h = refl
child_info-dated dated false rec h = h

immediate-dated :
    (dated : Bool) (prefix : Text) (records : List FileRecord) (m : Assoc Text ChildInfo)
    → any is_short_row records ≡ false
    → any is_short_child m ≡ false
    → any is_short_child (immediate dated prefix m records) ≡ false
unfolding immediate any
immediate-dated dated prefix [] m fine h = h
immediate-dated dated prefix (rec ∷ records) m fine h =
    let (name, nested) = immediate_name (strip rec.path prefix) in
    immediate-dated dated prefix records _ (ground arith) (
      add_child-dated name (child_info dated nested rec) m
        (child_info-dated dated nested rec (ground arith)) h)

append_all-dated :
    (es rs : List Entry)
    → any is_short_entry es ≡ false
    → any is_short_entry rs ≡ false
    → any is_short_entry (append_all es rs) ≡ false
unfolding append_all append_response any
append_all-dated [] rs fine h = h
append_all-dated (e ∷ es) rs fine h =
    append_all-dated es (append_response e rs) (ground arith)
      (elim (Bool-cases (any (λ r. text_eq r.href e.href) rs)) [
        | inl seen ↦ rw (seen, append_response) h
        | inr new ↦ rw (new, append_response) (any-append is_short_entry rs (e ∷ []) ∙ ground arith)
      ])

-- The rows that a listing of a path shows.
abbrev pub listed_rows :
    (List FileRecord → List FileRecord)
    → Text
    → Option Filter
    → Option Text
    → Server
    → List FileRecord
listed_rows by_name path f mount s =
    filtered f (list_dir by_name (strip (normalised path) (root_for_request mount)) s.store)

-- `ranges`: an iteration of a Go map visits its entries, each once, in some order.
module _ (w : World) (by_name : List FileRecord → List FileRecord)
    (range_map : Assoc Text ChildInfo → Assoc Text ChildInfo) (filters : List Filter)
    (ranges : (p : Text × ChildInfo → Bool) (m : Assoc Text ChildInfo)
      → any p (range_map m) ≡ any p m) where
  mounts-dated :
      (base : Text) (fs : List Filter)
      → any is_short_entry
          (map (λ f. dir_entry (base ++ (trim_prefix f.mount (codes "/") ++ codes "/")) []) fs)
        ≡ false
  unfolding any is_short_date
  mounts-dated base [] = refl
  mounts-dated base (f ∷ fs) = mounts-dated base fs

  children-dated :
      (dated mounts : Bool) (path prefix : Text) (records : List FileRecord)
      → any is_short_row records ≡ false
      → any is_short_entry (children w by_name range_map filters dated mounts path prefix records)
        ≡ false
  unfolding any is_short_date
  children-dated dated true path prefix records h =
      mounts-dated (trim_right_slash path ++ codes "/") filters
  children-dated dated false path prefix records h =
      let base = trim_right_slash path ++ codes "/" in
      any-map is_short_entry (child_entry base) (range_map (immediate dated prefix [] records))
      ∙ ranges is_short_child (immediate dated prefix [] records)
      ∙ immediate-dated dated prefix records [] h refl

  entries-dated :
      (dated : Bool) (depth : Text) (mounts : Bool) (path prefix : Text) (records : List FileRecord)
      → any is_short_row records ≡ false
      → any is_short_entry
          (entries w by_name range_map filters dated depth mounts path prefix records)
        ≡ false
  unfolding entries any is_short_date append_response append_all
  entries-dated dated depth mounts path prefix records h =
      let own = append_response (dir_entry (dir_href path) []) [] in
      let fine : any is_short_entry own ≡ false = refl in
      elim (Bool-cases (is_deep depth)) [
        | inr shallow ↦ rw (shallow, entries) fine
        | inl deep ↦
            rw (deep, entries)
              (append_all-dated
                (children w by_name range_map filters dated mounts path prefix records) own
                (children-dated dated mounts path prefix records h) fine)
      ]

  pub rendered-dated :
      (dated : Bool) (depth : Text) (mounts : Bool) (path prefix : Text) (records : List FileRecord)
      → any is_short_row records ≡ false
      → rendered (entries w by_name range_map filters dated depth mounts path prefix records)
        ≡ listing (entries w by_name range_map filters dated depth mounts path prefix records)
  rendered-dated dated depth mounts path prefix records h =
      rw (entries-dated dated depth mounts path prefix records h) refl
