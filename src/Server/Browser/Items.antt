-- ===== src/Server/Browser/Items.antt =====
-- internal/server/http_browser.go: the entries of a directory, exactly.
use warpbox.Base.{
  ◌<◌, ◌≡◌, ◌↔◌, ◌≢◌, refl, sym, ap, ap₂, ◌∙◌, inl, inr, Bool, true, false, ◌||◌, Option, List, [],
  ◌∷◌, ◌++◌, map, any, keep, All, Has, Distinct, Bool-cases, if◌then◌else◌, append_assoc,
}
use warpbox.Base.Int.{pos}
use warpbox.Base.Text.{Text, codes}
use warpbox.Metadata.Record.{FileRecord, text_keys}
use warpbox.Library.Filter.{Filter}
use warpbox.Server.Browser.{Place, HtmlEntry, file_entry, all_items, encode_dav_href, dir_link}
use warpbox.Server.Answer.{mime_of}
use warpbox.Server.Browser.Below.{
  inside, IsBelow, rest_of, lies_in, lies_flat, rel_path-rest_of, in_dir-lies_in, is_flat-lies_flat,
}
use warpbox.Server.Browser.Relative.{summed_entry, all_items-IsRelative}
use warpbox.Server.Browser.Totals.{total_size, IsNonnegative, in_dir, is_flat}

module _ {A : Type 0} where
  All-imp : {P Q : A → Type 0} (xs : List A) → ((x : A) → P x → Q x) → All P xs → All Q xs
  All-imp [] imp h = tt
  All-imp (x ∷ xs) imp h = (imp x h.0, All-imp xs imp h.1)

  any_cong : (p q : A → Bool) (xs : List A) → All (λ x. p x ≡ q x) xs → any p xs ≡ any q xs
  unfolding any
  any_cong p q [] h = refl
  any_cong p q (x ∷ xs) h = ap₂ (λ a b. a || b) h.0 (any_cong p q xs h.1)

  keep_cong : (p q : A → Bool) (xs : List A) → All (λ x. p x ≡ q x) xs → keep p xs ≡ keep q xs
  unfolding keep
  keep_cong p q [] h = refl
  keep_cong p q (x ∷ xs) h =
      ap₂ (λ b (rest : List A). if b then x ∷ rest else rest) h.0 (keep_cong p q xs h.1)

  map-keep_cong :
      {B : Type 0} (f g : A → B) (p : A → Bool) (xs : List A)
      → All (λ x. f x ≡ g x) xs
      → map f (keep p xs) ≡ map g (keep p xs)
  unfolding keep
  map-keep_cong f g p [] h = refl
  map-keep_cong f g p (x ∷ xs) h = elim (Bool-cases (p x)) [
    | inl yes_kept ↦ rw yes_kept (ap₂ ◌∷◌ h.0 (map-keep_cong f g p xs h.1))
    | inr left_out ↦ rw left_out (map-keep_cong f g p xs h.1)
  ]

module _ (path_escape : Text → Text) (place : Place) where
  -- What a page shows of a directory, and of a row in the place itself.
  abbrev pub dir_item : List FileRecord → Text → HtmlEntry
  dir_item records name = record {
    name = name ++ codes "/";
    href = encode_dav_href path_escape (
        codes "/http"
        ++ (place.mount_prefix
            ++ (codes "/" ++ (inside place.virtual_path ++ (name ++ codes "/")))));
    size = pos (total_size (keep (lies_in place name) records));
    is_dir = true;
    mime = [];
  }

  abbrev pub file_item : FileRecord → HtmlEntry
  file_item rec = record {
    name = rest_of place rec;
    href =
        encode_dav_href path_escape
          (codes "/http" ++ (place.mount_prefix ++ (codes "/" ++ rec.path)));
    size = rec.size;
    is_dir = false;
    mime = mime_of rec;
  }

  dir_link-inside :
      (mount_prefix v name : Text) (f : Option Filter)
      → dir_link (record { filter = f; mount_prefix = mount_prefix; virtual_path = v }) name
        ≡ codes "/http" ++ (mount_prefix ++ (codes "/" ++ (inside v ++ (name ++ codes "/"))))
  unfolding inside
  dir_link-inside mount_prefix [] name f = refl
  dir_link-inside mount_prefix (c ∷ v) name f =
      ap (λ t. codes "/http" ++ (mount_prefix ++ (codes "/" ++ t)))
        (sym (append_assoc (c ∷ v) (codes "/") (name ++ codes "/")))

  -- The entries: each directory with rows below it once, then the rows in the place itself.
  abbrev pub IsListing : List FileRecord → List HtmlEntry → Type 0
  IsListing records items =
      (order : List Text) × Distinct order
      × ((name : Text) → Has name order ↔ (any (lies_in place name) records ≡ true))
      × (items ≡ map (dir_item records) order ++ map file_item (keep (lies_flat place) records))

  module _ (records : List FileRecord) (below : All (IsBelow place) records) where
    lies_in_rows :
        (name : Text) → All (λ rec. in_dir place name rec ≡ lies_in place name rec) records
    lies_in_rows name = All-imp records (λ rec h. in_dir-lies_in place rec h name) below

    summed_entry-dir_item :
        (name : Text) → summed_entry path_escape place records name ≡ dir_item records name
    summed_entry-dir_item name =
        ap₂
          (λ href rows. record {
            name = name ++ codes "/";
            href = encode_dav_href path_escape href;
            size = pos (total_size rows);
            is_dir = true;
            mime = [];
          })
          (dir_link-inside place.mount_prefix place.virtual_path name place.filter)
          (keep_cong (in_dir place name) (lies_in place name) records (lies_in_rows name))

    dir_items :
        (order : List Text)
        → map (summed_entry path_escape place records) order ≡ map (dir_item records) order
    dir_items [] = refl
    dir_items (name ∷ order) = ap₂ ◌∷◌ (summed_entry-dir_item name) (dir_items order)

    file_items :
        map (file_entry path_escape place) (keep (is_flat place) records)
        ≡ map file_item (keep (lies_flat place) records)
    file_items =
        map-keep_cong (file_entry path_escape place) file_item (is_flat place) records (
          All-imp records
            (λ rec h.
              ap (λ name. record (file_item rec) { name = name }) (rel_path-rest_of place rec h))
            below)
        ∙ ap (map file_item) (
            keep_cong (is_flat place) (lies_flat place) records
              (All-imp records (λ rec h. is_flat-lies_flat place rec h) below))

-- Below the root, where every row's path is that of the place, a slash and more, no size is negative and
-- the sizes of all rows add up to less than 2^63, a page's entries are one for each directory of the
-- place with rows at any depth below it, with the sum of exactly their sizes, and then one for each row
-- that lies in the place itself, named by what stands behind the place, in the order of the rows.
pub all_items-IsListing :
    (path_escape : Text → Text) (filters : List Filter) (raw : Text) (place : Place)
    (records : List FileRecord)
    → raw ≢ []
    → All (IsBelow place) records
    → All IsNonnegative records
    → total_size records < 9223372036854775808
    → IsListing path_escape place records (all_items path_escape filters raw place records)
all_items-IsListing path_escape filters raw place records named below nonneg fits =
    let (order, once, known, same) =
      all_items-IsRelative path_escape filters raw place records named nonneg fits in
    let seen = λ (name : Text).
      any_cong (in_dir place name) (lies_in place name) records
        (lies_in_rows path_escape place records below name) in
    (
      order,
      once,
      λ name. (λ h. sym (seen name) ∙ (known name).0 h, λ h. (known name).1 (seen name ∙ h)),
      same
          ∙ ap₂ ◌++◌ (dir_items path_escape place records below order)
              (file_items path_escape place records below),
    )
