-- ===== src/Server/Browser/Links.antt =====
-- internal/server/http_browser.go: the links of a page against the paths of later requests.
use warpbox.Base.{
  ◌≡◌, ◌≢◌, refl, sym, ap, ◌∙◌, true, false, none, some, List, [], ◌∷◌, ◌++◌, subst, Bool-cases,
  Option-cases, inl, inr, append_assoc,
}
use warpbox.Base.Text.{Text, codes, text_eq, text_eq_refl, trim_prefix, index_byte}
use warpbox.Base.Assoc.{lookup}
use warpbox.Metadata.Record.{FileRecord, text_keys}
use warpbox.Library.Filter.{Filter}
use warpbox.Server.Setup.{make_virtual_path_map}
use warpbox.Server.Browser.{
  encode_dav_href, raw_virtual_path, first_segment, below, Place, place_of, dir_link, file_link,
}
use warpbox.Server.Browser.Paths.{
  EndsPlain, url_of, raw_virtual_path_file, raw_virtual_path_dir, trim_prefix-append,
  first_segment_own, first_segment_kept, first_segment_flat,
}
use warpbox.Server.Browser.Escaping.{unescape-encode_dav_href}

-- The path in the store of what stands in a place.
abbrev pub joined : Place → Text → Text
joined place name = elim place.virtual_path [ [] ↦ name | c ∷ v ↦ (c ∷ v) ++ (codes "/" ++ name) ]

-- A link to the path v from a place is the URL of a text that leads to v in the same mount.
abbrev Leads : List Filter → Place → Text → Type 0
Leads filters place v =
    (q : Text) × (codes "/http" ++ (place.mount_prefix ++ (codes "/" ++ v)) ≡ url_of q)
    × (EndsPlain v → EndsPlain q)
    × (place_of filters q ≡ record place { virtual_path = v })

behind-EndsPlain : (s v : Text) → EndsPlain v → EndsPlain (s ++ (b'/' ∷ v))
behind-EndsPlain s v (start, c, plain, e) = (
  s ++ (b'/' ∷ start),
  c,
  plain,
  ap (λ t. s ++ (b'/' ∷ t)) e ∙ sym (append_assoc s (b'/' ∷ start) (c ∷ [])),
)

below_own : (seg v : Text) → below (seg ++ (b'/' ∷ v)) seg ≡ v
below_own seg v =
    ap (λ t. trim_prefix t (codes "/")) (trim_prefix-append seg (b'/' ∷ v))
    ∙ trim_prefix-append (codes "/") v

module _ (filters : List Filter) (raw : Text) where
  place_all :
      text_eq (first_segment raw) (codes "__all__") ≡ true
      → place_of filters raw ≡ record {
        filter = none;
        mount_prefix = codes "/__all__";
        virtual_path = below raw (codes "__all__");
      }
  unfolding place_of
  place_all all = rw (place_of, all) refl

  place_mount :
      (f : Filter)
      → text_eq (first_segment raw) (codes "__all__") ≡ false
      → lookup (first_segment raw) (make_virtual_path_map filters) ≡ some f
      → place_of filters raw ≡ record {
        filter = some f;
        mount_prefix = codes "/" ++ first_segment raw;
        virtual_path = below raw (first_segment raw);
      }
  unfolding place_of
  place_mount f other found = rw (place_of, other, found) refl

  place_plain :
      text_eq (first_segment raw) (codes "__all__") ≡ false
      → lookup (first_segment raw) (make_virtual_path_map filters) ≡ none
      → place_of filters raw ≡ record { filter = none; mount_prefix = []; virtual_path = raw }
  unfolding place_of
  place_plain other absent = rw (place_of, other, absent) refl

-- In a mount any path will do.
all-Leads :
    (filters : List Filter) (raw v : Text)
    → text_eq (first_segment raw) (codes "__all__") ≡ true
    → Leads filters (place_of filters raw) v
all-Leads filters raw v all =
    let seg = codes "__all__" in
    let q : Text = seg ++ (b'/' ∷ v) in
    let own = first_segment_own seg v (unfold index_byte in refl) in
    let led =
      place_all filters q (ap (λ t. text_eq t seg) own ∙ text_eq_refl seg)
      ∙ ap (λ t. record { filter = none; mount_prefix = codes "/__all__"; virtual_path = t })
          (below_own seg v) in
    rw (place_all filters raw all) (q, refl, behind-EndsPlain seg v, led)

mount-Leads :
    (filters : List Filter) (raw v : Text) (f : Filter)
    → text_eq (first_segment raw) (codes "__all__") ≡ false
    → lookup (first_segment raw) (make_virtual_path_map filters) ≡ some f
    → Leads filters (place_of filters raw) v
mount-Leads filters raw v f other found =
    let seg = first_segment raw in
    let q : Text = seg ++ (b'/' ∷ v) in
    let own : first_segment q ≡ seg = first_segment_own seg v (first_segment_flat raw) in
    let led =
      place_mount filters q f (ap (λ t. text_eq t (codes "__all__")) own ∙ other)
        (ap (λ t. lookup t (make_virtual_path_map filters)) own ∙ found)
      ∙ ap
          (λ t. record { filter = some f; mount_prefix = codes "/" ++ t; virtual_path = below q t })
          own
      ∙ ap (λ t. record { filter = some f; mount_prefix = codes "/" ++ seg; virtual_path = t })
          (below_own seg v) in
    rw (place_mount filters raw f other found) (q, refl, behind-EndsPlain seg v, led)

-- Outside the mounts, a path behind the place's own.
plain-Leads :
    (filters : List Filter) (raw rest : Text)
    → text_eq (first_segment raw) (codes "__all__") ≡ false
    → lookup (first_segment raw) (make_virtual_path_map filters) ≡ none
    → Leads filters (place_of filters raw) (raw ++ (b'/' ∷ rest))
plain-Leads filters raw rest other absent =
    let q : Text = raw ++ (b'/' ∷ rest) in
    let own = first_segment_kept raw rest in
    rw (place_plain filters raw other absent) (
      q,
      refl,
      λ ends. ends,
      place_plain filters q (ap (λ t. text_eq t (codes "__all__")) own ∙ other)
          (ap (λ t. lookup t (make_virtual_path_map filters)) own ∙ absent),
    )

joined-Leads :
    (filters : List Filter) (raw name : Text)
    → raw ≢ []
    → Leads filters (place_of filters raw) (joined (place_of filters raw) name)
joined-Leads filters [] name below_root = absurd (below_root refl)
joined-Leads filters (c ∷ r) name below_root =
    let raw = c ∷ r in
    let v = joined (place_of filters (c ∷ r)) name in
    elim (Bool-cases (text_eq (first_segment (c ∷ r)) (codes "__all__"))) [
      | inl all ↦ all-Leads filters (c ∷ r) v all
      | inr other ↦
          elim (Option-cases (lookup (first_segment (c ∷ r)) (make_virtual_path_map filters))) [
            | inr (f, found) ↦ mount-Leads filters (c ∷ r) v f other found
            | inl absent ↦
                subst (λ place. Leads filters (place_of filters (c ∷ r)) (joined place name))
                  (sym (place_plain filters (c ∷ r) other absent))
                  (plain-Leads filters (c ∷ r) name other absent)
          ]
    ]

joined-EndsPlain : (place : Place) (name : Text) → EndsPlain name → EndsPlain (joined place name)
joined-EndsPlain place name ends = go place.virtual_path
  where
    go :
        (v : Text)
        → EndsPlain (elim v as (λ x. Text) [ [] ↦ name | c ∷ u ↦ (c ∷ u) ++ (codes "/" ++ name) ])
    go [] = ends
    go (c ∷ u) = behind-EndsPlain (c ∷ u) name ends

dir_link_lem :
    (place : Place) (name : Text)
    → dir_link place name
      ≡ (codes "/http" ++ (place.mount_prefix ++ (codes "/" ++ joined place name))) ++ codes "/"
dir_link_lem place name = go place.virtual_path
  where
    go :
        (v : Text)
        → (elim v as (λ x. Text) [
          | [] ↦ codes "/http" ++ (place.mount_prefix ++ (codes "/" ++ (name ++ codes "/")))
          | c ∷ u ↦
              codes "/http"
              ++ (place.mount_prefix
                  ++ (codes "/" ++ ((c ∷ u) ++ (codes "/" ++ (name ++ codes "/")))))
        ])
          ≡ (codes "/http"
              ++ (place.mount_prefix
                  ++ (codes "/" ++ (elim v as (λ x. Text) [
                    | [] ↦ name
                    | c ∷ u ↦ (c ∷ u) ++ (codes "/" ++ name)
                  ]))))
            ++ codes "/"
    go [] = simp (append_assoc)
    go (c ∷ u) = simp (append_assoc)

-- url.PathEscape, with the decoding that net/http does: an escaped segment decodes to itself, also in
-- front of a slash.
module _ (path_escape unescape : Text → Text) (whole : (s : Text) → unescape (path_escape s) ≡ s)
    (segment : (s t : Text) → unescape (path_escape s ++ (b'/' ∷ t)) ≡ s ++ (b'/' ∷ unescape t))
    (empty : path_escape [] ≡ []) where
  -- A link leads where it says: below the root, the link of a page to a directory `name` leads to that
  -- directory's path in the same mount, and the link to a row that lies there to the row's own path,
  -- if the name does not end in a slash.
  pub links-Lead :
      (filters : List Filter) (raw name : Text) (rec : FileRecord)
      → raw ≢ []
      → EndsPlain name
      → rec.path ≡ joined (place_of filters raw) name
      → let place = place_of filters raw in
        (place_of filters
            (raw_virtual_path (unescape (encode_dav_href path_escape (dir_link place name))))
          ≡ record place { virtual_path = joined place name })
        × (place_of filters
              (raw_virtual_path (unescape (encode_dav_href path_escape (file_link place rec))))
            ≡ record place { virtual_path = rec.path })
  links-Lead filters raw name rec below_root ends at =
      let place = place_of filters raw in
      let (q, url, plain, led) = joined-Leads filters raw name below_root in
      let ends' = plain (joined-EndsPlain place name ends) in
      (
        ap (λ u. place_of filters (raw_virtual_path u))
              (unescape-encode_dav_href path_escape unescape whole segment empty
                  (dir_link place name)
                ∙ dir_link_lem place name
                ∙ ap (λ u. u ++ codes "/") url)
            ∙ ap (place_of filters) (raw_virtual_path_dir q ends')
            ∙ led,
        ap (λ u. place_of filters (raw_virtual_path u))
              (unescape-encode_dav_href path_escape unescape whole segment empty
                  (file_link place rec)
                ∙ ap (λ t. codes "/http" ++ (place.mount_prefix ++ (codes "/" ++ t))) at
                ∙ url)
            ∙ ap (place_of filters) (raw_virtual_path_file q ends')
            ∙ led
            ∙ ap (λ t. record place { virtual_path = t }) (sym at),
      )
