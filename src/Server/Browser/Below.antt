-- ===== src/Server/Browser/Below.antt =====
-- Where a row lies below the place of a page, told from its whole path.
use warpbox.Base.{
  ◌≡◌, refl, sym, ap, ◌∙◌, Bool, true, false, not, ◌&&◌, ◌||◌, none, some, [], ◌∷◌, ◌++◌, length,
  take, drop, ◌==◌, arith, Bool-cases, Option-cases, inl, inr, append_assoc,
}
use warpbox.Base.Text.{Text, codes, text_eq, index_byte, has_prefix, trim_prefix}
use warpbox.Metadata.Record.{FileRecord}
use warpbox.Server.Browser.{Place, rel_path}
use warpbox.Server.Browser.Paths.{trim_prefix-append}
use warpbox.Server.Browser.Totals.{in_dir, is_flat}

unfoldable pub has_slash : Text → Bool
has_slash [] = false
has_slash (c ∷ s) = (c == b'/') || has_slash s

-- The path of the place with a slash behind it, if it has a path.
unfoldable pub inside : Text → Text
inside [] = []
inside (c ∷ v) = (c ∷ v) ++ codes "/"

-- The row's path is that of the place, a slash, and more.
abbrev pub IsBelow : Place → FileRecord → Type 0
IsBelow place rec =
    (rest : Text) × (rec.path ≡ inside place.virtual_path ++ rest)
    × (has_prefix rest (codes "/") ≡ false)

-- What stands behind the place in the row's path.
unfoldable pub rest_of : Place → FileRecord → Text
rest_of place rec = drop (length (inside place.virtual_path)) rec.path

-- The row lies in the directory `name` of the place, at any depth.
unfoldable pub lies_in : Place → Text → FileRecord → Bool
lies_in place name rec =
    not (has_slash name) && has_prefix rec.path (inside place.virtual_path ++ (name ++ codes "/"))

-- The row lies in the place itself.
unfoldable pub lies_flat : Place → FileRecord → Bool
lies_flat place rec = not (has_slash (rest_of place rec))

drop_own : (s t : Text) → drop (length s) (s ++ t) ≡ t
drop_own [] t = refl
drop_own (c ∷ s) t = drop_own s t

has_prefix-append : (r s t : Text) → has_prefix (r ++ s) (r ++ t) ≡ has_prefix s t
unfolding has_prefix
has_prefix-append [] s t = refl
has_prefix-append (c ∷ r) s t = ground (arith, has_prefix-append r s t)

no_prefix-trim : (s p : Text) → has_prefix s p ≡ false → trim_prefix s p ≡ s
unfolding trim_prefix
no_prefix-trim s p h = rw (h, trim_prefix) refl

-- The text in front of the first slash is `name`.
starts_with_dir :
    (name r : Text)
    → (elim (index_byte r b'/') as (λ x. Bool) [ none ↦ false | some i ↦ text_eq (take i r) name ])
      ≡ (not (has_slash name) && has_prefix r (name ++ codes "/"))
unfolding index_byte has_slash has_prefix text_eq
starts_with_dir [] [] = refl
starts_with_dir (d ∷ name) [] = ground arith
starts_with_dir [] (c ∷ r) = elim (Option-cases (index_byte r b'/')) [
  | inl e ↦ ground (arith, e)
  | inr (i, e) ↦ ground (arith, e)
]
starts_with_dir (d ∷ name) (c ∷ r) = elim (Option-cases (index_byte r b'/')) [
  | inl e ↦ ground (arith, e, starts_with_dir name r)
  | inr (i, e) ↦ ground (arith, e, starts_with_dir name r)
]

no_slash :
    (r : Text)
    → (elim (index_byte r b'/') as (λ x. Bool) [ none ↦ true | some i ↦ false ]) ≡ not (has_slash r)
unfolding index_byte has_slash
no_slash [] = refl
no_slash (c ∷ r) = elim (Bool-cases (c == b'/')) [
  | inl slash ↦ rw slash refl
  | inr other ↦ elim (Option-cases (index_byte r b'/')) [
    | inl e ↦ let rest = no_slash r in rw (other, e) (rw e at rest)
    | inr (i, e) ↦ let rest = no_slash r in rw (other, e) (rw e at rest)
  ]
]

stripped_place :
    (v rest : Text)
    → has_prefix rest (codes "/") ≡ false
    → trim_prefix (trim_prefix (inside v ++ rest) v) (codes "/") ≡ rest
unfolding inside
stripped_place [] rest h =
    ap (λ t. trim_prefix t (codes "/")) (trim_prefix-append [] rest)
    ∙ no_prefix-trim rest (codes "/") h
stripped_place (c ∷ v) rest h =
    ap (λ t. trim_prefix (trim_prefix t (c ∷ v)) (codes "/"))
      (append_assoc (c ∷ v) (codes "/") rest)
    ∙ ap (λ t. trim_prefix t (codes "/")) (trim_prefix-append (c ∷ v) (codes "/" ++ rest))
    ∙ trim_prefix-append (codes "/") rest

module _ (place : Place) (rec : FileRecord) (below : IsBelow place rec) where
  rel_path-below : rel_path place rec ≡ below.0
  rel_path-below =
      ap (λ p. trim_prefix (trim_prefix p place.virtual_path) (codes "/")) below.1
      ∙ stripped_place place.virtual_path below.0 below.2

  rest_of-below : rest_of place rec ≡ below.0
  unfolding rest_of
  rest_of-below =
      ap (drop (length (inside place.virtual_path))) below.1
      ∙ drop_own (inside place.virtual_path) below.0

  pub rel_path-rest_of : rel_path place rec ≡ rest_of place rec
  rel_path-rest_of = rel_path-below ∙ sym rest_of-below

  pub in_dir-lies_in : (name : Text) → in_dir place name rec ≡ lies_in place name rec
  unfolding in_dir lies_in
  in_dir-lies_in name =
      ap
        (λ r. elim (index_byte r b'/') as (λ x. Bool) [
          | none ↦ false
          | some i ↦ text_eq (take i r) name
        ])
        rel_path-below
      ∙ starts_with_dir name below.0
      ∙ ap (λ b. not (has_slash name) && b)
          (sym (has_prefix-append (inside place.virtual_path) below.0 (name ++ codes "/"))
            ∙ ap (λ p. has_prefix p (inside place.virtual_path ++ (name ++ codes "/")))
                (sym below.1))

  pub is_flat-lies_flat : is_flat place rec ≡ lies_flat place rec
  unfolding is_flat lies_flat
  is_flat-lies_flat =
      ap (λ r. elim (index_byte r b'/') as (λ x. Bool) [ none ↦ true | some i ↦ false ])
        rel_path-rest_of
      ∙ no_slash (rest_of place rec)
