-- ===== src/Metadata/Store/Paths.antt =====
-- GetFileByPath and GetFileAlternatives: the rows that share a virtual path.
use mathlib.Core.List.{reverse, reverse-append}
use warpbox.Base.{
  ◌≡◌, refl, Bool, true, false, Option, none, some, List, [], ◌∷◌, ◌++◌, arith, any, keep,
  Option-cases, inl, inr,
}
use warpbox.Base.Text.{Text}
use warpbox.Metadata.Record.{FileRecord}
use warpbox.Metadata.Store.{
  Store, has_path, last_row, all_but_last, get_file_by_path, get_file_alternatives,
}

-- The primary row with the alternatives behind it.
abbrev pub with_primary : Option FileRecord → List FileRecord → List FileRecord
with_primary none rows = rows
with_primary (some r) rows = r ∷ rows

append_reverse :
    (r row : FileRecord) (xs ys : List FileRecord)
    → r ∷ xs ≡ reverse ys
    → r ∷ (xs ++ row ∷ []) ≡ reverse ys ++ row ∷ []
append_reverse r row xs ys e = rw (← e)

module _ (p : FileRecord → Bool) where
  last_row-any : (rows : List FileRecord) → last_row p rows ≡ none → any p rows ≡ false
  unfolding last_row any
  last_row-any [] h = refl
  last_row-any (row ∷ rows) h = ground (arith, last_row-any rows)

  any-last_row :
      (rows : List FileRecord) (r : FileRecord) → last_row p rows ≡ some r → any p rows ≡ true
  unfolding last_row any
  any-last_row [] r h = cc
  any-last_row (row ∷ rows) r h = ground (arith, any-last_row rows r)

  all_but_last_none : (rows : List FileRecord) → any p rows ≡ false → all_but_last p rows ≡ []
  unfolding all_but_last any
  all_but_last_none [] h = refl
  all_but_last_none (row ∷ rows) h = ground (arith, all_but_last_none rows)

  with_primary-reverse :
      (rows : List FileRecord)
      → with_primary (last_row p rows) (all_but_last p rows) ≡ reverse (keep p rows)
  unfolding last_row all_but_last keep
  with_primary-reverse [] = refl
  with_primary-reverse (row ∷ rows) = elim (Option-cases (last_row p rows)) [
    | inl e ↦ ground (
      arith,
      with_primary-reverse rows,
      last_row-any rows e,
      all_but_last_none rows,
      reverse-append (row ∷ []) (keep p rows),
    )
    | inr (r, e) ↦ ground (
      arith,
      with_primary-reverse rows,
      any-last_row rows r e,
      reverse-append (row ∷ []) (keep p rows),
      append_reverse r row (all_but_last p rows) (keep p rows),
    )
  ]

-- The file at a path and its alternatives together are exactly the rows of the path, the latest id
-- first: no row is lost, and none is offered twice.
pub primary-alternatives :
    (path : Text) (s : Store)
    → with_primary (get_file_by_path path s) (get_file_alternatives path s)
      ≡ reverse (keep (has_path path) s.files)
unfolding get_file_by_path get_file_alternatives
primary-alternatives path s = with_primary-reverse (has_path path) s.files
