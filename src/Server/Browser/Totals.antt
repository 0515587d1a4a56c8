-- ===== src/Server/Browser/Totals.antt =====
-- internal/server/http_browser.go: the sizes that the browser shows for directories, against the sums
-- of the sizes of the rows below them.
use warpbox.Base.{
  ℕ, ◌+◌, ◌<◌, ◌≡◌, refl, sym, ap, ap₂, ◌∙◌, inl, inr, Bool, true, false, ◌||◌, Option, none, some,
  List, [], ◌∷◌, take, any, keep, All, if◌then◌else◌, Bool-cases, Option-cases, arith,
}
use warpbox.Base.Int.{ℤ, pos, negsuc, pos_part, neg_part, ◌+ℤ◌, wrap64}
use warpbox.Base.Text.{Text, text_eq, text_eq_iff, text_eq_sound, index_byte}
use warpbox.Base.Assoc.{lookup, lookup-insert}
use warpbox.Metadata.Record.{FileRecord, text_keys}
use warpbox.Server.Browser.{
  Place, DirAgg, Rows, dir_link, rel_path, encode_dav_href, add_to_dir, add_row, add_rows,
}

-- The sum of the sizes of some rows.
unfoldable pub total_size : List FileRecord → ℕ
total_size [] = 0
total_size (rec ∷ records) = pos_part rec.size + total_size records

abbrev pub IsNonnegative : FileRecord → Type 0
IsNonnegative rec = neg_part rec.size ≡ 0

pub wrap-add :
    (n : ℕ) (size : ℤ)
    → neg_part size ≡ 0
    → n + pos_part size < 9223372036854775808
    → wrap64 (pos n +ℤ size) ≡ pos (n + pos_part size)
wrap-add n (pos k) h fits = ground arith
wrap-add n (negsuc k) h fits = absurd (omega arith)

or_false : (b : Bool) → b ≡ (b || false)
or_false b = ground arith

or_true : (b : Bool) → (b || true) ≡ true
or_true b = ground arith

-- A row in the directory `name` of a place.
unfoldable pub in_dir : Place → Text → FileRecord → Bool
in_dir place name rec = elim (index_byte (rel_path place rec) b'/') [
  | none ↦ false
  | some i ↦ text_eq (take i (rel_path place rec)) name
]

-- A row that lies in the place itself.
unfoldable pub is_flat : Place → FileRecord → Bool
is_flat place rec = elim (index_byte (rel_path place rec) b'/') [ none ↦ true | some i ↦ false ]

module _ (path_escape : Text → Text) (place : Place) where
  -- A directory with a total.
  abbrev pub agg : Text → ℕ → DirAgg
  agg name n = record {
    name = name;
    href = encode_dav_href path_escape (dir_link place name);
    total_size = pos n;
  }

  abbrev pub expected : Bool → Text → ℕ → Option DirAgg
  expected seen name n = if seen then some (agg name n) else none

  -- The map below another name stays as it is.
  add_to_dir-other :
      (other name : Text) (size : ℤ) (rows : Rows)
      → text_eq other name ≡ false
      → lookup name (add_to_dir path_escape place other size rows).dir_map
        ≡ lookup name rows.dir_map
  unfolding add_to_dir
  add_to_dir-other other name size rows differ = elim (Option-cases (lookup other rows.dir_map)) [
    | inl e ↦
        rw (e, add_to_dir)
          (lookup-insert other name
              (record {
                name = other;
                href = encode_dav_href path_escape (dir_link place other);
                total_size = size;
              })
              rows.dir_map
            ∙ rw differ)
    | inr (ag, e) ↦
        rw (e, add_to_dir)
          (lookup-insert other name (record ag { total_size = wrap64 (ag.total_size +ℤ size) })
              rows.dir_map
            ∙ rw differ)
  ]

  same : (name : Text) → text_eq name name ≡ true
  same name = (text_eq_iff name name).1 refl

  add_to_dir-new :
      (name : Text) (size : ℤ) (rows : Rows)
      → neg_part size ≡ 0
      → lookup name rows.dir_map ≡ none
      → lookup name (add_to_dir path_escape place name size rows).dir_map
        ≡ some (agg name (0 + pos_part size))
  unfolding add_to_dir
  add_to_dir-new name (negsuc k) rows h e = absurd (omega arith)
  add_to_dir-new name (pos k) rows h e =
      rw (e, add_to_dir)
        (lookup-insert name name
            (record {
              name = name;
              href = encode_dav_href path_escape (dir_link place name);
              total_size = pos k;
            })
            rows.dir_map
          ∙ rw (same name) (ap (λ t. some (agg name t)) (omega arith)))

  add_to_dir-known :
      (name : Text) (size : ℤ) (rows : Rows) (n : ℕ)
      → neg_part size ≡ 0
      → n + pos_part size < 9223372036854775808
      → lookup name rows.dir_map ≡ some (agg name n)
      → lookup name (add_to_dir path_escape place name size rows).dir_map
        ≡ some (agg name (n + pos_part size))
  unfolding add_to_dir
  add_to_dir-known name size rows n nonneg fits e =
      rw (e, add_to_dir)
        (lookup-insert name name (record (agg name n) { total_size = wrap64 (pos n +ℤ size) })
            rows.dir_map
          ∙ rw (same name, wrap-add n size nonneg fits) refl)

  add_to_dir-total :
      (name : Text) (size : ℤ) (rows : Rows) (seen : Bool) (n : ℕ)
      → neg_part size ≡ 0
      → n + pos_part size < 9223372036854775808
      → (seen ≡ false → n ≡ 0)
      → lookup name rows.dir_map ≡ expected seen name n
      → lookup name (add_to_dir path_escape place name size rows).dir_map
        ≡ some (agg name (n + pos_part size))
  add_to_dir-total name size rows true n nonneg fits fresh e =
      add_to_dir-known name size rows n nonneg fits e
  add_to_dir-total name size rows false n nonneg fits fresh e =
      rw (fresh refl) (add_to_dir-new name size rows nonneg e)

  add_row-total :
      (name : Text) (rec : FileRecord) (rows : Rows) (seen : Bool) (n : ℕ)
      → IsNonnegative rec
      → n + pos_part rec.size < 9223372036854775808
      → (seen ≡ false → n ≡ 0)
      → lookup name rows.dir_map ≡ expected seen name n
      → lookup name (add_row path_escape place rec rows).dir_map ≡ (
          if in_dir place name rec
          then some (agg name (n + pos_part rec.size))
          else expected seen name n)
  unfolding add_row in_dir
  add_row-total name rec rows seen n nonneg fits fresh e =
      elim (Option-cases (index_byte (rel_path place rec) b'/')) [
        | inl flat ↦ rw (flat, add_row, in_dir) e
        | inr (i, nested) ↦ elim (Bool-cases (text_eq (take i (rel_path place rec)) name)) [
          | inl own ↦
              rw
                (nested, own, add_row, in_dir, text_eq_sound (take i (rel_path place rec)) name own)
                (add_to_dir-total name rec.size rows seen n nonneg fits fresh e)
          | inr other ↦
              rw (nested, other, add_row, in_dir)
                (add_to_dir-other (take i (rel_path place rec)) name rec.size rows other ∙ e)
        ]
      ]

  pub add_rows-total :
      (name : Text) (records : List FileRecord) (rows : Rows) (seen : Bool) (n : ℕ)
      → All IsNonnegative records
      → n + total_size records < 9223372036854775808
      → (seen ≡ false → n ≡ 0)
      → lookup name rows.dir_map ≡ expected seen name n
      → lookup name (add_rows path_escape place records rows).dir_map
        ≡ expected
            (seen || any (in_dir place name) records)
            name
            (n + total_size (keep (in_dir place name) records))
  unfolding add_rows total_size any keep
  add_rows-total name [] rows seen n nonneg fits fresh e =
      e ∙ ap₂ (λ b t. expected b name t) (or_false seen) (omega arith)
  add_rows-total name (rec ∷ records) rows seen n (pos_size, nonneg) fits fresh e =
      let step = add_row-total name rec rows seen n pos_size (omega arith) fresh e in
      let rows' = add_row path_escape place rec rows in
      elim (Bool-cases (in_dir place name rec)) [
        | inl own ↦
            rw (own, if◌then◌else◌)
              (add_rows-total name records rows' true (n + pos_part rec.size) nonneg (omega arith)
                  (λ h. cc) (step ∙ rw own refl)
                ∙ ap₂ (λ b t. expected b name t) (sym (or_true seen)) (omega arith))
        | inr other ↦
            rw (other, if◌then◌else◌)
              (add_rows-total name records rows' seen n nonneg (omega arith) fresh
                (step ∙ rw other refl))
      ]
