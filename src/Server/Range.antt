-- ===== src/Server/Range.antt =====
-- internal/server/get.go: the Range header of a request, and the Content-Range of a CDN's 416. The text
-- of an error is left out: the handlers answer every one with the same status.
pub mod Bounds
use warpbox.Base.{
  ℕ, suc, ◌+◌, Bool, true, false, not, ◌&&◌, ◌||◌, Option, none, some, [], ◌∷◌, ◌++◌, if◌then◌else◌,
  length, take, drop,
}
use warpbox.Base.Int.{ℤ, pos, wrap64, lt_int, le_int, ◌+ℤ◌, ◌-ℤ◌}
use warpbox.Base.Text.{
  Text, codes, has_prefix, trim_prefix, index_byte, index_from, trim_space, parse_int,
}

pub record HttpRange : Type 0 where
  pub start : ℤ
  pub end : ℤ
  pub length : ℤ

abbrev pub sub64 : ℤ → ℤ → ℤ
sub64 a b = wrap64 (a -ℤ b)

-- The result at the function's end.
abbrev pub range_between : ℤ → ℤ → HttpRange
range_between start end = record {
  start = start;
  end = end;
  length = wrap64 (sub64 end start +ℤ pos 1);
}

-- bytes=-N
unfoldable pub suffix_range : ℤ → ℤ → HttpRange
suffix_range size suffix =
    if le_int size suffix
    then range_between (pos 0) (sub64 size (pos 1))
    else range_between (sub64 size suffix) (sub64 size (pos 1))

-- bytes=A-B, within the file
unfoldable pub bounded_range : ℤ → ℤ → ℤ → Option HttpRange
bounded_range size start end =
    if lt_int end start || lt_int start (pos 0) || le_int size end
    then none
    else some (range_between start end)

-- Behind the first number: bytes=A- or bytes=A-B
unfoldable pub range_from : ℤ → ℤ → Text → Option HttpRange
unfolding bounded_range
range_from size start [] = bounded_range size start (sub64 size (pos 1))
range_from size start (c ∷ s) = elim (parse_int (c ∷ s)) [
  | none ↦ none
  | some end ↦ bounded_range size start end
]

unfoldable pub range_of : ℤ → Text → Text → Option HttpRange
unfolding range_from suffix_range
range_of size [] end_str = elim (parse_int end_str) [
  | none ↦ none
  | some n ↦ some (suffix_range size n)
]
range_of size (c ∷ s) end_str = elim (parse_int (c ∷ s)) [
  | none ↦ none
  | some start ↦ range_from size start end_str
]

unfoldable pub parse_range : Text → ℤ → Option HttpRange
unfolding range_of
parse_range rang size =
    if not (has_prefix rang (codes "bytes="))
    then none
    else (let value = trim_prefix rang (codes "bytes=") in
        elim (index_byte value b'-') [
          | none ↦ none
          | some i ↦ range_of size (trim_space (take i value)) (trim_space (drop (suc i) value))
        ])

unfoldable pub parse_cdn_true_size : Text → Option ℤ
parse_cdn_true_size content_range = elim (index_from 0 content_range (codes "*/")) [
  | none ↦ none
  | some star ↦ elim (parse_int (trim_space (drop (star + 2) content_range))) [
    | none ↦ none
    | some n ↦ if lt_int n (pos 0) then none else some n
  ]
]
