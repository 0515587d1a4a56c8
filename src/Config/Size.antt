-- ===== src/Config/Size.antt =====
-- internal/library/size.go: sizes such as "1.5GB". The float64 arithmetic is a parameter. A size is
-- ASCII text, whose bytes are its characters.
use warpbox.Base.{
  ℕ, ◌-◌, ◌^◌, Bool, ◌&&◌, ◌||◌, Option, none, some, [], ◌∷◌, ◌++◌, leb, if◌then◌else◌, reverse,
}
use warpbox.Base.Int.{ℤ, pos}
use warpbox.Base.Text.{Text, codes, text_eq, trim_space}
use warpbox.Base.Result.{Result, ok, err}

-- float64: strconv.ParseFloat, `< 0`, the product with a whole number, `> math.MaxInt64`, int64().
pub record Floats : Type 1 where
  pub Float : Type 0
  pub parse_float : Text → Result Float
  pub is_negative : Float → Bool
  pub scaled : Float → ℕ → Float
  pub exceeds_int64 : Float → Bool
  pub to_int64 : Float → ℤ

-- unicode.IsLetter and unicode.ToUpper, of ASCII.
abbrev is_letter : ℕ → Bool
is_letter c = (leb b'A' c && leb c b'Z') || (leb b'a' c && leb c b'z')

unfoldable pub to_upper : Text → Text
to_upper [] = []
to_upper (c ∷ s) = (if leb b'a' c && leb c b'z' then c - 32 else c) ∷ to_upper s

-- The letters at the start of a reversed size, put in order in front of `unit`, and what is behind them.
unfoldable pub split_unit : Text → Text → Text × Text
split_unit [] unit = ([], unit)
split_unit (c ∷ s) unit =
    let rest = split_unit s (c ∷ unit) in if is_letter c then rest else (reverse (c ∷ s), unit)

abbrev is_unit : Text → Text → Text → Text → Bool
is_unit unit a b c = text_eq unit a || (text_eq unit b || text_eq unit c)

unfoldable pub multiplier : Text → Option ℕ
multiplier unit =
    if text_eq unit [] || text_eq unit (codes "B")
    then some 1
    else if is_unit unit (codes "K") (codes "KB") (codes "KIB")
    then some (1024 ^ 1)
    else if is_unit unit (codes "M") (codes "MB") (codes "MIB")
    then some (1024 ^ 2)
    else if is_unit unit (codes "G") (codes "GB") (codes "GIB")
    then some (1024 ^ 3)
    else if is_unit unit (codes "T") (codes "TB") (codes "TIB")
    then some (1024 ^ 4)
    else none

-- `quote` is the verb %q of fmt.
module _ (F : Floats) (quote : Text → Text) where
  abbrev size_error : Text → Text → Text
  size_error s e = codes "invalid file size " ++ (quote s ++ (codes ": " ++ e))

  abbrev pub scaled_size : Text → F.Float → ℕ → Result ℤ
  scaled_size s n mult =
      if F.exceeds_int64 (F.scaled n mult)
      then err (size_error s (codes "value too large"))
      else ok (F.to_int64 (F.scaled n mult))

  abbrev unit_error : Text → Text
  unit_error unit = codes "unknown unit " ++ (quote unit ++ codes " (use B, KB, MB, GB, TB)")

  abbrev sized : Text → F.Float → Text → Result ℤ
  sized s n unit =
      if F.is_negative n
      then err (size_error s (codes "must be non-negative"))
      else elim (multiplier unit) [
        | none ↦ err (size_error s (unit_error unit))
        | some mult ↦ scaled_size s n mult
      ]

  abbrev parsed : Text → Text → Text → Result ℤ
  parsed s [] unit = err (size_error s (codes "missing number"))
  parsed s (c ∷ num) unit = elim (F.parse_float (c ∷ num)) [
    | err e ↦ err (size_error s e)
    | ok n ↦ sized s n unit
  ]

  unfoldable pub parse_file_size : Text → Result ℤ
  unfolding split_unit
  parse_file_size text = elim (trim_space text) [
    | [] ↦ ok (pos 0)
    | c ∷ s ↦
        let (num, unit) = split_unit (reverse (c ∷ s)) [] in
        parsed (c ∷ s) (trim_space num) (to_upper (trim_space unit))
  ]
