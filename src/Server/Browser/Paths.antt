-- ===== src/Server/Browser/Paths.antt =====
-- internal/server/http_browser.go: the path that is read off a URL, and its first segment.
use mathlib.Core.List.{reverse-append, reverse-reverse}
use warpbox.Base.{
  ℕ, zero, suc, ◌≡◌, refl, sym, ap, ◌∙◌, true, false, none, some, [], ◌∷◌, ◌++◌, reverse, take,
  length, ltb, ◌==◌, if◌then◌else◌, Bool-cases, Option-cases, inl, inr, arith,
}
use warpbox.Base.Text.{Text, codes, has_prefix, trim_prefix, index_byte}
use warpbox.Metadata.Record.{text_keys}
use warpbox.Server.Listing.{trim_right_slash, immediate_name}
use warpbox.Server.Browser.{count_slash, raw_virtual_path, first_segment}

-- A text without a slash at its end, and not empty.
abbrev pub EndsPlain : Text → Type 0
EndsPlain p = (start : Text) × (c : ℕ) × ((c == b'/') ≡ false) × (p ≡ start ++ c ∷ [])

pub turn : (start : Text) (c : ℕ) → reverse (start ++ c ∷ []) ≡ c ∷ reverse start
turn start c = reverse-append start (c ∷ [])

trim_right_slash_plain : (p : Text) → EndsPlain p → trim_right_slash p ≡ p
unfolding trim_right_slash
trim_right_slash_plain p (start, c, plain, e) =
    rw (e, turn start c, trim_right_slash, plain)
      (ap reverse (sym (turn start c)) ∙ reverse-reverse (start ++ c ∷ []))

trim_right_slash_one : (p : Text) → EndsPlain p → trim_right_slash (p ++ codes "/") ≡ p
unfolding trim_right_slash
trim_right_slash_one p ends = rw (turn p b'/', trim_right_slash) (trim_right_slash_plain p ends)

-- A path below /http/.
abbrev pub url_of : Text → Text
url_of q = codes "/http/" ++ q

url_of-EndsPlain : (q : Text) → EndsPlain q → EndsPlain (url_of q)
url_of-EndsPlain q (start, c, plain, e) = (codes "/http/" ++ start, c, plain, ap url_of e)

stripped :
    (q : Text)
    → trim_prefix
        (trim_prefix
          (if ltb (count_slash (url_of q)) 2 then codes "/http/" else url_of q)
          (codes "/http"))
        (codes "/")
      ≡ q
unfolding count_slash trim_prefix has_prefix
stripped q = let two : ltb (count_slash (url_of q)) 2 ≡ false = ground arith in rw two refl

pub raw_virtual_path_file : (q : Text) → EndsPlain q → raw_virtual_path (url_of q) ≡ q
unfolding raw_virtual_path
raw_virtual_path_file q ends =
    rw (trim_right_slash_plain (url_of q) (url_of-EndsPlain q ends)) (stripped q)

pub raw_virtual_path_dir : (q : Text) → EndsPlain q → raw_virtual_path (url_of q ++ codes "/") ≡ q
unfolding raw_virtual_path
raw_virtual_path_dir q ends =
    rw (trim_right_slash_one (url_of q) (url_of-EndsPlain q ends)) (stripped q)

prefix_own : (s t : Text) → has_prefix (s ++ t) s ≡ true
unfolding has_prefix
prefix_own [] [] = refl
prefix_own [] (d ∷ t) = refl
prefix_own (c ∷ s) t = ground (arith, prefix_own s t)

pub trim_prefix-append : (s t : Text) → trim_prefix (s ++ t) s ≡ t
unfolding trim_prefix has_prefix
trim_prefix-append [] [] = refl
trim_prefix-append [] (d ∷ t) = refl
trim_prefix-append (c ∷ s) t =
    let own : (c == c) ≡ true = ground arith in
    let shorter = trim_prefix-append s t in
    rw (own, prefix_own s t) (rw (prefix_own s t) at shorter)

-- A text behind a slash, with what stands in front.
index_byte-append :
    (s t : Text) → index_byte s b'/' ≡ none → index_byte (s ++ (b'/' ∷ t)) b'/' ≡ some (length s)
unfolding index_byte
index_byte-append [] t h = refl
index_byte-append (c ∷ s) t h = ground (arith, index_byte-append s t)

index_byte-kept :
    (s t : Text) (i : ℕ) → index_byte s b'/' ≡ some i → index_byte (s ++ t) b'/' ≡ some i
unfolding index_byte
index_byte-kept [] t i h = cc
index_byte-kept (c ∷ s) t i h = elim (Bool-cases (c == b'/')) [
  | inl slash ↦ rw slash (rw slash at h)
  | inr other ↦ elim (Option-cases (index_byte s b'/')) [
    | inl absent ↦ absurd (ground arith)
    | inr (j, found) ↦ ground (arith, index_byte-kept s t j found)
  ]
]

take_own : (s t : Text) → take (length s) (s ++ t) ≡ s
take_own [] t = refl
take_own (c ∷ s) t = ap (λ r. c ∷ r) (take_own s t)

take_kept : (s t : Text) (i : ℕ) → index_byte s b'/' ≡ some i → take i (s ++ t) ≡ take i s
unfolding index_byte
take_kept [] t i h = cc
take_kept (c ∷ s) t zero h = refl
take_kept (c ∷ s) t (suc i) h = elim (Bool-cases (c == b'/')) [
  | inl slash ↦ absurd (ground arith)
  | inr other ↦ elim (Option-cases (index_byte s b'/')) [
    | inl absent ↦ absurd (ground arith)
    | inr (j, found) ↦ ap (λ r. c ∷ r) (take_kept s t i (ground arith))
  ]
]

-- A segment in front of a slash is the first one.
pub first_segment_own :
    (s t : Text) → index_byte s b'/' ≡ none → first_segment (s ++ (b'/' ∷ t)) ≡ s
first_segment_own s t h =
    rw (first_segment, index_byte-append s t h, immediate_name) (take_own s (b'/' ∷ t))

-- What follows a path behind a slash leaves its first segment.
pub first_segment_kept : (r t : Text) → first_segment (r ++ (b'/' ∷ t)) ≡ first_segment r
first_segment_kept r t = elim (Option-cases (index_byte r b'/')) [
  | inl flat ↦ first_segment_own r t flat ∙ rw (first_segment, flat, immediate_name) refl
  | inr (i, nested) ↦
      rw (first_segment, nested, index_byte-kept r (b'/' ∷ t) i nested, immediate_name)
        (take_kept r (b'/' ∷ t) i nested)
]

take_flat : (r : Text) (i : ℕ) → index_byte r b'/' ≡ some i → index_byte (take i r) b'/' ≡ none
unfolding index_byte
take_flat [] i h = cc
take_flat (c ∷ r) zero h = refl
take_flat (c ∷ r) (suc i) h = elim (Bool-cases (c == b'/')) [
  | inl slash ↦ absurd (ground arith)
  | inr other ↦ elim (Option-cases (index_byte r b'/')) [
    | inl absent ↦ absurd (ground arith)
    | inr (j, found) ↦ rw other (rw (take_flat r i (ground arith)) refl)
  ]
]

-- A first segment holds no slash.
pub first_segment_flat : (r : Text) → index_byte (first_segment r) b'/' ≡ none
first_segment_flat r = elim (Option-cases (index_byte r b'/')) [
  | inl flat ↦ rw (first_segment, flat, immediate_name) flat
  | inr (i, nested) ↦ rw (first_segment, nested, immediate_name) (take_flat r i nested)
]
