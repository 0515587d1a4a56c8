-- ===== src/Metadata/Sync/Paths.antt =====
-- buildFileRecord: the virtual path, and what sanitizing leaves.
use warpbox.Base.{
  ap₂, ◌&&◌, ℕ, suc, ◌≡◌, refl, sym, ap, ◌∙◌, false, Option, none, some, List, [], ◌∷◌, ◌++◌, map,
  ◌==◌, ltb, if◌then◌else◌, length, drop, arith, All, Bool-cases, Option-cases, inl, inr,
  append_assoc, append-nil,
}
use warpbox.Base.Text.{Text, index_byte}
use warpbox.Torbox.Listing.{TorrentFile}
use warpbox.Metadata.Sync.{
  is_reserved, sanitize_char, sanitize_path_segment, split_slash, join_slash, virtual_path,
  rest_path,
}

-- A character of a virtual path: a slash stays, any other is sanitized.
abbrev pub path_char : ℕ → ℕ
path_char c = if c == b'/' then b'/' else sanitize_char c

pub join-cons :
    (s : Text) (xs : List Text) {x : Text} {ys : List Text}
    → xs ≡ x ∷ ys
    → join_slash (s ∷ xs) ≡ s ++ (b'/' ∷ join_slash xs)
unfolding join_slash
join-cons s [] e = cc
join-cons s (x ∷ xs) e = refl

pub split_head : (cur s : Text) → (x : Text) × (xs : List Text) × (split_slash cur s ≡ x ∷ xs)
unfolding split_slash
split_head cur [] = (cur, [], refl)
split_head cur (c ∷ s) = elim (Bool-cases (c == b'/')) [
  | inl e ↦ (cur, split_slash [] s, rw (e, split_slash))
  | inr e ↦ let (x, xs, p) = split_head (cur ++ c ∷ []) s in (x, xs, rw (e, split_slash) p)
]

map-append_one : (f : ℕ → ℕ) (xs : Text) (c : ℕ) → map f (xs ++ c ∷ []) ≡ map f xs ++ f c ∷ []
map-append_one f [] c = refl
map-append_one f (x ∷ xs) c = ap (λ r. f x ∷ r) (map-append_one f xs c)

segment_lem : (s : Text) → sanitize_path_segment s ≡ map sanitize_char s
unfolding sanitize_path_segment
segment_lem s = refl

join-split :
    (cur s : Text)
    → join_slash (map sanitize_path_segment (split_slash cur s))
      ≡ map sanitize_char cur ++ map path_char s
unfolding sanitize_path_segment split_slash
join-split cur [] = unfold join_slash in sym (append-nil (map sanitize_char cur))
join-split cur (c ∷ s) = elim (Bool-cases (c == b'/')) [
  | inl e ↦
      let (x, xs, p) = split_head [] s in
      rw (e, split_slash)
        (join-cons (map sanitize_char cur) (map sanitize_path_segment (split_slash [] s))
            (ap (map sanitize_path_segment) p)
          ∙ ap (λ r. map sanitize_char cur ++ (b'/' ∷ r)) (join-split [] s))
  | inr e ↦
      rw (e, split_slash)
        (join-split (cur ++ c ∷ []) s
          ∙ (ap (λ r. r ++ map path_char s) (map-append_one sanitize_char cur c)
              ∙ append_assoc (map sanitize_char cur) (sanitize_char c ∷ []) (map path_char s)))
]

-- With no slash, a path's characters are sanitized like a segment's.
no_slash : (s : Text) → index_byte s b'/' ≡ none → map path_char s ≡ map sanitize_char s
unfolding index_byte
no_slash [] h = refl
no_slash (c ∷ s) h = ground (arith, no_slash s)

rest_path_lem : (rest : Text) → rest_path rest ≡ map path_char rest
rest_path_lem rest = elim (Option-cases (index_byte rest b'/')) [
  | inl e ↦ rw (e, rest_path) (unfold sanitize_path_segment in sym (no_slash rest e))
  | inr (i, e) ↦ rw (e, rest_path) (join-split [] rest)
]

-- The text that the virtual path is made of: s3_path behind its first slash, unless there is none,
-- it comes first or it comes last; then the short name.
abbrev pub visible_part : TorrentFile → Option Text
visible_part f = elim (index_byte f.s3_path b'/') [
  | none ↦ none
  | some idx ↦
      if ltb 0 idx && ltb (suc idx) (length f.s3_path)
      then some (drop (suc idx) f.s3_path)
      else none
]

abbrev pub cleaned : TorrentFile → Option Text → Text
cleaned f none = map sanitize_char f.short_name
cleaned f (some rest) = map path_char rest

-- The virtual path is s3_path behind its first segment with every character but the slashes
-- sanitized in its place, or else the sanitized short name: splitting and joining lose nothing,
-- whether or not there is a directory.
pub virtual_path-cleaned : (f : TorrentFile) → virtual_path f ≡ cleaned f (visible_part f)
unfolding virtual_path
virtual_path-cleaned f = elim (Option-cases (index_byte f.s3_path b'/')) [
  | inl e ↦ rw (e, virtual_path, visible_part) (segment_lem f.short_name)
  | inr (idx, e) ↦ elim (Bool-cases (ltb 0 idx && ltb (suc idx) (length f.s3_path))) [
    | inl inside ↦
        rw (e, inside, virtual_path, visible_part) (rest_path_lem (drop (suc idx) f.s3_path))
    | inr edge ↦ rw (e, edge, virtual_path, visible_part) (segment_lem f.short_name)
  ]
]

sanitize_char_clean : (c : ℕ) → is_reserved (sanitize_char c) ≡ false
unfolding sanitize_char
sanitize_char_clean c = ground arith

char_same : (c : ℕ) → is_reserved c ≡ false → sanitize_char c ≡ c
unfolding sanitize_char
char_same c h = rw h

-- Sanitizing leaves no reserved character, keeps the length, and a second pass changes nothing.
pub sanitize_path_segment_clean :
    (s : Text)
    → All (λ c. is_reserved c ≡ false) (sanitize_path_segment s)
      × (length (sanitize_path_segment s) ≡ length s)
      × (sanitize_path_segment (sanitize_path_segment s) ≡ sanitize_path_segment s)
unfolding sanitize_path_segment
sanitize_path_segment_clean [] = (tt, refl, refl)
sanitize_path_segment_clean (c ∷ s) =
    let (clean, size, twice) = sanitize_path_segment_clean s in
    (
      (sanitize_char_clean c, clean),
      ap suc size,
      ap₂ ◌∷◌ (char_same (sanitize_char c) (sanitize_char_clean c)) twice,
    )
