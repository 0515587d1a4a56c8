-- ===== src/Server/Browser/Escaping.antt =====
-- internal/server/propfind.go: what encodeDAVHref writes decodes to the path that it was given.
use mathlib.Core.List.{reverse-cons, reverse-reverse}
use warpbox.Base.{
  ◌≡◌, refl, sym, ap, ◌∙◌, Bool, true, false, [], ◌∷◌, ◌++◌, map, reverse, ◌==◌, Bool-cases, inl,
  inr, arith, append_assoc, append-nil,
}
use warpbox.Base.Text.{Text}
use warpbox.Metadata.Record.{text_keys}
use warpbox.Metadata.Sync.{split_slash, join_slash}
use warpbox.Metadata.Sync.Paths.{join-cons, split_head}
use warpbox.Server.Browser.{encode_dav_href, ends_in_slash}
use warpbox.Server.Browser.Paths.{turn}

ends_in_slash_own : (t : Text) → ends_in_slash (t ++ b'/' ∷ []) ≡ true
ends_in_slash_own t = rw (ends_in_slash, turn t b'/') refl

without_slash : (p : Text) → ends_in_slash p ≡ true → (r : Text) × (p ≡ r ++ b'/' ∷ [])
without_slash p h = go (reverse p) (reverse-reverse p) h
  where
    go :
        (q : Text)
        → reverse q ≡ p
        → (elim q as (λ x. Bool) [ [] ↦ false | c ∷ r ↦ c == b'/' ]) ≡ true
        → (r : Text) × (p ≡ r ++ b'/' ∷ [])
    go [] e slash = cc
    go (c ∷ r) e slash =
        let is_slash : c ≡ b'/' = ground arith in
        (reverse r, sym e ∙ ap (λ d. reverse (d ∷ r)) is_slash ∙ reverse-cons b'/' r)

-- url.PathEscape, with the decoding that net/http does: an escaped segment decodes to itself, also in
-- front of a slash.
module _ (path_escape unescape : Text → Text) (whole : (s : Text) → unescape (path_escape s) ≡ s)
    (segment : (s t : Text) → unescape (path_escape s ++ (b'/' ∷ t)) ≡ s ++ (b'/' ∷ unescape t))
    (empty : path_escape [] ≡ []) where
  abbrev escaped : Text → Text → Text
  escaped cur p = join_slash (map path_escape (split_slash cur p))

  escaped_slash :
      (cur s : Text)
      → join_slash (path_escape cur ∷ map path_escape (split_slash [] s))
        ≡ path_escape cur ++ (b'/' ∷ escaped [] s)
  escaped_slash cur s =
      let (x, xs, p) = split_head [] s in
      join-cons (path_escape cur) (map path_escape (split_slash [] s)) (ap (map path_escape) p)

  unescape-escaped : (cur p : Text) → unescape (escaped cur p) ≡ cur ++ p
  unfolding split_slash
  unescape-escaped cur [] = unfold join_slash in (whole cur ∙ sym (append-nil cur))
  unescape-escaped cur (c ∷ s) = elim (Bool-cases (c == b'/')) [
    | inl slash ↦
        let is_slash : c ≡ b'/' = ground arith in
        rw (slash, split_slash)
          (ap unescape (escaped_slash cur s)
            ∙ segment cur (escaped [] s)
            ∙ ap (λ t. cur ++ (b'/' ∷ t)) (unescape-escaped [] s)
            ∙ ap (λ d. cur ++ (d ∷ s)) (sym is_slash))
    | inr other ↦
        rw (other, split_slash) (unescape-escaped (cur ++ c ∷ []) s ∙ append_assoc cur (c ∷ []) s)
  ]

  escaped_end : (cur r : Text) → (t : Text) × (escaped cur (r ++ b'/' ∷ []) ≡ t ++ b'/' ∷ [])
  unfolding split_slash
  escaped_end cur [] = (
    path_escape cur,
    escaped_slash cur [] ∙ ap (λ t. path_escape cur ++ (b'/' ∷ t)) (unfold join_slash in empty),
  )
  escaped_end cur (c ∷ r) = elim (Bool-cases (c == b'/')) [
    | inl slash ↦
        let (t, e) = escaped_end [] r in
        (
          path_escape cur ++ (b'/' ∷ t),
          rw (slash, split_slash)
              (escaped_slash cur (r ++ b'/' ∷ [])
                ∙ ap (λ u. path_escape cur ++ (b'/' ∷ u)) e
                ∙ sym (append_assoc (path_escape cur) (b'/' ∷ t) (b'/' ∷ []))),
        )
    | inr other ↦ let (t, e) = escaped_end (cur ++ c ∷ []) r in (t, rw (other, split_slash) e)
  ]

  pub unescape-encode_dav_href : (p : Text) → unescape (encode_dav_href path_escape p) ≡ p
  unfolding encode_dav_href
  unescape-encode_dav_href [] = ap unescape (sym empty) ∙ whole []
  unescape-encode_dav_href (c ∷ p) = elim (Bool-cases (ends_in_slash (c ∷ p))) [
    | inr open_end ↦ rw (open_end, encode_dav_href) (unescape-escaped [] (c ∷ p))
    | inl closed ↦
        let (r, e) = without_slash (c ∷ p) closed in
        let (t, out) = escaped_end [] r in
        let shut : ends_in_slash (escaped [] (c ∷ p)) ≡ true =
          ap (λ q. ends_in_slash (escaped [] q)) e ∙ ap ends_in_slash out ∙ ends_in_slash_own t in
        rw (closed, encode_dav_href) (rw shut (unescape-escaped [] (c ∷ p)))
  ]
