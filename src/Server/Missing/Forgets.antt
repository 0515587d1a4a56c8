-- ===== src/Server/Missing/Forgets.antt =====
-- PruneBreakerForMissingItems: what it forgets, and what it keeps.
use warpbox.Base.{
  ◌≡◌, refl, sym, ap, ◌∙◌, Bool, true, false, not, Option, none, List, [], ◌∷◌, ◌++◌, ◌==◌, keep,
  All, if◌then◌else◌, arith, append_assoc, append-nil,
}
use warpbox.Base.Int.{ℤ, IsInt64}
use warpbox.Base.Text.{Text, codes, format_int}
use warpbox.Base.Digits.{format_int_no_colon, parse_int-format_int}
use warpbox.Base.Assoc.{KeyEq, Assoc, lookup}
use warpbox.Metadata.Record.{FileSource, torrent, usenet, text_keys, int_keys}
use warpbox.Server.State.{Server}
use warpbox.Server.Fetch.{cdn_cache_key}
use warpbox.Server.Missing.{split_colon, is_live, parts_missing, prune_breaker_for_missing_items}

pub lookup-keep :
    {K : Type 0} {V : Type 0} ⦃e : KeyEq K⦄ (test : K → Bool) (k : K) (m : Assoc K V)
    → lookup k (keep (λ p. test p.0) m) ≡ (if test k then lookup k m else none)
unfolding lookup keep
lookup-keep test k [] = ground arith
lookup-keep ⦃e⦄ test k ((j, v) ∷ m) = ground (arith, lookup-keep test k m, e.eqb_iff j k)

not_twice :
    {A : Type 0} (b : Bool) (a : Option A)
    → (if not (not b) then a else none) ≡ (if b then a else none)
not_twice true a = refl
not_twice false a = refl

NoColon : Text → Type 0
NoColon s = All (λ c. (c == b':') ≡ false) s

split_colon_last : (cur s : Text) → NoColon s → split_colon cur s ≡ (cur ++ s) ∷ []
unfolding split_colon NoColon
split_colon_last cur [] h = ap (λ t. t ∷ []) (sym (append-nil cur))
split_colon_last cur (c ∷ s) (plain, h) =
    rw (plain, split_colon)
      (split_colon_last (cur ++ c ∷ []) s h ∙ ap (λ t. t ∷ []) (append_assoc cur (c ∷ []) s))

split_colon_part :
    (cur s t : Text) → NoColon s → split_colon cur (s ++ (b':' ∷ t)) ≡ (cur ++ s) ∷ split_colon [] t
unfolding split_colon NoColon
split_colon_part cur [] t h = ap (λ u. u ∷ split_colon [] t) (sym (append-nil cur))
split_colon_part cur (c ∷ s) t (plain, h) =
    rw (plain, split_colon)
      (split_colon_part (cur ++ c ∷ []) s t h
        ∙ ap (λ u. u ∷ split_colon [] t) (append_assoc cur (c ∷ []) s))

-- The parts behind the name of a source.
two_parts :
    (name : Text) (item file : ℤ)
    → NoColon name
    → split_colon [] (name ++ (b':' ∷ (format_int item ++ (b':' ∷ format_int file))))
      ≡ name ∷ format_int item ∷ format_int file ∷ []
unfolding NoColon
two_parts name item file plain =
    split_colon_part [] name (format_int item ++ (b':' ∷ format_int file)) plain
    ∙ ap (λ u. name ∷ u)
        (split_colon_part [] (format_int item) (format_int file) (format_int_no_colon item)
          ∙ ap (λ u. format_int item ∷ u)
              (split_colon_last [] (format_int file) (format_int_no_colon file)))

-- A key of the negative cache has its three parts back.
split_colon-cdn_cache_key :
    (source : FileSource) (item file : ℤ)
    → (name : Text) × (split_colon [] (cdn_cache_key source item file)
        ≡ name ∷ format_int item ∷ format_int file ∷ [])
unfolding cdn_cache_key NoColon
split_colon-cdn_cache_key torrent item file = (
  codes "torrent",
  two_parts (codes "torrent") item file (refl, (refl, (refl, (refl, (refl, (refl, (refl, tt))))))),
)
split_colon-cdn_cache_key usenet item file = (
  codes "usenet",
  two_parts (codes "usenet") item file (refl, (refl, (refl, (refl, (refl, (refl, tt)))))),
)

parts_missing-cdn_cache_key :
    (live : List ℤ) (source : FileSource) (item file : ℤ)
    → IsInt64 item
    → parts_missing live (split_colon [] (cdn_cache_key source item file)) ≡ not (is_live live item)
parts_missing-cdn_cache_key live source item file fits =
    let (name, parts) = split_colon-cdn_cache_key source item file in
    rw (parts, parts_missing, parse_int-format_int item fits) refl

-- What the server remembers of an id and of a key is kept if the item is live, and else forgotten.
pub prune-Forgets :
    (live : List ℤ) (s : Server) (id item file : ℤ) (source : FileSource)
    → IsInt64 item
    → let s' = prune_breaker_for_missing_items live s in
      let key = cdn_cache_key source item file in
      (lookup id s'.torrent_failures
        ≡ (if is_live live id then lookup id s.torrent_failures else none))
      × (lookup key s'.negative_cache
          ≡ (if is_live live item then lookup key s.negative_cache else none))
unfolding prune_breaker_for_missing_items
prune-Forgets live s id item file source fits = (
  lookup-keep (is_live live) id s.torrent_failures,
  lookup-keep (λ k. not (parts_missing live (split_colon [] k))) (cdn_cache_key source item file)
        s.negative_cache
      ∙ rw (parts_missing-cdn_cache_key live source item file fits)
          (not_twice (is_live live item) _),
)
