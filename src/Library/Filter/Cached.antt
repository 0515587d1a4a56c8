-- ===== src/Library/Filter/Cached.antt =====
-- Apply with its cache of directory verdicts against a plain filter.
use warpbox.Base.{
  ◌≡◌, Bool, inl, inr, some, List, [], ◌∷◌, ◌++◌, append_assoc, append-nil, arith, keep,
  if◌then◌else◌, Option-cases, sym,
}
use warpbox.Base.Text.{Text, text_eq_iff}
use warpbox.Base.Assoc.{Assoc, lookup, lookup-insert}
use warpbox.Metadata.Record.{FileRecord, text_keys}
use warpbox.Library.Filter.{
  Filter, extract_directory, match_directory, selects, verdict, remember, apply_loop, apply,
  keep_largest,
}

-- The verdict on one record, with no cache.
abbrev pub admits : Filter → FileRecord → Bool
admits f rec = selects f (match_directory f (extract_directory rec.path)) rec

-- Every cached verdict is the one that MatchDirectory gives.
abbrev IsCoherent : Filter → Assoc Text Bool → Type 0
IsCoherent f cache = (d : Text) (v : Bool) → lookup d cache ≡ some v → v ≡ match_directory f d

verdict_lem :
    (f : Filter) (cache : Assoc Text Bool) (d : Text)
    → IsCoherent f cache
    → verdict f cache d ≡ match_directory f d
unfolding verdict
verdict_lem f cache d h = elim (Option-cases (lookup d cache)) [
  | inl e ↦ rw (e, verdict)
  | inr (v, e) ↦ rw (e, verdict) (h d v e)
]

remember-IsCoherent :
    (f : Filter) (cache : Assoc Text Bool) (d : Text)
    → IsCoherent f cache
    → IsCoherent f (remember f cache d)
unfolding remember
remember-IsCoherent f cache d h e v =
    ground (arith, lookup-insert d e (match_directory f d) cache, text_eq_iff d e, h e v)

apply_loop-keep :
    (f : Filter) (cache : Assoc Text Bool) (result records : List FileRecord)
    → IsCoherent f cache
    → apply_loop f cache result records ≡ result ++ keep (admits f) records
unfolding apply_loop keep
apply_loop-keep f cache result [] h = sym (append-nil result)
apply_loop-keep f cache result (rec ∷ records) h =
    let dir = extract_directory rec.path in
    let step =
      apply_loop-keep f (remember f cache dir)
        (if selects f (verdict f cache dir) rec then result ++ rec ∷ [] else result) records
        (remember-IsCoherent f cache dir h) in
    ground (
      arith,
      step,
      verdict_lem f cache dir h,
      append_assoc result (rec ∷ []) (keep (admits f) records),
    )

-- Apply keeps exactly the records whose own directory, relative path and size pass, in their
-- order, and hands them to KeepLargest if largest_file_only is set: the cache of directory
-- verdicts changes nothing.
pub apply-keep :
    (f : Filter) (records : List FileRecord)
    → apply f records ≡ (
        if f.largest_file_only
        then keep_largest (keep (admits f) records)
        else keep (admits f) records)
unfolding apply
apply-keep f records = rw (apply_loop-keep f [] [] records (λ d v e. unfold lookup in cc))
