-- ===== src/Metadata/Sync/Complete.antt =====
-- A cycle that meets no error, against the two lists.
use warpbox.Base.{ℕ, ◌≡◌, true, Option, none, some, List, All, any}
use warpbox.Base.Int.{ℤ, pos, lt_int, eq_int}
use warpbox.Base.Text.{Text}
use warpbox.Base.Result.{Result}
use warpbox.Torbox.Listing.{Torrent}
use warpbox.Metadata.Record.{torrent, usenet, FileRecord}
use warpbox.Metadata.Store.{Store, same_key}
use warpbox.Metadata.Sync.{records_of, upsert_all, Cycle}

-- No statement of the cycle fails.
pub record IsFine (c : Cycle) : Type 0 where
  pub tag_fine : c.tag_error ≡ none
  pub torrents_fine : (n : ℕ) → c.torrent_errors n ≡ none
  pub usenet_fine : (n : ℕ) → c.usenet_errors n ≡ none
  pub torrent_prunes_fine : (n : ℕ) → c.torrent_prune_errors n ≡ none
  pub usenet_prunes_fine : (n : ℕ) → c.usenet_prune_errors n ≡ none

-- The store holds a row for each file of the lists and no other, and each carries the tag.
abbrev pub Holds : ℤ → List FileRecord → List FileRecord → Type 0
Holds tag wanted rows =
    ((k : FileRecord) → any (same_key k) rows ≡ any (same_key k) wanted)
    × All (λ row. eq_int row.sync_tag tag ≡ true) rows

module _ (c : Cycle) (tag : ℤ) (s : Store) (ts us : List Torrent) (f : IsFine c)
    (positive : lt_int (pos 0) tag ≡ true) where
  abbrev tor : List FileRecord
  tor = records_of tag torrent ts

  abbrev nzb : List FileRecord
  nzb = records_of tag usenet us

  abbrev upserted : Store
  upserted = upsert_all c.usenet_errors 0 nzb (upsert_all c.torrent_errors 0 tor s)

abbrev pub counter : Option ℤ → ℤ
counter none = pos 0
counter (some t) = t
