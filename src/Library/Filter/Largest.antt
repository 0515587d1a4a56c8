-- ===== src/Library/Filter/Largest.antt =====
-- KeepLargest: its loop and what it returns.
use warpbox.Base.{◌≡◌, Option, none, some, List, if◌then◌else◌, Has, Distinct}
use warpbox.Base.Int.{lt_int}
use warpbox.Base.Assoc.{Assoc, lookup}
use warpbox.Metadata.Record.{FileRecord, ItemKey, item_key_keys}
use warpbox.Library.Filter.{item_key}

abbrev Best : Type 0
Best = Assoc ItemKey FileRecord

abbrev larger : Option FileRecord → FileRecord → FileRecord
larger none rec = rec
larger (some old) rec = if lt_int old.size rec.size then rec else old

-- The map and the order name the same items, each once, and an entry stands under its own item.
record IsTracked (P : FileRecord → Type 0) (best : Best) (order : List ItemKey) : Type 0 where
  distinct : Distinct order
  listed : (k : ItemKey) (r : FileRecord) → lookup k best ≡ some r → Has k order
  found : (k : ItemKey) → Has k order → (r : FileRecord) × (lookup k best ≡ some r)
  own : (k : ItemKey) (r : FileRecord) → lookup k best ≡ some r → item_key r ≡ k
  from : (k : ItemKey) (r : FileRecord) → lookup k best ≡ some r → P r
