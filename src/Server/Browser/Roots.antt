-- ===== src/Server/Browser/Roots.antt =====
-- internal/server/http_browser.go: the totals at the root, against what the mounts list.
use warpbox.Base.{◌≡◌, false, List, [], ◌∷◌, map, keep, if◌then◌else◌}
use warpbox.Base.Int.{ℤ, pos, ◌+ℤ◌, ◌≤ℤ◌, wrap64}
use warpbox.Base.Text.{Text, codes, trim_prefix}
use warpbox.Metadata.Record.{FileRecord}
use warpbox.Library.Filter.{Filter}
use warpbox.Server.Browser.{HtmlEntry, counts, mount_entry}
use warpbox.Server.Browser.Totals.{total_size}

module _ (path_escape : Text → Text) where
  -- The entry of a mount, with the sum of the rows that pass its patterns.
  abbrev pub total_entry : List FileRecord → Filter → HtmlEntry
  total_entry records f =
      mount_entry path_escape (trim_prefix f.mount (codes "/"))
        (pos (total_size (keep (counts f) records)))

-- One filter's total, over some rows.
one_total : Filter → List FileRecord → ℤ → ℤ
one_total f [] n = n
one_total f (rec ∷ records) n =
    one_total f records (if counts f rec then wrap64 (n +ℤ rec.size) else n)

abbrev totalled : List FileRecord → Filter × ℤ → Filter × ℤ
totalled records t = (t.0, one_total t.0 records t.1)

abbrev started : Filter → Filter × ℤ
started f = (f, pos 0)

abbrev mount_total : (Text → Text) → Filter × ℤ → HtmlEntry
mount_total path_escape t = mount_entry path_escape (trim_prefix t.0.mount (codes "/")) t.1

-- Without bounds on sizes, what passes the patterns is what the filter lets through.
abbrev pub IsPlain : Filter → Type 0
IsPlain f = (f.largest_file_only ≡ false) × (f.min_size ≤ℤ pos 0) × (f.max_size ≤ℤ pos 0)

-- The entries at the root: all rows, then each mount.
abbrev pub IsRoot : (Text → Text) → List Filter → List FileRecord → List HtmlEntry → Type 0
IsRoot path_escape filters records items =
    items
    ≡ mount_entry path_escape (codes "__all__") (pos (total_size records))
      ∷ map (total_entry path_escape records) filters
