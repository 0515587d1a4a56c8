-- ===== src/Metadata/Store/Dir.antt =====
-- internal/metadata/store.go: ListDir, with SQLite's LIKE. The sort of ORDER BY name is a parameter:
-- rows with one name come in an order that SQLite does not promise.
use warpbox.Base.{
  ℕ, ◌+◌, Bool, true, false, ◌&&◌, ◌||◌, List, [], ◌∷◌, ◌++◌, leb, ◌==◌, any, keep, if◌then◌else◌,
}
use warpbox.Base.Text.{Text}
use warpbox.Metadata.Record.{FileRecord}
use warpbox.Metadata.Store.{Store, has_path}

-- Upper and lower case of ASCII letters are one.
unfoldable pub fold : ℕ → ℕ
fold c = if leb b'A' c && leb c b'Z' then c + 32 else c

unfoldable pub some_suffix : (Text → Bool) → Text → Bool
some_suffix p [] = p []
some_suffix p (c ∷ s) = p (c ∷ s) || some_suffix p s

-- s LIKE pattern
unfoldable pub like : Text → Text → Bool
like [] [] = true
like [] (c ∷ s) = false
like (p ∷ ps) s =
    if p == b'%'
    then some_suffix (like ps) s
    else elim s [ [] ↦ false | c ∷ rest ↦ ((p == b'_') || (fold p == fold c)) && like ps rest ]

-- Of the rows of each path the last one: the ids increase.
unfoldable pub latest : List FileRecord → List FileRecord
latest [] = []
latest (row ∷ rows) =
    let rest = latest rows in if any (has_path row.path) rows then rest else row ∷ rest

unfoldable pub list_dir : (List FileRecord → List FileRecord) → Text → Store → List FileRecord
list_dir by_name prefix s =
    by_name (keep (λ row. like (prefix ++ b'%' ∷ []) row.path) (latest s.files))
