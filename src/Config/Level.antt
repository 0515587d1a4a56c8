-- ===== src/Config/Level.antt =====
-- internal/config/config.go: UpdateLogLevel, on the YAML tree of the file. The library that reads and
-- writes YAML is a parameter, and so is what the operating system answers.
pub mod Laws
use warpbox.Base.{ℕ, Bool, true, false, Option, none, some, List, [], ◌∷◌, ◌++◌, if◌then◌else◌}
use warpbox.Base.Text.{Text, codes, text_eq}
use warpbox.Base.Result.{Result, ok, err}
use warpbox.Config.Size.{Floats}
use warpbox.Config.Validate.{parse_level}

pub data Kind : Type 0 where
  document mapping sequence scalar alias : Kind

-- A yaml.Node: its kind, its tag, its value, the comment above it, and its content, in which the keys
-- and the values of a mapping alternate.
mutual
  pub data Node : Type 0 where
    node : Kind → Text → Text → Text → Nodes → Node

  pub data Nodes : Type 0 where
    nil : Nodes
    cons : Node → Nodes → Nodes

abbrev pub kind_of : Node → Kind
kind_of (node k t v c ns) = k

abbrev pub value_of : Node → Text
value_of (node k t v c ns) = v

abbrev pub content_of : Node → Nodes
content_of (node k t v c ns) = ns

abbrev pub with_value : Text → Node → Node
with_value v' (node k t v c ns) = node k t v' c ns

abbrev pub with_content : Nodes → Node → Node
with_content ns' (node k t v c ns) = node k t v c ns'

abbrev pub text_node : Text → Node
text_node v = node scalar (codes "!!str") v [] nil

-- The loop over the pairs of a mapping, and the append behind it. A key without a value is passed over.
unfoldable pub update_level_in_config : Text → Nodes → Nodes × Bool
update_level_in_config level nil =
    (cons (text_node (codes "level")) (cons (text_node level) nil), true)
update_level_in_config level (cons k nil) =
    (cons k (cons (text_node (codes "level")) (cons (text_node level) nil)), true)
update_level_in_config level (cons k (cons v rest)) = elim (text_eq (value_of k) (codes "level")) [
  | true ↦
      if text_eq (value_of v) level
      then (cons k (cons v rest), false)
      else (cons k (cons (with_value level v) rest), true)
  | false ↦
      let (rest', changed) = update_level_in_config level rest in (cons k (cons v rest'), changed)
]

abbrev pub logging_section : Text → Nodes
logging_section level =
    cons (node scalar (codes "!!str") (codes "logging") (codes "Log level set via web UI") nil) (
      cons
        (node mapping (codes "!!map") [] []
          (cons (text_node (codes "level")) (cons (text_node level) nil)))
        nil)

-- The first pair of the root with the key `logging`, or else a new one at the end.
unfoldable pub update_root : Text → Nodes → Nodes × Bool
update_root level nil = (logging_section level, true)
update_root level (cons k nil) = (cons k (logging_section level), true)
update_root level (cons k (cons v rest)) = elim (text_eq (value_of k) (codes "logging")) [
  | true ↦
      let (content, changed) = update_level_in_config level (content_of v) in
      (cons k (cons (with_content content v) rest), changed)
  | false ↦ let (rest', changed) = update_root level rest in (cons k (cons v rest'), changed)
]

-- The new tree, if it is to be written; `doc` holds this one root.
unfoldable pub update_document : Text → Node → Node → Result (Option Node)
update_document level doc (node mapping t v c content) =
    let (content', changed) = update_root level content in
    ok (if changed then some (with_content (cons (node mapping t v c content') nil) doc) else none)
update_document level doc root = err (codes "unexpected YAML structure: expected root mapping")

unfoldable pub update_tree : Text → Node → Result (Option Node)
unfolding update_document
update_tree level (node document t v c (cons root nil)) =
    update_document level (node document t v c (cons root nil)) root
update_tree level doc =
    err (codes "unexpected YAML structure: expected a document with one root node")

-- The file and the temporary file beside it, as they are on the disk.
pub record Files : Type 0 where
  pub config : Text
  pub temporary : Option Text

-- What the operating system answers: an error of reading, of writing and of renaming. A failed write
-- may leave any part of the text.
pub record Disk : Type 0 where
  pub read_error : Option Text
  pub write_error : Option Text
  pub partial : Option Text
  pub rename_error : Option Text

-- yaml.Unmarshal into a tree, and the encoder.
pub record Yaml : Type 0 where
  pub unmarshal : Text → Result Node
  pub encode : Node → Result Text

abbrev pub wrap : Text → Text → Text
wrap what e = what ++ (codes ": " ++ e)

-- The write of the temporary file and the rename.
unfoldable pub replace_file : Disk → Text → Files → Option Text × Files
replace_file d out fs = elim d.write_error [
  | some e ↦ (some (wrap (codes "writing temp config") e), record fs { temporary = d.partial })
  | none ↦ elim d.rename_error [
    | some e ↦ (some (wrap (codes "renaming temp config") e), record fs { temporary = none })
    | none ↦ (none, record { config = out; temporary = none })
  ]
]

unfoldable pub write_tree : Yaml → Disk → Option Node → Files → Option Text × Files
write_tree y d none fs = (none, fs)
write_tree y d (some doc) fs = elim (y.encode doc) [
  | err e ↦ (some (wrap (codes "marshalling config") e), fs)
  | ok out ↦ replace_file d out fs
]

unfoldable pub edit_file : Yaml → Disk → Text → Files → Option Text × Files
edit_file y d level fs = elim (y.unmarshal fs.config) [
  | err e ↦ (some (wrap (codes "parsing config") e), fs)
  | ok doc ↦ elim (update_tree level doc) [
    | err e ↦ (some e, fs)
    | ok changed ↦ write_tree y d changed fs
  ]
]

-- The path of the file is that of Load.
module _ (F : Floats) (quote : Text → Text) (compile_error : Text → Option Text) (y : Yaml) where
  unfoldable pub update_log_level : Disk → Text → Files → Option Text × Files
  update_log_level d level fs = elim (parse_level F quote compile_error level) [
    | err e ↦ (some e, fs)
    | ok l ↦ elim d.read_error [
      | some e ↦ (some (wrap (codes "reading config file") e), fs)
      | none ↦ edit_file y d level fs
    ]
  ]
