-- ===== src/Server/Actions/Levels.antt =====
-- handleLogLevel: the level that runs and the level in the file.
use warpbox.Base.{ap, ◌∙◌, ◌≡◌, ◌≢◌, refl, ◌⊎◌, inl, inr, Option, none, some, Option-cases}
use warpbox.Base.Text.{Text}
use warpbox.Base.Result.{Result, ok, Result-cases}
use warpbox.Config.Size.{Floats}
use warpbox.Config.Validate.{Level, parse_level}
use warpbox.Config.Level.{
  Node, scalar, kind_of, value_of, Yaml, Disk, Files, update_tree, replace_file, write_tree,
  edit_file, update_log_level,
}
use warpbox.Config.Level.Laws.{
  IsSettings, IsWord, level_node, saved_level, word-saved, after, update_tree-level,
}
use warpbox.Server.Actions.{Response, Runtime}

-- The outcome of a write: an error and the file as it was, or a file with the level.
abbrev Saved : Yaml → Text → Files → Option Text × Files → Type 0
Saved y level fs r =
    ((e : Text) × (r.0 ≡ some e) × (r.1.config ≡ fs.config))
    ⊎ ((doc : Node) × (r.0 ≡ none)
        × (y.unmarshal r.1.config ≡ ok doc)
        × (saved_level doc ≡ some level))

-- What the YAML library relies on: a document that is written with a scalar as its level is read with a
-- level of the same value. Nothing is asked of comments, tags and other nodes.
abbrev pub ReadsLevel : Yaml → Type 0
ReadsLevel y =
    (doc v : Node) (out : Text)
    → level_node doc ≡ some v
    → kind_of v ≡ scalar
    → y.encode doc ≡ ok out
    → (doc' : Node) × (y.unmarshal out ≡ ok doc') × (saved_level doc' ≡ some (value_of v))

-- `settings`: what the file holds, if it is YAML.
module _ (F : Floats) (quote : Text → Text) (compile_error : Text → Option Text) (y : Yaml)
    (read_back : ReadsLevel y) (d : Disk) (fs : Files)
    (settings : (doc : Node) → y.unmarshal fs.config ≡ ok doc → IsSettings doc) (level : Text) where
  written :
      (doc : Node) (o : Option Node) (out : Text)
      → y.encode doc ≡ ok out
      → level_node doc ≡ o
      → IsWord level o
      → (doc' : Node) × (y.unmarshal out ≡ ok doc') × (saved_level doc' ≡ some level)
  written doc none out e at word = absurd word
  written doc (some v) out e at (kind, value) =
      let (doc', read, saved) = read_back doc v out at kind e in (doc', read, saved ∙ ap some value)

  replace_file-Saved :
      (doc : Node) (out : Text)
      → y.encode doc ≡ ok out
      → IsWord level (level_node doc)
      → Saved y level fs (replace_file d out fs)
  unfolding replace_file
  replace_file-Saved doc out e saved = elim (Option-cases d.write_error) [
    | inr (x, failed) ↦ rw (failed, replace_file) (inl (_, refl, refl))
    | inl fine ↦ elim (Option-cases d.rename_error) [
      | inr (x, failed) ↦ rw (fine, failed, replace_file) (inl (_, refl, refl))
      | inl good ↦
          let (doc', read, same) = written doc (level_node doc) out e refl saved in
          rw (fine, good, replace_file) (inr (doc', refl, read, same))
    ]
  ]

  write_tree-Saved :
      (doc : Node) (o : Option Node)
      → y.unmarshal fs.config ≡ ok doc
      → IsWord level (level_node (after doc o))
      → Saved y level fs (write_tree y d o fs)
  unfolding write_tree
  write_tree-Saved doc none e saved = inr (doc, refl, e, word-saved level (level_node doc) saved)
  write_tree-Saved doc (some doc') e saved = elim (Result-cases (y.encode doc')) [
    | inr (x, failed) ↦ rw (failed, write_tree) (inl (_, refl, refl))
    | inl (out, fine) ↦ rw (fine, write_tree) (replace_file-Saved doc' out fine saved)
  ]

  edit_file-Saved : Saved y level fs (edit_file y d level fs)
  unfolding edit_file
  edit_file-Saved = elim (Result-cases (y.unmarshal fs.config)) [
    | inr (x, failed) ↦ rw (failed, edit_file) (inl (_, refl, refl))
    | inl (doc, fine) ↦ elim (Result-cases (update_tree level doc)) [
      | inr (x, refused) ↦ rw (fine, edit_file, refused) (inl (_, refl, refl))
      | inl (o, changed) ↦
          rw (fine, edit_file, changed)
            (write_tree-Saved doc o fine
              (update_tree-level level doc o (settings doc fine) changed))
    ]
  ]

  -- UpdateLogLevel either fails and leaves the file as it is, or the level is read back from the file.
  pub update_log_level-Saved :
      Saved y level fs (update_log_level F quote compile_error y d level fs)
  unfolding update_log_level
  update_log_level-Saved = elim (Result-cases (parse_level F quote compile_error level)) [
    | inr (x, bad) ↦ rw (bad, update_log_level) (inl (_, refl, refl))
    | inl (l, good) ↦ elim (Option-cases d.read_error) [
      | inr (x, failed) ↦ rw (good, failed, update_log_level) (inl (_, refl, refl))
      | inl fine ↦ rw (good, fine, update_log_level) edit_file-Saved
    ]
  ]

-- A change that took effect and was saved, or no change at all.
abbrev pub Applied : (Text → Result Level) → Yaml → Text → Runtime → Response × Runtime → Type 0
Applied parse y level r (response, r') =
    ((response.0 ≡ 200)
      × (parse level ≡ ok r'.level_var)
      × (r'.log_level ≡ level)
      × ((doc : Node) × (y.unmarshal r'.files.config ≡ ok doc) × (saved_level doc ≡ some level)))
    ⊎ ((response.0 ≢ 200)
        × (r'.level_var ≡ r.level_var)
        × (r'.log_level ≡ r.log_level)
        × (r'.files.config ≡ r.files.config))
