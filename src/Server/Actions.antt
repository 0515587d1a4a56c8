-- ===== src/Server/Actions.antt =====
-- internal/server/actions.go: the handlers of /actions, which change the log level, and trigger a sync
-- or a restart of the worker. The goroutine of an action is left out: an action is its name.
pub mod Levels
use warpbox.Base.{ℕ, Option, none, some, List, [], ◌∷◌, ◌++◌}
use warpbox.Base.Text.{Text, codes}
use warpbox.Base.Result.{Result, ok, err}
use warpbox.Base.Assoc.{Assoc, lookup}
use warpbox.Metadata.Record.{text_keys}
use warpbox.Config.Size.{Floats}
use warpbox.Config.Validate.{Level, parse_level}
use warpbox.Config.Level.{Yaml, Disk, Files, update_log_level}

-- A status and a body.
abbrev pub Response : Type 0
Response = ℕ × Text

-- What the actions change: the LevelVar, cfg.LogLevel, the files, and the actions that were started,
-- the latest first.
pub record Runtime : Type 0 where
  pub level_var : Level
  pub log_level : Text
  pub files : Files
  pub started : List Text

-- handleResync and handleRestartSync; `actions` has the names that were configured.
unfoldable pub handle_action : Text → Text → Text → Assoc Text Text → Runtime → Response × Runtime
handle_action name missing done actions r = elim (lookup name actions) [
  | none ↦ ((500, missing), r)
  | some fn ↦ ((200, done), record r { started = fn ∷ r.started })
]

abbrev pub handle_resync : Assoc Text Text → Runtime → Response × Runtime
handle_resync actions r =
    handle_action (codes "resync") (codes "Resync not configured") (codes "Resync triggered\n")
      actions r

abbrev pub handle_restart_sync : Assoc Text Text → Runtime → Response × Runtime
handle_restart_sync actions r =
    handle_action (codes "restart-sync") (codes "Restart sync not configured")
      (codes "Sync worker restart triggered\n") actions r

-- The level takes effect only once it is saved.
unfoldable pub switch : Text → Level → Option Text × Files → Runtime → Response × Runtime
switch level parsed (some e, fs) r =
    ((500, codes "Failed to persist log level"), record r { files = fs })
switch level parsed (none, fs) r = (
  (200, codes "Log level changed to " ++ (level ++ codes "\n")),
  record r { level_var = parsed; log_level = level; files = fs },
)

module _ (F : Floats) (quote : Text → Text) (compile_error : Text → Option Text) (y : Yaml) where
  -- The error of UpdateLogLevel, and the files; without a path there is no file to write.
  unfoldable pub persist : Disk → Text → Text → Files → Option Text × Files
  persist d [] level fs = (none, fs)
  persist d (c ∷ path) level fs = update_log_level F quote compile_error y d level fs

  unfoldable pub handle_log_level : Disk → Text → Text → Runtime → Response × Runtime
  handle_log_level d path [] r = ((400, codes "Missing 'level' parameter"), r)
  handle_log_level d path (c ∷ level) r = elim (parse_level F quote compile_error (c ∷ level)) [
    | err e ↦ ((400, codes "Invalid level: " ++ e), r)
    | ok parsed ↦ switch (c ∷ level) parsed (persist d path (c ∷ level) r.files) r
  ]
