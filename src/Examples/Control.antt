-- ===== src/Examples/Control.antt =====
-- The theorems of the log level, of the routes, and of the counters of both queues.
use native.Mathlib.Decide.{ℕ_discrete}
use warpbox.Base.{◌+◌, ◌≡◌, refl, true, false, none, some, [], ◌∷◌, inl, inr, arith, if◌then◌else◌}
use warpbox.Base.Text.{Text, codes, text_eq}
use warpbox.Base.Result.{Result, ok, err}
use warpbox.Config.Validate.{info}
use warpbox.Config.Level.{Node, node, nil, cons, document, mapping, Yaml, Disk, logging_section}
use warpbox.Server.Actions.{Runtime}
use warpbox.Server.Routes.{Guard, Asked, Handler, route, register_routes, serve_route}
use warpbox.Server.Routes.Guarded.{granted, serve_route-granted}
use warpbox.Server.Metrics.{throttle_stats}
use warpbox.Server.Metrics.Both.{joint_summary, throttle_stats-summary}
use warpbox.Throttle.Queue.{new_queue, stats}
use warpbox.Throttle.Queue.History.{finished, limited, run}

Node-discrete : Discrete Node
Node-discrete = hlevel (ℕ_discrete)

-- A file without a section for the logging, and with one.
abbrev bare : Node
bare = node document [] [] [] (cons (node mapping [] [] [] nil) nil)

abbrev logging : Node
logging =
    node document [] [] [] (cons (node mapping [] [] [] (logging_section (codes "debug"))) nil)

-- An encoder of one document.
abbrev encoded : (doc : Node) → Dec (doc ≡ logging) → Result Text
encoded doc (yes same) = ok (codes "logging")
encoded doc (no other) = err (codes "unknown")

abbrev yaml : Yaml
yaml = record {
  unmarshal = λ s. (if text_eq s (codes "logging") then ok logging else ok bare);
  encode = λ doc. encoded doc (Node-discrete doc logging);
}

abbrev healthy : Disk
healthy = record { read_error = none; write_error = none; partial = none; rename_error = none }

abbrev runtime : Runtime
runtime = record {
  level_var = info;
  log_level = codes "info";
  files = record { config = codes "port: 1"; temporary = none };
  started = [];
}

abbrev guard : Guard
guard = record {
  auth_enabled = true;
  auth_username = codes "admin";
  auth_password = codes "secret";
  csrf_token = codes "abc";
}

abbrev forged : Asked
forged = record {
  is_post = true;
  basic_auth = some (codes "admin", codes "guess");
  csrf_header = codes "abc";
}

serve_route-granted_example :
    serve_route guard forged (λ h s. (h, s + 1)) (route (codes "/logs") Handler.logs true false) 3
    ≡ granted guard forged (λ h s. (h, s + 1)) Handler.logs 3
unfolding register_routes
serve_route-granted_example =
    serve_route-granted guard forged (λ h s. (h, s + 1)) (codes "/webdav") false
      (route (codes "/logs") Handler.logs true false) 3
      (inr (inr (inr (inr (inr (inr (inl refl)))))))

throttle_stats-summary_example :
    throttle_stats
      (stats 100 (run (finished true 10 20 ∷ limited ∷ []) (new_queue 60)))
      (some (stats 100 (run (limited ∷ finished false 30 40 ∷ []) (new_queue 60))))
    ≡ joint_summary 60 100
        (finished true 10 20 ∷ limited ∷ [])
        (limited ∷ finished false 30 40 ∷ [])
throttle_stats-summary_example =
    throttle_stats-summary 60 60 100 (finished true 10 20 ∷ limited ∷ [])
      (limited ∷ finished false 30 40 ∷ []) (omega arith, tt) (omega arith, tt) refl
