-- ===== src/Server/Routes.antt =====
-- internal/server: requireAuth of auth.go, csrfMiddleware and the table of registerRoutes in server.go.
-- The choice of a route for a path is the router's, and the handlers are parameters.
pub mod Guarded
use warpbox.Base.{
  ℕ, Bool, true, false, not, ◌&&◌, ◌||◌, Option, none, some, List, [], ◌∷◌, ◌++◌, if◌then◌else◌,
}
use warpbox.Base.Text.{Text, codes, text_eq}

pub data Handler : Type 0 where
  webdav http_browser logs healthz stats_json resync restart_sync log_level pprof landing chart_js
        logo openapi_spec :
      Handler

-- A pattern, its handler, and the middleware in front of it.
pub record Route : Type 0 where
  pub pattern : Text
  pub handler : Handler
  pub requires_auth : Bool
  pub checks_csrf : Bool

abbrev pub route : Text → Handler → Bool → Bool → Route
route pattern handler auth csrf = record {
  pattern = pattern;
  handler = handler;
  requires_auth = auth;
  checks_csrf = csrf;
}

abbrev pub webdav_routes : Text → List Route
webdav_routes root =
    route (root ++ codes "/*") webdav false false
    ∷ route root webdav false false
    ∷ route (codes "/infuse/*") webdav false false
    ∷ route (codes "/infuse") webdav false false
    ∷ []

abbrev pub page_routes : List Route
page_routes =
    route (codes "/http/*") http_browser true false
    ∷ route (codes "/http") http_browser true false
    ∷ route (codes "/logs") logs true false
    ∷ route (codes "/logs/") logs true false
    ∷ route (codes "/healthz") healthz false false
    ∷ route (codes "/stats.json") stats_json true false
    ∷ []

abbrev pub action_routes : List Route
action_routes =
    route (codes "/actions/resync") resync true true
    ∷ route (codes "/actions/restart-sync") restart_sync true true
    ∷ route (codes "/actions/loglevel") log_level true true
    ∷ []

abbrev pub pprof_routes : Bool → List Route
pprof_routes enabled =
    if enabled
    then route (codes "/debug/pprof") pprof true false
      ∷ route (codes "/debug/pprof/*") pprof true false
      ∷ []
    else []

abbrev pub last_routes : List Route
last_routes =
    route (codes "/") landing true false
    ∷ route (codes "/chart.umd.min.js") chart_js false false
    ∷ route (codes "/warpbox.svg") logo false false
    ∷ route (codes "/favicon.ico") logo false false
    ∷ route (codes "/openapi.json") openapi_spec true false
    ∷ []

unfoldable pub register_routes : Text → Bool → List Route
register_routes root enable_pprof =
    webdav_routes root
    ++ (page_routes ++ (action_routes ++ (pprof_routes enable_pprof ++ last_routes)))

-- A request, as the middleware reads it: whether it is a POST, the credentials of BasicAuth, and the
-- header X-CSRF-Token.
pub record Asked : Type 0 where
  pub is_post : Bool
  pub basic_auth : Option (Text × Text)
  pub csrf_header : Text

pub record Guard : Type 0 where
  pub auth_enabled : Bool
  pub auth_username : Text
  pub auth_password : Text
  pub csrf_token : Text

-- An error, or what the handler answers.
pub data Served {ℓ} (A : Type ℓ) : Type ℓ where
  refused : ℕ → Text → Served A
  handled : A → Served A

abbrev pub is_authorized : Guard → Option (Text × Text) → Bool
is_authorized g none = false
is_authorized g (some (user, pass)) = text_eq user g.auth_username && text_eq pass g.auth_password

module _ {A S : Type 0} where
  unfoldable pub require_auth : Guard → Asked → (S → Served A × S) → S → Served A × S
  require_auth g req next s =
      if not g.auth_enabled
      then next s
      else if is_authorized g req.basic_auth
      then next s
      else (refused 401 (codes "Unauthorized"), s)

  unfoldable pub csrf_middleware : Guard → Asked → (S → Served A × S) → S → Served A × S
  csrf_middleware g req next s =
      if req.is_post && not (text_eq req.csrf_header g.csrf_token)
      then (refused 403 (codes "invalid or missing CSRF token"), s)
      else next s

  -- A request that the router gave to a route.
  unfoldable pub serve_route : Guard → Asked → (Handler → S → A × S) → Route → S → Served A × S
  serve_route g req run r s =
      let handle : S → Served A × S = λ t. (let (a, t') = run r.handler t in (handled a, t')) in
      let checked : S → Served A × S =
        λ t. (if r.checks_csrf then csrf_middleware g req handle t else handle t) in
      if r.requires_auth then require_auth g req checked s else checked s
