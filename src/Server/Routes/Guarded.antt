-- ===== src/Server/Routes/Guarded.antt =====
-- Which requests reach a handler.
use warpbox.Base.{
  ◌≡◌, refl, sym, subst, inl, inr, Bool, true, false, not, ◌&&◌, List, [], ◌∷◌, Has, All,
  if◌then◌else◌, arith,
}
use warpbox.Base.Text.{Text, codes, text_eq}
use warpbox.Server.Routes.{
  Handler, webdav, healthz, resync, restart_sync, log_level, chart_js, logo, Route, register_routes,
  Asked, Guard, Served, refused, handled, is_authorized, require_auth, csrf_middleware, serve_route,
}

-- What anyone may ask for: media, the health check, and static files.
abbrev pub is_open : Handler → Bool
is_open webdav = true
is_open healthz = true
is_open chart_js = true
is_open logo = true
is_open other = false

-- What changes the server.
abbrev pub is_action : Handler → Bool
is_action resync = true
is_action restart_sync = true
is_action log_level = true
is_action other = false

abbrev Fits : Route → Type 0
Fits r = (r.requires_auth ≡ not (is_open r.handler)) × (r.checks_csrf ≡ is_action r.handler)

All-Has : (P : Route → Type 0) (l : List Route) (r : Route) → All P l → Has r l → P r
All-Has P [] r a h = absurd h
All-Has P (x ∷ l) r a (inl e) = subst P (sym e) a.0
All-Has P (x ∷ l) r a (inr h) = All-Has P l r a.1 h

routes-Fits : (root : Text) (enable_pprof : Bool) → All Fits (register_routes root enable_pprof)
unfolding register_routes
routes-Fits root true = (
  (refl, refl),
  (
    (refl, refl),
    (
      (refl, refl),
      (
        (refl, refl),
        (
          (refl, refl),
          (
            (refl, refl),
            (
              (refl, refl),
              (
                (refl, refl),
                (
                  (refl, refl),
                  (
                    (refl, refl),
                    (
                      (refl, refl),
                      (
                        (refl, refl),
                        (
                          (refl, refl),
                          (
                            (refl, refl),
                            (
                              (refl, refl),
                              (
                                (refl, refl),
                                ((refl, refl), ((refl, refl), ((refl, refl), ((refl, refl), tt)))),
                              ),
                            ),
                          ),
                        ),
                      ),
                    ),
                  ),
                ),
              ),
            ),
          ),
        ),
      ),
    ),
  ),
)
routes-Fits root false = (
  (refl, refl),
  (
    (refl, refl),
    (
      (refl, refl),
      (
        (refl, refl),
        (
          (refl, refl),
          (
            (refl, refl),
            (
              (refl, refl),
              (
                (refl, refl),
                (
                  (refl, refl),
                  (
                    (refl, refl),
                    (
                      (refl, refl),
                      (
                        (refl, refl),
                        (
                          (refl, refl),
                          (
                            (refl, refl),
                            ((refl, refl), ((refl, refl), ((refl, refl), ((refl, refl), tt)))),
                          ),
                        ),
                      ),
                    ),
                  ),
                ),
              ),
            ),
          ),
        ),
      ),
    ),
  ),
)

-- The answer that a request should get: whether the route is open, and whether it is an action.
abbrev pub granted :
    {A S : Type 0} → Guard → Asked → (Handler → S → A × S) → Handler → S → Served A × S
granted g req run h s =
    if not (is_open h) && (g.auth_enabled && not (is_authorized g req.basic_auth))
    then (refused 401 (codes "Unauthorized"), s)
    else if is_action h && (req.is_post && not (text_eq req.csrf_header g.csrf_token))
    then (refused 403 (codes "invalid or missing CSRF token"), s)
    else (handled (run h s).0, (run h s).1)

serve_one :
    {A S : Type 0} (g : Guard) (req : Asked) (run : Handler → S → A × S) (r : Route) (s : S)
    → Fits r
    → serve_route g req run r s ≡ granted g req run r.handler s
unfolding serve_route require_auth csrf_middleware
serve_one g req run r s (auth, csrf) = rw (auth, csrf) (ground arith)

-- Whatever the handlers do, a request on a registered route reaches its handler exactly if the route
-- is one for media, health or static files, or the credentials are right or not asked for, and then,
-- for a POST of an action, the CSRF token is right; else the answer is 401 or 403 and nothing changes.
pub serve_route-granted :
    {A S : Type 0} (g : Guard) (req : Asked) (run : Handler → S → A × S) (root : Text)
    (enable_pprof : Bool) (r : Route) (s : S)
    → Has r (register_routes root enable_pprof)
    → serve_route g req run r s ≡ granted g req run r.handler s
serve_route-granted g req run root enable_pprof r s known =
    serve_one g req run r s
      (All-Has Fits (register_routes root enable_pprof) r (routes-Fits root enable_pprof) known)
