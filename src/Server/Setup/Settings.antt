-- ===== src/Server/Setup/Settings.antt =====
-- The settings that a loaded configuration gives the server.
use warpbox.Base.{ℕ, ◌≤◌, ◌≡◌, refl, ap, ◌∙◌, Bool, true, Option, none, some, arith, inl, inr}
use warpbox.Base.Int.{ℤ, pos, negsuc, pos_part, neg_part}
use warpbox.Base.Text.{Text}
use warpbox.Base.Result.{ok}
use warpbox.Config.{Config}
use warpbox.Config.Size.{Floats}
use warpbox.Config.Defaults.{or_int, or_nil, set_defaults}
use warpbox.Config.Validate.{load}
use warpbox.Config.Checks.{IsGiven, IsPointed}
use warpbox.Config.Accept.{IsAccepted, load_iff}
use warpbox.Server.State
use warpbox.Server.Setup.{server_config, bind}

-- The ranges of the settings of playback.
pub record IsSensible (c : State.Config) : Type 0 where
  pub ttl : (1 ≤ c.cdn_ttl_minutes) × (c.cdn_ttl_minutes ≤ 1440)
  pub repairs : c.cdn_url_repair_retries ≤ 10
  pub waits : (1 ≤ c.cdn_url_retry_backoff) × (c.cdn_url_retry_backoff ≤ 60)
  pub retries : c.cdn_url_retry_count ≤ 10
  pub busy_backoff : (1 ≤ c.cdn_url_429_backoff_seconds) × (c.cdn_url_429_backoff_seconds ≤ 300)
  pub connections : (1 ≤ c.max_cdn_connections) × (c.max_cdn_connections ≤ 64)
  pub negative_ttl : (1 ≤ c.negative_cache_ttl_seconds) × (c.negative_cache_ttl_seconds ≤ 300)
  pub failures : (1 ≤ c.circuit_breaker_failures) × (c.circuit_breaker_failures ≤ 100)
  pub window : (1 ≤ c.circuit_breaker_window_sec) × (c.circuit_breaker_window_sec ≤ 3600)
  pub stale : (1 ≤ c.circuit_breaker_stale_min) × (c.circuit_breaker_stale_min ≤ 60)
  pub max_stale : (5 ≤ c.circuit_breaker_max_stale_min) × (c.circuit_breaker_max_stale_min ≤ 1440)
  pub negative_max : (100 ≤ c.negative_cache_max_entries) × (c.negative_cache_max_entries ≤ 50000)
  pub breaker_max : (50 ≤ c.circuit_breaker_max_entries) × (c.circuit_breaker_max_entries ≤ 20000)
  pub health : (60 ≤ c.api_health_window_seconds) × (c.api_health_window_seconds ≤ 3600)

-- A field with its default is a number in the range.
given_value :
    (lo hi d : ℕ) (z : ℤ)
    → lo ≤ d
    → d ≤ hi
    → IsGiven lo hi z
    → (lo ≤ pos_part (or_int (pos d) z)) × (pos_part (or_int (pos d) z) ≤ hi)
given_value lo hi d (pos n) low high h = elim h [
  | inl zero ↦ (let n_zero = ap pos_part zero in ground arith)
  | inr range ↦ ground arith
]
given_value lo hi d (negsuc n) low high h = elim h [
  | inl zero ↦ absurd (let n_zero = ap neg_part zero in omega arith)
  | inr range ↦ absurd (omega arith)
]

pointed_value :
    (lo hi d : ℕ) (o : Option ℤ)
    → lo ≤ d
    → d ≤ hi
    → IsPointed lo hi o
    → (z : ℤ) × (or_nil (pos d) o ≡ some z) × (lo ≤ pos_part z) × (pos_part z ≤ hi)
pointed_value lo hi d none low high h = (pos d, refl, low, high)
pointed_value lo hi d (some (pos n)) low high h = (pos n, refl, omega arith, omega arith)
pointed_value lo hi d (some (negsuc n)) low high h = (negsuc n, refl, omega arith, omega arith)

value : (d : Bool) (o : Option Bool) → (b : Bool) × (or_nil d o ≡ some b)
value d none = (d, refl)
value d (some b) = (b, refl)

accepted_config :
    (F : Floats) (quote : Text → Text) (compile_error : Text → Option Text) (c : Config)
    → IsAccepted F quote compile_error c
    → (cfg : State.Config) × (server_config (set_defaults c) ≡ some cfg) × IsSensible cfg
unfolding server_config set_defaults
accepted_config F quote compile_error c (head, (timed, (syncing, (counted, (caching, tail))))) =
    let (p1, (p2, (p3, (p4, (p5, (p6, (p7, (p8, (p9, (p10, (p11, (p12, rest)))))))))))) = caching in
    let (auto, e0) = value true c.cache.cdn_url_auto_repair in
    let (repairs, e1, l1, h1) = pointed_value 0 10 2 _ (omega arith) (omega arith) p1 in
    let (retries, e2, l2, h2) = pointed_value 0 10 1 _ (omega arith) (omega arith) p2 in
    let (backoff, e3, l3, h3) = pointed_value 1 60 1 _ (omega arith) (omega arith) p3 in
    let (negative_ttl, e4, l4, h4) = pointed_value 1 300 30 _ (omega arith) (omega arith) p4 in
    let (failures, e5, l5, h5) = pointed_value 1 100 5 _ (omega arith) (omega arith) p5 in
    let (window_sec, e6, l6, h6) = pointed_value 1 3600 600 _ (omega arith) (omega arith) p6 in
    let (stale_min, e7, l7, h7) = pointed_value 1 60 5 _ (omega arith) (omega arith) p7 in
    let (max_stale, e8, l8, h8) = pointed_value 5 1440 60 _ (omega arith) (omega arith) p8 in
    let (negative_max, e9, l9, h9) =
      pointed_value 100 50000 5000 _ (omega arith) (omega arith) p9 in
    let (breaker_max, e10, l10, h10) =
      pointed_value 50 20000 2000 _ (omega arith) (omega arith) p10 in
    let (connections, e12, l12, h12) = pointed_value 1 64 4 _ (omega arith) (omega arith) p12 in
    let cfg : State.Config = record {
      cdn_ttl_minutes = pos_part (or_int (pos 120) c.cache.cdn_url_ttl_minutes);
      cdn_url_auto_repair = auto;
      cdn_url_repair_retries = pos_part repairs;
      cdn_url_retry_backoff = pos_part backoff;
      cdn_url_retry_count = pos_part retries;
      cdn_url_429_backoff_seconds = pos_part (or_int (pos 30) c.cache.cdn_url_429_backoff_seconds);
      max_cdn_connections = pos_part connections;
      negative_cache_ttl_seconds = pos_part negative_ttl;
      circuit_breaker_failures = pos_part failures;
      circuit_breaker_window_sec = pos_part window_sec;
      circuit_breaker_stale_min = pos_part stale_min;
      circuit_breaker_max_stale_min = pos_part max_stale;
      negative_cache_max_entries = pos_part negative_max;
      circuit_breaker_max_entries = pos_part breaker_max;
      api_health_window_seconds = pos_part (or_int (pos 300) c.stats.api_health_window_seconds);
    } in
    (
      cfg,
      bind _ _ auto e0
          ∙ (bind _ _ repairs e1
              ∙ (bind _ _ backoff e3
                  ∙ (bind _ _ retries e2
                      ∙ (bind _ _ negative_ttl e4
                          ∙ (bind _ _ failures e5
                              ∙ (bind _ _ window_sec e6
                                  ∙ (bind _ _ stale_min e7
                                      ∙ (bind _ _ max_stale e8
                                          ∙ (bind _ _ negative_max e9
                                              ∙ (bind _ _ breaker_max e10
                                                  ∙ bind _ _ connections e12)))))))))),
      record {
        ttl = given_value 1 1440 120 _ (omega arith) (omega arith) head.1.1.1.0;
        repairs = h1;
        waits = (l3, h3);
        retries = h2;
        busy_backoff = given_value 1 300 30 _ (omega arith) (omega arith) timed.1.0;
        connections = (l12, h12);
        negative_ttl = (l4, h4);
        failures = (l5, h5);
        window = (l6, h6);
        stale = (l7, h7);
        max_stale = (l8, h8);
        negative_max = (l9, h9);
        breaker_max = (l10, h10);
        health = given_value 60 3600 300 _ (omega arith) (omega arith) counted.1.1.1.0;
      },
    )

-- The settings that a configuration accepted by Load gives the server: no pointer is nil, and the
-- numbers that playback reads are in the ranges of IsSensible.
pub server_config-load :
    (F : Floats) (quote : Text → Text) (compile_error : Text → Option Text) (c d : Config)
    → load F quote compile_error c ≡ ok d
    → (cfg : State.Config) × (server_config d ≡ some cfg) × IsSensible cfg
server_config-load F quote compile_error c d loaded =
    let (accepted, same) = (load_iff F quote compile_error c d).0 loaded in
    rw same (accepted_config F quote compile_error c accepted)
