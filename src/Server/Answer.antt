-- ===== src/Server/Answer.antt =====
-- internal/server/get.go: what handlers answer to a client, and the steps that the two ways to proxy a
-- file share. The wait for a locked database inside SetCDNURL takes no time here.
pub mod Sound
use warpbox.Base.{
  ℕ, suc, ◌+◌, ◌-◌, ◌*◌, Bool, true, false, not, ◌&&◌, ◌||◌, Option, none, some, List, [], ◌∷◌,
  ◌++◌, map, ltb, leb, ◌==◌, if◌then◌else◌,
}
use warpbox.Base.Int.{ℤ, pos, eq_int}
use warpbox.Base.Text.{Text, codes, contains, has_prefix, format_int, to_lower}
use warpbox.Base.Assoc.{insert}
use warpbox.Base.Result.{Result, ok, err}
use warpbox.Metadata.Record.{FileRecord, text_keys}
use warpbox.Metadata.Store.{Store, set_cdn_url, set_file_size}
use warpbox.Server.State.{
  Server, Config, World, CdnReply, network_error, cdn_response, minute, hour,
}
use warpbox.Server.Fetch.{cdn_cache_key, call_of, fetch_cdn_url, try_cdn_fallback, remember_failure}
use warpbox.Server.Range.{HttpRange, sub64, parse_range}

-- The headers of a success: partial if there is a range.
pub record Head : Type 0 where
  pub content_type : Text
  pub content_length : ℤ
  pub content_range : Option HttpRange
  pub file_size : ℤ

-- A response of a listing, before it is rendered: `created_at` is empty where the listing's time is
-- shown.
pub record Entry : Type 0 where
  pub href : Text
  pub is_dir : Bool
  pub size : ℤ
  pub name : Text
  pub mime : Text
  pub created_at : Text

-- An error, a redirect, a listing, the methods of WebDAV, headers alone, headers and the body of a CDN
-- reply, or, for a client that waited in vain, headers and no byte of the body; or none of them, since the
-- handler panicked and net/http closes the connection.
pub data Answer : Type 0 where
  error_reply : ℕ → Text → Answer
  redirect : Text → Answer
  listing : List Entry → Answer
  capabilities : Answer
  head_only : Head → Answer
  streamed : Head → CdnReply → Answer
  silent : Head → Answer
  panicked : Answer

-- `gone` tells of the n-th wait whether the client leaves during it.
pub record Request : Type 0 where
  pub path : Text
  pub range : Text
  pub gone : ℕ → Bool

abbrev pub mime_of : FileRecord → Text
mime_of file = elim file.mime_type [ [] ↦ codes "application/octet-stream" | c ∷ s ↦ c ∷ s ]

-- The range to fetch, and whether the client asked for it.
unfoldable pub requested_range : Text → ℤ → Option (HttpRange × Bool)
requested_range [] size =
    some (record { start = pos 0; end = sub64 size (pos 1); length = size }, false)
requested_range (c ∷ s) size = elim (parse_range (c ∷ s) size) [
  | none ↦ none
  | some h ↦ some (h, true)
]

abbrev pub head_of : FileRecord → HttpRange × Bool → Head
head_of file (h, partial) = record {
  content_type = mime_of file;
  content_length = h.length;
  content_range = if partial then some h else none;
  file_size = file.size;
}

-- The capacity of the semaphore.
abbrev pub max_conns : Config → ℕ
max_conns cfg = if cfg.max_cdn_connections == 0 then 4 else cfg.max_cdn_connections

-- One CDN slot taken from the semaphore, and given back. `none` is the wait for a slot when all are
-- taken: in a run of one handler nobody gives one back.
unfoldable pub acquire_cdn_conn : Config → Server → Option Server
acquire_cdn_conn cfg s =
    if ltb s.cdn_in_use (max_conns cfg)
    then some (record s { cdn_in_use = suc s.cdn_in_use })
    else none

unfoldable pub release_cdn_conn : Server → Server
release_cdn_conn s = record s { cdn_in_use = s.cdn_in_use - 1 }

unfoldable pub cdn_request : World → HttpRange → Text → Server → CdnReply × Server
cdn_request w h url s = (
  w.cdn_get s.events url h.start h.end,
  record s { clock = s.clock + w.elapsed s.events; events = suc s.events },
)

unfoldable pub store_url : World → FileRecord → Text → ℕ → Server → Server
store_url w file url expiry s = record s {
  events = suc s.events;
  store = (set_cdn_url (w.write_error s.events) file.id url (w.format_time expiry) s.store).1;
}

unfoldable pub cache_url : World → Config → FileRecord → Text → Server → Server
cache_url w cfg file url s =
    if ltb 0 cfg.cdn_ttl_minutes
    then store_url w file url (s.clock + cfg.cdn_ttl_minutes * minute) s
    else s

-- The expiry is an hour ago; the clock is later than an hour behind the zero time.
unfoldable pub invalidate_url : World → Config → FileRecord → Server → Server
invalidate_url w cfg file s =
    if ltb 0 cfg.cdn_ttl_minutes then store_url w file [] (s.clock - hour) s else s

abbrev pub remember_for : Config → FileRecord → Text → Server → Server
remember_for cfg file e s =
    remember_failure cfg (cdn_cache_key file.source file.item_id file.file_id) e s

abbrev pub mismatch_error : ℤ → ℤ → Text
mismatch_error db cdn =
    codes "CDN size mismatch: DB " ++ (format_int db ++ (codes ", CDN " ++ format_int cdn))

-- The 416 of a CDN tells the file's true size.
unfoldable pub correct_size : World → Config → FileRecord → ℤ → Server → Server
correct_size w cfg file n s =
    let s₁ : Server = record s {
      events = suc s.events;
      store = (set_file_size (w.write_error s.events 0) file.id n s.store).1;
    } in
    remember_for cfg file (mismatch_error file.size n) (invalidate_url w cfg file s₁)

abbrev pub check_size : World → Config → FileRecord → Option ℤ → Server → Server
check_size w cfg file none s = s
check_size w cfg file (some n) s = if eq_int n file.size then s else correct_size w cfg file n s

-- A URL of the file itself, or else of an alternative.
unfoldable pub obtain_url : World → Config → FileRecord → Server → Result Text × Server
obtain_url w cfg file s =
    let (url, s') = fetch_cdn_url w cfg (call_of file) s in
    elim url [ ok u ↦ (ok u, s') | err e ↦ try_cdn_fallback w cfg file.path s' ]

unfoldable pub is_cdn_disguised_error_body : Text → Bool
is_cdn_disguised_error_body content_type =
    let ct = to_lower content_type in
    has_prefix ct (codes "text/") || contains ct (codes "html") || contains ct (codes "json")

abbrev pub is_busy : ℕ → Bool
is_busy status = (status == 429) || leb 500 status

abbrev pub is_success : ℕ → Bool
is_success status = (status == 200) || (status == 206)
