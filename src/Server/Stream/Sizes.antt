-- ===== src/Server/Stream/Sizes.antt =====
-- The CDN's 416: the file's true size, and what the next request meets.
use warpbox.Base.{
  ℕ, suc, ◌-◌, ◌+◌, ◌*◌, ◌<◌, ◌≡◌, refl, ap, ◌∙◌, Bool, true, false, Option, none, some, List, [],
  ◌∷◌, ltb, ◌==◌, Bool-cases, inl, inr,
}
use warpbox.Base.Int.{ℤ, eq_int}
use warpbox.Base.Text.{Text, codes, text_eq_refl}
use warpbox.Base.Assoc.{lookup, lookup-insert}
use warpbox.Base.Result.{err}
use warpbox.Metadata.Record.{FileRecord, text_keys}
use warpbox.Metadata.Store.{update_id, set_cdn_attempts, set_cdn_url, set_file_size, find_id}
use warpbox.Server.State.{Server, Config, World, NegativeCacheEntry, cdn_response, second, hour}
use warpbox.Server.Health.{record_outcome}
use warpbox.Server.Breaker.Laws.{at_time}
use warpbox.Server.Range.{parse_cdn_true_size}
use warpbox.Server.Fetch.{fetch_cdn_url, cdn_cache_key, call_of}
use warpbox.Server.Fetch.Laws.{negative_cache_hit}
use warpbox.Server.Answer.{
  Head, error_reply, Request, release_cdn_conn, store_url, invalidate_url, correct_size,
  mismatch_error,
}
use warpbox.Server.Stream.{settle}

find_id-update_id :
    (id : ℕ) (f : FileRecord → FileRecord) (rows : List FileRecord) (row : FileRecord)
    → ((r : FileRecord) → (f r).id ≡ r.id)
    → find_id id rows ≡ some row
    → find_id id (update_id id f rows) ≡ some (f row)
unfolding find_id update_id
find_id-update_id id f [] row keeps found = cc
find_id-update_id id f (r ∷ rows) row keeps found = elim (Bool-cases (r.id == id)) [
  | inl here ↦
      let same : ◌≡◌ {A = Option FileRecord} (some r) (some row) = rw (here, find_id) at found in
      let same' : r ≡ row = cc in
      let here' : ((f r).id == id) ≡ true = ap (λ i. i == id) (keeps r) ∙ here in
      rw here (rw here' (ap (λ x. some (f x)) same'))
  | inr there ↦
      rw there (rw there (find_id-update_id id f rows row keeps (rw (there, find_id) at found)))
]

-- The row after the correction: its size, and no cached URL.
abbrev pub corrected : World → ℤ → ℕ → FileRecord → FileRecord
corrected w n now row = record row {
  size = n;
  cdn_url = [];
  cdn_url_expiry = w.format_time (now - hour);
}

module _ (w : World) (cfg : Config) (file : FileRecord)
    (fine : (n attempt : ℕ) → w.write_error n attempt ≡ none)
    (caching : ltb 0 cfg.cdn_ttl_minutes ≡ true) where
  find_id-store_url :
      (url : Text) (expiry : ℕ) (s : Server) (row : FileRecord)
      → find_id file.id s.store.files ≡ some row
      → find_id file.id (store_url w file url expiry s).store.files
        ≡ some (record row { cdn_url = url; cdn_url_expiry = w.format_time expiry })
  unfolding store_url set_cdn_url set_cdn_attempts
  find_id-store_url url expiry s row found =
      rw (fine s.events 0, set_cdn_url, set_cdn_attempts)
        (find_id-update_id file.id _ s.store.files row (λ r. refl) found)

  sized : ℤ → Server → Server
  sized n s = record s {
    events = suc s.events;
    store = (set_file_size (w.write_error s.events 0) file.id n s.store).1;
  }

  find_id-sized :
      (n : ℤ) (s : Server) (row : FileRecord)
      → find_id file.id s.store.files ≡ some row
      → find_id file.id (sized n s).store.files ≡ some (record row { size = n })
  unfolding set_file_size sized
  find_id-sized n s row found =
      rw (fine s.events 0, set_file_size)
        (find_id-update_id file.id _ s.store.files row (λ r. refl) found)

  find_id-correct_size :
      (n : ℤ) (s : Server) (row : FileRecord)
      → find_id file.id s.store.files ≡ some row
      → find_id file.id (correct_size w cfg file n s).store.files ≡ some (corrected w n s.clock row)
  unfolding correct_size invalidate_url sized
  find_id-correct_size n s row found =
      rw (caching, invalidate_url)
        (find_id-store_url [] _ (sized n s) (record row { size = n }) (find_id-sized n s row found))

  -- What the record of a refusal says, of `now`.
  abbrev refusal : ℤ → ℕ → NegativeCacheEntry
  refusal n now = record {
    error = mismatch_error file.size n;
    expires_at = now + cfg.negative_cache_ttl_seconds * second;
  }

  abbrev key : Text
  key = cdn_cache_key file.source file.item_id file.file_id

  lookup-correct_size :
      (n : ℤ) (s : Server)
      → lookup key (correct_size w cfg file n s).negative_cache ≡ some (refusal n s.clock)
  unfolding correct_size invalidate_url store_url
  lookup-correct_size n s =
      rw (caching, invalidate_url)
        (rw (lookup-insert key key (refusal n s.clock) s.negative_cache, text_eq_refl key) refl)

  -- A CDN that answers 416 and tells a size other than the recorded one, with a database that takes the
  -- writes and URLs that are cached: the client gets 416, the file's row has the true size and no
  -- cached URL, and until the negative cache's time is over a fetch for the file is refused without a
  -- call.
  pub settle_416 :
      (req : Request) (fuel : ℕ) (last : Bool) (head : Head) (ct cr body : Text) (n : ℤ)
      (s : Server) (row : FileRecord) (now : ℕ)
      → parse_cdn_true_size cr ≡ some n
      → eq_int n file.size ≡ false
      → find_id file.id s.store.files ≡ some row
      → now < s.clock + cfg.negative_cache_ttl_seconds * second
      → (s' : Server) × (settle w cfg file req fuel last head (cdn_response 416 ct cr body) s
          ≡ some (error_reply 416 (codes "requested range not satisfiable"), s'))
        × (find_id file.id s'.store.files ≡ some (corrected w n s.clock row))
        × (fetch_cdn_url w cfg (call_of file) (at_time now s')
            ≡ (err (mismatch_error file.size n), at_time now s'))
  unfolding settle record_outcome release_cdn_conn
  settle_416 req fuel last head ct cr body n s row now told other found soon =
      let failed = record_outcome cfg false (release_cdn_conn s) in
      (
        correct_size w cfg file n failed,
        rw (told, other) refl,
        find_id-correct_size n failed row found,
        negative_cache_hit w cfg (call_of file) (at_time now (correct_size w cfg file n failed))
            (refusal n s.clock) (lookup-correct_size n failed) soon,
      )
