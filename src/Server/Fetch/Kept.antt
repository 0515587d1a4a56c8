-- ===== src/Server/Fetch/Kept.antt =====
-- What no fetch of a CDN URL touches: the store and the slots of the CDN.
use warpbox.Base.{
  ◌+◌, ◌≡◌, refl, sym, ◌∙◌, subst, List, [], ◌∷◌, ◌++◌, ltb, arith, Bool-cases, Option-cases, inl,
  inr,
}
use warpbox.Base.Int.{ℤ}
use warpbox.Base.Text.{Text, codes}
use warpbox.Base.Assoc.{lookup, remove}
use warpbox.Base.Result.{Result, ok, err, Result-cases}
use warpbox.Metadata.Record.{FileRecord, text_keys, int_keys}
use warpbox.Metadata.Store.{get_file_alternatives}
use warpbox.Server.State.{
  Server, Config, World, ApiCall, FailureKind, auth, transient, database_error,
}
use warpbox.Server.Breaker.{
  is_torrent_stale, record_torrent_failure, clear_torrent_failure, classify_torbox_error,
}
use warpbox.Server.Fetch.{
  cdn_cache_key, blame, give_up, get_cdn_url_with_retry, attempt_fetch, fetch_unless_stale,
  fetch_cdn_url, call_of, fallback_loop, try_cdn_fallback,
}
use warpbox.Server.Fetch.Calls.{Untouched, GivenUp, retry_loop-Ended}

-- The store and the count of CDN slots in use are as before.
pub record Kept (s s' : Server) : Type 0 where
  pub store_kept : s'.store ≡ s.store
  pub slots_kept : s'.cdn_in_use ≡ s.cdn_in_use

pub Kept-refl : (s : Server) → Kept s s
Kept-refl s = record { store_kept = refl; slots_kept = refl }

pub Kept-trans : (s t u : Server) → Kept s t → Kept t u → Kept s u
Kept-trans s t u a b = record {
  store_kept = b.store_kept ∙ a.store_kept;
  slots_kept = b.slots_kept ∙ a.slots_kept;
}

Untouched-Kept : (s s' : Server) → Untouched s s' → Kept s s'
Untouched-Kept s s' same = record { store_kept = same.store_same; slots_kept = same.slots_same }

blame-Kept :
    (cfg : Config) (item : ℤ) (e : Text) (kind : FailureKind) (s : Server)
    → Kept s (blame cfg item e kind s)
unfolding blame record_torrent_failure
blame-Kept cfg item e auth s = record { store_kept = refl; slots_kept = refl }
blame-Kept cfg item e transient s = record { store_kept = refl; slots_kept = refl }
blame-Kept cfg item e database_error s = record { store_kept = refl; slots_kept = refl }

is_torrent_stale-Kept : (item : ℤ) (s : Server) → Kept s (is_torrent_stale item s).1
unfolding is_torrent_stale
is_torrent_stale-Kept item s = elim (Option-cases (lookup item s.torrent_failures)) [
  | inl absent ↦ rw (absent, is_torrent_stale) record { store_kept = refl; slots_kept = refl }
  | inr (t, found) ↦
      rw (found, is_torrent_stale) record { store_kept = ground arith; slots_kept = ground arith }
]

module _ (w : World) (cfg : Config) where
  GivenUp-Kept :
      (call : ApiCall) (r : Result Text) (s s' : Server) → GivenUp w cfg call r s s' → Kept s s'
  unfolding give_up
  GivenUp-Kept call (ok u) s s' same = Untouched-Kept s s' same
  GivenUp-Kept call (err e) s s' (mid, same, counted, eq) =
      Kept-trans s mid s' (Untouched-Kept s mid same)
        (subst (Kept mid) (sym eq) (blame-Kept cfg call.item_id e (classify_torbox_error e).0 mid))

  get_cdn_url_with_retry-Kept :
      (call : ApiCall) (s : Server) → Kept s (get_cdn_url_with_retry w cfg call s).1
  unfolding get_cdn_url_with_retry
  get_cdn_url_with_retry-Kept call s =
      GivenUp-Kept call _ s _ (retry_loop-Ended w cfg call cfg.cdn_url_retry_count 0 s).0

  attempt_fetch-Kept :
      (key : Text) (call : ApiCall) (s : Server) → Kept s (attempt_fetch w cfg key call s).1
  unfolding attempt_fetch clear_torrent_failure
  attempt_fetch-Kept key call s =
      let kept = get_cdn_url_with_retry-Kept call s in
      elim (Result-cases (get_cdn_url_with_retry w cfg call s).0) [
        | inl (u, good) ↦
            rw (good, attempt_fetch)
              record { store_kept = kept.store_kept; slots_kept = kept.slots_kept }
        | inr (e, bad) ↦
            rw (bad, attempt_fetch)
              record { store_kept = kept.store_kept; slots_kept = kept.slots_kept }
      ]

  fetch_unless_stale-Kept :
      (key : Text) (call : ApiCall) (s : Server) → Kept s (fetch_unless_stale w cfg key call s).1
  unfolding fetch_unless_stale
  fetch_unless_stale-Kept key call s =
      let kept = is_torrent_stale-Kept call.item_id s in
      elim (Bool-cases (is_torrent_stale call.item_id s).0) [
        | inl stale ↦ rw (stale, fetch_unless_stale) kept
        | inr fresh ↦
            rw (fresh, fetch_unless_stale)
              (Kept-trans s _ _ kept
                (attempt_fetch-Kept key call (is_torrent_stale call.item_id s).1))
      ]

  pub fetch_cdn_url-Kept : (call : ApiCall) (s : Server) → Kept s (fetch_cdn_url w cfg call s).1
  unfolding fetch_cdn_url
  fetch_cdn_url-Kept call s =
      let key = cdn_cache_key call.source call.item_id call.file_id in
      elim (Option-cases (lookup key s.negative_cache)) [
        | inl absent ↦ rw (absent, fetch_cdn_url) (fetch_unless_stale-Kept key call s)
        | inr (entry, found) ↦ elim (Bool-cases (ltb s.clock entry.expires_at)) [
          | inl recent ↦
              rw (found, recent, fetch_cdn_url) record { store_kept = refl; slots_kept = refl }
          | inr over ↦
              rw (found, over, fetch_cdn_url)
                (Kept-trans s (record s { negative_cache = remove key s.negative_cache }) _
                  (record { store_kept = refl; slots_kept = refl })
                  (fetch_unless_stale-Kept key call
                    (record s { negative_cache = remove key s.negative_cache })))
        ]
      ]

  fallback_loop-Kept :
      (last : Text) (files : List FileRecord) (s : Server)
      → Kept s (fallback_loop w cfg last files s).1
  unfolding fallback_loop
  fallback_loop-Kept last [] s = record { store_kept = refl; slots_kept = refl }
  fallback_loop-Kept last (file ∷ files) s =
      let kept = fetch_cdn_url-Kept (call_of file) s in
      elim (Result-cases (fetch_cdn_url w cfg (call_of file) s).0) [
        | inl (u, good) ↦ rw (good, fallback_loop) kept
        | inr (e, bad) ↦
            rw (bad, fallback_loop)
              (Kept-trans s _ _ kept
                (fallback_loop-Kept e files (fetch_cdn_url w cfg (call_of file) s).1))
      ]

  alternatives-Kept :
      (path : Text) (files : List FileRecord) (s t : Server)
      → Kept s t
      → Kept s
          (elim files as (λ x. Result Text × Server) [
            | [] ↦ (err (codes "no alternatives for path " ++ w.quote path), t)
            | file ∷ rest ↦ fallback_loop w cfg [] (file ∷ rest) t
          ]).1
  alternatives-Kept path [] s t kept = kept
  alternatives-Kept path (file ∷ rest) s t kept =
      Kept-trans s t _ kept (fallback_loop-Kept [] (file ∷ rest) t)

  pub try_cdn_fallback-Kept : (path : Text) (s : Server) → Kept s (try_cdn_fallback w cfg path s).1
  unfolding try_cdn_fallback
  try_cdn_fallback-Kept path s =
      let asked : Server = record s { events = s.events + 1 } in
      let kept : Kept s asked = record { store_kept = refl; slots_kept = refl } in
      elim (Option-cases (w.query_error s.events)) [
        | inr (e, failed) ↦ rw (failed, try_cdn_fallback) kept
        | inl fine ↦
            rw (fine, try_cdn_fallback)
              (alternatives-Kept path (get_file_alternatives path s.store) s asked kept)
      ]
