-- ===== src/Server/Fetch/Laws.antt =====
-- What a fetch of a CDN URL changes.
use warpbox.Base.{
  ℕ, suc, ◌+◌, ◌*◌, ◌≤◌, ◌<◌, ◌≡◌, refl, sym, ap, ◌∙◌, subst, none, some, ltb, length, arith,
  Bool-cases, Option-cases, inl, inr, ◌⊎◌, lt→ltb,
}
use warpbox.Base.Int.{ℤ, eq_int_refl}
use warpbox.Base.Text.{Text, text_eq_refl}
use warpbox.Base.Assoc.{lookup, remove, lookup-insert, lookup-remove}
use warpbox.Base.Result.{Result, ok, err, Result-cases}
use warpbox.Metadata.Record.{text_keys, int_keys}
use warpbox.Server.State.{Server, Config, World, ApiCall, NegativeCacheEntry, auth, second}
use warpbox.Server.Breaker.{classify_torbox_error, is_torrent_stale, clear_torrent_failure}
use warpbox.Server.Breaker.Laws.{at_time}
use warpbox.Server.Fetch.{
  cdn_cache_key, stale_error, blame, give_up, get_cdn_url_with_retry, attempt_fetch,
  fetch_unless_stale, fetch_cdn_url,
}
use warpbox.Server.Fetch.Calls.{Untouched, Ended, GivenUp, Counted, retry_loop-Ended}

module _ (w : World) (cfg : Config) (call : ApiCall) where
  -- A fetch with its retries calls the API at least once and at most retry_count + 1 times. A URL
  -- leaves the negative cache, the failure records, the store and the CDN slots as they were. An
  -- error leaves them so up to one final failure, which alone is held against the item.
  pub get_cdn_url_with_retry-Ended :
      (s : Server)
      → Ended w cfg call (suc cfg.cdn_url_retry_count) s (get_cdn_url_with_retry w cfg call s)
  unfolding get_cdn_url_with_retry
  get_cdn_url_with_retry-Ended s = retry_loop-Ended w cfg call cfg.cdn_url_retry_count 0 s

  auth-GivenUp :
      (e : Text) (s s' : Server)
      → (classify_torbox_error e).0 ≡ auth
      → GivenUp w cfg call (err e) s s'
      → Untouched s s'
  unfolding give_up blame
  auth-GivenUp e s s' is_auth (mid, same, counted, eq) =
      subst (Untouched s) (sym (eq ∙ ap (λ k. blame cfg call.item_id e k mid) is_auth)) same

  -- An error that the API key is to blame for is not held against the item: nothing but the clock,
  -- the log of calls and the outcomes has changed.
  pub auth_failure_quarantines_nothing :
      (s : Server) (e : Text)
      → (get_cdn_url_with_retry w cfg call s).0 ≡ err e
      → (classify_torbox_error e).0 ≡ auth
      → Untouched s (get_cdn_url_with_retry w cfg call s).1
  auth_failure_quarantines_nothing s e failed is_auth = auth-GivenUp e s _ is_auth (
      subst (λ r. GivenUp w cfg call r s (get_cdn_url_with_retry w cfg call s).1) failed
        (get_cdn_url_with_retry-Ended s).0)

  abbrev key : Text
  key = cdn_cache_key call.source call.item_id call.file_id

  is_torrent_stale-calls : (item : ℤ) (s : Server) → (is_torrent_stale item s).1.calls ≡ s.calls
  unfolding is_torrent_stale
  is_torrent_stale-calls item s = elim (Option-cases (lookup item s.torrent_failures)) [
    | inl absent ↦ rw (absent, is_torrent_stale) refl
    | inr (t, found) ↦ rw (found, is_torrent_stale) (ground arith)
  ]

  -- A fetch ends in its API step, or in an error without a call.
  abbrev Answered : Server → Result Text × Server → Type 0
  Answered s r =
      (mid : Server) × (mid.calls ≡ s.calls)
      × ((r ≡ attempt_fetch w cfg key call mid) ⊎ ((e : Text) × (r ≡ (err e, mid))))

  fetch_unless_stale-Answered : (s : Server) → Answered s (fetch_unless_stale w cfg key call s)
  unfolding fetch_unless_stale
  fetch_unless_stale-Answered s = (
    (is_torrent_stale call.item_id s).1,
    is_torrent_stale-calls call.item_id s,
    elim (Bool-cases (is_torrent_stale call.item_id s).0) [
      | inl stale ↦ inr (stale_error call.item_id, rw (stale, fetch_unless_stale) refl)
      | inr fresh ↦ inl (rw (fresh, fetch_unless_stale) refl)
    ],
  )

  fetch_cdn_url-Answered : (s : Server) → Answered s (fetch_cdn_url w cfg call s)
  unfolding fetch_cdn_url
  fetch_cdn_url-Answered s = elim (Option-cases (lookup key s.negative_cache)) [
    | inl absent ↦ rw (absent, fetch_cdn_url) (fetch_unless_stale-Answered s)
    | inr (entry, found) ↦ elim (Bool-cases (ltb s.clock entry.expires_at)) [
      | inl recent ↦ (s, refl, inr (entry.error, rw (found, recent, fetch_cdn_url) refl))
      | inr over ↦
          rw (found, over, fetch_cdn_url)
            (fetch_unless_stale-Answered
              (record s { negative_cache = remove key s.negative_cache }))
    ]
  ]

  abbrev cached : Text → ℕ → NegativeCacheEntry
  cached e now = record { error = e; expires_at = now + cfg.negative_cache_ttl_seconds * second }

  -- What the API step leaves behind: no failure record, or the error in the negative cache.
  abbrev Settled : Result Text → Server → Type 0
  Settled (ok u) s = lookup call.item_id s.torrent_failures ≡ none
  Settled (err e) s = lookup key s.negative_cache ≡ some (cached e s.clock)

  lookup-clear_torrent_failure :
      (item : ℤ) (s : Server) → lookup item (clear_torrent_failure item s).torrent_failures ≡ none
  unfolding clear_torrent_failure
  lookup-clear_torrent_failure item s =
      rw (lookup-remove item item s.torrent_failures, eq_int_refl item) refl

  clear_torrent_failure-calls :
      (item : ℤ) (s : Server) → (clear_torrent_failure item s).calls ≡ s.calls
  unfolding clear_torrent_failure
  clear_torrent_failure-calls item s = refl

  attempt_fetch-Settled :
      (s : Server)
      → let (url, s') = attempt_fetch w cfg key call s in
        Settled url s' × Counted w cfg call (suc cfg.cdn_url_retry_count) s s'
  unfolding attempt_fetch
  attempt_fetch-Settled s =
      let (url, s') = get_cdn_url_with_retry w cfg call s in
      let counted = (get_cdn_url_with_retry-Ended s).1 in
      elim (Result-cases (get_cdn_url_with_retry w cfg call s).0) [
        | inl (u, good) ↦
            rw (good, attempt_fetch)
              (
                lookup-clear_torrent_failure call.item_id s',
                subst
                    (λ l.
                      (length s.calls < length l)
                      × (length l ≤ length s.calls + suc cfg.cdn_url_retry_count))
                    (sym (clear_torrent_failure-calls call.item_id s')) counted,
              )
        | inr (e, bad) ↦
            rw (bad, attempt_fetch)
              (
                rw (lookup-insert key key (cached e s'.clock) s'.negative_cache, text_eq_refl key)
                    refl,
                counted,
              )
      ]

  abbrev Paid : Server → Result Text × Server → Type 0
  Paid s r = Settled r.0 r.1 × Counted w cfg call (suc cfg.cdn_url_retry_count) s r.1

  attempt-Paid : (s mid : Server) → mid.calls ≡ s.calls → Paid s (attempt_fetch w cfg key call mid)
  attempt-Paid s mid same =
      let (settled, counted) = attempt_fetch-Settled mid in
      let same' = ap length same in (settled, (omega arith, omega arith))

  -- An answer is paid for, or it is an error without a call.
  Answered-cases :
      (s : Server) (r : Result Text × Server)
      → Answered s r
      → Paid s r ⊎ ((r.1.calls ≡ s.calls) × ((e : Text) × (r.0 ≡ err e)))
  Answered-cases s r (mid, same, inl eq) = inl (subst (Paid s) (sym eq) (attempt-Paid s mid same))
  Answered-cases s r (mid, same, inr (e, eq)) =
      inr (ap (λ x. x.1.calls) eq ∙ same, (e, ap (λ x. x.0) eq))

  -- A fetch that gives a URL has called the API, at most retry_count + 1 times, and the item has no
  -- failure record afterwards: a quarantine ends with the first success.
  pub fetch_cdn_url_recovers :
      (s : Server) (u : Text)
      → (fetch_cdn_url w cfg call s).0 ≡ ok u
      → (lookup call.item_id (fetch_cdn_url w cfg call s).1.torrent_failures ≡ none)
        × Counted w cfg call (suc cfg.cdn_url_retry_count) s (fetch_cdn_url w cfg call s).1
  fetch_cdn_url_recovers s u good = elim (Answered-cases s _ (fetch_cdn_url-Answered s)) [
    | inl (settled, counted) ↦
        (subst (λ r. Settled r (fetch_cdn_url w cfg call s).1) good settled, counted)
    | inr (same, (e, bad)) ↦ cc
  ]

  pub negative_cache_hit :
      (s : Server) (entry : NegativeCacheEntry)
      → lookup key s.negative_cache ≡ some entry
      → s.clock < entry.expires_at
      → fetch_cdn_url w cfg call s ≡ (err entry.error, s)
  unfolding fetch_cdn_url
  negative_cache_hit s entry found recent =
      rw (found, lt→ltb s.clock entry.expires_at recent, fetch_cdn_url) refl

  -- An error of a fetch that called the API is remembered: until the negative cache's time is over,
  -- a fetch of the same file gives the same error, calls nothing and changes nothing.
  pub failed_fetch_cached :
      (s : Server) (e : Text) (now : ℕ)
      → (fetch_cdn_url w cfg call s).0 ≡ err e
      → length s.calls < length (fetch_cdn_url w cfg call s).1.calls
      → now < (fetch_cdn_url w cfg call s).1.clock + cfg.negative_cache_ttl_seconds * second
      → let later = at_time now (fetch_cdn_url w cfg call s).1 in
        fetch_cdn_url w cfg call later ≡ (err e, later)
  failed_fetch_cached s e now bad paid soon = elim (Answered-cases s _ (fetch_cdn_url-Answered s)) [
    | inl (settled, counted) ↦
        negative_cache_hit (at_time now (fetch_cdn_url w cfg call s).1)
          (cached e (fetch_cdn_url w cfg call s).1.clock)
          (subst (λ r. Settled r (fetch_cdn_url w cfg call s).1) bad settled) soon
    | inr (same, _) ↦ let same' = ap length same in absurd (omega arith)
  ]

  -- A fetch calls the API at most retry_count + 1 times, and no call is forgotten.
  pub fetch_cdn_url-calls :
      (s : Server)
      → (length s.calls ≤ length (fetch_cdn_url w cfg call s).1.calls)
        × (length (fetch_cdn_url w cfg call s).1.calls
            ≤ length s.calls + suc cfg.cdn_url_retry_count)
  fetch_cdn_url-calls s = elim (Answered-cases s _ (fetch_cdn_url-Answered s)) [
    | inl (settled, counted) ↦ (omega arith, counted.1)
    | inr (same, _) ↦ let same' = ap length same in (omega arith, omega arith)
  ]
