-- ===== src/Server/Fetch/Calls.antt =====
-- What a request and its retries change, and how often they call the API.
use warpbox.Base.{
  ℕ, zero, suc, ◌+◌, ◌≤◌, ◌<◌, ◌≡◌, refl, sym, ap, ◌∙◌, Bool, Option, none, some, ◌∷◌, length,
  arith, Bool-cases, inl, inr,
}
use warpbox.Base.Text.{Text}
use warpbox.Base.Result.{Result, ok, err, Result-cases}
use warpbox.Metadata.Record.{text_keys}
use warpbox.Torbox.Client.{is_retryable}
use warpbox.Server.State.{
  Server, Config, World, ApiCall, FailureKind, auth, transient, database_error,
}
use warpbox.Server.Health.{record_outcome}
use warpbox.Server.Breaker.{classify_torbox_error, record_torrent_failure}
use warpbox.Server.Fetch.{notify, called, request_url, blame, give_up, backoff, sleep, retry_loop}

-- What an API call leaves alone: every part but the clock, the log and the outcomes.
pub record Untouched (s s' : Server) : Type 0 where
  pub negative_cache_same : s'.negative_cache ≡ s.negative_cache
  pub torrent_failures_same : s'.torrent_failures ≡ s.torrent_failures
  pub store_same : s'.store ≡ s.store
  pub slots_same : s'.cdn_in_use ≡ s.cdn_in_use

pub record_outcome-Untouched :
    (cfg : Config) (fine : Bool) (s : Server) → Untouched s (record_outcome cfg fine s)
unfolding record_outcome
record_outcome-Untouched cfg fine s = record {
  negative_cache_same = refl;
  torrent_failures_same = refl;
  store_same = refl;
  slots_same = refl;
}

Untouched-trans : (s t u : Server) → Untouched s t → Untouched t u → Untouched s u
Untouched-trans s t u a b = record {
  negative_cache_same = b.negative_cache_same ∙ a.negative_cache_same;
  torrent_failures_same = b.torrent_failures_same ∙ a.torrent_failures_same;
  store_same = b.store_same ∙ a.store_same;
  slots_same = b.slots_same ∙ a.slots_same;
}

record_outcome-calls :
    (cfg : Config) (fine : Bool) (s : Server) → (record_outcome cfg fine s).calls ≡ s.calls
unfolding record_outcome
record_outcome-calls cfg fine s = refl

notify-Untouched :
    (cfg : Config) (o : Option (ℕ × Bool)) (s : Server) → Untouched s (notify cfg o s)
notify-Untouched cfg none s = record {
  negative_cache_same = refl;
  torrent_failures_same = refl;
  store_same = refl;
  slots_same = refl;
}
notify-Untouched cfg (some (status, fine)) s = record_outcome-Untouched cfg fine s

notify-calls :
    (cfg : Config) (o : Option (ℕ × Bool)) (s : Server) → (notify cfg o s).calls ≡ s.calls
notify-calls cfg none s = refl
notify-calls cfg (some (status, fine)) s = record_outcome-calls cfg fine s

called-Untouched : (w : World) (call : ApiCall) (s : Server) → Untouched s (called w call s)
called-Untouched w call s = record {
  negative_cache_same = refl;
  torrent_failures_same = refl;
  store_same = refl;
  slots_same = refl;
}

module _ (w : World) (cfg : Config) (call : ApiCall) where
  request_url-Untouched : (s : Server) → Untouched s (request_url w cfg call s).1
  unfolding request_url
  request_url-Untouched s =
      Untouched-trans s _ _
        (Untouched-trans s _ _ (called-Untouched w call s) (notify-Untouched cfg _ _))
        (record_outcome-Untouched cfg _ _)

  request_url-calls : (s : Server) → (request_url w cfg call s).1.calls ≡ call ∷ s.calls
  unfolding request_url
  request_url-calls s = record_outcome-calls cfg _ _ ∙ notify-calls cfg _ _

  -- The request succeeded, or it was given up after calls that leave the rest alone.
  abbrev pub GivenUp : Result Text → Server → Server → Type 0
  GivenUp (ok u) s s' = Untouched s s'
  GivenUp (err e) s s' =
      (mid : Server) × Untouched s mid
      × (length mid.calls ≡ length s'.calls)
      × (s' ≡ give_up cfg call.item_id e mid)

  blame-calls :
      (e : Text) (kind : FailureKind) (s : Server)
      → (blame cfg call.item_id e kind s).calls ≡ s.calls
  unfolding blame record_torrent_failure
  blame-calls e auth s = refl
  blame-calls e transient s = refl
  blame-calls e database_error s = refl

  give_up-calls : (e : Text) (s : Server) → (give_up cfg call.item_id e s).calls ≡ s.calls
  unfolding give_up
  give_up-calls e s = blame-calls e (classify_torbox_error e).0 s

  -- At least one call, and at most `bound`.
  abbrev pub Counted : ℕ → Server → Server → Type 0
  Counted bound s s' =
      (length s.calls < length s'.calls) × (length s'.calls ≤ length s.calls + bound)

  abbrev pub Ended : ℕ → Server → Result Text × Server → Type 0
  Ended bound s (url, s') = GivenUp url s s' × Counted bound s s'

  give_up-Ended :
      (bound : ℕ) (s : Server) (e : Text)
      → Ended (suc bound) s (err e, give_up cfg call.item_id e (request_url w cfg call s).1)
  give_up-Ended bound s e =
      let mid = (request_url w cfg call s).1 in
      let same = ap length (give_up-calls e mid) in
      let one = ap length (request_url-calls s) in
      ((mid, request_url-Untouched s, sym same, refl), (omega arith, omega arith))

  ok-Ended :
      (bound : ℕ) (s : Server) (u : Text) → Ended (suc bound) s (ok u, (request_url w cfg call s).1)
  ok-Ended bound s u =
      let one = ap length (request_url-calls s) in
      (request_url-Untouched s, (omega arith, omega arith))

  sleep-Untouched : (wait : ℕ) (s : Server) → Untouched s (sleep wait s)
  sleep-Untouched wait s = record {
    negative_cache_same = refl;
    torrent_failures_same = refl;
    store_same = refl;
    slots_same = refl;
  }

  -- The rest of the loop, seen from before the attempt.
  retried :
      (left : ℕ) (s next : Server) (r : Result Text × Server)
      → Untouched s next
      → next.calls ≡ call ∷ s.calls
      → Ended (suc left) next r
      → Ended (suc (suc left)) s r
  retried left s next (ok u, s') same more (given, (some_calls, few)) =
      let one = ap length more in (Untouched-trans s next s' same given, (omega arith, omega arith))
  retried left s next (err e, s') same more ((mid, given, counted, eq), (some_calls, few)) =
      let one = ap length more in
      ((mid, Untouched-trans s next mid same given, counted, eq), (omega arith, omega arith))

  pub retry_loop-Ended :
      (left attempt : ℕ) (s : Server) → Ended (suc left) s (retry_loop w cfg call left attempt s)
  unfolding retry_loop
  retry_loop-Ended zero attempt s = elim (Result-cases (request_url w cfg call s).0) [
    | inl (u, good) ↦ rw (good, retry_loop) (ok-Ended zero s u)
    | inr (e, bad) ↦ rw (bad, retry_loop) (give_up-Ended zero s e)
  ]
  retry_loop-Ended (suc left) attempt s = elim (Result-cases (request_url w cfg call s).0) [
    | inl (u, good) ↦ rw (good, retry_loop) (ok-Ended (suc left) s u)
    | inr (e, bad) ↦ elim (Bool-cases (is_retryable e)) [
      | inl again ↦
          rw (bad, again, retry_loop)
            (retried left s (sleep (backoff cfg attempt e) (request_url w cfg call s).1) _
              (Untouched-trans s _ _ (request_url-Untouched s)
                (sleep-Untouched (backoff cfg attempt e) _))
              (request_url-calls s)
              (retry_loop-Ended left (suc attempt)
                (sleep (backoff cfg attempt e) (request_url w cfg call s).1)))
      | inr over ↦ rw (bad, over, retry_loop) (give_up-Ended (suc left) s e)
    ]
  ]
