-- ===== src/Server/Answer/Sound.antt =====
-- The state that the shared steps of the proxies keep: the slots of the CDN and the table's constraints.
use warpbox.Base.{
  ℕ, suc, ◌<◌, refl, true, ◌≡◌, sym, ◌∙◌, ap, subst, Bool, Option, none, some, ltb, arith,
  Bool-cases, inl, inr,
}
use warpbox.Base.Int.{ℤ, eq_int}
use warpbox.Base.Text.{Text}
use warpbox.Base.Result.{Result-cases}
use warpbox.Metadata.Record.{FileRecord}
use warpbox.Metadata.Store.Upsert.{IsValid}
use warpbox.Metadata.Store.Valid.{writes_keep-IsValid}
use warpbox.Server.State.{Server, Config, World}
use warpbox.Server.Health.{record_outcome}
use warpbox.Server.Range.{HttpRange}
use warpbox.Server.Fetch.{call_of, fetch_cdn_url}
use warpbox.Server.Fetch.Calls.{record_outcome-Untouched}
use warpbox.Server.Fetch.Kept.{Kept, fetch_cdn_url-Kept, try_cdn_fallback-Kept}
use warpbox.Server.Answer.{
  max_conns, acquire_cdn_conn, release_cdn_conn, cdn_request, store_url, cache_url, invalidate_url,
  correct_size, check_size, obtain_url, remember_for,
}

-- `n` slots of the CDN are taken, and the table's constraints hold.
pub record Sound (n : ℕ) (s : Server) : Type 0 where
  pub slots : s.cdn_in_use ≡ n
  pub valid : IsValid s.store

pub Kept-Sound : (n : ℕ) (s s' : Server) → Kept s s' → Sound n s → Sound n s'
Kept-Sound n s s' kept sound = record {
  slots = kept.slots_kept ∙ sound.slots;
  valid = subst IsValid (sym kept.store_kept) sound.valid;
}

pub record_outcome-Sound :
    (cfg : Config) (fine : Bool) (n : ℕ) (s : Server)
    → Sound n s
    → Sound n (record_outcome cfg fine s)
record_outcome-Sound cfg fine n s sound =
    let same = record_outcome-Untouched cfg fine s in
    Kept-Sound n s (record_outcome cfg fine s)
      (record { store_kept = same.store_same; slots_kept = same.slots_same }) sound

-- Below the capacity a slot is free.
pub acquire-free :
    (cfg : Config) (n : ℕ) (s : Server)
    → n < max_conns cfg
    → Sound n s
    → (s' : Server) × (acquire_cdn_conn cfg s ≡ some s') × Sound (suc n) s'
unfolding acquire_cdn_conn
acquire-free cfg n s free sound =
    let open_slot : ltb s.cdn_in_use (max_conns cfg) ≡ true = ground (arith, sound.slots) in
    (
      record s { cdn_in_use = suc s.cdn_in_use },
      rw (open_slot, acquire_cdn_conn) refl,
      record { slots = ap suc sound.slots; valid = sound.valid },
    )

pub acquire-Sound :
    (cfg : Config) (n : ℕ) (s s' : Server)
    → acquire_cdn_conn cfg s ≡ some s'
    → Sound n s
    → Sound (suc n) s'
unfolding acquire_cdn_conn
acquire-Sound cfg n s s' e sound = elim (Bool-cases (ltb s.cdn_in_use (max_conns cfg))) [
  | inl free ↦
      let same : record s { cdn_in_use = suc s.cdn_in_use } ≡ s' =
        (let taken = rw (free, acquire_cdn_conn) at e in cc) in
      subst (Sound (suc n)) same (record { slots = ap suc sound.slots; valid = sound.valid })
  | inr full ↦ absurd (let waits = rw (full, acquire_cdn_conn) at e in cc)
]

pub release-Sound : (n : ℕ) (s : Server) → Sound (suc n) s → Sound n (release_cdn_conn s)
unfolding release_cdn_conn
release-Sound n s sound = record { slots = let e = sound.slots in omega arith; valid = sound.valid }

pub failed-Sound :
    (cfg : Config) (fine : Bool) (n : ℕ) (s : Server)
    → Sound (suc n) s
    → Sound n (record_outcome cfg fine (release_cdn_conn s))
failed-Sound cfg fine n s sound =
    record_outcome-Sound cfg fine n (release_cdn_conn s) (release-Sound n s sound)

module _ (w : World) (cfg : Config) (file : FileRecord) where
  pub cdn_request-Sound :
      (h : HttpRange) (url : Text) (n : ℕ) (s : Server)
      → Sound n s
      → Sound n (cdn_request w h url s).1
  unfolding cdn_request
  cdn_request-Sound h url n s sound = record { slots = sound.slots; valid = sound.valid }

  store_url-Sound :
      (url : Text) (expiry n : ℕ) (s : Server) → Sound n s → Sound n (store_url w file url expiry s)
  unfolding store_url
  store_url-Sound url expiry n s sound = record {
    slots = sound.slots;
    valid =
        (writes_keep-IsValid s.store sound.valid).1 (w.write_error s.events) file.id url
          (w.format_time expiry);
  }

  pub cache_url-Sound :
      (url : Text) (n : ℕ) (s : Server) → Sound n s → Sound n (cache_url w cfg file url s)
  unfolding cache_url
  cache_url-Sound url n s sound = elim (Bool-cases (ltb 0 cfg.cdn_ttl_minutes)) [
    | inl set ↦ rw (set, cache_url) (store_url-Sound url _ n s sound)
    | inr unset ↦ rw (unset, cache_url) sound
  ]

  pub invalidate_url-Sound :
      (n : ℕ) (s : Server) → Sound n s → Sound n (invalidate_url w cfg file s)
  unfolding invalidate_url
  invalidate_url-Sound n s sound = elim (Bool-cases (ltb 0 cfg.cdn_ttl_minutes)) [
    | inl set ↦ rw (set, invalidate_url) (store_url-Sound _ _ n s sound)
    | inr unset ↦ rw (unset, invalidate_url) sound
  ]

  pub remember_for-Sound :
      (e : Text) (n : ℕ) (s : Server) → Sound n s → Sound n (remember_for cfg file e s)
  remember_for-Sound e n s sound = record { slots = sound.slots; valid = sound.valid }

  pub check_size-Sound :
      (size : Option ℤ) (n : ℕ) (s : Server) → Sound n s → Sound n (check_size w cfg file size s)
  unfolding correct_size
  check_size-Sound none n s sound = sound
  check_size-Sound (some size) n s sound = elim (Bool-cases (eq_int size file.size)) [
    | inl same ↦ rw same sound
    | inr other ↦ rw other (
        remember_for-Sound _ n _ (
          invalidate_url-Sound n _ (record {
            slots = sound.slots;
            valid =
                (writes_keep-IsValid s.store sound.valid).2 (w.write_error s.events 0) file.id size;
          })))
  ]

  pub obtain_url-Sound : (n : ℕ) (s : Server) → Sound n s → Sound n (obtain_url w cfg file s).1
  unfolding obtain_url
  obtain_url-Sound n s sound =
      let fetched = Kept-Sound n s _ (fetch_cdn_url-Kept w cfg (call_of file) s) sound in
      elim (Result-cases (fetch_cdn_url w cfg (call_of file) s).0) [
        | inl (u, good) ↦ rw (good, obtain_url) fetched
        | inr (e, bad) ↦
            rw (bad, obtain_url)
              (Kept-Sound n (fetch_cdn_url w cfg (call_of file) s).1 _
                (try_cdn_fallback-Kept w cfg file.path (fetch_cdn_url w cfg (call_of file) s).1)
                fetched)
      ]
