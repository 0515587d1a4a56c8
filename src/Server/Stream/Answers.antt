-- ===== src/Server/Stream/Answers.antt =====
-- streamFileContent comes to an answer.
use warpbox.Base.{
  ℕ, zero, suc, ◌<◌, ◌≡◌, refl, Bool, true, false, ◌&&◌, Option, some, [], ◌∷◌, ◌==◌, Bool-cases,
  Option-cases, inl, inr,
}
use warpbox.Base.Text.{Text}
use warpbox.Base.Result.{Result-cases}
use warpbox.Metadata.Record.{FileRecord}
use warpbox.Metadata.Store.{get_cdn_url}
use warpbox.Server.State.{Server, Config, World, CdnReply, network_error, cdn_response}
use warpbox.Server.Range.{HttpRange}
use warpbox.Server.Hang.{handle_get_cdn_hang}
use warpbox.Server.Hang.Laws.{handle_get_cdn_hang-ends}
use warpbox.Server.Answer.{
  Head, Answer, Request, requested_range, head_of, max_conns, release_cdn_conn, cdn_request,
  obtain_url, is_cdn_disguised_error_body, is_busy, is_success,
}
use warpbox.Server.Answer.Sound.{
  Sound, acquire-free, release-Sound, failed-Sound, cdn_request-Sound, cache_url-Sound,
  invalidate_url-Sound, obtain_url-Sound,
}
use warpbox.Server.Stream.{
  is_gone_reply, settle, proxy_loop, stream_range, stream_fetched, stream_file_content,
}

-- There is an answer.
abbrev pub Answers : Option (Answer × Server) → Type 0
Answers o = (r : Answer × Server) × (o ≡ some r)

module _ (w : World) (cfg : Config) (file : FileRecord) (req : Request) (k fuel n : ℕ)
    (free : n < max_conns cfg) (left : req.gone k ≡ true) (enough : k < fuel) where
  hang-Answers : (s : Server) → Sound n s → Answers (handle_get_cdn_hang w cfg file req fuel s)
  hang-Answers s sound = handle_get_cdn_hang-ends w cfg file req k fuel n s free sound left enough

  settle-Answers :
      (last : Bool) (head : Head) (reply : CdnReply) (s : Server)
      → Sound (suc n) s
      → Answers (settle w cfg file req fuel last head reply s)
  unfolding settle
  settle-Answers last head network_error s sound = (_, refl)
  settle-Answers last head (cdn_response status ct cr body) s sound =
      let again = invalidate_url-Sound w cfg file n _ (failed-Sound cfg false n s sound) in
      elim (Bool-cases (is_busy status)) [
        | inl busy ↦ rw (busy, settle) (hang-Answers _ again)
        | inr idle ↦ elim (Bool-cases (status == 416)) [
          | inl short ↦ rw (idle, short, settle) (_, refl)
          | inr long ↦ elim (Bool-cases (is_success status)) [
            | inr bad ↦ rw (idle, long, bad, settle) (_, refl)
            | inl good ↦ elim (Bool-cases (is_cdn_disguised_error_body ct)) [
              | inl disguised ↦ rw (idle, long, good, disguised, settle) (hang-Answers _ again)
              | inr media ↦ rw (idle, long, good, media, settle) (_, refl)
            ]
          ]
        ]
      ]

  proxy_loop-Answers :
      (h : HttpRange) (head : Head) (more : ℕ) (url : Text) (s : Server)
      → Sound n s
      → Answers (proxy_loop w cfg file req fuel h head more url s)
  unfolding proxy_loop
  proxy_loop-Answers h head zero url s sound = elim (Bool-cases (w.valid_url url)) [
    | inl valid ↦
        let (s₀, taken, sound₀) = acquire-free cfg n s free sound in
        rw (valid, taken, proxy_loop)
          (settle-Answers true head (cdn_request w h url s₀).0 (cdn_request w h url s₀).1
            (cdn_request-Sound w cfg file h url (suc n) s₀ sound₀))
    | inr invalid ↦ rw (invalid, proxy_loop) (_, refl)
  ]
  proxy_loop-Answers h head (suc more) url s sound = elim (Bool-cases (w.valid_url url)) [
    | inr invalid ↦ rw (invalid, proxy_loop) (_, refl)
    | inl valid ↦
        let (s₀, taken, sound₀) = acquire-free cfg n s free sound in
        let (reply, s₁) = cdn_request w h url s₀ in
        let sound₁ = cdn_request-Sound w cfg file h url (suc n) s₀ sound₀ in
        elim (Bool-cases (is_gone_reply reply && cfg.cdn_url_auto_repair)) [
          | inr settled ↦
              rw (valid, taken, settled, proxy_loop) (settle-Answers false head reply s₁ sound₁)
          | inl stale ↦ elim (Result-cases (obtain_url w cfg file (release_cdn_conn s₁)).0) [
            | inr (e, bad) ↦ rw (valid, taken, stale, bad, proxy_loop) (_, refl)
            | inl (u, good) ↦
                rw (valid, taken, stale, good, proxy_loop)
                  (proxy_loop-Answers h head more u _ (
                    cache_url-Sound w cfg file u n _ (
                      obtain_url-Sound w cfg file n (release_cdn_conn s₁)
                        (release-Sound n s₁ sound₁))))
          ]
        ]
  ]

  stream_range-Answers :
      (url : Text) (s : Server) → Sound n s → Answers (stream_range w cfg file req fuel url s)
  unfolding stream_range
  stream_range-Answers url s sound = elim (Option-cases (requested_range req.range file.size)) [
    | inl bad ↦ rw (bad, stream_range) (_, refl)
    | inr (asked, good) ↦
        rw (good, stream_range)
          (proxy_loop-Answers asked.0 (head_of file asked) cfg.cdn_url_repair_retries url s sound)
  ]

  stream_fetched-Answers : (s : Server) → Sound n s → Answers (stream_fetched w cfg file req fuel s)
  unfolding stream_fetched
  stream_fetched-Answers s sound =
      let obtained = obtain_url-Sound w cfg file n s sound in
      elim (Result-cases (obtain_url w cfg file s).0) [
        | inr (e, bad) ↦
            rw (bad, stream_fetched) (hang-Answers (obtain_url w cfg file s).1 obtained)
        | inl (u, good) ↦
            rw (good, stream_fetched)
              (stream_range-Answers u _ (cache_url-Sound w cfg file u n _ obtained))
      ]

  stored-Answers :
      (url : Text) (s : Server)
      → Sound n s
      → Answers (elim url as (λ x. Option (Answer × Server)) [
        | [] ↦ stream_fetched w cfg file req fuel s
        | c ∷ u ↦ stream_range w cfg file req fuel (c ∷ u) s
      ])
  stored-Answers [] s sound = stream_fetched-Answers s sound
  stored-Answers (c ∷ url) s sound = stream_range-Answers (c ∷ url) s sound

  -- With a slot free, a stream whose client leaves during the k-th wait of the hanging mode at the latest has an answer,
  -- whatever the API, the CDN and the database do: k + 1 rounds are enough fuel.
  pub stream_file_content-Answers :
      (s : Server) → Sound n s → Answers (stream_file_content w cfg file req fuel s)
  unfolding stream_file_content
  stream_file_content-Answers s sound = elim (Option-cases (w.query_error s.events)) [
    | inr (e, failed) ↦ rw (failed, stream_file_content) (_, refl)
    | inl fine ↦
        rw (fine, stream_file_content)
          (stored-Answers (get_cdn_url w.parse_time s.clock file.id s.store)
            (record s { events = suc s.events })
            (record { slots = sound.slots; valid = sound.valid }))
  ]
