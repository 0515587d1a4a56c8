-- ===== src/Server/Stream/Ends.antt =====
-- How streamFileContent ends: its answer, the slots of the CDN, and that it ends.
use warpbox.Base.{
  ℕ, zero, suc, Bool, true, false, ◌&&◌, Option, none, some, [], ◌∷◌, ◌==◌, ◌≡◌, if◌then◌else◌,
  Bool-cases, Option-cases, inl, inr,
}
use warpbox.Base.Text.{Text}
use warpbox.Base.Result.{Result-cases}
use warpbox.Metadata.Record.{FileRecord}
use warpbox.Metadata.Store.{get_cdn_url}
use warpbox.Server.State.{Server, Config, World, CdnReply, network_error, cdn_response}
use warpbox.Server.Range.{HttpRange, parse_cdn_true_size}
use warpbox.Server.Hang.{handle_get_cdn_hang}
use warpbox.Server.Hang.Laws.{IsMedia, IsHangAnswer, HangEnds, handle_get_cdn_hang-HangEnds}
use warpbox.Server.Answer.{
  Head, Answer, error_reply, redirect, listing, capabilities, head_only, streamed, silent, panicked,
  Request, requested_range, head_of, acquire_cdn_conn, release_cdn_conn, cdn_request,
  invalidate_url, remember_for, obtain_url, is_cdn_disguised_error_body, is_busy, is_success,
}
use warpbox.Server.Answer.Sound.{
  Sound, record_outcome-Sound, acquire-Sound, release-Sound, failed-Sound, cdn_request-Sound,
  cache_url-Sound, invalidate_url-Sound, remember_for-Sound, check_size-Sound, obtain_url-Sound,
}
use warpbox.Server.Stream.{
  is_gone_reply, settle, proxy_loop, stream_range, stream_fetched, stream_file_content,
}

-- An answer of a stream: an error, a body that is media, or no body.
abbrev pub IsStreamAnswer : Answer → Type 0
IsStreamAnswer (error_reply status message) = Unit
IsStreamAnswer (streamed head reply) = IsMedia reply
IsStreamAnswer (silent head) = Unit
IsStreamAnswer _ = ⊥

abbrev pub StreamEnds : ℕ → Option (Answer × Server) → Type 0
StreamEnds n none = Unit
StreamEnds n (some (answer, s)) = IsStreamAnswer answer × Sound n s

hang_answer : (a : Answer) → IsHangAnswer a → IsStreamAnswer a
hang_answer (error_reply status message) h = tt
hang_answer (redirect url) h = h
hang_answer (listing entries) h = h
hang_answer capabilities h = h
hang_answer (head_only head) h = h
hang_answer (streamed head reply) h = h
hang_answer (silent head) h = tt
hang_answer panicked h = h

HangEnds-StreamEnds : (n : ℕ) (o : Option (Answer × Server)) → HangEnds n o → StreamEnds n o
HangEnds-StreamEnds n none h = tt
HangEnds-StreamEnds n (some (a, s)) (answer, sound) = (hang_answer a answer, sound)

module _ (w : World) (cfg : Config) (file : FileRecord) (req : Request) (fuel n : ℕ) where
  hang-StreamEnds :
      (s : Server) → Sound n s → StreamEnds n (handle_get_cdn_hang w cfg file req fuel s)
  hang-StreamEnds s sound =
      HangEnds-StreamEnds n _ (handle_get_cdn_hang-HangEnds w cfg file req fuel n s sound)

  hang_again :
      (s : Server)
      → Sound n s
      → StreamEnds n (handle_get_cdn_hang w cfg file req fuel (invalidate_url w cfg file s))
  hang_again s sound =
      hang-StreamEnds (invalidate_url w cfg file s) (invalidate_url-Sound w cfg file n s sound)

  gone_status-Sound :
      (remember : Bool) (e : Text) (s : Server)
      → Sound n s
      → Sound n (if remember then remember_for cfg file e s else s)
  gone_status-Sound true e s sound = remember_for-Sound w cfg file e n s sound
  gone_status-Sound false e s sound = sound

  settle-StreamEnds :
      (last : Bool) (head : Head) (reply : CdnReply) (s : Server)
      → Sound (suc n) s
      → StreamEnds n (settle w cfg file req fuel last head reply s)
  unfolding settle
  settle-StreamEnds last head network_error s sound = (tt, failed-Sound cfg false n s sound)
  settle-StreamEnds last head (cdn_response status ct cr body) s sound =
      let failed = failed-Sound cfg false n s sound in
      elim (Bool-cases (is_busy status)) [
        | inl busy ↦ rw (busy, settle) (hang_again _ failed)
        | inr idle ↦ elim (Bool-cases (status == 416)) [
          | inl short ↦
              rw (idle, short, settle)
                (tt, check_size-Sound w cfg file (parse_cdn_true_size cr) n _ failed)
          | inr long ↦ elim (Bool-cases (is_success status)) [
            | inr bad ↦ rw (idle, long, bad, settle) (tt, gone_status-Sound _ _ _ failed)
            | inl good ↦ elim (Bool-cases (is_cdn_disguised_error_body ct)) [
              | inl disguised ↦ rw (idle, long, good, disguised, settle) (hang_again _ failed)
              | inr media ↦
                  rw (idle, long, good, media, settle)
                    (
                      (good, media),
                      release-Sound n _ (record_outcome-Sound cfg true (suc n) s sound),
                    )
            ]
          ]
        ]
      ]

  requested-Sound :
      (h : HttpRange) (url : Text) (s s₀ : Server)
      → acquire_cdn_conn cfg s ≡ some s₀
      → Sound n s
      → Sound (suc n) (cdn_request w h url s₀).1
  requested-Sound h url s s₀ taken sound =
      cdn_request-Sound w cfg file h url (suc n) s₀ (acquire-Sound cfg n s s₀ taken sound)

  proxy_loop-StreamEnds :
      (h : HttpRange) (head : Head) (left : ℕ) (url : Text) (s : Server)
      → Sound n s
      → StreamEnds n (proxy_loop w cfg file req fuel h head left url s)
  unfolding proxy_loop
  proxy_loop-StreamEnds h head zero url s sound = elim (Bool-cases (w.valid_url url)) [
    | inl valid ↦ elim (Option-cases (acquire_cdn_conn cfg s)) [
      | inl full ↦ rw (valid, full, proxy_loop) tt
      | inr (s₀, free) ↦
          rw (valid, free, proxy_loop)
            (settle-StreamEnds true head (cdn_request w h url s₀).0 _
              (requested-Sound h url s s₀ free sound))
    ]
    | inr invalid ↦ rw (invalid, proxy_loop) (tt, sound)
  ]
  proxy_loop-StreamEnds h head (suc left) url s sound = elim (Bool-cases (w.valid_url url)) [
    | inr invalid ↦ rw (invalid, proxy_loop) (tt, sound)
    | inl valid ↦ elim (Option-cases (acquire_cdn_conn cfg s)) [
      | inl full ↦ rw (valid, full, proxy_loop) tt
      | inr (s₀, free) ↦
          let (reply, s₁) = cdn_request w h url s₀ in
          let taken = requested-Sound h url s s₀ free sound in
          let freed = release-Sound n s₁ taken in
          let obtained = obtain_url-Sound w cfg file n (release_cdn_conn s₁) freed in
          elim (Bool-cases (is_gone_reply reply && cfg.cdn_url_auto_repair)) [
            | inr settled ↦
                rw (valid, free, settled, proxy_loop) (settle-StreamEnds false head reply s₁ taken)
            | inl stale ↦ elim (Result-cases (obtain_url w cfg file (release_cdn_conn s₁)).0) [
              | inr (e, bad) ↦ rw (valid, free, stale, bad, proxy_loop) (tt, obtained)
              | inl (u, good) ↦
                  rw (valid, free, stale, good, proxy_loop)
                    (proxy_loop-StreamEnds h head left u _
                      (cache_url-Sound w cfg file u n _ obtained))
            ]
          ]
    ]
  ]

  stream_range-StreamEnds :
      (url : Text) (s : Server) → Sound n s → StreamEnds n (stream_range w cfg file req fuel url s)
  unfolding stream_range
  stream_range-StreamEnds url s sound = elim (Option-cases (requested_range req.range file.size)) [
    | inl bad ↦ rw (bad, stream_range) (tt, sound)
    | inr (asked, good) ↦
        rw (good, stream_range)
          (proxy_loop-StreamEnds asked.0 (head_of file asked) cfg.cdn_url_repair_retries url s
            sound)
  ]

  stream_fetched-StreamEnds :
      (s : Server) → Sound n s → StreamEnds n (stream_fetched w cfg file req fuel s)
  unfolding stream_fetched
  stream_fetched-StreamEnds s sound =
      let obtained = obtain_url-Sound w cfg file n s sound in
      elim (Result-cases (obtain_url w cfg file s).0) [
        | inr (e, bad) ↦
            rw (bad, stream_fetched) (hang-StreamEnds (obtain_url w cfg file s).1 obtained)
        | inl (u, good) ↦
            rw (good, stream_fetched)
              (stream_range-StreamEnds u _ (cache_url-Sound w cfg file u n _ obtained))
      ]

  stored-StreamEnds :
      (url : Text) (s : Server)
      → Sound n s
      → StreamEnds n (elim url as (λ x. Option (Answer × Server)) [
        | [] ↦ stream_fetched w cfg file req fuel s
        | c ∷ u ↦ stream_range w cfg file req fuel (c ∷ u) s
      ])
  stored-StreamEnds [] s sound = stream_fetched-StreamEnds s sound
  stored-StreamEnds (c ∷ url) s sound = stream_range-StreamEnds (c ∷ url) s sound

  -- However a stream that starts with n slots of the CDN taken ends, with errors of the database, the
  -- API, the CDN or the request, it has n slots taken again and the table's constraints hold. If it
  -- passes a body on, then that of a reply with status 200 or 206 whose content type is no error page's.
  pub stream_file_content-StreamEnds :
      (s : Server) → Sound n s → StreamEnds n (stream_file_content w cfg file req fuel s)
  unfolding stream_file_content
  stream_file_content-StreamEnds s sound =
      let s₁ : Server = record s { events = suc s.events } in
      let asked : Sound n s₁ = record { slots = sound.slots; valid = sound.valid } in
      elim (Option-cases (w.query_error s.events)) [
        | inr (e, failed) ↦ rw (failed, stream_file_content) (tt, asked)
        | inl fine ↦
            rw (fine, stream_file_content)
              (stored-StreamEnds (get_cdn_url w.parse_time s.clock file.id s.store) s₁ asked)
      ]
