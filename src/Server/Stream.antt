-- ===== src/Server/Stream.antt =====
-- internal/server/get.go: streamFileContent, which proxies a file from the CDN and repairs stale URLs.
pub mod Ends
pub mod Answers
pub mod Sizes
use warpbox.Base.{
  ℕ, zero, suc, ◌+◌, ◌*◌, Bool, true, false, not, ◌&&◌, ◌||◌, Option, none, some, List, [], ◌∷◌,
  ◌++◌, ltb, ◌==◌, if◌then◌else◌,
}
use warpbox.Base.Int.{pos}
use warpbox.Base.Text.{Text, codes, format_int}
use warpbox.Base.Result.{Result, ok, err}
use warpbox.Metadata.Record.{FileRecord}
use warpbox.Metadata.Store.{get_cdn_url}
use warpbox.Server.State.{Server, Config, World, CdnReply, network_error, cdn_response}
use warpbox.Server.Health.{record_outcome}
use warpbox.Server.Range.{HttpRange, parse_cdn_true_size}
use warpbox.Server.Hang.{handle_get_cdn_hang}
use warpbox.Server.Answer.{
  Head, Answer, error_reply, streamed, Request, requested_range, head_of, acquire_cdn_conn,
  release_cdn_conn, cdn_request, cache_url, invalidate_url, remember_for, check_size, obtain_url,
  is_cdn_disguised_error_body, is_busy, is_success,
}

abbrev pub is_gone_status : ℕ → Bool
is_gone_status status = (status == 403) || (status == 404)

abbrev pub is_gone_reply : CdnReply → Bool
is_gone_reply network_error = false
is_gone_reply (cdn_response status ct cr body) = is_gone_status status

abbrev pub exhausted_error : ℕ → ℕ → Text
exhausted_error status attempts =
    codes "CDN returned "
    ++ (format_int (pos status)
        ++ (codes " after " ++ (format_int (pos attempts) ++ codes " repair attempts")))

abbrev pub status_reply : ℕ → Answer
status_reply status = error_reply 502 (codes "CDN returned status " ++ format_int (pos status))

-- The request, and the number of polls that the hanging mode may take.
module _ (w : World) (cfg : Config) (file : FileRecord) (req : Request) (fuel : ℕ) where
  abbrev pub max_attempts : ℕ
  max_attempts = cfg.cdn_url_repair_retries + 1

  -- A reply that ends the loop, with the slot taken; `last` is whether no attempt is left.
  unfoldable pub settle : Bool → Head → CdnReply → Server → Option (Answer × Server)
  settle last head network_error s =
      some
        (error_reply 502 (codes "CDN proxy error"), record_outcome cfg false (release_cdn_conn s))
  settle last head (cdn_response status ct cr body) s =
      let failed = record_outcome cfg false (release_cdn_conn s) in
      if is_busy status
      then handle_get_cdn_hang w cfg file req fuel (invalidate_url w cfg file failed)
      else if status == 416
      then some (
        error_reply 416 (codes "requested range not satisfiable"),
        check_size w cfg file (parse_cdn_true_size cr) failed,
      )
      else if not (is_success status)
      then some (
        status_reply status,
        if is_gone_status status && last
            then remember_for cfg file (exhausted_error status max_attempts) failed
            else failed,
      )
      else if is_cdn_disguised_error_body ct
      then handle_get_cdn_hang w cfg file req fuel (invalidate_url w cfg file failed)
      else some (
        streamed head (cdn_response status ct cr body),
        release_cdn_conn (record_outcome cfg true s),
      )

  -- The loop, with `left` attempts to go after this one.
  unfoldable pub proxy_loop : HttpRange → Head → ℕ → Text → Server → Option (Answer × Server)
  unfolding settle
  proxy_loop h head zero url s =
      if w.valid_url url
      then elim (acquire_cdn_conn cfg s) [
        | none ↦ none
        | some s₀ ↦ let (reply, s₁) = cdn_request w h url s₀ in settle true head reply s₁
      ]
      else some (error_reply 500 (codes "Failed to create upstream request"), s)
  proxy_loop h head (suc left) url s = elim (w.valid_url url) [
    | false ↦ some (error_reply 500 (codes "Failed to create upstream request"), s)
    | true ↦ elim (acquire_cdn_conn cfg s) [
      | none ↦ none
      | some s₀ ↦
          let (reply, s₁) = cdn_request w h url s₀ in
          elim (is_gone_reply reply && cfg.cdn_url_auto_repair) [
            | false ↦ settle false head reply s₁
            | true ↦
                let (fresh, s₂) = obtain_url w cfg file (release_cdn_conn s₁) in
                elim fresh [
                  | err e ↦ some (error_reply 502 (codes "CDN URL refresh failed"), s₂)
                  | ok u ↦ proxy_loop h head left u (cache_url w cfg file u s₂)
                ]
          ]
    ]
  ]

  unfoldable pub stream_range : Text → Server → Option (Answer × Server)
  stream_range url s = elim (requested_range req.range file.size) [
    | none ↦ some (error_reply 416 (codes "Invalid range"), s)
    | some asked ↦ proxy_loop asked.0 (head_of file asked) cfg.cdn_url_repair_retries url s
  ]

  -- With no cached URL.
  unfoldable pub stream_fetched : Server → Option (Answer × Server)
  stream_fetched s =
      let (url, s₁) = obtain_url w cfg file s in
      elim url [
        | err e ↦ handle_get_cdn_hang w cfg file req fuel s₁
        | ok u ↦ stream_range u (cache_url w cfg file u s₁)
      ]

  unfoldable pub stream_file_content : Server → Option (Answer × Server)
  stream_file_content s =
      let s₁ : Server = record s { events = suc s.events } in
      elim (w.query_error s.events) [
        | some e ↦ some (error_reply 500 (codes "Internal Server Error"), s₁)
        | none ↦ elim (get_cdn_url w.parse_time s.clock file.id s.store) [
          | [] ↦ stream_fetched s₁
          | c ∷ url ↦ stream_range (c ∷ url) s₁
        ]
      ]
