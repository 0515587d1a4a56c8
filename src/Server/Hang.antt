-- ===== src/Server/Hang.antt =====
-- internal/server/get.go: handleGetCDNHang, which holds a client with success headers until the CDN
-- answers or the client leaves.
pub mod Laws
use warpbox.Base.{
  ℕ, zero, suc, ◌+◌, ◌*◌, Bool, true, false, not, ◌||◌, Option, none, some, List, [], ◌∷◌, ltb,
  ◌==◌, if◌then◌else◌,
}
use warpbox.Base.Text.{Text, codes, contains}
use warpbox.Base.Result.{Result, ok, err}
use warpbox.Metadata.Record.{FileRecord}
use warpbox.Server.State.{
  Server, Config, World, CdnReply, network_error, cdn_response, second, minute,
}
use warpbox.Server.Health.{record_outcome}
use warpbox.Server.Fetch.{sleep}
use warpbox.Server.Range.{HttpRange, parse_cdn_true_size}
use warpbox.Server.Answer.{
  Head, Answer, error_reply, streamed, silent, Request, requested_range, head_of, acquire_cdn_conn,
  release_cdn_conn, cdn_request, cache_url, invalidate_url, check_size, obtain_url,
  is_cdn_disguised_error_body, is_busy, is_success,
}

abbrev pub cdn_poll_interval : ℕ
cdn_poll_interval = 15 * second

abbrev pub max_poll_interval : ℕ
max_poll_interval = 5 * minute

unfoldable pub doubled : ℕ → ℕ
doubled interval = if ltb max_poll_interval (interval * 2) then max_poll_interval else interval * 2

-- A round of the loop ends the request, or it waits for so long and goes on, or it waits for a slot.
pub data Round : Type 0 where
  done : Answer → Round
  poll : ℕ → Round
  blocked : Round

module _ (w : World) (cfg : Config) (file : FileRecord) (h : HttpRange) (head : Head) where
  -- The reply of the CDN, with the slot taken.
  unfoldable pub hang_reply : ℕ → CdnReply → Server → Round × Server
  hang_reply interval network_error s =
      (poll interval, record_outcome cfg false (release_cdn_conn s))
  hang_reply interval (cdn_response status ct cr body) s =
      let failed = record_outcome cfg false (release_cdn_conn s) in
      if is_busy status || is_cdn_disguised_error_body ct
      then (poll (doubled interval), invalidate_url w cfg file failed)
      else if status == 416
      then (done (silent head), check_size w cfg file (parse_cdn_true_size cr) failed)
      else if not (is_success status)
      then (done (silent head), failed)
      else (
        done (streamed head (cdn_response status ct cr body)),
        release_cdn_conn (record_outcome cfg true s),
      )

  unfoldable pub hang_proxy : ℕ → Text → Server → Round × Server
  hang_proxy interval url s = elim (acquire_cdn_conn cfg s) [
    | none ↦ (blocked, s)
    | some s₁ ↦
        if w.valid_url url
        then (let (reply, s₂) = cdn_request w h url s₁ in hang_reply interval reply s₂)
        else (done (silent head), release_cdn_conn s₁)
  ]

  unfoldable pub hang_round : ℕ → Server → Round × Server
  hang_round interval s =
      let (url, s₁) = obtain_url w cfg file s in
      elim url [
        | ok u ↦ hang_proxy interval u (cache_url w cfg file u s₁)
        | err e ↦ (
          poll (if contains e (codes "unexpected status 429") then doubled interval else interval),
          s₁,
        )
      ]

  -- The loop, after so many waits. `none` means that the fuel ran out, or
  -- that the loop waits for a slot.
  unfoldable pub hang_loop : (ℕ → Bool) → ℕ → ℕ → ℕ → Server → Option (Answer × Server)
  hang_loop gone zero waits interval s = none
  hang_loop gone (suc fuel) waits interval s =
      let (round, s₁) = hang_round interval s in
      elim round [
        | done answer ↦ some (answer, s₁)
        | blocked ↦ none
        | poll next ↦ elim (gone waits) [
          | true ↦ some (silent head, s₁)
          | false ↦ hang_loop gone fuel (suc waits) next (sleep next s₁)
        ]
      ]

unfoldable pub handle_get_cdn_hang :
    World → Config → FileRecord → Request → ℕ → Server → Option (Answer × Server)
handle_get_cdn_hang w cfg file req fuel s = elim (requested_range req.range file.size) [
  | none ↦ some (error_reply 416 (codes "Invalid range"), s)
  | some asked ↦
      hang_loop w cfg file asked.0 (head_of file asked) req.gone fuel 0 cdn_poll_interval s
]
