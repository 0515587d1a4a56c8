-- ===== src/Torbox/Listing.antt =====
-- internal/torbox/client.go: listGeneric, the paginated list with retries of a page.
pub mod Complete
use warpbox.Base.{
  ℕ, zero, suc, ◌+◌, ◌-◌, ◌*◌, ◌^◌, Bool, true, false, ◌||◌, not, Option, none, some, List, [], ◌∷◌,
  ◌++◌, ltb, if◌then◌else◌, length,
}
use warpbox.Base.Int.{ℤ, pos, lt_int, pos_part}
use warpbox.Base.Text.{Text, codes}
use warpbox.Base.Result.{Result, ok, err}
use warpbox.Torbox.Client.{Reply, Body, Attempt, do_request, decode, is_retryable}

pub record TorrentFile : Type 0 where
  pub id : ℤ
  pub name : Text
  pub size : ℤ
  pub mime_type : Text
  pub s3_path : Text
  pub short_name : Text

pub record Torrent : Type 0 where
  pub id : ℤ
  pub name : Text
  pub download_state : Text
  pub download_present : Bool
  pub files : List TorrentFile
  pub created_at : Text

pub record ListFilesParams : Type 0 where
  pub offset : ℕ
  pub page_size : ℤ
  pub retry_attempts : ℕ
  pub retry_backoff : ℕ

abbrev pub default_list_page_size : ℕ
default_list_page_size = 1000

abbrev pub page_window : ListFilesParams → ℕ
page_window params =
    if lt_int (pos 0) params.page_size then pos_part params.page_size else default_list_page_size

-- What the client meets outside. The number of HTTP requests that this list has made so far picks
-- the answer. `fetch` takes the offset and the limit of a request; `cancelled` is ctx.Err() where
-- ctx.Done() wins the wait before a retry.
pub record Api : Type 0 where
  pub fetch : ℕ → ℕ → ℕ → Reply (List Torrent)
  pub cancelled : ℕ → Option Text

-- The endpoint's path and its label stand in the error texts alone.
module _ (api : Api) (endpoint label : Text) where
  -- The retry loop of one page, after `attempt` attempts, with `left` retries to go. The second part
  -- counts the requests made.
  unfoldable pub fetch_page : ℕ → ℕ → ℕ → ℕ → Result (Body (List Torrent)) × ℕ
  unfolding do_request is_retryable
  fetch_page zero offset limit made =
      ((do_request (codes "GET " ++ endpoint) (api.fetch made offset limit)).result, suc made)
  fetch_page (suc left) offset limit made =
      let retry = fetch_page left offset limit (suc made) in
      elim (do_request (codes "GET " ++ endpoint) (api.fetch made offset limit)).result [
        | ok body ↦ (ok body, suc made)
        | err e ↦
            if is_retryable e
            then elim (api.cancelled (suc made)) [
              | some reason ↦ (err reason, suc made)
              | none ↦ retry
            ]
            else (err e, suc made)
      ]

  -- The loop over the pages; `none` means that the fuel ran out before a short page came.
  unfoldable pub list_pages :
      ℕ → ℕ → ListFilesParams → ℕ → List Torrent → ℕ → Option (Result (List Torrent))
  list_pages zero limit params offset all made = none
  list_pages (suc fuel) limit params offset all made =
      let (reply, made') = fetch_page params.retry_attempts offset limit made in
      elim reply [
        | err e ↦ some (err e)
        | ok body ↦
            elim (decode (codes "torbox: decoding " ++ (label ++ codes " response: "))
              (codes "torbox " ++ (label ++ codes " API error: ")) body) [
                | err e ↦ some (err e)
                | ok page ↦
                    if ltb (length page) limit
                    then some (ok (all ++ page))
                    else list_pages fuel limit params (offset + length page) (all ++ page) made'
              ]
      ]

  unfoldable pub list_generic : ℕ → ListFilesParams → Option (Result (List Torrent))
  list_generic fuel params = list_pages fuel (page_window params) params params.offset [] 0
