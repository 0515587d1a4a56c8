-- ===== src/Server/Page/Serves.antt =====
-- internal/server/http_browser.go: every request of the browser has an answer.
use warpbox.Base.{ℕ, suc, ◌<◌, ◌≡◌, refl, true, Option, some, List, Option-cases, inl, inr, Bool}
use warpbox.Base.Text.{Text}
use warpbox.Metadata.Record.{FileRecord}
use warpbox.Metadata.Store.{get_file_by_path}
use warpbox.Library.Filter.{Filter}
use warpbox.Server.State.{Server, Config, World}
use warpbox.Server.Answer.{Answer, Request, max_conns}
use warpbox.Server.Answer.Sound.{Sound}
use warpbox.Server.Hang.Laws.{IsClean}
use warpbox.Server.Dispatch.Serves.{counted, Serves, stream-Serves}
use warpbox.Server.Browser.{raw_virtual_path, Place, place_of, HtmlEntry}
use warpbox.Server.Page.{HttpAnswer, media, page, as_media, http_directory, handle_http}

abbrev pub IsCleanHttp : HttpAnswer → Type 0
IsCleanHttp (media a) = IsClean a
IsCleanHttp (page p) = Unit

-- An answer, with a body that is media if there is one, from a server with n slots taken.
abbrev pub Answers : ℕ → Option (HttpAnswer × Server) → Type 0
Answers n o = (r : HttpAnswer × Server) × (o ≡ some r) × IsCleanHttp r.0 × Sound n r.1

media-Answers : (n : ℕ) (o : Option (Answer × Server)) → Serves n o → Answers n (as_media o)
media-Answers n o ((a, s), e, clean, sound) = ((media a, s), rw e refl, clean, sound)

module _ (w : World) (cfg : Config) (db_order : List FileRecord → List FileRecord)
    (path_escape : Text → Text)
    (sort : (HtmlEntry → HtmlEntry → Bool) → List HtmlEntry → List HtmlEntry)
    (filters : List Filter) where
  -- A directory's answer is a page of the rows below, or an error of the database.
  directory-Answers :
      (fuel : ℕ) (url_path query : Text) (place : Place) (n : ℕ) (s : Server)
      → Sound n s
      → Answers n (
          some (http_directory w cfg db_order path_escape sort filters fuel url_path query place s))
  unfolding http_directory
  directory-Answers fuel url_path query place n s sound =
      elim (Option-cases (w.query_error s.events)) [
        | inr (e, failed) ↦ rw (failed, http_directory) (_, refl, tt, counted n s sound)
        | inl fine ↦ rw (fine, http_directory) (_, refl, tt, counted n s sound)
      ]

  -- Every request of the browser is answered, if n slots of the CDN are taken when it starts, fewer than
  -- there are, no other handler takes one, and the client leaves during the k-th wait of the hanging mode
  -- at the latest, whatever the API, the CDN and the database do: slots of the CDN that it took are given
  -- back, the constraints of the table hold, and a body that is passed on is that of a successful reply
  -- which is no error page.
  pub handle_http-Answers :
      (query : Text) (req : Request) (k fuel n : ℕ) (s : Server)
      → n < max_conns cfg
      → req.gone k ≡ true
      → k < fuel
      → Sound n s
      → Answers n (handle_http w cfg db_order path_escape sort filters fuel query req s)
  unfolding handle_http
  handle_http-Answers query req k fuel n s free left enough sound =
      let place = place_of filters (raw_virtual_path req.path) in
      let s₁ : Server = record s { events = suc s.events } in
      elim (Option-cases (w.query_error s.events)) [
        | inr (e, failed) ↦ rw (failed, handle_http) (_, refl, tt, counted n s sound)
        | inl fine ↦ elim (Option-cases (get_file_by_path place.virtual_path s.store)) [
          | inl absent ↦
              rw (fine, absent, handle_http)
                (directory-Answers fuel req.path query place n s₁ (counted n s sound))
          | inr (file, found) ↦
              rw (fine, found, handle_http)
                (media-Answers n _
                  (stream-Serves w cfg req k fuel n free left enough file s₁ (counted n s sound)))
        ]
      ]
