-- ===== src/Server/Dispatch/Serves.antt =====
-- Every WebDAV request has an answer, and leaves the server sound.
use warpbox.Base.{
  any, Bool, false, ℕ, suc, ◌<◌, ◌≡◌, refl, sym, subst, true, Option, some, List, [], ◌∷◌,
  Bool-cases, Option-cases, inl, inr,
}
use warpbox.Base.Text.{Text, text_eq}
use warpbox.Base.Assoc.{Assoc}
use warpbox.Metadata.Record.{FileRecord}
use warpbox.Metadata.Store.{get_file_by_path, get_cdn_url}
use warpbox.Library.Filter.{Filter}
use warpbox.Server.State.{Server, Config, World}
use warpbox.Server.Answer.{
  Answer, error_reply, redirect, listing, capabilities, head_only, streamed, silent, panicked,
  max_conns, Request,
}
use warpbox.Server.Answer.Sound.{Sound}
use warpbox.Server.Hang.Laws.{IsClean}
use warpbox.Server.Stream.{stream_file_content}
use warpbox.Server.Stream.Ends.{IsStreamAnswer, StreamEnds, stream_file_content-StreamEnds}
use warpbox.Server.Stream.Answers.{stream_file_content-Answers}
use warpbox.Server.Listing.{ChildInfo, root_for_request, strip}
use warpbox.Server.Dispatch.{
  Method, get, head, options, propfind, other, alias_path, mount_of, get_file, handle_get,
  handle_method, handle_webdav,
}
use warpbox.Server.Listing.Dates.{is_short_row, listed_rows}
use warpbox.Server.Dispatch.Answered.{
  IsAnswered, serve_dir_listing-IsAnswered, handle_propfind-IsAnswered, handle_head-IsAnswered,
  get_directory-IsAnswered,
}
use warpbox.Server.Dispatch.Reads.{
  IsBodiless, OnlyReads, serve_dir_listing-OnlyReads, get_directory-OnlyReads,
  handle_head-OnlyReads, handle_propfind-OnlyReads,
}

-- An answer, with a body that is media if there is one, from a server with n slots taken.
abbrev pub Serves : ℕ → Option (Answer × Server) → Type 0
Serves n o = (r : Answer × Server) × (o ≡ some r) × IsClean r.0 × Sound n r.1

stream-IsClean : (a : Answer) → IsStreamAnswer a → IsClean a
stream-IsClean (error_reply status message) h = tt
stream-IsClean (redirect url) h = tt
stream-IsClean (listing entries) h = tt
stream-IsClean capabilities h = tt
stream-IsClean (head_only headers) h = tt
stream-IsClean (streamed headers reply) h = h
stream-IsClean (silent headers) h = tt
stream-IsClean panicked h = h

bodiless-IsClean : (a : Answer) → IsBodiless a → IsAnswered a → IsClean a
bodiless-IsClean (error_reply status message) h ans = tt
bodiless-IsClean (redirect url) h ans = tt
bodiless-IsClean (listing entries) h ans = tt
bodiless-IsClean capabilities h ans = tt
bodiless-IsClean (head_only headers) h ans = tt
bodiless-IsClean (streamed headers reply) h ans = absurd h
bodiless-IsClean (silent headers) h ans = tt
bodiless-IsClean panicked h ans = ans

pub counted : (n : ℕ) (s : Server) → Sound n s → Sound n (record s { events = suc s.events })
counted n s sound = record { slots = sound.slots; valid = sound.valid }

reads-Sound : (n : ℕ) (s : Server) (r : Answer × Server) → OnlyReads s r → Sound n s → Sound n r.1
reads-Sound n s r (same, bodiless) sound =
    subst (Sound n) (sym same) (record { slots = sound.slots; valid = sound.valid })

module _ (w : World) (cfg : Config) (req : Request) (k fuel n : ℕ) (free : n < max_conns cfg)
    (left : req.gone k ≡ true) (enough : k < fuel) where
  pub stream-Serves :
      (file : FileRecord) (s : Server)
      → Sound n s
      → Serves n (stream_file_content w cfg file req fuel s)
  stream-Serves file s sound =
      let (r, e) = stream_file_content-Answers w cfg file req k fuel n free left enough s sound in
      let ends =
        subst (StreamEnds n) e (stream_file_content-StreamEnds w cfg file req fuel n s sound) in
      (r, e, stream-IsClean r.0 ends.0, ends.1)

module _ (w : World) (cfg : Config) (by_name : List FileRecord → List FileRecord)
    (range_map : Assoc Text ChildInfo → Assoc Text ChildInfo) (filters : List Filter)
    (ranges : (p : Text × ChildInfo → Bool) (m : Assoc Text ChildInfo)
      → any p (range_map m) ≡ any p m)
    (req : Request) (k fuel n : ℕ) (free : n < max_conns cfg) (left : req.gone k ≡ true)
    (enough : k < fuel) where
  reads-Serves :
      (s : Server) (r : Answer × Server)
      → OnlyReads s r
      → IsAnswered r.0
      → Sound n s
      → Serves n (some r)
  reads-Serves s r reads answered sound =
      (r, refl, bodiless-IsClean r.0 reads.1 answered, reads-Sound n s r reads sound)

  get_file-Serves :
      (file : FileRecord) (range : Text) (s : Server)
      → req.range ≡ range
      → Sound n s
      → Serves n (get_file w cfg by_name range_map filters fuel file req s)
  unfolding get_file
  get_file-Serves file (c ∷ range) s asked sound =
      rw (asked, get_file) (stream-Serves w cfg req k fuel n free left enough file s sound)
  get_file-Serves file [] s whole sound =
      let s₁ : Server = record s { events = suc s.events } in
      elim (Option-cases (w.query_error s.events)) [
        | inr (e, failed) ↦
            rw (whole, failed, get_file)
              (stream-Serves w cfg req k fuel n free left enough file s₁ (counted n s sound))
        | inl fine ↦
            rw (whole, fine, get_file)
              (cached-Serves file (get_cdn_url w.parse_time s.clock file.id s.store) s₁
                (counted n s sound))
      ]
    where
      cached-Serves :
          (file : FileRecord) (url : Text) (s : Server)
          → Sound n s
          → Serves n (elim url as (λ x. Option (Answer × Server)) [
            | [] ↦ stream_file_content w cfg file req fuel s
            | c ∷ u ↦ some (redirect (c ∷ u), s)
          ])
      cached-Serves file [] s sound = stream-Serves w cfg req k fuel n free left enough file s sound
      cached-Serves file (c ∷ url) s sound = ((redirect (c ∷ url), s), refl, tt, sound)

  handle_get-Serves :
      (f : Option Filter) (mount : Option Text) (s : Server)
      → any is_short_row (listed_rows by_name req.path f mount s) ≡ false
      → Sound n s
      → Serves n (handle_get w cfg by_name range_map filters fuel f mount req s)
  unfolding handle_get
  handle_get-Serves f mount s dates sound =
      let root = root_for_request mount in
      let virtual = strip req.path root in
      let s₁ : Server = record s { events = suc s.events } in
      elim (Bool-cases (text_eq virtual [])) [
        | inl top ↦
            rw (top, handle_get)
              (reads-Serves s _
                (serve_dir_listing-OnlyReads w cfg by_name range_map filters req.path f root s)
                (serve_dir_listing-IsAnswered w cfg by_name range_map filters ranges req.path f
                  mount s dates)
                sound)
        | inr below ↦ elim (Option-cases (w.query_error s.events)) [
          | inr (e, failed) ↦ rw (below, failed, handle_get) (_, refl, tt, counted n s sound)
          | inl fine ↦ elim (Option-cases (get_file_by_path virtual s.store)) [
            | inl absent ↦
                rw (below, fine, absent, handle_get)
                  (reads-Serves s₁ _
                    (get_directory-OnlyReads w cfg by_name range_map filters fuel virtual req.path f
                      root s₁)
                    (get_directory-IsAnswered w cfg by_name range_map filters ranges fuel virtual
                      req.path f mount s₁ dates)
                    (counted n s sound))
            | inr (file, found) ↦
                rw (below, fine, found, handle_get)
                  (get_file-Serves file req.range s₁ refl (counted n s sound))
          ]
        ]
      ]

-- Every WebDAV request is answered, if n slots of the CDN are taken when it starts, fewer than there are,
-- no other handler takes one, the client leaves during the k-th wait of the hanging mode at the latest,
-- and no row that a listing of the path shows has a date that is not empty and shorter than 19 bytes,
-- whatever the API, the CDN and the database do. It holds if an iteration of a Go map visits just the
-- entries of the map. Slots that the handler took are given back, the constraints of the table hold, and
-- a body that is passed on is that of a successful reply which is no error page.
pub handle_webdav-Serves :
    (w : World) (cfg : Config) (by_name : List FileRecord → List FileRecord)
    (range_map : Assoc Text ChildInfo → Assoc Text ChildInfo) (filters : List Filter)
    (method : Method) (depth : Text) (req : Request) (k fuel n : ℕ) (s : Server)
    → ((p : Text × ChildInfo → Bool) (m : Assoc Text ChildInfo) → any p (range_map m) ≡ any p m)
    → any is_short_row (
        listed_rows by_name
          (alias_path req.path)
          (mount_of filters (alias_path req.path)).0
          (mount_of filters (alias_path req.path)).1
          s)
      ≡ false
    → n < max_conns cfg
    → req.gone k ≡ true
    → k < fuel
    → Sound n s
    → Serves n (handle_webdav w cfg by_name range_map filters fuel method depth req s)
unfolding handle_webdav handle_method
handle_webdav-Serves w cfg by_name range_map filters get depth req k fuel n s ranges dates free left
      enough sound =
    let req' : Request = record req { path = alias_path req.path } in
    let (f, mount) = mount_of filters req'.path in
    handle_get-Serves w cfg by_name range_map filters ranges req' k fuel n free left enough f mount
      s dates sound
handle_webdav-Serves w cfg by_name range_map filters head depth req k fuel n s ranges dates free
      left enough sound =
    let req' : Request = record req { path = alias_path req.path } in
    reads-Serves w cfg by_name range_map filters ranges req' k fuel n free left enough s _
      (handle_head-OnlyReads w cfg by_name range_map filters fuel _ req' s)
      (handle_head-IsAnswered w cfg by_name range_map filters ranges fuel _ req' s) sound
handle_webdav-Serves w cfg by_name range_map filters options depth req k fuel n s ranges dates free
      left enough sound =
    (_, refl, tt, sound)
handle_webdav-Serves w cfg by_name range_map filters propfind depth req k fuel n s ranges dates free
      left enough sound =
    let req' : Request = record req { path = alias_path req.path } in
    reads-Serves w cfg by_name range_map filters ranges req' k fuel n free left enough s _
      (handle_propfind-OnlyReads w cfg by_name range_map filters req'.path depth _ _ s)
      (handle_propfind-IsAnswered w cfg by_name range_map filters ranges req'.path depth _ _ s
        dates)
      sound
handle_webdav-Serves w cfg by_name range_map filters other depth req k fuel n s ranges dates free
      left enough sound =
    (_, refl, tt, sound)
