-- ===== src/Torbox/Listing/Complete.antt =====
-- The paginated list against the list that the service holds.
use warpbox.Base.{
  min, ◌∙◌, ℕ, zero, suc, ◌+◌, ◌*◌, ◌<◌, ◌≡◌, ◌⊎◌, inl, inr, true, false, none, some, List, [],
  ◌++◌, append_assoc, arith, ltb, length, take, drop, Bool-cases, take-append-drop, length-take,
  length-drop, take_all, drop-drop, ltb→lt, ap,
}
use native.Mathlib.Nat.{suc-mul}
use warpbox.Base.Text.{Text, codes}
use warpbox.Base.Result.{ok, err}
use warpbox.Torbox.Client.{Reply, response, envelope, do_request, decode, is_retryable}
use warpbox.Torbox.Listing.{
  Torrent, ListFilesParams, Api, page_window, fetch_page, list_pages, list_generic,
}

-- The reply to a request for a window of `all`.
abbrev pub window : List Torrent → ℕ → ℕ → Reply (List Torrent)
window all offset limit = response 200 (envelope none (take limit (drop offset all)))

-- An attempt that fails in a way that IsRetryable accepts.
abbrev pub IsTransient : Reply (List Torrent) → Text → Type 0
IsTransient reply request =
    (e : Text) × ((do_request request reply).result ≡ err e) × (is_retryable e ≡ true)

-- The service holds `all`: of any `retries` + 1 requests in a row one gets its window, and those
-- before it fail in a transient way. Nobody cancels.
abbrev pub AnswersWithin : Api → Text → List Torrent → ℕ → ℕ → Type 0
AnswersWithin api endpoint all zero made =
    (offset limit : ℕ) → api.fetch made offset limit ≡ window all offset limit
AnswersWithin api endpoint all (suc retries) made =
    ((offset limit : ℕ) → api.fetch made offset limit ≡ window all offset limit)
    ⊎ (((offset limit : ℕ) → IsTransient (api.fetch made offset limit) (codes "GET " ++ endpoint))
        × AnswersWithin api endpoint all retries (suc made))

full_page : (n limit m : ℕ) → ltb n limit ≡ false → n ≡ min limit m → n ≡ limit
full_page n limit m full e = ground arith

module _ (api : Api) (endpoint label : Text) (all : List Torrent) where
  -- What is left after a full page is shorter by a page.
  next_left :
      (n fuel offset limit : ℕ)
      → n ≡ limit
      → n ≡ min limit (length (drop offset all))
      → length (drop offset all) < suc fuel * limit
      → length (drop (offset + n) all) < fuel * limit
  next_left n fuel offset limit e e' h =
      omega (arith, length-drop (offset + n) all, length-drop offset all, suc-mul fuel limit)

  rejoin :
      (acc : List Torrent) (limit offset : ℕ)
      → length (take limit (drop offset all)) ≡ limit
      → (acc ++ take limit (drop offset all))
          ++ drop (offset + length (take limit (drop offset all))) all
        ≡ acc ++ drop offset all
  rejoin acc limit offset e =
      rw (e, append_assoc, ← drop-drop limit offset all, take-append-drop limit (drop offset all))

  fetch_page_window :
      ((n : ℕ) → api.cancelled n ≡ none)
      → (retries offset limit made : ℕ) → AnswersWithin api endpoint all retries made
      → (fetch_page api endpoint label retries offset limit made).0
        ≡ ok (envelope none (take limit (drop offset all)))
  unfolding fetch_page
  fetch_page_window free zero offset limit made h = rw (h offset limit)
  fetch_page_window free (suc retries) offset limit made (inl h) = rw (h offset limit, fetch_page)
  fetch_page_window free (suc retries) offset limit made (inr (bad, later)) =
      let (e, p, q) = bad offset limit in
      rw (p, q, free (suc made), fetch_page)
        (fetch_page_window free retries offset limit (suc made) later)

  list_pages_window :
      (params : ListFilesParams) (limit : ℕ)
      → ((n : ℕ) → api.cancelled n ≡ none)
      → ((n : ℕ) → AnswersWithin api endpoint all params.retry_attempts n)
      → 0 < limit
      → (fuel offset : ℕ) (acc : List Torrent) (made : ℕ) → length (drop offset all) < fuel * limit
      → list_pages api endpoint label fuel limit params offset acc made
        ≡ some (ok (acc ++ drop offset all))
  unfolding list_pages decode
  list_pages_window params limit free serves p zero offset acc made h = absurd (omega arith)
  list_pages_window params limit free serves p (suc fuel) offset acc made h =
      let page = take limit (drop offset all) in
      let made' = (fetch_page api endpoint label params.retry_attempts offset limit made).1 in
      let fetched = fetch_page_window free params.retry_attempts offset limit made (serves made) in
      let sized = length-take limit (drop offset all) in
      elim (Bool-cases (ltb (length page) limit)) [
        | inl short ↦
            rw (fetched, list_pages)
              (rw short (
                ap (λ rest. some (ok (acc ++ rest)))
                  (take_all limit (drop offset all) (omega (arith, ltb→lt _ _ short, sized)))))
        | inr full ↦
            rw (fetched, list_pages)
              (rw full (
                list_pages_window params limit free serves p fuel (offset + length page)
                  (acc ++ page) made'
                  (next_left (length page) fuel offset limit
                    (full_page (length page) limit _ full sized) sized h)
                ∙ ap (λ rest. some (ok rest))
                    (rejoin acc limit offset (full_page (length page) limit _ full sized))))
      ]

-- If the service holds `all`, nobody cancels, and of any retry_attempts + 1 requests in a row one is
-- answered while those before it fail in a retryable way, then with enough fuel for the pages the
-- list returns everything from the first offset on: no page is lost, repeated or cut.
pub list_generic_complete :
    (api : Api) (endpoint label : Text) (all : List Torrent) (params : ListFilesParams) (fuel : ℕ)
    → ((n : ℕ) → api.cancelled n ≡ none)
    → ((n : ℕ) → AnswersWithin api endpoint all params.retry_attempts n)
    → length (drop params.offset all) < fuel * page_window params
    → list_generic api endpoint label fuel params ≡ some (ok (drop params.offset all))
unfolding list_generic
list_generic_complete api endpoint label all params fuel free serves h =
    list_pages_window api endpoint label all params (page_window params) free serves (ground arith)
      fuel params.offset [] 0 h
