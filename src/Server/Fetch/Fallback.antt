-- ===== src/Server/Fetch/Fallback.antt =====
-- The alternatives of a path, tried in turn.
use warpbox.Base.{
  suc, ◌+◌, ◌*◌, ◌≤◌, ◌≡◌, refl, sym, ap, subst, List, [], ◌∷◌, ◌++◌, length, arith, Option-cases,
  inl, inr,
}
use warpbox.Base.Text.{Text, codes}
use warpbox.Base.Result.{Result, ok, err, Result-cases}
use warpbox.Metadata.Record.{FileRecord}
use warpbox.Metadata.Store.{get_file_alternatives}
use warpbox.Server.State.{Server, Config, World}
use warpbox.Server.Fetch.{fetch_cdn_url, call_of, fallback_loop, try_cdn_fallback}
use warpbox.Server.Fetch.Laws.{fetch_cdn_url-calls}

module _ (w : World) (cfg : Config) where
  fallback_loop-calls :
      (files : List FileRecord) (last : Text) (s : Server)
      → length (fallback_loop w cfg last files s).1.calls
        ≤ length s.calls + length files * suc cfg.cdn_url_retry_count
  unfolding fallback_loop
  fallback_loop-calls [] last s = omega arith
  fallback_loop-calls (file ∷ files) last s =
      let (more, few) = fetch_cdn_url-calls w cfg (call_of file) s in
      elim (Result-cases (fetch_cdn_url w cfg (call_of file) s).0) [
        | inl (u, good) ↦ rw (good, fallback_loop) (omega arith)
        | inr (e, bad) ↦
            let rest = fallback_loop-calls files e (fetch_cdn_url w cfg (call_of file) s).1 in
            rw (bad, fallback_loop) (omega arith)
      ]

  tried :
      (path : Text) (s : Server) (files : List FileRecord)
      → length
          (elim files as (λ x. Result Text × Server) [
            | [] ↦ (err (codes "no alternatives for path " ++ w.quote path), s)
            | file ∷ rest ↦ fallback_loop w cfg [] (file ∷ rest) s
          ]).1.calls
        ≤ length s.calls + length files * suc cfg.cdn_url_retry_count
  tried path s [] = omega arith
  tried path s (file ∷ rest) = fallback_loop-calls (file ∷ rest) [] s

  -- A fallback makes at most retry_count + 1 API calls for each alternative of the path.
  pub try_cdn_fallback-calls :
      (path : Text) (s : Server)
      → length (try_cdn_fallback w cfg path s).1.calls
        ≤ length s.calls + length (get_file_alternatives path s.store) * suc cfg.cdn_url_retry_count
  unfolding try_cdn_fallback
  try_cdn_fallback-calls path s = elim (Option-cases (w.query_error s.events)) [
    | inr (e, failed) ↦ rw (failed, try_cdn_fallback) (omega arith)
    | inl fine ↦
        rw (fine, try_cdn_fallback)
          (tried path (record s { events = s.events + 1 }) (get_file_alternatives path s.store))
  ]

  -- The first alternative whose fetch gives a URL ends the fallback with that URL: those before it
  -- have failed, and those behind it are not asked.
  pub fallback_loop_first :
      (files rest : List FileRecord) (file : FileRecord) (last e u : Text) (s mid : Server)
      → fallback_loop w cfg last files s ≡ (err e, mid)
      → (fetch_cdn_url w cfg (call_of file) mid).0 ≡ ok u
      → fallback_loop w cfg last (files ++ file ∷ rest) s
        ≡ (ok u, (fetch_cdn_url w cfg (call_of file) mid).1)
  unfolding fallback_loop
  fallback_loop_first [] rest file last e u s mid before good =
      subst
        (λ x.
          fallback_loop w cfg last (file ∷ rest) x
          ≡ (ok u, (fetch_cdn_url w cfg (call_of file) mid).1))
        (sym (ap (λ r. r.1) before)) (rw (good, fallback_loop) refl)
  fallback_loop_first (first ∷ files) rest file last e u s mid before good =
      elim (Result-cases (fetch_cdn_url w cfg (call_of first) s).0) [
        | inl (v, found) ↦
            let differ : ◌≡◌ {A = Result Text × Server}
                (ok v, (fetch_cdn_url w cfg (call_of first) s).1) (err e, mid) =
              rw (found, fallback_loop) at before in
            let heads : ◌≡◌ {A = Result Text} (ok v) (err e) = ap (λ r. r.0) differ in cc
        | inr (e', bad) ↦
            rw (bad, fallback_loop)
              (fallback_loop_first files rest file e' e u _ mid (rw (bad, fallback_loop) at before)
                good)
      ]
