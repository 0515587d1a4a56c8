-- ===== src/Server/Hang/Laws.antt =====
-- The hanging mode: its slots, its end, its waits, and what it answers.
use warpbox.Base.{
  ℕ, zero, suc, ◌+◌, ◌≤◌, ◌<◌, ◌≡◌, refl, subst, Bool, true, false, ◌||◌, Option, none, some, ltb,
  ◌==◌, arith, Bool-cases, Option-cases, inl, inr, ◌⊎◌,
}
use warpbox.Base.Text.{Text, codes, contains}
use warpbox.Base.Result.{Result-cases}
use warpbox.Metadata.Record.{FileRecord}
use warpbox.Server.State.{Server, Config, World, CdnReply, network_error, cdn_response}
use warpbox.Server.Fetch.{sleep}
use warpbox.Server.Range.{HttpRange, parse_cdn_true_size}
use warpbox.Server.Answer.{
  Head, Answer, error_reply, redirect, listing, capabilities, head_only, streamed, silent, panicked,
  Request, requested_range, head_of, max_conns, acquire_cdn_conn, obtain_url,
  is_cdn_disguised_error_body, is_busy, is_success,
}
use warpbox.Server.Answer.Sound.{
  Sound, record_outcome-Sound, acquire-Sound, acquire-free, release-Sound, failed-Sound,
  cdn_request-Sound, cache_url-Sound, invalidate_url-Sound, check_size-Sound, obtain_url-Sound,
}
use warpbox.Server.Hang.{
  cdn_poll_interval, max_poll_interval, doubled, Round, done, poll, blocked, hang_reply, hang_proxy,
  hang_round, hang_loop, handle_get_cdn_hang,
}

-- The headers of the request, and the body of a media reply, an empty one, or none.
abbrev pub IsMedia : CdnReply → Type 0
IsMedia network_error = ⊥
IsMedia (cdn_response status ct cr body) =
    (is_success status ≡ true) × (is_cdn_disguised_error_body ct ≡ false)

-- There is an answer, and no error page is passed on as the file's data.
abbrev pub IsClean : Answer → Type 0
IsClean (streamed head reply) = IsMedia reply
IsClean panicked = ⊥
IsClean _ = Unit

-- An interval from the first one to the longest.
abbrev pub IsPoll : ℕ → Type 0
IsPoll interval = (cdn_poll_interval ≤ interval) × (interval ≤ max_poll_interval)

doubled-IsPoll : (interval : ℕ) → IsPoll interval → IsPoll (doubled interval)
unfolding doubled
doubled-IsPoll interval (lo, hi) = ground arith

-- A round ends with a clean answer under the headers, or waits for a fair time, or for a slot.
abbrev pub IsFair : Head → Round → Type 0
IsFair head (poll interval) = IsPoll interval
IsFair head blocked = Unit
IsFair head (done (streamed head' reply)) = (head' ≡ head) × IsMedia reply
IsFair head (done (silent head')) = head' ≡ head
IsFair head (done _) = ⊥

-- How a round under the headers ends that starts with n slots taken.
abbrev pub RoundEnds : Head → ℕ → Round × Server → Type 0
RoundEnds head n r = IsFair head r.0 × Sound n r.1

module _ (w : World) (cfg : Config) (file : FileRecord) (h : HttpRange) (head : Head) (n : ℕ) where
  hang_reply-RoundEnds :
      (interval : ℕ) (reply : CdnReply) (s : Server)
      → IsPoll interval
      → Sound (suc n) s
      → RoundEnds head n (hang_reply w cfg file h head interval reply s)
  unfolding hang_reply
  hang_reply-RoundEnds interval network_error s fair sound =
      (fair, failed-Sound cfg false n s sound)
  hang_reply-RoundEnds interval (cdn_response status ct cr body) s fair sound =
      let failed = failed-Sound cfg false n s sound in
      elim (Bool-cases (is_busy status || is_cdn_disguised_error_body ct)) [
        | inl busy ↦
            rw (busy, hang_reply)
              (doubled-IsPoll interval fair, invalidate_url-Sound w cfg file n _ failed)
        | inr fine ↦ elim (Bool-cases (status == 416)) [
          | inl short ↦
              rw (fine, short, hang_reply)
                (refl, check_size-Sound w cfg file (parse_cdn_true_size cr) n _ failed)
          | inr long ↦ elim (Bool-cases (is_success status)) [
            | inr bad ↦ rw (fine, long, bad, hang_reply) (refl, failed)
            | inl good ↦
                rw (fine, long, good, hang_reply)
                  (
                    (refl, (good, ground arith)),
                    release-Sound n _ (record_outcome-Sound cfg true (suc n) s sound),
                  )
          ]
        ]
      ]

  hang_proxy-RoundEnds :
      (interval : ℕ) (url : Text) (s : Server)
      → IsPoll interval
      → Sound n s
      → RoundEnds head n (hang_proxy w cfg file h head interval url s)
  unfolding hang_proxy
  hang_proxy-RoundEnds interval url s fair sound = elim (Option-cases (acquire_cdn_conn cfg s)) [
    | inl full ↦ rw (full, hang_proxy) (tt, sound)
    | inr (s₁, free) ↦
        let taken = acquire-Sound cfg n s s₁ free sound in
        elim (Bool-cases (w.valid_url url)) [
          | inl valid ↦
              rw (free, valid, hang_proxy)
                (hang_reply-RoundEnds interval _ _ fair
                  (cdn_request-Sound w cfg file h url (suc n) s₁ taken))
          | inr invalid ↦ rw (free, invalid, hang_proxy) (refl, release-Sound n s₁ taken)
        ]
  ]

  -- A round of the hanging mode that starts with n slots taken and a poll interval between 15 seconds
  -- and 5 minutes either ends the request or waits for such an interval. It ends with the headers that
  -- were sent and the body of a successful reply that is no error page, or with no body; it never
  -- answers an error. The slots are given back and the table's constraints hold.
  pub hang_round-RoundEnds :
      (interval : ℕ) (s : Server)
      → IsPoll interval
      → Sound n s
      → RoundEnds head n (hang_round w cfg file h head interval s)
  unfolding hang_round
  hang_round-RoundEnds interval s fair sound =
      let obtained = obtain_url-Sound w cfg file n s sound in
      elim (Result-cases (obtain_url w cfg file s).0) [
        | inl (u, good) ↦
            rw (good, hang_round)
              (hang_proxy-RoundEnds interval u _ fair
                (cache_url-Sound w cfg file u n (obtain_url w cfg file s).1 obtained))
        | inr (e, bad) ↦ elim (Bool-cases (contains e (codes "unexpected status 429"))) [
          | inl limited ↦ rw (bad, limited, hang_round) (doubled-IsPoll interval fair, obtained)
          | inr other ↦ rw (bad, other, hang_round) (fair, obtained)
        ]
      ]

  abbrev pub LoopEnds : Option (Answer × Server) → Type 0
  LoopEnds none = Unit
  LoopEnds (some (answer, s)) = IsFair head (done answer) × Sound n s

  -- The rest of the loop behind a round.
  round-LoopEnds :
      (gone : ℕ → Bool) (fuel waits : ℕ) (r : Round × Server)
      → RoundEnds head n r
      → ((interval : ℕ) (s : Server)
          → IsPoll interval
          → Sound n s
          → LoopEnds (hang_loop w cfg file h head gone fuel (suc waits) interval s))
      → LoopEnds (elim r.0 as (λ x. Option (Answer × Server)) [
        | done answer ↦ some (answer, r.1)
        | blocked ↦ none
        | poll next ↦ elim (gone waits) as (λ x. Option (Answer × Server)) [
          | true ↦ some (silent head, r.1)
          | false ↦ hang_loop w cfg file h head gone fuel (suc waits) next (sleep next r.1)
        ]
      ])
  round-LoopEnds gone fuel waits (done answer, s) (fair, sound) rest = (fair, sound)
  round-LoopEnds gone fuel waits (blocked, s) (fair, sound) rest = tt
  round-LoopEnds gone fuel waits (poll next, s) (fair, sound) rest =
      elim (Bool-cases (gone waits)) [
        | inl left ↦ rw left (refl, sound)
        | inr stays ↦
            rw stays
              (rest next (sleep next s) fair (record { slots = sound.slots; valid = sound.valid }))
      ]

  hang_loop-LoopEnds :
      (gone : ℕ → Bool) (fuel waits interval : ℕ) (s : Server)
      → IsPoll interval
      → Sound n s
      → LoopEnds (hang_loop w cfg file h head gone fuel waits interval s)
  unfolding hang_loop
  hang_loop-LoopEnds gone zero waits interval s fair sound = tt
  hang_loop-LoopEnds gone (suc fuel) waits interval s fair sound =
      round-LoopEnds gone fuel waits (hang_round w cfg file h head interval s)
        (hang_round-RoundEnds interval s fair sound)
        (λ next s'. hang_loop-LoopEnds gone fuel (suc waits) next s')

le_cases : (a b : ℕ) → a ≤ b → (a < b) ⊎ (b ≡ a)
le_cases a b le = elim (Bool-cases (ltb a b)) [
  | inl lt ↦ inl (ground arith)
  | inr ge ↦ inr (ground arith)
]

-- With a slot free, a round does not wait for one.
abbrev GoesOn : Round → Type 0
GoesOn blocked = ⊥
GoesOn _ = Unit

Round-cases :
    (r : Round) → GoesOn r → ((a : Answer) × (r ≡ done a)) ⊎ ((next : ℕ) × (r ≡ poll next))
Round-cases (done a) on = inl (a, refl)
Round-cases (poll next) on = inr (next, refl)
Round-cases blocked on = absurd on

module _ (w : World) (cfg : Config) (file : FileRecord) (h : HttpRange) (head : Head) (n : ℕ)
    (free : n < max_conns cfg) where
  hang_reply-GoesOn :
      (interval : ℕ) (reply : CdnReply) (s : Server)
      → GoesOn (hang_reply w cfg file h head interval reply s).0
  unfolding hang_reply
  hang_reply-GoesOn interval network_error s = tt
  hang_reply-GoesOn interval (cdn_response status ct cr body) s =
      elim (Bool-cases (is_busy status || is_cdn_disguised_error_body ct)) [
        | inl busy ↦ rw (busy, hang_reply) tt
        | inr fine ↦ elim (Bool-cases (status == 416)) [
          | inl short ↦ rw (fine, short, hang_reply) tt
          | inr long ↦ elim (Bool-cases (is_success status)) [
            | inr bad ↦ rw (fine, long, bad, hang_reply) tt
            | inl good ↦ rw (fine, long, good, hang_reply) tt
          ]
        ]
      ]

  hang_proxy-GoesOn :
      (interval : ℕ) (url : Text) (s : Server)
      → Sound n s
      → GoesOn (hang_proxy w cfg file h head interval url s).0
  unfolding hang_proxy
  hang_proxy-GoesOn interval url s sound =
      let (s₁, taken, sound₁) = acquire-free cfg n s free sound in
      elim (Bool-cases (w.valid_url url)) [
        | inl valid ↦ rw (taken, valid, hang_proxy) (hang_reply-GoesOn interval _ _)
        | inr invalid ↦ rw (taken, invalid, hang_proxy) tt
      ]

  hang_round-GoesOn :
      (interval : ℕ) (s : Server) → Sound n s → GoesOn (hang_round w cfg file h head interval s).0
  unfolding hang_round
  hang_round-GoesOn interval s sound = elim (Result-cases (obtain_url w cfg file s).0) [
    | inr (e, bad) ↦ rw (bad, hang_round) tt
    | inl (u, good) ↦
        rw (good, hang_round)
          (hang_proxy-GoesOn interval u _ (
            cache_url-Sound w cfg file u n (obtain_url w cfg file s).1
              (obtain_url-Sound w cfg file n s sound)))
  ]

later_wait :
    (gone : ℕ → Bool) (k waits : ℕ) → gone k ≡ true → gone waits ≡ false → waits ≤ k → waits < k
later_wait gone k waits left stays le = elim (le_cases waits k le) [
  | inl lt ↦ lt
  | inr same ↦ let left' = subst (λ i. gone i ≡ true) same left in cc
]

-- With a slot free, a loop whose client leaves during the k-th wait has an answer after k + 1 rounds at
-- most.
pub hang_loop-ends :
    (w : World) (cfg : Config) (file : FileRecord) (h : HttpRange) (head : Head) (gone : ℕ → Bool)
    (k fuel waits interval n : ℕ) (s : Server)
    → n < max_conns cfg
    → IsPoll interval
    → Sound n s
    → gone k ≡ true
    → waits ≤ k
    → k < waits + fuel
    → (r : Answer × Server) × (hang_loop w cfg file h head gone fuel waits interval s ≡ some r)
unfolding hang_loop
hang_loop-ends w cfg file h head gone k zero waits interval n s free fair sound left le enough =
    absurd (omega arith)
hang_loop-ends w cfg file h head gone k (suc fuel) waits interval n s free fair sound left le
      enough =
    let r = hang_round w cfg file h head interval s in
    let (ends, sound₁) = hang_round-RoundEnds w cfg file h head n interval s fair sound in
    elim (Round-cases r.0 (hang_round-GoesOn w cfg file h head n free interval s sound)) [
      | inl (a, ended) ↦ ((a, r.1), rw (ended, hang_loop) refl)
      | inr (next, polls) ↦ elim (Bool-cases (gone waits)) [
        | inl leaves ↦ ((silent head, r.1), rw (polls, leaves, hang_loop) refl)
        | inr stays ↦
            let (end, eq) =
              hang_loop-ends w cfg file h head gone k fuel (suc waits) next n (sleep next r.1) free
                (subst (IsFair head) polls ends)
                (record { slots = sound₁.slots; valid = sound₁.valid }) left
                (later_wait gone k waits left stays le) (omega arith) in
            (end, rw (polls, stays, hang_loop) eq)
      ]
    ]

-- With a slot free, the hanging mode ends: if the client leaves during the k-th wait at the latest, k + 1 rounds are
-- enough fuel for an answer.
pub handle_get_cdn_hang-ends :
    (w : World) (cfg : Config) (file : FileRecord) (req : Request) (k fuel n : ℕ) (s : Server)
    → n < max_conns cfg
    → Sound n s
    → req.gone k ≡ true
    → k < fuel
    → (r : Answer × Server) × (handle_get_cdn_hang w cfg file req fuel s ≡ some r)
unfolding handle_get_cdn_hang
handle_get_cdn_hang-ends w cfg file req k fuel n s free sound left enough =
    elim (Option-cases (requested_range req.range file.size)) [
      | inl bad ↦ ((error_reply 416 (codes "Invalid range"), s), rw (bad, handle_get_cdn_hang) refl)
      | inr (asked, good) ↦
          let (r, eq) =
            hang_loop-ends w cfg file asked.0 (head_of file asked) req.gone k fuel 0
              cdn_poll_interval n s free (omega arith, omega arith) sound left (omega arith)
              (omega arith) in
          (r, rw (good, handle_get_cdn_hang) eq)
    ]

-- What handle_get_cdn_hang can answer: an invalid range, or a clean end of the loop.
abbrev pub IsHangAnswer : Answer → Type 0
IsHangAnswer (error_reply status message) = status ≡ 416
IsHangAnswer (streamed head reply) = IsMedia reply
IsHangAnswer (silent head) = Unit
IsHangAnswer _ = ⊥

abbrev pub HangEnds : ℕ → Option (Answer × Server) → Type 0
HangEnds n none = Unit
HangEnds n (some (answer, s)) = IsHangAnswer answer × Sound n s

fair_answer : (head : Head) (a : Answer) → IsFair head (done a) → IsHangAnswer a
fair_answer head (streamed head' reply) (same, media) = media
fair_answer head (silent head') same = tt
fair_answer head (error_reply status message) fair = elim fair [ ]
fair_answer head (redirect url) fair = elim fair [ ]
fair_answer head (listing entries) fair = elim fair [ ]
fair_answer head capabilities fair = elim fair [ ]
fair_answer head (head_only head') fair = elim fair [ ]
fair_answer head panicked fair = elim fair [ ]

LoopEnds-HangEnds :
    (w : World) (cfg : Config) (file : FileRecord) (h : HttpRange) (head : Head) (n : ℕ)
    (o : Option (Answer × Server))
    → LoopEnds w cfg file h head n o
    → HangEnds n o
LoopEnds-HangEnds w cfg file h head n none ends = tt
LoopEnds-HangEnds w cfg file h head n (some (a, s)) (fair, sound) = (fair_answer head a fair, sound)

pub handle_get_cdn_hang-HangEnds :
    (w : World) (cfg : Config) (file : FileRecord) (req : Request) (fuel n : ℕ) (s : Server)
    → Sound n s
    → HangEnds n (handle_get_cdn_hang w cfg file req fuel s)
unfolding handle_get_cdn_hang
handle_get_cdn_hang-HangEnds w cfg file req fuel n s sound =
    elim (Option-cases (requested_range req.range file.size)) [
      | inl bad ↦ rw (bad, handle_get_cdn_hang) (refl, sound)
      | inr (asked, good) ↦
          rw (good, handle_get_cdn_hang)
            (LoopEnds-HangEnds w cfg file asked.0 (head_of file asked) n _ (
              hang_loop-LoopEnds w cfg file asked.0 (head_of file asked) n req.gone fuel 0
                cdn_poll_interval s (omega arith, omega arith) sound))
    ]
