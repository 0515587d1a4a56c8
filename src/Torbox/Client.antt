-- ===== src/Torbox/Client.antt =====
-- internal/torbox/client.go: one HTTP attempt and its errors. What the network answers is a parameter.
use warpbox.Base.{
  ℕ, Bool, true, false, ◌||◌, Option, none, some, [], ◌∷◌, ◌++◌, ◌==◌, if◌then◌else◌,
}
use warpbox.Base.Int.{pos}
use warpbox.Base.Text.{Text, codes, contains, format_int}
use warpbox.Base.Result.{Result, ok, err}

-- A response body as encoding/json reads it: an error, or the envelope's error field and its data.
pub data Body (A : Type 0) : Type 0 where
  undecodable : Text → Body A
  envelope : Option Text → A → Body A

-- What http.Client.Do and io.ReadAll give.
pub data Reply (A : Type 0) : Type 0 where
  transport_error : Text → Reply A
  read_error : Text → Reply A
  response : ℕ → Body A → Reply A

-- The outcome of `do`: its result, the call of OnOutcome (status and ok), the call of HTTP429Callback.
pub record Attempt (A : Type 0) : Type 0 where
  pub result : Result (Body A)
  pub notified : Option (ℕ × Bool)
  pub rate_limited : Bool

-- The API's error code of a body that is the standard envelope.
abbrev api_error : {A : Type 0} → Body A → Text
api_error (undecodable e) = []
api_error (envelope none d) = []
api_error (envelope (some code) d) = code

abbrev status_error : {A : Type 0} → ℕ → Body A → Text
status_error status body = elim (api_error body) [
  | [] ↦ codes "torbox: unexpected status " ++ format_int (pos status)
  | c ∷ cs ↦
      codes "torbox: unexpected status "
      ++ (format_int (pos status) ++ (codes " (" ++ ((c ∷ cs) ++ codes ")")))
]

module _ {A : Type 0} where
  unfoldable pub do_request : Text → Reply A → Attempt A
  unfolding format_int
  do_request request (transport_error e) = record {
    result = err (codes "torbox: request " ++ (request ++ (codes " failed: " ++ e)));
    notified = some (0, false);
    rate_limited = false;
  }
  do_request request (read_error e) = record {
    result = err (codes "torbox: reading response: " ++ e);
    notified = none;
    rate_limited = false;
  }
  do_request request (response status body) =
      if status == 200
      then record { result = ok body; notified = some (200, true); rate_limited = false }
      else record {
        result = err (status_error status body);
        notified = some (status, false);
        rate_limited = status == 429;
      }

  -- The decoding that each endpoint makes of the body of a 200 response.
  unfoldable pub decode : Text → Text → Body A → Result A
  decode decoding api (undecodable e) = err (decoding ++ e)
  decode decoding api (envelope none d) = ok d
  decode decoding api (envelope (some []) d) = ok d
  decode decoding api (envelope (some (c ∷ cs)) d) = err (api ++ (c ∷ cs))

unfoldable pub is_retryable : Text → Bool
is_retryable s =
    contains s (codes "unexpected status 429")
    || contains s (codes "unexpected status 5")
    || contains s (codes "context deadline exceeded")
    || contains s (codes "Client.Timeout")
    || contains s (codes "invalid character '<'")
    || contains s (codes "connection refused")
    || contains s (codes "no such host")
    || contains s (codes "i/o timeout")
    || contains s (codes "EOF")
