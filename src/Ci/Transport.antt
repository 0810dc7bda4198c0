-- ===== src/Ci/Transport.antt =====
-- scripts/verification_primitives.py: `do_get_json` of `cmd_ci_status`, the requests with their
-- retries. A time is a number of milliseconds since the first one.
use hh_ai_v.Base.{
  ℕ, zero, suc, ◌+◌, ◌*◌, ◌-◌, ◌==◌, leb, Bool, true, false, ◌&&◌, ◌||◌, Text, Option, none, some,
  List, [], ◌∷◌, if◌then◌else◌, all, in_range, codes, text_eq, is_some,
}

-- How `urlopen` and the reading of its response come back: the body; an HTTPError with its code and
-- the headers Retry-After and X-RateLimit-Remaining; a URLError, TimeoutError or OSError; another
-- exception.
pub data Reply : Type 0 where
  response : List ℕ → Reply
  http_error : ℕ → Option Text → Option Text → Reply
  unreachable : Reply
  other_exception : Reply

-- A request: the time before it, its reply and the time after it.
pub record Request : Type 0 where
  pub before : ℕ
  pub reply : Reply
  pub after : ℕ

-- 28.0 seconds
abbrev pub deadline : ℕ
deadline = 28000

-- `int(text)` of digits
unfoldable pub int_of_digits : ℕ → Text → ℕ
int_of_digits acc [] = acc
int_of_digits acc (c ∷ cs) = int_of_digits (acc * 10 + (c - b'0')) cs

-- `text.isascii() and text.isdigit()`
unfoldable pub is_digits : Text → Bool
is_digits [] = false
is_digits (c ∷ cs) = all (in_range b'0' b'9') (c ∷ cs)

-- a Retry-After that may be honoured: none, or a number of seconds up to 2
unfoldable pub is_bounded : Option Text → Bool
is_bounded none = true
is_bounded (some after) = is_digits after && leb (int_of_digits 0 after) 2

unfoldable pub is_transient : ℕ → Bool
is_transient code = code == 500 || code == 502 || code == 503 || code == 504

unfoldable pub is_limited : ℕ → Option Text → Bool
is_limited code none = code == 429
is_limited code (some left) = code == 429 || (code == 403 && text_eq left (codes "0"))

-- `float(retry_after) if retry_after is not None else 0.1 * (request_index + 1)`
unfoldable pub delay_of : ℕ → Option Text → ℕ
delay_of index none = 100 * (index + 1)
delay_of index (some after) = 1000 * int_of_digits 0 after

-- the variable `retry_delay` after an exception; `none` where there is no retry
unfoldable pub retry_delay : ℕ → Reply → Option ℕ
retry_delay index (response body) = none
retry_delay index (http_error code after left) =
    if is_bounded after && (is_transient code || (is_limited code left && is_some after))
    then some (delay_of index after)
    else none
retry_delay index unreachable = some (100 * (index + 1))
retry_delay index other_exception = none

-- the next request, unless this one was the last or the delay meets the deadline
unfoldable pub retried : ℕ → ℕ → Option ℕ → Option (List ℕ) → Option (List ℕ)
retried after left none rest = none
retried after zero (some delay) rest = none
retried after (suc left) (some delay) rest = if leb deadline (after + delay) then none else rest

-- what follows a reply, with the result of the requests that may come after it
unfoldable pub after_reply : ℕ → ℕ → ℕ → Reply → Option (List ℕ) → Option (List ℕ)
after_reply index left after (response body) rest = if leb deadline after then none else some body
after_reply index left after reply rest = retried after left (retry_delay index reply) rest

-- the loop from request `index` on, with the number of requests that are left
unfoldable pub get_body : (ℕ → Request) → ℕ → ℕ → Option (List ℕ)
get_body serve index zero = none
get_body serve index (suc left) =
    let request = serve index in
    let rest = get_body serve (index + 1) left in
    let result = after_reply index left request.after request.reply rest in
    if leb deadline request.before then none else result
