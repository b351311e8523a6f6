-- ===== src/Client/Sender.antt =====
-- `MetricsSender` of client_core/sender/metrics_sender.py. `requests.post` is the caller's: each
-- call is given the reply that it gets.
pub mod Replies
use inha_rada.Common.{
  ℕ, ◌+◌, Bool, true, false, ◌||◌, Option, none, some, List, [], ◌∷◌, ◌==◌, if◌then◌else◌,
}
use inha_rada.Client.Queue.{Codec, LocalQueue, put}

-- What `requests.post` and `resp.json()` do: a status with the parsed body (`none` where the parse
-- fails), a `ConnectionError`, or another exception.
pub data Reply {ℓ} (B : Type ℓ) : Type ℓ where
  status : ℕ → Option B → Reply B
  connection_error : Reply B
  other_error : Reply B

pub data Mode : Type 0 where
  mlserver springboot : Mode

pub data Header : Type 0 where
  content_type api_key_header : Header

-- The queue itself is the caller's: the runtime and the sender share one object.
pub record MetricsSender : Type 0 where
  pub mode : Mode
  pub has_api_key : Bool
  pub has_queue : Bool
  pub dropped_4xx_count : ℕ

-- `resp.status_code in (200, 202)`
unfoldable pub is_accepted : ℕ → Bool
is_accepted code = code == 200 || code == 202

-- `NON_RETRYABLE_STATUS`
unfoldable pub is_non_retryable : ℕ → Bool
is_non_retryable code = code == 401 || code == 403 || code == 422

-- `_build_headers`
unfoldable pub build_headers : Mode → Bool → List Header
build_headers springboot has_key =
    if has_key then content_type ∷ api_key_header ∷ [] else content_type ∷ []
build_headers mlserver has_key = []

-- What `send` returns: the body of the reply, `{}` where it has none, or `None`.
pub data Sent {ℓ} (B : Type ℓ) : Type ℓ where
  body : B → Sent B
  empty_body : Sent B
  nothing : Sent B

parsed {ℓ} : {B : Type ℓ} → Option B → Sent B
parsed (some b) = body b
parsed none = empty_body

-- The counter of both methods on a status that is not retried.
unfoldable pub drop_payload : MetricsSender → MetricsSender
drop_payload s = record s { dropped_4xx_count = s.dropped_4xx_count + 1 }

-- `if self.queue is not None: self.queue.put(payload)`
unfoldable pub keep_for_retry {ℓ} :
    {P L : Type ℓ} → Codec P L → MetricsSender → LocalQueue P L → P → LocalQueue P L
keep_for_retry codec s q p = if s.has_queue then put codec q p else q

module _ {ℓ} {P L B : Type ℓ} (codec : Codec P L) where
  -- `send`, of the payload after `sanitize_for_json`: the sender, the shared queue, the result.
  unfoldable pub send :
      MetricsSender → LocalQueue P L → P → Reply B → MetricsSender × LocalQueue P L × Sent B
  unfolding is_accepted is_non_retryable keep_for_retry drop_payload parsed
  send s q p (status code b) =
      if is_accepted code
      then (s, q, parsed b)
      else if is_non_retryable code
      then (drop_payload s, q, nothing)
      else (s, keep_for_retry codec s q p, nothing)
  send s q p connection_error = (s, keep_for_retry codec s q p, nothing)
  send s q p other_error = (s, keep_for_retry codec s q p, nothing)

-- `replay` puts nothing in the queue; its result says whether the caller is done with the payload.
unfoldable pub replay {ℓ} : {B : Type ℓ} → MetricsSender → Reply B → MetricsSender × Bool
unfolding is_accepted is_non_retryable drop_payload
replay s (status code b) =
    if is_accepted code
    then (s, true)
    else if is_non_retryable code
    then (drop_payload s, true)
    else (s, false)
replay s connection_error = (s, false)
replay s other_error = (s, false)
