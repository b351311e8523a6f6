-- ===== src/Client/Runtime.antt =====
-- `ClientRuntime.step` of client_core/runtime/loop.py: one cycle drains at most `retry_per_cycle`
-- payloads of the queue, then sends the cycle's own.
pub mod Drained
pub mod Cycle
use inha_rada.Common.{
  ℕ, zero, suc, ◌+◌, Bool, true, false, Option, none, some, List, [], ◌∷◌, ◌++◌, if◌then◌else◌,
}
use inha_rada.Client.Queue.{Codec, LocalQueue, put, pop}
use inha_rada.Client.Sender.{Reply, connection_error, MetricsSender, Sent, send, replay}

abbrev pub retry_per_cycle : ℕ
retry_per_cycle = 5

module _ {ℓ} {B : Type ℓ} where
  -- The replies of a server in order; after the last one there is no connection.
  unfoldable pub next_reply : List (Reply B) → Reply B
  next_reply [] = connection_error
  next_reply (r ∷ rs) = r

  unfoldable pub later_replies : List (Reply B) → List (Reply B)
  later_replies [] = []
  later_replies (r ∷ rs) = rs

-- The state of the drain: the queue that the runtime and the sender share, the sender, the replies to
-- come, the payloads that were replayed, and `drained_count`.
pub record Drain {ℓ} (P L B : Type ℓ) : Type ℓ where
  pub queue : LocalQueue P L
  pub sender : MetricsSender
  pub replies : List (Reply B)
  pub replayed : List P
  pub drained_count : ℕ

module _ {ℓ} {P L B : Type ℓ} (codec : Codec P L) where
  after_replay : P → MetricsSender × Bool → Drain P L B → Drain P L B × Bool
  after_replay item (s, true) d = (
    record d {
      sender = s;
      replayed = d.replayed ++ item ∷ [];
      drained_count = d.drained_count + 1;
    },
    true,
  )
  after_replay item (s, false) d = (record d { sender = s; queue = put codec d.queue item }, false)

  try_item : Option P → Drain P L B → Drain P L B × Bool
  unfolding after_replay next_reply later_replies
  try_item none d = (d, false)
  try_item (some item) d =
      after_replay item (replay d.sender (next_reply d.replies))
        (record d { replies = later_replies d.replies })

  -- One round of the `for`; the flag says whether the loop goes on.
  unfoldable pub drain_round : Drain P L B → Drain P L B × Bool
  unfolding try_item
  drain_round d = let (q, item) = pop codec d.queue in try_item item (record d { queue = q })

  unfoldable pub drain_loop : ℕ → Drain P L B → Drain P L B
  unfolding drain_round
  drain_loop zero d = d
  drain_loop (suc n) d =
      let next = drain_round d in let rest = drain_loop n next.0 in if next.1 then rest else next.0

  -- `step`: the drain comes before the send, which puts its payload in the same queue on failure.
  unfoldable pub step : Drain P L B → P → Drain P L B × Sent B
  unfolding drain_loop next_reply later_replies
  step d payload =
      let d' = drain_loop retry_per_cycle d in
      let (s, q, result) = send codec d'.sender d'.queue payload (next_reply d'.replies) in
      (record d' { sender = s; queue = q; replies = later_replies d'.replies }, result)
