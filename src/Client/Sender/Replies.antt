-- ===== src/Client/Sender/Replies.antt =====
-- `send` and `replay` of client_core/sender/metrics_sender.py on each reply.
use inha_rada.Common.{ℕ, ◌≡◌, refl, ◌≢◌, ◌↔◌, ◌⊎◌, true, Option, arith, if◌then◌else◌}
use inha_rada.Client.Queue.{Codec, LocalQueue, put}
use inha_rada.Client.Sender.{
  Reply, status, connection_error, other_error, MetricsSender, is_accepted, is_non_retryable,
  nothing, parsed, keep_for_retry, send, replay,
}

module _ {ℓ} {P L B : Type ℓ} (codec : Codec P L) where
  -- `send` and `replay` treat a reply alike: they count the same drops, and `send` puts the payload
  -- in the queue exactly where `replay` tells its caller that it is not done. Without a queue the
  -- payload is gone.
  pub send-replay :
      (s : MetricsSender) (q : LocalQueue P L) (p : P) (r : Reply B)
      → ((send codec s q p r).0 ≡ (replay s r).0)
        × ((send codec s q p r).1
            ≡ (if (replay s r).1 then q else if s.has_queue then put codec q p else q))
  unfolding send replay keep_for_retry
  send-replay s q p (status code b) = ground arith
  send-replay s q p connection_error = (refl, refl)
  send-replay s q p other_error = (refl, refl)

  -- `send` returns a result exactly for a 200 or a 202, and then leaves the sender and the queue
  -- alone.
  pub send_result :
      (s : MetricsSender) (q : LocalQueue P L) (p : P) (code : ℕ) (b : Option B)
      → (((send codec s q p (status code b)).2 ≢ nothing) ↔ ((code ≡ 200) ⊎ (code ≡ 202)))
        × ((send codec s q p (status code b)).2 ≢ nothing
            → ((send codec s q p (status code b)).0 ≡ s)
              × ((send codec s q p (status code b)).1 ≡ q))
  unfolding send is_accepted parsed
  send_result s q p code b = ground arith

-- A replayed payload is done with for the statuses 200 and 202, and for 401, 403 and 422, which no
-- server accepted.
pub replay_done {ℓ} :
    {B : Type ℓ} (s : MetricsSender) (code : ℕ) (b : Option B)
    → ((replay s (status code b)).1 ≡ true)
      ↔ ((code ≡ 200) ⊎ (code ≡ 202) ⊎ (code ≡ 401) ⊎ (code ≡ 403) ⊎ (code ≡ 422))
unfolding replay is_accepted is_non_retryable
replay_done s code b = ground arith
