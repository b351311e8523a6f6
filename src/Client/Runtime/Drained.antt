-- ===== src/Client/Runtime/Drained.antt =====
-- What the drain of client_core/runtime/loop.py promises.
use inha_rada.Common.{
  ℕ, suc, ◌+◌, ◌≤◌, ◌<◌, ◌≡◌, refl, sym, ap, Bool, true, false, ◌||◌, List, [], ◌∷◌, ◌++◌,
  append-nil, arith, length, take, drop, all,
}
use inha_rada.Client.Queue.{LocalQueue}
use inha_rada.Client.Queue.Contents.{Trims}
use inha_rada.Client.Sender.{
  Reply, status, connection_error, other_error, MetricsSender, is_accepted, is_non_retryable,
  replay,
}
use inha_rada.Client.Runtime.{next_reply, later_replies, Drain}

-- A reply after which a payload is not sent again.
unfoldable pub is_final {ℓ} : {B : Type ℓ} → Reply B → Bool
unfolding is_accepted is_non_retryable
is_final (status code b) = is_accepted code || is_non_retryable code
is_final connection_error = false
is_final other_error = false

-- The queue and the replies to come, after a drain of at most `n` rounds that replayed the first
-- `taken` of `items`. It ended at its limit, or with the queue empty, or the next payload got a
-- reply that is not final, and stands behind those that it used to precede.
pub data Ended {ℓ} {P L B : Type ℓ} (n : ℕ) (items : List P) (replies : List (Reply B))
    (dropped size taken : ℕ) (q : LocalQueue P L) (later : List (Reply B)) : Type ℓ where
  at_limit :
      taken ≡ n
      → q.buf ≡ drop taken items
      → q.dropped_count ≡ dropped
      → later ≡ drop taken replies
      → Ended n items replies dropped size taken q later
  emptied :
      drop taken items ≡ []
      → q.buf ≡ []
      → q.dropped_count ≡ dropped
      → later ≡ drop taken replies
      → Ended n items replies dropped size taken q later
  put_back :
      (item : P) (rest : List P)
      → taken < n
      → drop taken items ≡ item ∷ rest
      → is_final (next_reply (drop taken replies)) ≡ false
      → later ≡ drop (suc taken) replies
      → Trims (rest ++ item ∷ []) dropped size q
      → Ended n items replies dropped size taken q later

pub Ended-cons {ℓ} :
    {P L B : Type ℓ} {n : ℕ} {items : List P} {replies : List (Reply B)} {dropped size taken : ℕ}
    {q : LocalQueue P L} {later : List (Reply B)} (p : P) (r : Reply B)
    → Ended n items replies dropped size taken q later
    → Ended (suc n) (p ∷ items) (r ∷ replies) dropped size (suc taken) q later
Ended-cons p r (at_limit l e c f) = at_limit (ap suc l) e c f
Ended-cons p r (emptied none_left e c f) = emptied none_left e c f
Ended-cons p r (put_back item rest lt e bad f t) = put_back item rest (omega arith) e bad f t

-- A drain of at most `n` rounds from `d` to `r`: it replays as many payloads as there are final
-- replies in front, and queued payloads for them, up to `n`.
pub record IsDrained {ℓ} {P L B : Type ℓ} (n : ℕ) (d r : Drain P L B) : Type ℓ where
  pub taken : ℕ
  pub taken_le : taken ≤ n
  pub taken_queued : taken ≤ length d.queue.buf
  pub taken_replied : taken ≤ length d.replies
  pub finals : all is_final (take taken d.replies) ≡ true
  pub replayed : r.replayed ≡ d.replayed ++ take taken d.queue.buf
  pub counted : r.drained_count ≡ d.drained_count + taken
  pub ended :
      Ended n d.queue.buf d.replies d.queue.dropped_count d.queue.max_size taken r.queue r.replies

pub replay-is_final {ℓ} :
    {B : Type ℓ} (s : MetricsSender) (r : Reply B) → (replay s r).1 ≡ is_final r
unfolding replay is_final is_accepted is_non_retryable
replay-is_final s (status code b) = ground arith
replay-is_final s connection_error = refl
replay-is_final s other_error = refl

module _ {ℓ} {B : Type ℓ} where
  pub later_replies-drop : (rs : List (Reply B)) → later_replies rs ≡ drop 1 rs
  unfolding later_replies
  later_replies-drop [] = refl
  later_replies-drop (r ∷ rs) = refl

  pub final_head :
      (rs : List (Reply B))
      → is_final (next_reply rs) ≡ true
      → (r : Reply B) × (more : List (Reply B)) × (rs ≡ r ∷ more) × (is_final r ≡ true)
  unfolding next_reply is_final
  final_head [] h = cc
  final_head (r ∷ rs) h = (r, rs, refl, h)

module _ {ℓ} {P L B : Type ℓ} where
  pub IsDrained-limit : (d : Drain P L B) → IsDrained 0 d d
  IsDrained-limit d = record {
    taken = 0;
    taken_le = omega arith;
    taken_queued = omega arith;
    taken_replied = omega arith;
    finals = refl;
    replayed = sym (append-nil d.replayed);
    counted = omega arith;
    ended = at_limit refl refl refl refl;
  }

  pub IsDrained-empty : (n : ℕ) (d : Drain P L B) → d.queue.buf ≡ [] → IsDrained n d d
  IsDrained-empty n d e = record {
    taken = 0;
    taken_le = omega arith;
    taken_queued = omega arith;
    taken_replied = omega arith;
    finals = refl;
    replayed = sym (append-nil d.replayed);
    counted = omega arith;
    ended = emptied e e refl refl;
  }
