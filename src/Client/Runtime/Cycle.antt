-- ===== src/Client/Runtime/Cycle.antt =====
-- The drain of `step` in client_core/runtime/loop.py.
use inha_rada.Common.{
  ℕ, zero, suc, ◌+◌, ◌≤◌, ◌<◌, ◌≡◌, refl, sym, ap, ◌∙◌, subst, inl, inr, Bool, true, false, Option,
  some, List, [], ◌∷◌, ◌++◌, append-nil, append_assoc, arith, if◌then◌else◌, Bool-cases, length,
  take, drop, all,
}
use inha_rada.Client.Queue.{Codec, LocalQueue, put, pop}
use inha_rada.Client.Queue.Contents.{Trims, put-Trims, pop_empty, pop_cons}
use inha_rada.Client.Queue.Keeps.{Keeps}
use inha_rada.Client.Sender.{Reply, MetricsSender, replay}
use inha_rada.Client.Runtime.Drained.{
  is_final, put_back, Ended-cons, IsDrained, replay-is_final, later_replies-drop, final_head,
  IsDrained-limit, IsDrained-empty,
}
use inha_rada.Client.Runtime.{
  next_reply, later_replies, Drain, after_replay, try_item, drain_round, drain_loop,
}

module _ {ℓ} {P L B : Type ℓ} (codec : Codec P L) where
  round_empty : (d : Drain P L B) → d.queue.buf ≡ [] → drain_round codec d ≡ (d, false)
  unfolding drain_round try_item
  round_empty d e =
      ap (λ (r : LocalQueue P L × Option P). try_item codec r.1 (record d { queue = r.0 }))
        (pop_empty codec d.queue e)

  abbrev replayed_one : Drain P L B → LocalQueue P L → P → Drain P L B
  replayed_one d q p = record d {
    queue = q;
    sender = (replay d.sender (next_reply d.replies)).0;
    replies = later_replies d.replies;
    replayed = d.replayed ++ p ∷ [];
    drained_count = d.drained_count + 1;
  }

  abbrev failed_one : Drain P L B → LocalQueue P L → P → Drain P L B
  failed_one d q p = record d {
    queue = put codec q p;
    sender = (replay d.sender (next_reply d.replies)).0;
    replies = later_replies d.replies;
  }

  after_replay-eq :
      (p : P) (r : MetricsSender × Bool) (d : Drain P L B)
      → after_replay codec p r d ≡ (
          if r.1
          then (
            record d {
              sender = r.0;
              replayed = d.replayed ++ p ∷ [];
              drained_count = d.drained_count + 1;
            },
            true,
          )
          else (record d { sender = r.0; queue = put codec d.queue p }, false))
  unfolding after_replay
  after_replay-eq p (s, true) d = refl
  after_replay-eq p (s, false) d = refl

  round_cons :
      (d : Drain P L B) (q : LocalQueue P L) (p : P)
      → pop codec d.queue ≡ (q, some p)
      → drain_round codec d ≡ (
          if (replay d.sender (next_reply d.replies)).1
          then (replayed_one d q p, true)
          else (failed_one d q p, false))
  unfolding drain_round try_item
  round_cons d q p e =
      ap (λ (r : LocalQueue P L × Option P). try_item codec r.1 (record d { queue = r.0 })) e
      ∙ after_replay-eq p (replay d.sender (next_reply d.replies))
          (record d { queue = q; replies = later_replies d.replies })

  loop_stops :
      (n : ℕ) (d r : Drain P L B)
      → drain_round codec d ≡ (r, false)
      → drain_loop codec (suc n) d ≡ r
  unfolding drain_loop
  loop_stops n d r e =
      ap (λ (next : Drain P L B × Bool). if next.1 then drain_loop codec n next.0 else next.0) e

  loop_goes_on :
      (n : ℕ) (d r : Drain P L B)
      → drain_round codec d ≡ (r, true)
      → drain_loop codec (suc n) d ≡ drain_loop codec n r
  unfolding drain_loop
  loop_goes_on n d r e =
      ap (λ (next : Drain P L B × Bool). if next.1 then drain_loop codec n next.0 else next.0) e

  IsDrained-failed :
      (n : ℕ) (d : Drain P L B) (q : LocalQueue P L) (p : P) (rest : List P)
      → 0 < d.queue.max_size
      → d.queue.buf ≡ p ∷ rest
      → is_final (next_reply d.replies) ≡ false
      → Keeps (record d.queue { buf = rest }) q
      → IsDrained (suc n) d (failed_one d q p)
  IsDrained-failed n d q p rest h e bad k =
      let t : Trims (q.buf ++ p ∷ []) q.dropped_count q.max_size (put codec q p) =
        put-Trims codec q p (omega (arith, k.sized)) in
      record {
        taken = 0;
        taken_le = omega arith;
        taken_queued = omega arith;
        taken_replied = omega arith;
        finals = refl;
        replayed = sym (append-nil d.replayed);
        counted = omega arith;
        ended = put_back p rest (omega arith) e bad (later_replies-drop d.replies) (record {
          count = t.count;
          count_le = subst (λ b. t.count ≤ length (b ++ p ∷ [])) k.buf t.count_le;
          contents = t.contents ∙ ap (λ b. drop t.count (b ++ p ∷ [])) k.buf;
          counted = t.counted ∙ ap (λ c. c + t.count) k.dropped;
          sized = t.sized ∙ k.sized;
        });
      }

  IsDrained-cons :
      (n : ℕ) (d r : Drain P L B) (q : LocalQueue P L) (p : P) (rest : List P)
      → (reply : Reply B) (more : List (Reply B)) → d.queue.buf ≡ p ∷ rest
      → d.replies ≡ reply ∷ more
      → is_final reply ≡ true
      → Keeps (record d.queue { buf = rest }) q
      → IsDrained n (replayed_one d q p) r
      → IsDrained (suc n) d r
  unfolding later_replies
  IsDrained-cons n d r q p rest reply more e f final k i =
      let g : later_replies d.replies ≡ more = rw f in
      record {
        taken = suc i.taken;
        taken_le = omega (arith, i.taken_le);
        taken_queued = omega (arith, i.taken_queued, ap length k.buf, ap length e);
        taken_replied = omega (arith, i.taken_replied, ap length g, ap length f);
        finals =
            ap (λ rs. all is_final (take (suc i.taken) rs)) f
            ∙ rw final (sym (ap (λ rs. all is_final (take i.taken rs)) g) ∙ i.finals);
        replayed =
            i.replayed
            ∙ ap (λ b. (d.replayed ++ p ∷ []) ++ take i.taken b) k.buf
            ∙ append_assoc d.replayed (p ∷ []) (take i.taken rest)
            ∙ ap (λ b. d.replayed ++ take (suc i.taken) b) (sym e);
        counted = omega (arith, i.counted);
        ended = rw (e, f) (Ended-cons p reply (rw (← k.buf, ← k.dropped, ← k.sized, ← g) i.ended));
      }

  IsDrained-step :
      (n : ℕ) (d : Drain P L B)
      → 0 < d.queue.max_size
      → ((d' : Drain P L B) → 0 < d'.queue.max_size → IsDrained n d' (drain_loop codec n d'))
      → (items : List P) → d.queue.buf ≡ items
      → IsDrained (suc n) d (drain_loop codec (suc n) d)
  IsDrained-step n d h rec [] e =
      subst (IsDrained (suc n) d) (sym (loop_stops n d d (round_empty d e)))
        (IsDrained-empty (suc n) d e)
  IsDrained-step n d h rec (p ∷ rest) e =
      let (q, popped, k) = pop_cons codec d.queue p rest e in
      let round = round_cons d q p popped in
      let verdict = replay-is_final d.sender (next_reply d.replies) in
      elim (Bool-cases (is_final (next_reply d.replies))) [
        | inl final ↦
            let (reply, more, f, fine) = final_head d.replies final in
            let next = loop_goes_on n d (replayed_one d q p) (rw (verdict, final) at round) in
            subst (IsDrained (suc n) d) (sym next) (
              IsDrained-cons n d (drain_loop codec n (replayed_one d q p)) q p rest reply more e f
                fine k (rec (replayed_one d q p) (omega (arith, k.sized))))
        | inr bad ↦
            subst (IsDrained (suc n) d)
              (sym (loop_stops n d (failed_one d q p) (rw (verdict, bad) at round)))
              (IsDrained-failed n d q p rest h e bad k)
      ]

  -- On a queue of positive size, a drain of at most `n` rounds replays payloads from the front,
  -- oldest first, one for each final reply (200, 202, 401, 403, 422), and counts them. It ends after
  -- `n`, or with the queue empty, or at the first reply that is not final: then its payload is put
  -- behind the later ones, and only this put may drop others, oldest first, each of which is
  -- counted. The later payloads stay in order, and no reply beyond that one is asked for.
  pub drain_loop-IsDrained :
      (n : ℕ) (d : Drain P L B) → 0 < d.queue.max_size → IsDrained n d (drain_loop codec n d)
  drain_loop-IsDrained zero d h = unfold drain_loop in IsDrained-limit d
  drain_loop-IsDrained (suc n) d h = IsDrained-step n d h (drain_loop-IsDrained n) d.queue.buf refl
