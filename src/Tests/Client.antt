-- ===== src/Tests/Client.antt =====
-- The theorems of the client at concrete inputs: a queue of two payloads on a working disk.
use inha_rada.Common.{
  ℕ, zero, suc, ◌≤◌, ◌<◌, ◌≡◌, refl, Bool, true, false, Option, none, some, List, [], ◌∷◌, foldl,
  arith, if◌then◌else◌, length,
}
use inha_rada.Deque.{last_n, push}
use inha_rada.Client.Window.{SlidingWindow, call_append, call_extend, init-step_window}
use inha_rada.Client.Window as Window
use inha_rada.Client.Queue.{Codec, IsFaithful, done, failed, LocalQueue, file_bytes, put}
use inha_rada.Client.Queue as Queue
use inha_rada.Client.Queue.Contents.{Trims, put-Trims}
use inha_rada.Client.Queue.Synced.{call_put, call_pop, IsSynced, IsWithin, put-IsSynced}
use inha_rada.Client.Queue.Synced as Synced
use inha_rada.Client.Queue.Started.{run-restart}
use inha_rada.Client.Queue.Overfull.{full_rounds, put_full_disk}
use inha_rada.Client.Sender.{Reply, status, springboot, MetricsSender, send, replay}
use inha_rada.Client.Sender.Replies.{send-replay}
use inha_rada.Client.Runtime.{Drain, drain_loop}
use inha_rada.Client.Runtime.Drained.{IsDrained}
use inha_rada.Client.Runtime.Cycle.{drain_loop-IsDrained}

-- A line of a payload is its successor, and line 0 is blank.
abbrev parse : ℕ → Option ℕ
parse zero = none
parse (suc p) = some p

abbrev blank : ℕ → Bool
blank zero = true
blank (suc p) = false

abbrev codec : Codec ℕ ℕ
codec = record { dumps = λ p. suc p; loads = parse; is_blank = blank; bytes = λ l. 9 }

faithful : IsFaithful codec
faithful = record { loads-dumps = λ p. refl; dumps_solid = λ p. refl }

abbrev two_items : LocalQueue ℕ ℕ
two_items = record {
  max_size = 2;
  max_bytes = some 100;
  fsync = true;
  has_path = true;
  buf = 4 ∷ 5 ∷ [];
  dropped_count = 0;
  corrupt_skipped_count = 0;
  disk_write_failed_count = 0;
  file = some (5 ∷ 6 ∷ []);
  outcomes = [];
}

two_items-IsSynced : IsSynced codec two_items
two_items-IsSynced = record { path = refl; works = refl; synced = refl; fits = omega arith }

put-IsSynced_example :
    IsSynced codec (put codec two_items 7) × IsWithin codec (some 100) (put codec two_items 7)
put-IsSynced_example = put-IsSynced codec two_items 7 two_items-IsSynced

put-Trims_example : Trims (4 ∷ 5 ∷ 7 ∷ []) 0 2 (put codec two_items 7)
put-Trims_example = put-Trims codec two_items 7 (omega arith)

-- A file with a blank line.
two_items-made : Queue.init codec 2 true (some 100) true (some (0 ∷ 5 ∷ 6 ∷ [])) [] ≡ some two_items
unfolding Queue.init Queue.compact_disk push
two_items-made = refl

run-restart_example :
    let q = foldl (Synced.step codec) two_items (call_put 7 ∷ call_pop ∷ []) in
    (0 < q.max_size)
    × ((r : LocalQueue ℕ ℕ) × (Queue.init codec q.max_size true none false q.file [] ≡ some r)
        × (r.buf ≡ q.buf)
        × (r.dropped_count ≡ 0)
        × (r.corrupt_skipped_count ≡ 0))
run-restart_example =
    run-restart codec faithful 2 (some 100) true (some (0 ∷ 5 ∷ 6 ∷ [])) two_items
      (call_put 7 ∷ call_pop ∷ []) none false two_items-made tt

-- The disk fails at the append, and at every rewrite after it.
abbrev full_disk : LocalQueue ℕ ℕ
full_disk = record {
  max_size = 3;
  max_bytes = some 5;
  fsync = false;
  has_path = true;
  buf = 4 ∷ [];
  dropped_count = 0;
  corrupt_skipped_count = 0;
  disk_write_failed_count = 0;
  file = some (5 ∷ []);
  outcomes = failed (5 ∷ []) ∷ done ∷ full_rounds 2;
}

line_over : 5 < file_bytes codec (5 ∷ [])
unfolding file_bytes
line_over = omega arith

put_full_disk_example :
    ((put codec full_disk 7).buf ≡ []) × ((put codec full_disk 7).dropped_count ≡ 2)
put_full_disk_example =
    put_full_disk codec 5 (5 ∷ []) line_over full_disk 7 refl refl (omega arith) refl

abbrev sender : MetricsSender
sender = record { mode = springboot; has_api_key = true; has_queue = true; dropped_4xx_count = 0 }

abbrev reply_body : Option ℕ
reply_body = some 1

abbrev accepted : ℕ
accepted = 202

abbrev forbidden : ℕ
forbidden = 403

abbrev reply_500 : Reply ℕ
reply_500 = status 500 reply_body

abbrev reply_202 : Reply ℕ
reply_202 = status accepted reply_body

abbrev reply_403 : Reply ℕ
reply_403 = status forbidden reply_body

send-replay_example :
    ((send codec sender two_items 7 reply_500).0 ≡ (replay sender reply_500).0)
    × ((send codec sender two_items 7 reply_500).1
        ≡ (if (replay sender reply_500).1 then two_items else put codec two_items 7))
send-replay_example = send-replay codec sender two_items 7 reply_500

-- The first payload is taken, and the second gets a 500.
abbrev waiting : Drain ℕ ℕ ℕ
waiting = record {
  queue = two_items;
  sender = sender;
  replies = status 200 none ∷ status 500 none ∷ [];
  replayed = [];
  drained_count = 0;
}

drain_loop-IsDrained_example : IsDrained 5 waiting (drain_loop codec 5 waiting)
drain_loop-IsDrained_example = drain_loop-IsDrained codec 5 waiting (omega arith)

abbrev calls : List (Window.Call ℕ)
calls = call_append 1 ∷ call_extend (2 ∷ 3 ∷ []) ∷ call_append 4 ∷ []

abbrev new_window : SlidingWindow ℕ
new_window = record { max_size = 2; buf = [] }

init_two : Window.init 2 ≡ some new_window
unfolding Window.init
init_two = refl

init-step_window_example :
    ((foldl Window.step new_window calls).buf ≡ last_n 2 (foldl Window.note [] calls))
    × (length (foldl Window.step new_window calls).buf ≤ 2)
init-step_window_example = init-step_window 2 calls init_two
