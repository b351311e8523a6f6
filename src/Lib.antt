-- ===== src/Lib.antt =====
-- Verification of the Python part of inha_RADA: a client that samples a PC and sends the samples,
-- and a server that scores them for cryptojacking and other misuse.
--
-- How the parts interact. The client's cycle (client_core/runtime/loop.py) drains a durable queue
-- and sends the newest sample; the sender (client_core/sender/metrics_sender.py) puts a payload
-- that the server did not take into the same queue (client_core/sender/local_queue.py). On the
-- server, `analyze` of ml_server/api/analyze_router.py stores the sample in the aggregates and the
-- training history, trains a model when enough samples are new, extracts signals with the policy
-- in force, computes indicators and a score averaged over the last samples, judges it, merges the
-- verdict of the behaviour gate, caps samples with network signals only, looks up similar segments,
-- and may call an AI agent.
--
-- Files and code.
--   Common, Common/*          helpers: Boolean tests, lists and integers over the native numbers
--   Deque                     collections.deque(maxlen=m) as a list
--   Client/Window             client_core/window/sliding.py
--   Client/Queue              client_core/sender/local_queue.py; Keeps, Contents, Synced, Restart,
--                             Started and Overfull hold the proofs
--   Client/Sender             client_core/sender/metrics_sender.py
--   Client/Sanitizer          client_core/sender/sanitizer.py
--   Client/Identity           client_core/identity/pc_id.py
--   Client/Runtime            the drain and the send of `step` in client_core/runtime/loop.py
--   Client/Detectors          client_core/detector and client_core/timeslot.py
--   Client/Config             client_core/config/loader.py and defaults.py
--   Server/Gating             ml_server/scorer/category_gating.py
--   Server/Aggregates         the one-minute aggregates of ml_server/storage/pc_history_store.py
--   Server/Patterns           ml_server/scorer/pattern_categories.py
--   Server/ScoreHistory       the rule scores of ml_server/storage/score_history_store.py
--   Server/Features           ml_server/feature/feature_builder.py
--   Server/Retraining         the training history of ml_server/storage/pc_history_store.py,
--                             `train_model` of ml_server/detector/anomaly_predictor.py,
--                             ml_server/storage/model_store.py and
--                             ml_server/scheduler/retraining_scheduler.py
--   Server/Anomaly            `predict_anomaly` of ml_server/detector/anomaly_predictor.py
--   Server/Boxplot            ml_server/feature/boxplot_filter.py
--   Server/Counters           ml_server/silent_fail_counters.py
--   Server/Signals            the dictionary of signals of ml_server/scorer/signal_extractor.py
--   Server/Extract/*          that file's extraction: Sample holds what it reads, Extraction the
--                             function itself, Recreation `_detect_process_recreation`
--   Server/Indicators         ml_server/scorer/indicator_calculator.py
--   Server/Context            ml_server/scorer/context_multiplier.py
--   Server/Verdict            the parts of ml_server/scorer/verdict_classifier.py
--   Server/Analysis           `analyze_pattern` of that file
--   Server/Pipeline           ml_server/api/analyze_router.py after the analysis, with
--                             ml_server/scorer/network_only_cap.py
--   Server/RiskVector         ml_server/scorer/risk_vector.py
--   Server/Quality            ml_server/scorer/signal_quality.py and explanation_confidence.py
--   Server/GlobalHw           ml_server/detector/global_degradation.py
--   Server/Retrieval/*        ml_server/retrieval/retrieval_store.py and retrieval_evidence.py
--   Server/Policy/*           ml_server/policy/loader.py and validation.py
--   Server/Agent              ml_server/agent/runner.py and mock_agent.py
--   Server/Admin              ml_server/api/admin_auth.py, clear_router.py and the switch of
--                             admin_router.py
--   Tests/*                   the theorems at concrete inputs
-- A Python function is a function of the same name; a method takes and returns the object's
-- record; a global table is the row of one PC. A module's children hold its proofs.
--
-- Numbers. Counts, bytes and times are natural numbers; times are whole milliseconds in the gate
-- and the aggregates, and seconds elsewhere. Scores are counted in tenths of a point and weights in
-- fifths, loads, temperatures and the policy's numbers in thousandths, distances in ten-thousandths.
-- Averages and standard deviations are exact fractions where Python rounds floats. Python's
-- integers do not overflow. In the aggregates and the features the numbers are a parameter.
--
-- The outside. The file system of the queue is a list of outcomes, one per call, and works once the
-- list has run out; JSON is a parameter with the hypothesis `IsFaithful`, that a payload that was
-- written is read back. The HTTP replies are a list too. Parameters are also what Python does with
-- texts (case, search, split), what PyYAML returns for a policy file, the environment that the
-- configuration is read from, numpy's percentile and random choice, the fitting of a model and its
-- answers, the distance of two embeddings, and the answer of the Claude API. No definition needs
-- fuel: the drain runs at most `retry_per_cycle` rounds, and the loop that sheds payloads is a
-- recursion over the queue that it empties.
--
-- Not modelled: the collectors of the client, which read the machine; embeddings and the store in
-- PostgreSQL; the AI agent's prompt; logging and the texts of alerts; the FastAPI glue and the
-- status route; the older single-file programs ml_server.py and client.py, which the packages
-- replace; tools and tests; and the parts of the repository in Java and TypeScript. Locks are left
-- out: every method of the queue holds its lock from start to end.
pub mod Common
pub mod Deque
pub mod Client
pub mod Server
pub mod Tests
