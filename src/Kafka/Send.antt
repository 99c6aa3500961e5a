-- ===== src/Kafka/Send.antt =====
-- The sending half of source/_kafka_impl.cpp: the encodings of many flows go out in messages of at
-- most `max_send_batch` flows each. What librdkafka answers is the parameter `produce`.
pub mod Delivery
use huntind.Common.{
  ℕ, zero, suc, ◌+◌, ◌*◌, List, [], ◌∷◌, ◌++◌, Bool, true, false, Option, length, take, drop, leb,
  if◌then◌else◌,
}
use huntind.Common.Batches.{batch_count, batch_size, batch}
use huntind.Common.Outcome.{Outcome, ok, fault, runtime_error, ◌>>=◌}
use huntind.Strings.{Text}
use huntind.Encode.Torch.{Tensors}
use huntind.Kafka.Pool.{ProducerPool, acquire, collect}

-- The cases of `RdKafka::ErrorCode` that the source tells apart.
pub data ErrorCode : Type 0 where
  no_error request_timed_out other_error : ErrorCode

pub record Message (Row : Type 0) : Type 0 where
  pub payload : List Row
  pub key : Text

-- The pool, the messages handed to producers with the answers, and the producers that were flushed;
-- oldest first.
pub record Sender (Producer Row : Type 0) : Type 0 where
  pub pool : ProducerPool Producer
  pub log : List (Message Row × ErrorCode)
  pub flushed : List Producer

-- `id.append(item).append("\n")` for all ids.
unfoldable pub key_of : List Text → Text
key_of [] = []
key_of (item ∷ ids) = item ++ (b'\n' ∷ key_of ids)

abbrev pub is_timed_out : ErrorCode → Bool
is_timed_out request_timed_out = true
is_timed_out _ = false

abbrev pub is_no_error : ErrorCode → Bool
is_no_error no_error = true
is_no_error _ = false

-- The producer is flushed if its answer was late, and goes back to the pool.
abbrev pub after_produce :
    {Producer Row : Type 0}
    → Producer
    → ProducerPool Producer
    → Message Row
    → ErrorCode
    → Sender Producer Row
    → Sender Producer Row
after_produce manager pool message errcode s = record {
  pool = collect pool manager;
  log = s.log ++ ((message, errcode) ∷ []);
  flushed = if is_timed_out errcode then s.flushed ++ (manager ∷ []) else s.flushed;
}

module _ {Producer Row : Type 0} (t : Tensors Row) (create : ℕ → Option Producer)
    (produce : Producer → Message Row → ErrorCode) where
  open t use {Tensor, items, slice}

  -- `feature.narrow(0, offset, length)` throws outside the tensor.
  abbrev pub narrow : Tensor → (offset n : ℕ) → Outcome Tensor
  narrow feature offset n =
      if leb (offset + n) (length (items feature))
      then ok (slice feature offset (offset + n))
      else fault runtime_error

  unfoldable pub send_one_msg :
      Tensor → List Text → Sender Producer Row → Outcome (Bool × Sender Producer Row)
  send_one_msg feature ids s = do
    (manager, pool) ← acquire create s.pool
    let message : Message Row = record { payload = items feature; key = key_of ids }
    let errcode = produce manager message
    ok (is_no_error errcode, after_produce manager pool message errcode s)

  -- What a thread of `send_concurrently` sends: rows and their ids.
  unfoldable pub send_jobs :
      (max_send_batch : ℕ) → Tensor → List Text → (n i : ℕ) → Outcome (List (Tensor × List Text))
  send_jobs max_send_batch feature ids zero i = ok []
  send_jobs max_send_batch feature ids (suc n) i = do
    feat ←
        narrow feature (i * max_send_batch)
          (batch_size (length ids) max_send_batch (i * max_send_batch))
    rest ← send_jobs max_send_batch feature ids n (i + 1)
    ok ((feat, batch max_send_batch ids i) ∷ rest)

  unfoldable pub run_jobs :
      List (Tensor × List Text) → Sender Producer Row → Outcome (Sender Producer Row)
  run_jobs [] s = ok s
  run_jobs ((feat, ids) ∷ jobs) s = do (_, next) ← send_one_msg feat ids s; run_jobs jobs next

  -- The threads send in any order, `schedule`; each send is one step, since the threads share the
  -- pool alone.
  unfoldable pub send_concurrently :
      (schedule : List (Tensor × List Text) → List (Tensor × List Text)) (max_send_batch : ℕ)
      → Tensor
      → List Text
      → Sender Producer Row
      → Outcome (Sender Producer Row)
  send_concurrently schedule max_send_batch feature ids s = do
    jobs ← send_jobs max_send_batch feature ids (batch_count (length ids) max_send_batch) 0
    run_jobs (schedule jobs) s

  unfoldable pub send_all_to_kafka :
      (schedule : List (Tensor × List Text) → List (Tensor × List Text)) (max_send_batch : ℕ)
      → Tensor
      → List Text
      → Sender Producer Row
      → Outcome (Sender Producer Row)
  send_all_to_kafka schedule max_send_batch feature ids s =
      if leb (length ids) max_send_batch
      then (do (_, next) ← send_one_msg feature ids s; ok next)
      else send_concurrently schedule max_send_batch feature ids s
