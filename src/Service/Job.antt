-- ===== src/Service/Job.antt =====
-- The task that `LoopTask` adds for a list of flows: encode them, and send the encodings under the keys
-- of the flows. `encode` is `encode_flow_tensors` with a model and a device.
use mathlib.Core.List.{Perm, map}
use huntind.Common.{
  true, ℕ, suc, ◌≤◌, ◌<◌, ◌≡◌, refl, ap, ◌∙◌, List, [], ◌∷◌, ◌++◌, Option, some, length, ◌==◌,
  if◌then◌else◌, All, arith,
}
use huntind.Common.Outcome.{Outcome, ok, fault, assertion_failed, ◌>>=◌}
use huntind.Strings.{Text}
use huntind.Flow.{Flow}
use huntind.Encode.Torch.{Tensors}
use huntind.Encode.Jobs.{encode_flow_list}
use huntind.Encode.Jobs.Accounts.{encode_flow_list-Returns}
use huntind.Kafka.Send.{Sender, Message, ErrorCode, send_all_to_kafka}
use huntind.Kafka.Send.Delivery.{messages, message_of, rows_of, ids_of, IsMessage, send-delivers}

-- `key_`
abbrev pub keys_of : List Flow → List Text
keys_of flows = map (λ f. f.flow_id) flows

module _ {Producer Row : Type 0} (t : Tensors Row) (encode : List Flow → Outcome (List Row))
    (max_encode_batch : ℕ) (create : ℕ → Option Producer)
    (produce : Producer → Message Row → ErrorCode)
    (schedule : List (Tensors.Tensor t × List Text) → List (Tensors.Tensor t × List Text))
    (max_send_batch : ℕ) where
  open t use {Tensor, items, from_list, items-from_list}

  -- What was sent, and what is taken from `NumBlockedFlows`.
  unfoldable pub loop_job : List Flow → Sender Producer Row → Outcome (Sender Producer Row × ℕ)
  loop_job current_queue s = do
    (encoding, taken) ← encode_flow_list encode max_encode_batch current_queue
    _ ← (if length current_queue == length encoding then ok encoding else fault assertion_failed)
    next ←
        send_all_to_kafka t create produce schedule max_send_batch (from_list encoding)
          (keys_of current_queue) s
    ok (next, taken)

  length-keys_of : (fs : List Flow) → length (keys_of fs) ≡ length fs
  length-keys_of [] = refl
  length-keys_of (f ∷ fs) = ap suc (length-keys_of fs)

  module _ (encodable : 0 < max_encode_batch) (sendable : 0 < max_send_batch)
      (gives : (n : ℕ) → (p : Producer) × (create n ≡ some p))
      (any : (jobs : List (Tensor × List Text)) → Perm (schedule jobs) jobs) (Good : Flow → Type 0)
      (encodes : (fs : List Flow)
        → 0 < length fs
        → length fs ≤ max_encode_batch
        → All Good fs
        → (rows : List Row) × (encode fs ≡ ok rows) × (length rows ≡ length fs)) where
    -- If the batch limits are not 0, `create` always gives a producer, the threads run in some
    -- permutation of their jobs, and the encoder gives one row for each flow of every good list
    -- within the limit, then the task of LoopTask for a list of good flows that is not empty
    -- returns and takes the number of its flows: the messages handed to producers are those of
    -- before and then those of its jobs, whose rows in order are the encodings and whose ids in
    -- order are the keys of the flows, with as many rows as ids and at most the limit in each.
    pub loop_job-delivers :
        (flows : List Flow) (s : Sender Producer Row)
        → 0 < length flows
        → All Good flows
        → (u : Sender Producer Row) × (rows : List Row) × (sent jobs : List (Tensor × List Text))
          × (loop_job flows s ≡ ok (u, length flows))
          × (encode_flow_list encode max_encode_batch flows ≡ ok (rows, length flows))
          × (messages u.log ≡ messages s.log ++ map (message_of t create produce gives) sent)
          × Perm sent jobs
          × (rows_of t create produce gives jobs ≡ rows)
          × (ids_of t create produce gives jobs ≡ keys_of flows)
          × All (IsMessage t create produce gives max_send_batch) jobs
    unfolding loop_job
    loop_job-delivers flows s some_ good =
        let (rows, made, each) =
          encode_flow_list-Returns encode max_encode_batch encodable Good encodes flows some_
            good in
        let same : length (items (from_list rows)) ≡ length (keys_of flows) =
          rw (items-from_list) (omega (arith, length-keys_of flows)) in
        let (u, sent, jobs, done, log, perm, all_rows, all_ids, small) =
          send-delivers t create produce gives max_send_batch (from_list rows) (keys_of flows) same
            schedule s sendable any in
        let same_size : (length flows == length rows) ≡ true = ground arith in
        (
          u,
          rows,
          sent,
          jobs,
          rw (made, same_size, done),
          made,
          log,
          perm,
          all_rows ∙ items-from_list rows,
          all_ids,
          small,
        )
