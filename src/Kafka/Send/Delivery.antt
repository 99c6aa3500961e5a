-- ===== src/Kafka/Send/Delivery.antt =====
-- What the messages carry, and in which order.
use mathlib.Core.List.{Perm, map}
use mathlib.Core.List.Perm
use huntind.Common.{
  ℕ, zero, suc, ◌+◌, ◌-◌, ◌*◌, ◌≤◌, ◌<◌, ◌≡◌, refl, ap, ap₂, ◌∙◌, sym, List, [], ◌∷◌, ◌++◌,
  append-nil, append_assoc, Bool, Option, some, length, take, drop, leb, le→leb, leb→le, All,
  Option-cases, Bool-cases, inl, inr, arith,
}
use huntind.Common.Batches.{
  batch_count_le, batch_count_lt, batch_count, batch_size, batch, batches_from, length-batch, join,
  join-batches_from,
}
use huntind.Common.Outcome.{ok}
use huntind.Strings.{Text}
use huntind.Encode.Torch.{Tensors}
use huntind.Kafka.Pool.{ProducerPool, acquire, generate, split_back}
use huntind.Kafka.Send.{
  after_produce, is_no_error, Sender, Message, ErrorCode, key_of, send_one_msg, send_jobs, run_jobs,
  send_concurrently, send_all_to_kafka,
}

abbrev pub messages : {Row : Type 0} → List (Message Row × ErrorCode) → List (Message Row)
messages [] = []
messages ((message, errcode) ∷ log) = message ∷ messages log

messages-append :
    {Row : Type 0} (xs ys : List (Message Row × ErrorCode))
    → messages (xs ++ ys) ≡ messages xs ++ messages ys
messages-append [] ys = refl
messages-append (x ∷ xs) ys = ap (λ l. x.0 ∷ l) (messages-append xs ys)

module _ {Producer Row : Type 0} (t : Tensors Row) (create : ℕ → Option Producer)
    (produce : Producer → Message Row → ErrorCode)
    (gives : (n : ℕ) → (p : Producer) × (create n ≡ some p)) where
  open t use {Tensor, items, slice, items-slice}

  abbrev pub message_of : Tensor × List Text → Message Row
  message_of (feature, ids) = record { payload = items feature; key = key_of ids }

  acquire-total :
      (pool : ProducerPool Producer)
      → (p : Producer) × (next : ProducerPool Producer) × (acquire create pool ≡ ok (p, next))
  unfolding acquire generate
  acquire-total pool = elim (Option-cases (split_back pool.producers)) [
    | inl e ↦
        let (p, given) = gives pool.created in
        (p, record pool { created = pool.created + 1 }, rw (acquire, e, generate, given))
    | inr ((p, rest), e) ↦ (p, record pool { producers = rest }, rw (acquire, e))
  ]

  send_one_msg_lem :
      (feature : Tensor) (ids : List Text) (s : Sender Producer Row)
      → (b : Bool) × (u : Sender Producer Row) × (send_one_msg t create produce feature ids s
          ≡ ok (b, u))
        × (messages u.log ≡ messages s.log ++ message_of (feature, ids) ∷ [])
  unfolding send_one_msg
  send_one_msg_lem feature ids s =
      let (p, next, e) = acquire-total s.pool in
      let message = message_of (feature, ids) in
      let errcode = produce p message in
      (
        is_no_error errcode,
        after_produce p next message errcode s,
        rw e,
        messages-append s.log ((message, errcode) ∷ []),
      )

  -- The jobs in the order in which they run are the messages, behind those of before.
  run_jobs_lem :
      (jobs : List (Tensor × List Text)) (s : Sender Producer Row)
      → (u : Sender Producer Row) × (run_jobs t create produce jobs s ≡ ok u)
        × (messages u.log ≡ messages s.log ++ map message_of jobs)
  unfolding run_jobs
  run_jobs_lem [] s = (s, refl, sym (append-nil (messages s.log)))
  run_jobs_lem ((feat, ids) ∷ jobs) s =
      let (b, next, sent, log) = send_one_msg_lem feat ids s in
      let (u, done, all) = run_jobs_lem jobs next in
      (u, rw (sent, done), all ∙ rw (log, append_assoc))

  abbrev pub rows_of : List (Tensor × List Text) → List Row
  rows_of [] = []
  rows_of ((feat, ids) ∷ jobs) = items feat ++ rows_of jobs

  abbrev pub ids_of : List (Tensor × List Text) → List Text
  ids_of [] = []
  ids_of ((feat, ids) ∷ jobs) = ids ++ ids_of jobs

  -- Each message has as many rows as ids, and no more than the limit.
  abbrev pub IsMessage : (max_send_batch : ℕ) → Tensor × List Text → Type 0
  IsMessage max_send_batch (feat, ids) =
      (length (items feat) ≡ length ids) × (length ids ≤ max_send_batch)

  module _ (max_send_batch : ℕ) (feature : Tensor) (ids : List Text)
      (same : length (items feature) ≡ length ids) where
    send_jobs_lem :
        (n i : ℕ)
        → (i + n) * max_send_batch < length ids + max_send_batch
        → (jobs : List (Tensor × List Text)) × (send_jobs t create produce max_send_batch feature
              ids n i
            ≡ ok jobs)
          × (rows_of jobs ≡ join (batches_from max_send_batch (items feature) n i))
          × (ids_of jobs ≡ join (batches_from max_send_batch ids n i))
          × All (IsMessage max_send_batch) jobs
    unfolding send_jobs
    send_jobs_lem zero i h = ([], refl, refl, refl, tt)
    send_jobs_lem (suc n) i h =
        let (jobs, made, rows, keys, all) = send_jobs_lem n (i + 1) (omega arith) in
        let offset = i * max_send_batch in
        let size = batch_size (length ids) max_send_batch offset in
        let fits : offset + size ≤ length (items feature) = omega arith in
        let width : offset + size - offset
            ≡ batch_size (length (items feature)) max_send_batch offset =
          omega arith in
        let cut : items (slice feature offset (offset + size))
            ≡ batch max_send_batch (items feature) i =
          items-slice feature offset (offset + size)
          ∙ ap (λ w. take w (drop offset (items feature))) width in
        let rows_size = ap length cut ∙ length-batch max_send_batch (items feature) i in
        let ids_size = length-batch max_send_batch ids i in
        (
          (slice feature offset (offset + size), batch max_send_batch ids i) ∷ jobs,
          rw (le→leb _ _ fits, made),
          ap₂ ◌++◌ cut rows,
          ap (λ ks. batch max_send_batch ids i ++ ks) keys,
          ((omega arith, omega arith), all),
        )

    -- If `create` always gives a producer, the batch limit is not 0, there are as many rows as
    -- ids, and the threads run in some permutation of the jobs, sending returns, and the messages
    -- handed to producers are those of before and then the jobs' in the order of running: the
    -- jobs' rows in their order are all rows, the jobs' ids in their order are all ids, and each
    -- job has as many rows as ids and at most the limit.
    pub send-delivers :
        (schedule : List (Tensor × List Text) → List (Tensor × List Text)) (s : Sender Producer Row)
        → 0 < max_send_batch
        → ((jobs : List (Tensor × List Text)) → Perm (schedule jobs) jobs)
        → (u : Sender Producer Row) × (sent jobs : List (Tensor × List Text)) × (send_all_to_kafka t
              create produce schedule max_send_batch feature ids s
            ≡ ok u)
          × (messages u.log ≡ messages s.log ++ map message_of sent)
          × Perm sent jobs
          × (rows_of jobs ≡ items feature)
          × (ids_of jobs ≡ ids)
          × All (IsMessage max_send_batch) jobs
    unfolding send_all_to_kafka send_concurrently
    send-delivers schedule s some_ any = elim (Bool-cases (leb (length ids) max_send_batch)) [
      | inl few ↦
          let (b, u, sent, log) = send_one_msg_lem feature ids s in
          (
            u,
            (feature, ids) ∷ [],
            (feature, ids) ∷ [],
            rw (few, sent),
            log,
            Perm.refl _,
            append-nil (items feature),
            append-nil ids,
            ((same, leb→le _ _ few), tt),
          )
      | inr many ↦
          let n = batch_count (length ids) max_send_batch in
          let whole : 0 + n ≡ n = omega arith in
          let below : (0 + n) * max_send_batch < length ids + max_send_batch =
            rw whole (batch_count_lt (length ids) some_) in
          let enough : length ids ≤ (0 + n) * max_send_batch =
            rw whole (batch_count_le (length ids) some_) in
          let start : 0 * max_send_batch ≡ 0 = omega arith in
          let (jobs, made, rows, keys, all) = send_jobs_lem n 0 below in
          let (u, done, log) = run_jobs_lem (schedule jobs) s in
          (
            u,
            schedule jobs,
            jobs,
            rw (many, made, done),
            log,
            any jobs,
            rows
                ∙ join-batches_from max_send_batch (items feature) n 0 (rw same enough)
                ∙ ap (λ k. drop k (items feature)) start,
            keys ∙ join-batches_from max_send_batch ids n 0 enough ∙ ap (λ k. drop k ids) start,
            all,
          )
    ]
