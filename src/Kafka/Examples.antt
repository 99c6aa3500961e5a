-- ===== src/Kafka/Examples.antt =====
-- A row of messages to a topic of three partitions, and the theorems of the partitioner.
use mathlib.Core.List.{Perm}
use mathlib.Core.List.Perm
use huntind.Strings.{Text, codes}
use huntind.Encode.Torch.{Tensors, list_tensors}
use huntind.Kafka.Config.{new_conf, destroy_conf, move_conf, assign_conf, assign_conf-deletes}
use huntind.Kafka.Pool.{acquire, fill_pool, new_pool}
use huntind.Kafka.Pool.Leases.{System, Step, Run, made, Run-made}
use huntind.Kafka.Send.{Sender, Message, ErrorCode, no_error, send_all_to_kafka}
use huntind.Kafka.Send.Delivery.{messages, message_of, rows_of, ids_of, IsMessage, send-delivers}
use huntind.Common.{ℕ, refl, map, List, Option, some, ◌++◌, All, ◌≡◌, [], ◌∷◌, arith}
use huntind.Common.Outcome.{ok}
use huntind.Strings.{Text, codes}
use huntind.Encode.Torch.{Tensors, list_tensors}
use huntind.Kafka.Config.{new_conf, destroy_conf, move_conf, assign_conf, assign_conf-deletes}
use huntind.Kafka.Pool.{acquire, fill_pool, new_pool}
use huntind.Kafka.Pool.Leases.{System, Step, Run, made, Run-made}
use huntind.Kafka.Send.{Sender, Message, ErrorCode, no_error, send_all_to_kafka}
use huntind.Kafka.Send.Delivery.{messages, message_of, rows_of, ids_of, IsMessage, send-delivers}
use huntind.Kafka.Partition.{new_partition_cb, partitions, partitions-constant}

partitions-constant_example : partitions new_partition_cb (3 ∷ 3 ∷ 3 ∷ []) ≡ ok (0 ∷ 0 ∷ 0 ∷ [])
partitions-constant_example =
    partitions-constant new_partition_cb (3 ∷ 3 ∷ 3 ∷ [])
      (omega arith, (omega arith, (omega arith, tt)))

-- A client that gives the producers 0, 1, 2 and so on, and accepts every message.
abbrev create : ℕ → Option ℕ
create n = some n

abbrev produce : ℕ → Message ℕ → ErrorCode
produce producer message = no_error

abbrev rows : Tensors ℕ
rows = list_tensors ℕ

abbrev sender : Sender ℕ ℕ
sender = record { pool = record { producers = 0 ∷ []; created = 1 }; log = []; flushed = [] }

-- Three rows and two to a message.
send-delivers_example :
    (u : Sender ℕ ℕ) × (sent jobs : List (List ℕ × List Text)) × (send_all_to_kafka rows create
        produce
        (λ jobs. jobs)
        2
        (7 ∷ 8 ∷ 9 ∷ [])
        (codes "a" ∷ codes "b" ∷ codes "c" ∷ [])
        sender
      ≡ ok u)
    × (messages u.log
        ≡ messages sender.log ++ map (message_of rows create produce (λ n. (n, refl))) sent)
    × Perm sent jobs
    × (rows_of rows create produce (λ n. (n, refl)) jobs ≡ 7 ∷ 8 ∷ 9 ∷ [])
    × (ids_of rows create produce (λ n. (n, refl)) jobs ≡ codes "a" ∷ codes "b" ∷ codes "c" ∷ [])
    × All (IsMessage rows create produce (λ n. (n, refl)) 2) jobs
send-delivers_example =
    send-delivers rows create produce (λ n. (n, refl)) 2 (7 ∷ 8 ∷ 9 ∷ [])
      (codes "a" ∷ codes "b" ∷ codes "c" ∷ []) refl (λ jobs. jobs) sender (omega arith)
      (λ jobs. Perm.refl jobs)

abbrev one_lent : System create
one_lent = record { pool = record { producers = 0 ∷ []; created = 2 }; lent = 1 ∷ [] }

leased : Run create 2 one_lent
unfolding new_pool fill_pool acquire
leased =
    Run.later (Run.start 10 (record { producers = 0 ∷ 1 ∷ []; created = 2 }) refl)
      (Step.take_one 1 (record { producers = 0 ∷ []; created = 2 }) refl)

Run-made_example : Perm (1 ∷ 0 ∷ []) (made create 2)
Run-made_example = Run-made create leased

assign_conf-deletes_example :
    (destroy_conf (assign_conf (new_conf 1 2 3 4) (new_conf 5 6 7 8)).0
        ++ destroy_conf (assign_conf (new_conf 1 2 3 4) (new_conf 5 6 7 8)).1
      ≡ destroy_conf (new_conf 5 6 7 8))
    × (destroy_conf (move_conf (new_conf 5 6 7 8)).0
          ++ destroy_conf (move_conf (new_conf 5 6 7 8)).1
        ≡ destroy_conf (new_conf 5 6 7 8))
assign_conf-deletes_example = assign_conf-deletes (new_conf 1 2 3 4) (new_conf 5 6 7 8)
