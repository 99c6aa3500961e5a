-- ===== src/Service/Encoded.antt =====
-- An encoder that gives the size of each flow, and the theorems of the jobs with it.
use mathlib.Core.List.{Perm, map}
use mathlib.Core.List.Perm
use huntind.Common.{
  ℕ, ◌≤◌, ◌<◌, ◌≡◌, refl, List, [], ◌∷◌, ◌++◌, Option, some, length, length-map, All, arith,
}
use huntind.Common.Outcome.{Outcome, ok}
use huntind.Strings.{Text, codes}
use huntind.Flow.{Flow}
use huntind.Sink.Examples.{packet}
use huntind.Encode.Torch.{Tensors, list_tensors}
use huntind.Encode.Jobs.{encode_flow_list}
use huntind.Kafka.Send.{Sender, Message, ErrorCode, no_error}
use huntind.Kafka.Send.Delivery.{messages, message_of, rows_of, ids_of, IsMessage}
use huntind.Service.Job.{keys_of, loop_job, loop_job-delivers}

abbrev encode : List Flow → Outcome (List ℕ)
encode flows = ok (map (λ f. f.count) flows)

abbrev Good : Flow → Type 0
Good f = Unit

encodes :
    (fs : List Flow)
    → 0 < length fs
    → length fs ≤ 2
    → All Good fs
    → (rows : List ℕ) × (encode fs ≡ ok rows) × (length rows ≡ length fs)
encodes fs some_ few good = (map (λ f. f.count) fs, refl, length-map fs (λ f. f.count))

abbrev create : ℕ → Option ℕ
create n = some n

abbrev produce : ℕ → Message ℕ → ErrorCode
produce producer message = no_error

abbrev rows : Tensors ℕ
rows = list_tensors ℕ

abbrev sender : Sender ℕ ℕ
sender = record { pool = record { producers = 0 ∷ []; created = 1 }; log = []; flushed = [] }

abbrev flow : Text → Flow
flow key = record { protocol = 6; count = 1; flow_id = key; packet_list = packet key 1 ∷ [] }

abbrev three_flows : List Flow
three_flows = flow (codes "a") ∷ flow (codes "b") ∷ flow (codes "c") ∷ []

-- Batches of two flows, in both places.
loop_job-delivers_example :
    (u : Sender ℕ ℕ) × (encoded : List ℕ) × (sent jobs : List (List ℕ × List Text)) × (loop_job rows
        encode 2 create produce
        (λ js. js)
        2
        three_flows
        sender
      ≡ ok (u, 3))
    × (encode_flow_list encode 2 three_flows ≡ ok (encoded, 3))
    × (messages u.log
        ≡ messages sender.log ++ map (message_of rows create produce (λ n. (n, refl))) sent)
    × Perm sent jobs
    × (rows_of rows create produce (λ n. (n, refl)) jobs ≡ encoded)
    × (ids_of rows create produce (λ n. (n, refl)) jobs ≡ keys_of three_flows)
    × All (IsMessage rows create produce (λ n. (n, refl)) 2) jobs
loop_job-delivers_example =
    loop_job-delivers rows encode 2 create produce (λ js. js) 2 (omega arith) (omega arith)
      (λ n. (n, refl)) (λ js. Perm.refl js) Good encodes three_flows sender (omega arith)
      (tt, (tt, (tt, tt)))
