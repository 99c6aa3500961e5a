-- ===== src/Kafka/Partition.antt =====
-- `MyPartitionCB`, the partitioner that Kafka calls for each message.
use huntind.Common.{ℕ, ◌+◌, ◌%◌, ◌<◌, ◌≡◌, refl, List, [], ◌∷◌, All, arith, if◌then◌else◌, ◌==◌}
use native.Mathlib.Nat.{mod-eq_of_lt}
use huntind.Common.{map, false}
use huntind.Common.Outcome.{Outcome, ok, fault, division_by_zero, ◌>>=◌}

pub record PartitionCb : Type 0 where
  pub last_partition : ℕ

abbrev pub new_partition_cb : PartitionCb
new_partition_cb = record { last_partition = 0 }

-- `last_partition++ % partition_cnt` takes the remainder of the old value; what the increment wrote is
-- overwritten by the next line. The values stay between 0 and `partition_cnt`.
unfoldable pub partitioner_cb : PartitionCb → (partition_cnt : ℕ) → Outcome (ℕ × PartitionCb)
partitioner_cb cb partition_cnt =
    if partition_cnt == 0
    then fault division_by_zero
    else let partition = cb.last_partition % partition_cnt in
      let incremented = record cb { last_partition = cb.last_partition + 1 } in
      ok (partition, record incremented { last_partition = partition })

-- The partitions of a row of messages, each with the number of partitions at that time.
unfoldable pub partitions : PartitionCb → List ℕ → Outcome (List ℕ)
partitions cb [] = ok []
partitions cb (cnt ∷ rest) = do
  (p, next) ← partitioner_cb cb cnt
  ps ← partitions next rest
  ok (p ∷ ps)

not_zero : {n : ℕ} (c : ℕ) → n < c → (c == 0) ≡ false
not_zero c h = ground arith

-- A partition is always one of the topic's.
pub partitioner_cb-lt :
    (cb : PartitionCb) (cnt : ℕ) {p : ℕ} {next : PartitionCb}
    → partitioner_cb cb cnt ≡ ok (p, next)
    → p < cnt
unfolding partitioner_cb
partitioner_cb-lt cb cnt h = ground arith

-- While every number of partitions is above the partition that the callback has reached, all
-- messages go to that one partition.
pub partitions-constant :
    (cb : PartitionCb) (counts : List ℕ)
    → All (λ c. cb.last_partition < c) counts
    → partitions cb counts ≡ ok (map (λ _. cb.last_partition) counts)
unfolding partitions partitioner_cb
partitions-constant cb [] a = refl
partitions-constant cb (c ∷ counts) a =
    rw (not_zero c a.0, mod-eq_of_lt a.0, partitions-constant cb counts a.1)
