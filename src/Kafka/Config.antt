-- ===== src/Kafka/Config.antt =====
-- `KafkaConf` of include/hound/sink/kafka/producer_pool.hpp: four objects that it owns, as pointers.
use huntind.Common.{ℕ, ◌≡◌, append-nil, List, [], ◌∷◌, ◌++◌, Option, none, some}
use huntind.Strings.{Text, codes}

pub record KafkaConf : Type 0 where
  pub conf : Option ℕ
  pub partitioner : Option ℕ
  pub delivery_cb : Option ℕ
  pub event_cb : Option ℕ

abbrev pub null_conf : KafkaConf
null_conf = record { conf = none; partitioner = none; delivery_cb = none; event_cb = none }

-- The constructor from the brokers: `a`, `b`, `c` and `d` are the new objects.
abbrev pub new_conf : (a b c d : ℕ) → KafkaConf
new_conf a b c d = record {
  conf = some a;
  partitioner = some b;
  delivery_cb = some c;
  event_cb = some d;
}

-- The texts that the constructor sets; the three callbacks are set as objects.
unfoldable pub settings : (brokers : Text) → List (Text × Text)
settings brokers =
    (codes "bootstrap.servers", brokers)
    ∷ (codes "batch.num.messages", codes "2000")
    ∷ (codes "queue.buffering.max.ms", codes "1000")
    ∷ (codes "queue.buffering.max.messages", codes "1000000")
    ∷ (codes "queue.buffering.max.kbytes", codes "2097152")
    ∷ (codes "request.required.acks", codes "0")
    ∷ (codes "producer.type", codes "async")
    ∷ (codes "compression.type", codes "zstd")
    ∷ (codes "request.timeout.ms", codes "5000")
    ∷ (codes "message.timeout.ms", codes "30000")
    ∷ []

-- `delete` on null does nothing.
abbrev pub delete : Option ℕ → List ℕ
delete none = []
delete (some p) = p ∷ []

-- What the destructor deletes, in this order.
unfoldable pub destroy_conf : KafkaConf → List ℕ
destroy_conf c =
    delete c.event_cb ++ (delete c.delivery_cb ++ (delete c.partitioner ++ delete c.conf))

-- The move constructor: the new object, and what is left of `other`.
unfoldable pub move_conf : KafkaConf → KafkaConf × KafkaConf
move_conf other = (
  record {
    conf = other.conf;
    partitioner = other.partitioner;
    delivery_cb = other.delivery_cb;
    event_cb = other.event_cb;
  },
  null_conf,
)

-- The move assignment from another object: the same, and nothing is deleted.
unfoldable pub assign_conf : (self other : KafkaConf) → KafkaConf × KafkaConf
assign_conf self other = (
  record self {
    conf = other.conf;
    partitioner = other.partitioner;
    delivery_cb = other.delivery_cb;
    event_cb = other.event_cb;
  },
  null_conf,
)

-- After a move, by constructor or by assignment, destroying both configurations deletes exactly
-- what the source owned, once.
pub assign_conf-deletes :
    (self other : KafkaConf)
    → (destroy_conf (assign_conf self other).0 ++ destroy_conf (assign_conf self other).1
        ≡ destroy_conf other)
      × (destroy_conf (move_conf other).0 ++ destroy_conf (move_conf other).1 ≡ destroy_conf other)
unfolding assign_conf move_conf destroy_conf
assign_conf-deletes self other = (append-nil (destroy_conf other), append-nil (destroy_conf other))
