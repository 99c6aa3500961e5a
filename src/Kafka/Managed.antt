-- ===== src/Kafka/Managed.antt =====
-- include/hound/sink/kafka/producer.hpp: a producer with its polling thread. The thread and the
-- destructor are interleaved steps; the producer is not null (Kafka.Pool has the null case).
use huntind.Common.{ℕ, ◌+◌, ◌≡◌, refl, ◌⊎◌, inl, inr, Bool, true, false}

-- Where the polling thread is.
pub data Polling : Type 0 where
  testing polling ended : Polling

-- What the destructor has done: nothing yet, set the flag, joined the thread, flushed, deleted.
pub data Stage : Type 0 where
  alive stopping joined flushed deleted : Stage

pub record ManagedProducer : Type 0 where
  pub stop_polling : Bool
  pub thread : Polling
  pub stage : Stage
  pub polls : ℕ

abbrev pub new_managed : ManagedProducer
new_managed = record { stop_polling = false; thread = testing; stage = alive; polls = 0 }

pub data Step (m : ManagedProducer) : ManagedProducer → Type 0 where
  poll_begin : m.thread ≡ testing → m.stop_polling ≡ false → Step m (record m { thread = polling })
  poll_end : m.thread ≡ polling → Step m (record m { thread = testing; polls = m.polls + 1 })
  leave : m.thread ≡ testing → m.stop_polling ≡ true → Step m (record m { thread = ended })
  stop : m.stage ≡ alive → Step m (record m { stop_polling = true; stage = stopping })
  join : m.stage ≡ stopping → m.thread ≡ ended → Step m (record m { stage = joined })
  flush : m.stage ≡ joined → Step m (record m { stage = flushed })
  delete : m.stage ≡ flushed → Step m (record m { stage = deleted })

pub data Run : ManagedProducer → Type 0 where
  start : Run new_managed
  later : {m n : ManagedProducer} → Run m → Step m n → Run n

-- The flag is that of the stage, and behind the join the thread is at its end.
abbrev Agrees : Stage → Bool → Polling → Type 0
Agrees alive flag thread = (flag ≡ false) × ((thread ≡ testing) ⊎ (thread ≡ polling))
Agrees stopping flag thread = (flag ≡ true) × Unit
Agrees joined flag thread = (flag ≡ true) × (thread ≡ ended)
Agrees flushed flag thread = (flag ≡ true) × (thread ≡ ended)
Agrees deleted flag thread = (flag ≡ true) × (thread ≡ ended)

-- A thread that is not at its end may take a step within the loop, and leaves it under the flag.
Agrees-thread :
    (s : Stage) (flag : Bool) (t u : Polling)
    → (t ≡ ended → ⊥)
    → (u ≡ testing) ⊎ ((u ≡ polling) ⊎ (flag ≡ true))
    → Agrees s flag t
    → Agrees s flag u
Agrees-thread alive flag t u going (inl e) a = (a.0, inl e)
Agrees-thread alive flag t u going (inr (inl e)) a = (a.0, inr e)
Agrees-thread alive flag t u going (inr (inr e)) a = let h = a.0 in cc
Agrees-thread stopping flag t u going e a = a
Agrees-thread joined flag t u going e a = absurd (going a.1)
Agrees-thread flushed flag t u going e a = absurd (going a.1)
Agrees-thread deleted flag t u going e a = absurd (going a.1)

Step-Agrees :
    {m n : ManagedProducer}
    → Agrees m.stage m.stop_polling m.thread
    → Step m n
    → Agrees n.stage n.stop_polling n.thread
Step-Agrees {m} a (Step.poll_begin t f) =
    Agrees-thread m.stage _ m.thread polling (λ h. cc) (inr (inl refl)) a
Step-Agrees {m} a (Step.poll_end t) =
    Agrees-thread m.stage _ m.thread testing (λ h. cc) (inl refl) a
Step-Agrees {m} a (Step.leave t f) =
    Agrees-thread m.stage _ m.thread ended (λ h. cc) (inr (inr f)) a
Step-Agrees a (Step.stop s) = (refl, tt)
Step-Agrees a (Step.join s t) = ((rw s at a).0, t)
Step-Agrees a (Step.flush s) = rw s at a
Step-Agrees a (Step.delete s) = rw s at a

Run-Agrees : {m : ManagedProducer} → Run m → Agrees m.stage m.stop_polling m.thread
Run-Agrees Run.start = (refl, inl refl)
Run-Agrees (Run.later r st) = Step-Agrees (Run-Agrees r) st

no_step : (m n : ManagedProducer) → m.stage ≡ deleted → m.thread ≡ ended → Step m n → ⊥
no_step m n d e (Step.poll_begin t f) = cc
no_step m n d e (Step.poll_end t) = cc
no_step m n d e (Step.leave t f) = cc
no_step m n d e (Step.stop s) = cc
no_step m n d e (Step.join s t) = cc
no_step m n d e (Step.flush s) = cc
no_step m n d e (Step.delete s) = cc

-- Once the destructor of a managed producer has deleted the producer, the polling thread is behind
-- its loop, and nothing can happen any more: no poll begins or goes on.
pub Run-deleted :
    {m : ManagedProducer}
    → Run m
    → m.stage ≡ deleted
    → (m.thread ≡ ended) × ((n : ManagedProducer) → ¬ Step m n)
Run-deleted {m} r d =
    let reached : Agrees m.stage m.stop_polling m.thread = Run-Agrees r in
    let a = rw d at reached in (a.1, λ n. no_step m n d a.1)
