-- ===== src/Service.antt =====
-- The sink with its threads, of source/kafka_sink.cpp: the constructor's tasks, `LoopTask`, the cleaning
-- task and the destructor. Threads meet in the flow table, under its mutex, and in the double buffer.
pub mod Spec
pub mod Keys
pub mod Follows
pub mod Refinement
pub mod Job
pub mod Pipeline
pub mod Handed
pub mod Timeouts
pub mod Examples
mod Encoded
mod Calm
use mathlib.Core.List.{Perm}
use huntind.Common.Batches.{join}
use huntind.Buffer.Sequential.{pending}
use huntind.Common.{
  ℕ, zero, suc, ◌%◌, ◌+◌, ◌<◌, ◌≡◌, List, [], ◌∷◌, ◌++◌, length, Bool, true, false,
}
use huntind.Common.Outcome.{ok}
use huntind.Settings.{CaptureOption}
use huntind.Packet.{ParsedPacket}
use huntind.Flow.{Flow}
use huntind.Sink.{Sink, init, merge_to_existing_flow, clean_unwanted_flows}

-- The sink, whether its loops go on, the lists that the threads of LoopTask have read, those of them
-- that are counted, the lists that were handed to the executor, oldest first, and what LoopTask added
-- to `NumBlockedFlows`. The sink's buffer is never emptied here: it holds every flow that was enqueued.
pub record Service : Type 0 where
  pub sink : Sink
  pub is_running : Bool
  pub fetched : List (List Flow)
  pub counted : List (List Flow)
  pub jobs : List (List Flow)
  pub blocked_flows : ℕ

unfoldable pub new_service : Service
new_service = record {
  sink = init;
  is_running = true;
  fetched = [];
  counted = [];
  jobs = [];
  blocked_flows = 0;
}

-- The flows that the threads of LoopTask have got from the buffer.
abbrev pub out_of : Service → List Flow
out_of s = join s.jobs ++ (join s.counted ++ join s.fetched)

-- The devices of the tasks that the constructor starts, `n` rounds of its loop from round `i` on.
unfoldable pub loop_devices : (num_gpus n i : ℕ) → List ℕ
loop_devices num_gpus zero i = []
loop_devices num_gpus (suc n) i = (i + 1) % num_gpus ∷ loop_devices num_gpus n (i + 1)

-- `NumBlockedFlows.fetch_add(current_queue->size())` of a thread that has read `current_queue`.
unfoldable pub count_flows :
    Service → (others : List (List Flow)) (current_queue : List Flow) → Service
count_flows s others current_queue = record s {
  fetched = others;
  counted = s.counted ++ (current_queue ∷ []);
  blocked_flows = s.blocked_flows + length current_queue;
}

-- `AddTask` of a thread that has counted `current_queue`.
unfoldable pub add_loop_task :
    Service → (others : List (List Flow)) (current_queue : List Flow) → Service
add_loop_task s others current_queue = record s {
  counted = others;
  jobs = s.jobs ++ (current_queue ∷ []);
}

-- `mIsRunning = false` of the destructor. A loop that has tested it before finishes its round, so that
-- rounds of all kinds may come behind it.
unfoldable pub stop_service : Service → Service
stop_service s = record s { is_running = false }

-- The last argument is the parsed packets that a step brings in. Merging and cleaning hold the mutex of
-- the flow table and exclude each other. A read does not: it gives any part of the flows that were
-- enqueued and not read before, in any order, as every interleaving does in which no flow is added while
-- its queue is swapped. Reading, counting and adding a task are steps of their own.
pub data Step (opt : CaptureOption) (s : Service) : Service → List ParsedPacket → Type 0 where
  merge :
      (parsed_list : List ParsedPacket) (sink : Sink)
      → merge_to_existing_flow opt s.sink parsed_list ≡ ok sink
      → Step opt s (record s { sink = sink }) parsed_list
  clean :
      (now : ℕ) (sink : Sink)
      → clean_unwanted_flows opt now s.sink ≡ ok sink
      → Step opt s (record s { sink = sink }) []
  loop_read :
      (batch rest : List Flow)
      → Perm (out_of s ++ (batch ++ rest)) (pending s.sink.queue)
      → Step opt s (record s { fetched = s.fetched ++ (batch ∷ []) }) []
  loop_skip :
      (before after : List (List Flow))
      → s.fetched ≡ before ++ [] ∷ after
      → Step opt s (record s { fetched = before ++ after }) []
  loop_count :
      (before after : List (List Flow)) (current_queue : List Flow)
      → s.fetched ≡ before ++ current_queue ∷ after
      → 0 < length current_queue
      → Step opt s (count_flows s (before ++ after) current_queue) []
  loop_add :
      (before after : List (List Flow)) (current_queue : List Flow)
      → s.counted ≡ before ++ current_queue ∷ after
      → Step opt s (add_loop_task s (before ++ after) current_queue) []
  stop : Step opt s (stop_service s) []

pub data Run (opt : CaptureOption) : Service → List ParsedPacket → Type 0 where
  start : Run opt new_service []
  later :
      {s t : Service} {arrived new : List ParsedPacket}
      → Run opt s arrived
      → Step opt s t new
      → Run opt t (arrived ++ new)
