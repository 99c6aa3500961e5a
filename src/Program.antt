-- ===== src/Program.antt =====
-- The capture with its consumers and their sinks: source/live_parser.cpp and source/kafka_sink.cpp, as
-- interleaved steps. Every consumer has a sink of its own. What a capture hands over goes through two
-- executors, whose tasks run at the same time: any task that waits may be the next.
pub mod Frames
pub mod Invariant
pub mod Safety
pub mod Segments
pub mod Packets
mod Examples
use mathlib.Core.List.{Perm}
use huntind.Common.{ℕ, zero, suc, ◌<◌, ◌≡◌, List, [], ◌∷◌, ◌++◌, length, Bool, true, false}
use huntind.Common.Batches.{join}
use huntind.Common.Gather.{gather}
use huntind.Common.Outcome.{ok}
use huntind.Settings.{CaptureOption}
use huntind.Packet.{RawPacket, ParsedPacket}
use huntind.Buffer.Sequential.{pending}
use huntind.Live.{LiveParser, new_parser, live_handler, stop_capture}
use huntind.Sink.{Sink, parse_raw_packets, merge_to_existing_flow}
use huntind.Service
use huntind.Service.{Service, new_service, stop_service}

-- A consumer and its sink: whether it is in a round, whether the sink is there, the batch that it has
-- read and not handed over (a list of one or none), the batches of the tasks that have not begun, the
-- tasks that have parsed their batch and wait for the mutex of the flow table, and the batches that
-- were merged, oldest first.
pub record Consumer : Type 0 where
  pub awake : Bool
  pub alive : Bool
  pub service : Service
  pub fetched : List (List RawPacket)
  pub raw_tasks : List (List RawPacket)
  pub parsed_tasks : List (List RawPacket × List ParsedPacket)
  pub merged : List (List RawPacket)

-- The buffer of the parser is never emptied here: it holds every packet that was captured.
pub record Program : Type 0 where
  pub parser : LiveParser
  pub consumers : List Consumer

abbrev pub sources_of : List (List RawPacket × List ParsedPacket) → List (List RawPacket)
sources_of [] = []
sources_of ((raw_list, parsed_list) ∷ tasks) = raw_list ∷ sources_of tasks

-- All batches that a consumer has read.
abbrev pub batches_of : Consumer → List (List RawPacket)
batches_of c = c.merged ++ (sources_of c.parsed_tasks ++ (c.raw_tasks ++ c.fetched))

abbrev pub taken_by : List Consumer → List RawPacket
taken_by consumers = join (gather batches_of consumers)

unfoldable pub new_consumer : Consumer
new_consumer = record {
  awake = false;
  alive = true;
  service = new_service;
  fetched = [];
  raw_tasks = [];
  parsed_tasks = [];
  merged = [];
}

-- The end of a round of `consumer_job` that has read `current_queue`: the task is added.
unfoldable pub add_make_flow : Consumer → (current_queue : List RawPacket) → Consumer
add_make_flow c current_queue = record c {
  awake = false;
  fetched = [];
  raw_tasks = c.raw_tasks ++ (current_queue ∷ []);
}

abbrev pub with_service : Consumer → Service → Consumer
with_service c service = record c { service = service }

-- What a consumer and the threads and tasks of its sink do without the others. The sink is a local
-- variable of `consumer_job`: its destructor ends the loops, and then it is gone. A task that runs
-- behind that has no step here: the source uses what is no longer there.
pub data Local (opt : CaptureOption) (c : Consumer) : Consumer → Type 0 where
  skip : c.fetched ≡ [] ∷ [] → Local opt c (record c { awake = false; fetched = [] })
  hand_over :
      (current_queue : List RawPacket)
      → c.fetched ≡ current_queue ∷ []
      → 0 < length current_queue
      → Local opt c (add_make_flow c current_queue)
  parse :
      (before after : List (List RawPacket)) (raw_list : List RawPacket)
      (parsed_list : List ParsedPacket)
      → c.alive ≡ true
      → c.raw_tasks ≡ before ++ raw_list ∷ after
      → parse_raw_packets opt raw_list ≡ ok parsed_list
      → Local opt c (record c {
        raw_tasks = before ++ after;
        parsed_tasks = c.parsed_tasks ++ ((raw_list, parsed_list) ∷ []);
      })
  merge :
      (before after : List (List RawPacket × List ParsedPacket)) (raw_list : List RawPacket)
      (parsed_list : List ParsedPacket) (sink : Sink)
      → c.alive ≡ true
      → c.parsed_tasks ≡ before ++ (raw_list, parsed_list) ∷ after
      → merge_to_existing_flow opt c.service.sink parsed_list ≡ ok sink
      → Local opt c (record (with_service c (record c.service { sink = sink })) {
        parsed_tasks = before ++ after;
        merged = c.merged ++ (raw_list ∷ []);
      })
  -- The cleaning task and the threads of LoopTask.
  serve :
      (service : Service)
      → c.alive ≡ true
      → Service.Step opt c.service service []
      → service.is_running ≡ c.service.is_running
      → Local opt c (with_service c service)
  destroy : c.service.is_running ≡ false → Local opt c (record c { alive = false })

-- The constructor of the parser starts `workers` consumers.
unfoldable pub new_consumers : (workers : ℕ) → List Consumer
new_consumers zero = []
new_consumers (suc workers) = new_consumer ∷ new_consumers workers

unfoldable pub new_program : (workers : ℕ) → Program
new_program workers = record { parser = new_parser; consumers = new_consumers workers }

module _ (opt : CaptureOption) where
  -- The last argument is what a step captures. A consumer that has tested `is_running` finishes its
  -- round even if the capture is stopped in between. A read gives any part of the packets that were
  -- captured and that no consumer has read before, in any order, as every interleaving does in which
  -- no packet is added while its queue is swapped.
  pub data Step (p : Program) : Program → List RawPacket → Type 0 where
    capture :
        (raw : RawPacket) → Step p (record p { parser = live_handler p.parser raw }) (raw ∷ [])
    stop : Step p (record p { parser = stop_capture p.parser }) []
    wake :
        (before after : List Consumer) (c : Consumer)
        → p.consumers ≡ before ++ c ∷ after
        → p.parser.is_running ≡ true
        → c.service.is_running ≡ true
        → c.awake ≡ false
        → Step p (record p { consumers = before ++ record c { awake = true } ∷ after }) []
    fetch :
        (before after : List Consumer) (c : Consumer) (batch rest : List RawPacket)
        → p.consumers ≡ before ++ c ∷ after
        → c.awake ≡ true
        → c.fetched ≡ []
        → Perm (taken_by p.consumers ++ (batch ++ rest)) (pending p.parser.queue)
        → Step p (record p { consumers = before ++ record c { fetched = batch ∷ [] } ∷ after }) []
    leave :
        (before after : List Consumer) (c : Consumer)
        → p.consumers ≡ before ++ c ∷ after
        → p.parser.is_running ≡ false
        → c.awake ≡ false
        → Step p
            (record p { consumers = before ++ with_service c (stop_service c.service) ∷ after })
            []
    within :
        (before after : List Consumer) (c d : Consumer)
        → p.consumers ≡ before ++ c ∷ after
        → Local opt c d
        → Step p (record p { consumers = before ++ d ∷ after }) []

  pub data Run (workers : ℕ) : Program → List RawPacket → Type 0 where
    start : Run workers (new_program workers) []
    later :
        {p q : Program} {captured new : List RawPacket}
        → Run workers p captured
        → Step p q new
        → Run workers q (captured ++ new)
