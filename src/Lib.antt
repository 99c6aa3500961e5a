-- ===== src/Lib.antt =====
-- huntind: a capture program that turns live network traffic into encoded flows.
--
-- Packets come from libpcap (source/live_parser.cpp), are parsed (source/parsed_packet.cpp), are
-- collected in a table of flows (source/kafka_sink.cpp, source/_kafka_impl.cpp), go as flows through a
-- double buffer (include/hound/double_buffered_queue.hpp) to the encoder (source/flow-encode.cpp), and
-- the encodings are sent to Kafka (source/kafka_callback.cpp,
-- include/hound/sink/kafka/producer_pool.hpp).
--
-- The modules:
--   Common    names and lemmas that the others share; Common.Outcome says what a C++ call may do
--   Strings   texts as lists of bytes, `std::to_string`, the order of `std::string`
--   Settings  include/hound/type/capture_option.hpp
--   Packet    source/parsed_packet.cpp and include/hound/type/parsed_packet.hpp: `parse_packet` is the
--             constructor, `process_raw_bytes`, `process_ipv4_packet` and `copy_payload_to_blob` the
--             functions that it calls; Packet.Reads has the reads through pointers, Packet.Bounds and
--             Packet.Whole when no read is outside the frame
--   Buffer    include/hound/double_buffered_queue.hpp: Buffer.Sequential for calls one after the other,
--             Buffer.Interleaving for the steps of several threads: adding and swapping have a begin
--             and an end, and a run in which they meet on one queue has raced
--   Flow      source/hd_flow.cpp, the flow table (a `std::map`, as a list of entries in the order of
--             the keys), and the flow tests of source/util.cpp
--   Sink      MakeFlow, merge_to_existing_flow and cleanUnwantedFlowTask
--   Kafka     the partitioner, MyPartitionCB (Kafka.Partition), the pool of producers (Kafka.Pool), the
--             objects that KafkaConf owns (Kafka.Config), a producer with its polling thread
--             (Kafka.Managed), the other callbacks (Kafka.Callback) and sending (Kafka.Send)
--   Service   KafkaSink of source/kafka_sink.cpp with its threads, as steps: Service.Spec says what it
--             promises for the packets of one key, Service.Refinement that every run keeps it,
--             Service.Handed follows the flows through the threads of LoopTask, Service.Job is the
--             task that LoopTask adds, and Service.Timeouts has when packets are lost
--   Program   the capture: source/live_parser.cpp with the sinks of its consumers and the tasks that
--             they add, as interleaved steps. Program.Invariant has what holds in every state, Packets
--             and Segments follow the packets and the flows, and Safety is on what may run next
--   Encode    source/flow-encode.cpp: packets to rows, flows to windows, batches, merging, and the
--             normalisation of the windows (Encode.Normalise); Encode.Jobs has encode_flow_tensors,
--             encode_flow_concurrently and EncodeFlowList
--   Options   ParseOptions of source/util.cpp (Options.Valid has what the parsed options satisfy), with
--             the tables of include/hound/common/util.hpp (Options.Tables), `std::stoi`
--             (Options.Number) and the usage text (Options.Usage)
--   Tasks     source/task_executor.cpp: the thread that starts tasks, as steps, and its shutdown
--   Live      source/live_parser.cpp: capturing and the rounds of a consumer, one call after the other
--   Models    source/model_pool.cpp: borrowing models, as steps
--   Sleep     include/hound/interruptible_sleep.hpp and the loops of the two cleaning threads
--   Log       include/hound/common/macro.hpp
--   Helpers   compression, the timer, literals, the scope guard, globals and keys
--   Signals   the signal handler of main.cpp
--   Start     init_parameters of main.cpp, OpenLiveHandle and SetFilter of source/util.cpp
--
-- How state and errors are modelled. A function that changes an object takes the object and gives the
-- new one. A pointer into a frame is an offset into its list of bytes; a read outside the list, an
-- exception and a failing assertion are faults, `Outcome`. Multi-byte fields are compared in the byte
-- order of a little-endian machine, as the source compares them before `ntohs`. Functions that hold a
-- mutex for all their work are one step; AddTask, which takes its cpu before the lock, is two. libtorch
-- is not part of the repository: its tensors are a parameter, `Encode.Torch.Tensors`, with the laws of
-- slices and of joining; the model that encodes is a function parameter, and so is the time that
-- encoding takes, which its timer measures.
--
-- Fuel: `digits_of` has fuel n + 1 for the digits of n, `encode_rounds` has the size of the data, which
-- is enough for every batch size but 0 (there the source divides by zero).
--
-- The bytes of a frame are kept with it, although the source keeps only a view of the buffer of
-- libpcap: they are taken to stay as they were captured.
--
-- In Service and Program the buffers are never emptied: they hold all that was added, and a read gives
-- any part of it that was not read before, in any order. That covers every interleaving of loads,
-- stores, additions and swaps in which no addition meets a swap of its queue (Buffer.Interleaving),
-- reads that find items late or in another order included. What happens behind such a meeting is
-- undefined in C++ and not modelled. Reading, counting and adding a task are steps of their own. A
-- task of MakeFlow is two steps: parsing, and merging under the mutex. Any waiting task may be next. A
-- sink that is destroyed has no further steps: tasks that run behind that use what is no longer there.
-- The payload is 20 bytes in Program, as the encoder cuts its rows. What a task of LoopTask does is
-- Service.Job; how such tasks run at the same time is not modelled.
--
-- Not modelled: include/yalanting (a copy of another library), include/hound/dbg (another one), and
-- what libtorch, libpcap, librdkafka, zstd and easylog do inside: where the program relies on it, it is a
-- parameter with named hypotheses.
pub mod Common
pub mod Strings
pub mod Settings
pub mod Packet
pub mod Buffer
pub mod Flow
pub mod Sink
pub mod Kafka
pub mod Encode
pub mod Options
pub mod Tasks
pub mod Live
pub mod Models
pub mod Signals
pub mod Start
pub mod Service
pub mod Sleep
pub mod Log
pub mod Helpers
pub mod Program
