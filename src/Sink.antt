-- ===== src/Sink.antt =====
-- The flow side of source/kafka_sink.cpp and source/_kafka_impl.cpp: raw packets become parsed
-- packets, these go to the flow table, and flows that are long enough go to the double buffer.
-- Each function runs under the mutex of the flow table, as one step. `assert` is that of a debug
-- build.
pub mod Invariant
pub mod Streams
pub mod Merge
pub mod Entries
pub mod Clean
pub mod Intake
pub mod Examples
use huntind.Common.{ℕ, ◌++◌, List, [], ◌∷◌, Bool, true, false, length, leb, if◌then◌else◌}
use huntind.Common.Outcome.{Outcome, ok, fault, assertion_failed, ◌>>=◌}
use huntind.Settings.{CaptureOption}
use huntind.Packet.{RawPacket, ParsedPacket, parse_packet, present}
use huntind.Buffer.{DoubleBuffer, empty, enqueue}
use huntind.Flow.{Flow, make_flow, size_of_int, is_flow_ready, is_timeout}
use huntind.Flow.Map.{Map, lookup, put}

pub record Sink : Type 0 where
  pub flow_table : Map ParsedPacket
  pub queue : DoubleBuffer Flow

unfoldable pub init : Sink
init = record { flow_table = []; queue = empty }

-- The raw packets in the order in which they are taken from their queue.
unfoldable pub parse_raw_packets : CaptureOption → List RawPacket → Outcome (List ParsedPacket)
parse_raw_packets opt [] = ok []
parse_raw_packets opt (item ∷ raw_list) = do
  parsed ← parse_packet opt item
  parsed_list ← parse_raw_packets opt raw_list
  ok (if present parsed then parsed ∷ parsed_list else parsed_list)

-- `existing.emplace_back(_parsed)` and the assertion behind it.
unfoldable pub append_packet :
    CaptureOption → Sink → ParsedPacket → (existing : List ParsedPacket) → Outcome Sink
append_packet opt sink parsed existing =
    let extended = existing ++ (parsed ∷ []) in
    if leb (length extended) (size_of_int opt.max_packets)
    then ok (record sink { flow_table = put parsed.key extended sink.flow_table })
    else fault assertion_failed

-- The body of the loop for one packet.
unfoldable pub merge_packet : CaptureOption → Sink → ParsedPacket → Outcome Sink
merge_packet opt sink parsed =
    let existing = lookup parsed.key sink.flow_table in
    if is_flow_ready opt existing
    then (do
      flow ← make_flow parsed.key existing
      append_packet opt (record sink { queue = enqueue sink.queue flow }) parsed [])
    else append_packet opt sink parsed existing

unfoldable pub merge_to_existing_flow : CaptureOption → Sink → List ParsedPacket → Outcome Sink
merge_to_existing_flow opt sink [] = ok sink
merge_to_existing_flow opt sink (parsed ∷ rest) = do
  next ← merge_packet opt sink parsed
  merge_to_existing_flow opt next rest

unfoldable pub make_flows : CaptureOption → Sink → List RawPacket → Outcome Sink
make_flows opt sink raw_list = do
  parsed_list ← parse_raw_packets opt raw_list
  merge_to_existing_flow opt sink parsed_list

-- The entries that stay, and the buffer with the flows that went to it.
unfoldable pub clean_entries :
    CaptureOption
    → (now : ℕ) → Map ParsedPacket
    → DoubleBuffer Flow
    → Outcome (Map ParsedPacket × DoubleBuffer Flow)
clean_entries opt now [] queue = ok ([], queue)
clean_entries opt now ((key, list) ∷ entries) queue =
    let long = (do flow ← make_flow key list; clean_entries opt now entries (enqueue queue flow)) in
    let short = (do
      timeout ← is_timeout opt now list
      (kept, next) ← clean_entries opt now entries queue
      ok (if timeout then kept else (key, list) ∷ kept, next)) in
    if leb (size_of_int opt.min_packets) (length list) then long else short

-- One round of `cleanUnwantedFlowTask`, at the time `now`.
unfoldable pub clean_unwanted_flows : CaptureOption → (now : ℕ) → Sink → Outcome Sink
clean_unwanted_flows opt now sink = do
  (kept, queue) ← clean_entries opt now sink.flow_table sink.queue
  ok (record { flow_table = kept; queue = queue })
