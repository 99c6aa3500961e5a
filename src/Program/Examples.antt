-- ===== src/Program/Examples.antt =====
-- A capture of six frames of one connection, with one consumer.
use mathlib.Core.List.{Perm}
use mathlib.Core.List.Perm
use huntind.Common.{◌≡◌, refl, true, pos, List, [], ◌∷◌, ◌++◌, append-nil, All, arith}
use huntind.Common.Outcome.{ok, fault}
use huntind.Common.Batches.{join}
use huntind.Strings.{Text, to_string, text_eq, text_lt}
use huntind.Settings.{CaptureOption, default_option}
use huntind.Buffer.{enqueue, empty}
use huntind.Buffer.Sequential.{pending}
use huntind.Packet.Reads.{load, load_bytes, big_endian, little_endian}
use huntind.Packet.{
  RawPacket, ParsedPacket, present, copy_payload_to_blob, process_tcp, process_udp,
  process_transport, process_headers, process_ipv4_packet, process_raw_bytes, parse_packet,
}
use huntind.Packet.Examples.{there_start, there_start-IsWhole, all_bytes-IsByte}
use huntind.Flow.{Flow, make_flow, check_length, is_flow_ready}
use huntind.Flow.Map.{lookup, put}
use huntind.Live.{LiveParser, new_parser, live_handler}
use huntind.Sink.Examples.{packet}
use huntind.Sink.Streams.{with_key}
use huntind.Sink.{
  Sink, init, parse_raw_packets, append_packet, merge_packet, merge_to_existing_flow,
}
use huntind.Service
use huntind.Service.Spec.{Segment, packets_of, sent_of, IsCut}
use huntind.Service.Keys.{chunks}
use huntind.Service.{Service, new_service, out_of}
use huntind.Program.Frames.{IsReadable}
use huntind.Program.Segments.{Run-segments}
use huntind.Program.{
  Consumer, Program, new_consumer, new_consumers, new_program, add_make_flow, with_service,
  taken_by, Local, Step, Run,
}

abbrev option : CaptureOption
option = record default_option { min_packets = pos 5; max_packets = pos 6 }

abbrev six : List RawPacket
six = there_start ∷ there_start ∷ there_start ∷ there_start ∷ there_start ∷ there_start ∷ []

-- The states: captured, read by the consumer, handed over, parsed, merged, and read by LoopTask.
abbrev full_parser : LiveParser
full_parser =
    live_handler
      (live_handler
        (live_handler
          (live_handler (live_handler (live_handler new_parser there_start) there_start)
            there_start)
          there_start)
        there_start)
      there_start

abbrev captured : Program
captured = record { parser = full_parser; consumers = new_consumer ∷ [] }

abbrev six_captured : List RawPacket
six_captured =
    ((((([] ++ there_start ∷ []) ++ there_start ∷ []) ++ there_start ∷ []) ++ there_start ∷ [])
      ++ there_start ∷ [])
    ++ there_start ∷ []

captured-Run : Run option 1 captured six_captured
unfolding new_program new_consumers
captured-Run =
    let one = Run.later Run.start (Step.capture there_start) in
    let two = Run.later one (Step.capture there_start) in
    let three = Run.later two (Step.capture there_start) in
    let four = Run.later three (Step.capture there_start) in
    let five = Run.later four (Step.capture there_start) in
    Run.later five (Step.capture there_start)

abbrev awake : Consumer
awake = record new_consumer { awake = true }

abbrev holding : Consumer
holding = record awake { fetched = six ∷ [] }

all_waiting : Perm (taken_by (awake ∷ []) ++ (six ++ [])) (pending full_parser.queue)
unfolding new_consumer new_parser live_handler enqueue empty pending
all_waiting = Perm.rfl

abbrev handed : Consumer
handed = add_make_flow holding six

handed-Run :
    Run option 1 (record captured { consumers = handed ∷ [] }) (((six_captured ++ []) ++ []) ++ [])
unfolding new_consumer new_service new_parser live_handler
handed-Run =
    let woken = Run.later captured-Run (Step.wake [] [] new_consumer refl refl refl refl) in
    let read = Run.later woken (Step.fetch [] [] awake six [] refl refl refl all_waiting) in
    Run.later read (Step.within [] [] holding _ refl (Local.hand_over six refl (omega arith)))

-- The packet that each frame carries.
abbrev carried : ParsedPacket
carried = elim (parse_packet option there_start) [ ok t ↦ t | fault _ ↦ packet [] 0 ]

carried-ok : (parse_packet option there_start ≡ ok carried) × (present carried ≡ true)
unfolding parse_packet process_raw_bytes process_ipv4_packet process_headers process_transport
    process_tcp process_udp copy_payload_to_blob load load_bytes big_endian little_endian to_string
    present
carried-ok = (refl, refl)

there_start-IsReadable : IsReadable there_start
there_start-IsReadable = (all_bytes-IsByte there_start.byte_arr refl, there_start-IsWhole)

six-IsReadable : All IsReadable six
six-IsReadable = let f = there_start-IsReadable in (f, (f, (f, (f, (f, (f, tt))))))

abbrev six_parsed : List ParsedPacket
six_parsed = carried ∷ carried ∷ carried ∷ carried ∷ carried ∷ carried ∷ []

six_parsed-ok : parse_raw_packets option six ≡ ok six_parsed
unfolding parse_raw_packets
six_parsed-ok = rw (carried-ok.0, carried-ok.1) refl

abbrev merged : Sink
merged = elim (merge_to_existing_flow option init six_parsed) [ ok t ↦ t | fault _ ↦ init ]

merged-ok : merge_to_existing_flow option init six_parsed ≡ ok merged
unfolding merge_to_existing_flow merge_packet append_packet make_flow check_length is_flow_ready
    lookup put text_eq text_lt enqueue init empty parse_packet process_raw_bytes process_ipv4_packet
    process_headers process_transport process_tcp process_udp copy_payload_to_blob load load_bytes
    big_endian little_endian to_string
merged-ok = refl

abbrev parsed : Consumer
parsed = record new_consumer { parsed_tasks = (six, six_parsed) ∷ [] }

abbrev filled_service : Service
filled_service = record new_service { sink = merged }

abbrev filled : Consumer
filled = record new_consumer { service = filled_service; merged = six ∷ [] }

-- LoopTask has read the flow of the first five packets.
abbrev waiting_flows : List Flow
waiting_flows = pending merged.queue

abbrev busy_service : Service
busy_service = record filled_service { fetched = waiting_flows ∷ [] }

abbrev busy : Program
busy = record captured { consumers = with_service filled busy_service ∷ [] }

all_read : Perm (out_of filled_service ++ (waiting_flows ++ [])) waiting_flows
unfolding new_service
all_read = rw append-nil Perm.rfl

abbrev six_frames : List RawPacket
six_frames = (((((six_captured ++ []) ++ []) ++ []) ++ []) ++ []) ++ []

busy-Run : Run option 1 busy six_frames
unfolding new_consumer new_service add_make_flow
busy-Run =
    let taken = Run.later handed-Run (
      Step.within [] [] handed parsed refl
        (Local.parse [] [] six six_parsed refl refl six_parsed-ok)) in
    let joined = Run.later taken (
      Step.within [] [] parsed filled refl
        (Local.merge [] [] six six_parsed merged refl refl merged-ok)) in
    Run.later joined (
      Step.within [] [] filled (with_service filled busy_service) refl
        (Local.serve busy_service refl (Service.Step.loop_read waiting_flows [] all_read) refl))

Run-segments_example :
    All
      (λ c.
        ((ps : List ParsedPacket) × (parse_raw_packets option (join c.merged) ≡ ok ps)
          × ((k : Text)
              → (segments : List (Segment ParsedPacket)) × (packets_of segments
                    ++ lookup k c.service.sink.flow_table
                  ≡ with_key k ps)
                × All (IsCut 5) segments
                × (sent_of segments ≡ chunks k (pending c.service.sink.queue))))
        × ((waiting : List Flow) × Perm
              (out_of c.service ++ waiting)
              (pending c.service.sink.queue)))
      busy.consumers
Run-segments_example =
    Run-segments option 5 6 refl refl refl (omega arith) (omega arith) busy-Run six-IsReadable
