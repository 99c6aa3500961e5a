-- ===== src/Service/Examples.antt =====
-- A run of six steps, and the theorems of the service on it.
use mathlib.Core.List.{Perm}
use mathlib.Core.List.Perm
use huntind.Common.{
  ℕ, ◌+◌, ◌<◌, ◌≡◌, refl, List, [], ◌∷◌, ◌++◌, append-nil, length, false, All, arith,
}
use huntind.Common.Outcome.{ok, fault}
use huntind.Strings.{codes, text_eq, text_lt}
use huntind.Packet.{ParsedPacket}
use huntind.Buffer.{enqueue, empty}
use huntind.Buffer.Sequential.{pending}
use huntind.Flow.{Flow, make_flow, back, check_length, is_flow_ready, is_timeout}
use huntind.Flow.Map.{lookup, put}
use huntind.Sink.Streams.{with_key}
use huntind.Sink.Examples.{option, packets}
use huntind.Sink.{
  Sink, init, append_packet, merge_packet, merge_to_existing_flow, clean_entries,
  clean_unwanted_flows,
}
use huntind.Service.Spec.{Spec, Segment, SpecRun, sent_of, packets_of, IsCut}
use huntind.Service.Keys.{chunks}
use huntind.Service.Refinement.{Run-refines, Run-segments, Run-Returns}
use huntind.Service.{Service, new_service, count_flows, add_loop_task, stop_service, Step, Run}

abbrev pub merged : Sink
merged = elim (merge_to_existing_flow option init packets) [ ok t ↦ t | fault _ ↦ init ]

pub merged-ok : merge_to_existing_flow option init packets ≡ ok merged
unfolding merge_to_existing_flow merge_packet append_packet make_flow check_length is_flow_ready
    lookup put text_eq text_lt enqueue init empty
merged-ok = refl

abbrev cleaned : Sink
cleaned = elim (clean_unwanted_flows option 100 merged) [ ok t ↦ t | fault _ ↦ init ]

cleaned-ok : clean_unwanted_flows option 100 merged ≡ ok cleaned
unfolding clean_unwanted_flows clean_entries is_timeout back merge_to_existing_flow merge_packet
    append_packet make_flow check_length is_flow_ready lookup put text_eq text_lt enqueue init empty
cleaned-ok = refl

abbrev pub after_merge : Service
after_merge = record new_service { sink = merged }

abbrev after_clean : Service
after_clean = record after_merge { sink = cleaned }

-- A thread of LoopTask has read all that was enqueued, counted it and added its task.
abbrev enqueued_flows : List Flow
enqueued_flows = pending cleaned.queue

abbrev pub ended : Service
ended = record after_clean {
  is_running = false;
  jobs = enqueued_flows ∷ [];
  blocked_flows = 0 + length enqueued_flows;
}

abbrev arrived : List ParsedPacket
arrived = ((((([] ++ packets) ++ []) ++ []) ++ []) ++ []) ++ []

some_enqueued : 0 < length enqueued_flows
unfolding pending clean_unwanted_flows clean_entries is_timeout back merge_to_existing_flow
    merge_packet append_packet make_flow check_length is_flow_ready lookup put text_eq text_lt
    enqueue init empty
some_enqueued = omega arith

all_read : Perm (enqueued_flows ++ []) enqueued_flows
all_read = rw append-nil Perm.rfl

pub six_steps : Run option ended arrived
unfolding new_service count_flows add_loop_task stop_service
six_steps =
    let merged_in = Run.later Run.start (Step.merge packets merged merged-ok) in
    let swept = Run.later merged_in (Step.clean 100 cleaned cleaned-ok) in
    let read = Run.later swept (Step.loop_read enqueued_flows [] all_read) in
    let counted = Run.later read (Step.loop_count [] [] enqueued_flows refl some_enqueued) in
    let added = Run.later counted (Step.loop_add [] [] enqueued_flows refl) in
    Run.later added Step.stop

Run-refines_example :
    (spec : Spec ParsedPacket) × SpecRun 2 spec (with_key (codes "a") arrived)
    × (spec.open_segment ≡ lookup (codes "a") ended.sink.flow_table)
    × (sent_of spec.segments ≡ chunks (codes "a") (pending ended.sink.queue))
Run-refines_example =
    Run-refines option 2 3 refl refl (omega arith) (omega arith) six_steps (codes "a")

Run-segments_example :
    (segments : List (Segment ParsedPacket)) × (packets_of segments
        ++ lookup (codes "b") ended.sink.flow_table
      ≡ with_key (codes "b") arrived)
    × All (IsCut 2) segments
    × (sent_of segments ≡ chunks (codes "b") (pending ended.sink.queue))
Run-segments_example =
    Run-segments option 2 3 refl refl (omega arith) (omega arith) six_steps (codes "b")

Run-Returns_example :
    ((ps : List ParsedPacket)
      → (sink : Sink) × (merge_to_existing_flow option ended.sink ps ≡ ok sink))
    × ((now : ℕ) → (sink : Sink) × (clean_unwanted_flows option now ended.sink ≡ ok sink))
Run-Returns_example = Run-Returns option 2 3 refl refl (omega arith) (omega arith) six_steps
