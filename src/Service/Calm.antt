-- ===== src/Service/Calm.antt =====
-- A run whose cleaning round comes before any entry has timed out.
use huntind.Common.{true, ◌≡◌, ◌≢◌, refl, List, [], ◌++◌, arith}
use huntind.Common.Outcome.{ok, fault}
use huntind.Strings.{Text, codes, text_eq, text_lt}
use huntind.Packet.{ParsedPacket}
use huntind.Buffer.{enqueue, empty}
use huntind.Buffer.Sequential.{pending}
use huntind.Flow.{make_flow, back, check_length, is_flow_ready, is_timeout}
use huntind.Flow.Map.{lookup, put}
use huntind.Sink.Streams.{emitted, with_key}
use huntind.Sink.Examples.{option, packets}
use huntind.Sink.{
  Sink, init, append_packet, merge_packet, merge_to_existing_flow, clean_entries,
  clean_unwanted_flows,
}
use huntind.Service.Examples.{merged, merged-ok, after_merge}
use huntind.Service.Timeouts.{IsCalm, Run-keeps}
use huntind.Service.{Service, new_service, Step, Run}

abbrev kept : Sink
kept = elim (clean_unwanted_flows option 5 merged) [ ok t ↦ t | fault _ ↦ init ]

kept-ok : clean_unwanted_flows option 5 merged ≡ ok kept
unfolding clean_unwanted_flows clean_entries is_timeout back merge_to_existing_flow merge_packet
    append_packet make_flow check_length is_flow_ready lookup put text_eq text_lt enqueue init empty
kept-ok = refl

abbrev swept : Service
swept = record after_merge { sink = kept }

abbrev arrived : List ParsedPacket
arrived = ([] ++ packets) ++ []

abbrev key : Text
key = codes "a"

two_steps : Run option swept arrived
unfolding new_service
two_steps =
    let merged_in = Run.later Run.start (Step.merge packets merged merged-ok) in
    Run.later merged_in (Step.clean 5 kept kept-ok)

young : is_timeout option 5 (lookup key merged.flow_table) ≢ ok true
unfolding is_timeout back merge_to_existing_flow merge_packet append_packet make_flow check_length
    is_flow_ready lookup put text_eq text_lt enqueue init empty
young h = cc

calm : IsCalm key two_steps
unfolding two_steps
calm = (tt, young)

Run-keeps_example :
    emitted key (pending swept.sink.queue) ++ lookup key swept.sink.flow_table
    ≡ with_key key arrived
Run-keeps_example = Run-keeps option 2 3 refl refl (omega arith) (omega arith) key two_steps calm
