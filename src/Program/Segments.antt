-- ===== src/Program/Segments.antt =====
-- The packets of a key at every consumer, from the merged batches to the flows.
use mathlib.Core.List.{Perm}
use huntind.Common.{ℕ, ◌≤◌, ◌<◌, ◌≡◌, List, ◌++◌, pos, All}
use huntind.Common.Outcome.{ok}
use huntind.Common.Batches.{join}
use huntind.Common.Gather.{All-each}
use huntind.Strings.{Text}
use huntind.Settings.{CaptureOption}
use huntind.Packet.{RawPacket, ParsedPacket}
use huntind.Buffer.Sequential.{pending}
use huntind.Flow.{Flow}
use huntind.Flow.Map.{lookup}
use huntind.Program.Frames.{IsReadable}
use huntind.Sink.Streams.{with_key}
use huntind.Sink.{parse_raw_packets}
use huntind.Service.Spec.{Segment, packets_of, sent_of, IsCut}
use huntind.Service.Keys.{chunks}
use huntind.Service.Refinement
use huntind.Service.Handed.{Run-handed}
use huntind.Service.{out_of}
use huntind.Program.Invariant.{Run-Sound}
use huntind.Program.{Consumer, Program, Run}

module _ (opt : CaptureOption) (m limit : ℕ) (asked : opt.payload ≡ pos 20)
    (least : opt.min_packets ≡ pos m) (limited : opt.max_packets ≡ pos limit) (positive : 0 < m)
    (fits : m ≤ limit) where
  -- If the payload is 20, min_packets is m with 0 < m, max_packets is at least m, and every
  -- captured frame has bytes only, reaches behind its IPv4 header and, for TCP and UDP, behind the
  -- transport header and the payload bytes that are copied, then in every state that the
  -- interleaved steps of the program reach (a read gives any packets or flows that were added and
  -- not read before, as when nothing is added to a queue while it is swapped), the sink of each
  -- consumer has parsed the batches that it merged, in the order of merging; for every key the
  -- packets of that key are cut into segments and then the entry of the flow table, each segment
  -- sent with exactly m packets or lost with fewer, and the flows of the key that were enqueued
  -- are exactly the sent segments, in order; and the flows that the threads of LoopTask have read,
  -- counted or handed to the executor are together with some others, up to their order, the flows
  -- that were enqueued: none is taken twice.
  pub Run-segments :
      {workers : ℕ} {p : Program} {captured : List RawPacket}
      → Run opt workers p captured
      → All IsReadable captured
      → All
          (λ c.
            ((ps : List ParsedPacket) × (parse_raw_packets opt (join c.merged) ≡ ok ps)
              × ((k : Text)
                  → (segments : List (Segment ParsedPacket)) × (packets_of segments
                        ++ lookup k c.service.sink.flow_table
                      ≡ with_key k ps)
                    × All (IsCut m) segments
                    × (sent_of segments ≡ chunks k (pending c.service.sink.queue))))
            × ((waiting : List Flow) × Perm
                  (out_of c.service ++ waiting)
                  (pending c.service.sink.queue)))
          p.consumers
  Run-segments {p} r a =
      All-each
        (λ (c : Consumer) v. (
          (
            v.fed.arrived,
            v.fed.read_all,
            λ k. Refinement.Run-segments opt m limit least limited positive fits v.fed.run k,
          ),
          Run-handed opt m limit least limited positive fits v.fed.run,
        ))
        p.consumers (Run-Sound opt asked r a)
