-- ===== src/Sink/Examples.antt =====
-- A configuration, a few packets, and the theorems of the sink on them.
use huntind.Packet.Examples.{there, all_bytes-IsByte}
use huntind.Sink.Intake.{make_flows-Returns}
use huntind.Common.{ℕ, All, length, true, ◌≡◌, refl, pos, List, [], ◌∷◌, ◌++◌, arith}
use huntind.Common.Outcome.{ok, Returns}
use huntind.Strings.{Text, codes}
use huntind.Settings.{CaptureOption, default_option}
use huntind.Packet.{ParsedPacket, zeros}
use huntind.Buffer.{empty}
use huntind.Buffer.Sequential.{IsQuiet-empty, pending, pending-empty}
use huntind.Flow.{Flow}
use huntind.Sink.Invariant.{Inv, Inv-init}
use huntind.Sink.Streams.{stream, with_key}
use huntind.Sink.Merge.{merge-Returns}
use huntind.Sink.Clean.{clean-Returns}
use huntind.Sink.Entries.{kept_entries, ready_entries, AreFlowsOf}
use huntind.Sink.{
  parse_raw_packets, make_flows, Sink, init, merge_to_existing_flow, clean_unwanted_flows,
}

abbrev pub option : CaptureOption
option = record default_option { min_packets = pos 2; max_packets = pos 3 }

abbrev pub packet : Text → (ts_sec : ℕ) → ParsedPacket
packet key ts = record {
  protocol = 6;
  ts_sec = ts;
  ts_usec = 0;
  cap_len = 60;
  key = key;
  blob_data = zeros 148;
  has_content = true;
}

abbrev pub packets : List ParsedPacket
packets =
    packet (codes "a") 1 ∷ packet (codes "b") 2 ∷ packet (codes "a") 3 ∷ packet (codes "a") 4 ∷ []

-- Two entries: one with enough packets, one with a single old packet.
abbrev filled : Sink
filled = record {
  flow_table =
      (codes "a", packet (codes "a") 1 ∷ packet (codes "a") 3 ∷ [])
      ∷ (codes "b", packet (codes "b") 2 ∷ [])
      ∷ [];
  queue = empty;
}

filled-Inv : Inv 2 filled
filled-Inv = record {
  quiet = IsQuiet-empty;
  entries = (
    (omega arith, omega arith, (refl, (refl, tt))),
    ((omega arith, omega arith, (refl, tt)), tt),
  );
  flows = rw (pending-empty {A = Flow}) tt;
}

merge-Returns_example :
    Returns
      (merge_to_existing_flow option init packets)
      (λ t. Inv 2 t × ((k : Text) → stream k t ≡ stream k init ++ with_key k packets))
merge-Returns_example =
    merge-Returns option 2 3 refl refl (omega arith) (omega arith) init packets (Inv-init 2)

clean-Returns_example : Returns (clean_unwanted_flows option 100 filled) (λ t.
    Inv 2 t
    × (t.flow_table ≡ kept_entries option 100 filled.flow_table)
    × ((fs : List Flow) × (pending t.queue ≡ pending filled.queue ++ fs)
        × AreFlowsOf (ready_entries option filled.flow_table) fs))
clean-Returns_example = clean-Returns option 2 refl 100 filled filled-Inv

make_flows-Returns_example :
    (ps : List ParsedPacket) × (parse_raw_packets option (there ∷ there ∷ []) ≡ ok ps)
    × All (λ p. length p.blob_data ≡ 148) ps
    × Returns
        (make_flows option init (there ∷ there ∷ []))
        (λ t. Inv 2 t × ((k : Text) → stream k t ≡ stream k init ++ with_key k ps))
make_flows-Returns_example =
    make_flows-Returns option 20 2 3 refl refl refl (omega arith) (omega arith) init
      (there ∷ there ∷ []) (Inv-init 2)
      (
        (all_bytes-IsByte there.byte_arr refl, omega arith),
        ((all_bytes-IsByte there.byte_arr refl, omega arith), tt),
      )
