-- ===== src/Sink/Intake.antt =====
-- From raw packets to the flow table: `MakeFlow` on frames that are long enough.
use huntind.Common.{
  ℕ, ◌+◌, ◌≤◌, ◌<◌, ◌≡◌, ◌≢◌, refl, Bool-cases, inl, inr, List, [], ◌∷◌, ◌++◌, length, pos, All,
}
use huntind.Common.Outcome.{Fault, Outcome, ok, fault, Returns}
use huntind.Strings.{Text}
use huntind.Settings.{CaptureOption}
use huntind.Packet.{RawPacket, ParsedPacket, parse_packet, present}
use huntind.Packet.Reads.{IsByte}
use huntind.Packet.Layout.{parse_packet-size}
use huntind.Packet.Bounds.{parse_packet-safe}
use huntind.Sink.Invariant.{Inv}
use huntind.Sink.Streams.{stream, with_key}
use huntind.Sink.Merge.{merge-Returns}
use huntind.Sink.{Sink, parse_raw_packets, make_flows}

-- A frame of bytes that no header makes the parser leave.
abbrev pub IsFrame : (payload : ℕ) → RawPacket → Type 0
IsFrame payload raw = All IsByte raw.byte_arr × (138 + payload ≤ length raw.byte_arr)

not_fault {ℓ} : {A : Type ℓ} (o : Outcome A) → ((e : Fault) → o ≢ fault e) → (a : A) × (o ≡ ok a)
not_fault (ok a) h = (a, refl)
not_fault (fault e) h = absurd (h e refl)

module _ (opt : CaptureOption) (payload m limit : ℕ) (asked : opt.payload ≡ pos payload)
    (least : opt.min_packets ≡ pos m) (limited : opt.max_packets ≡ pos limit) (positive : 0 < m)
    (fits : m ≤ limit) where
  pub parse_raw_packets-total :
      (raws : List RawPacket)
      → All (IsFrame payload) raws
      → (ps : List ParsedPacket) × (parse_raw_packets opt raws ≡ ok ps)
        × All (λ p. length p.blob_data ≡ 128 + payload) ps
  unfolding parse_raw_packets present
  parse_raw_packets-total [] a = ([], refl, tt)
  parse_raw_packets-total (raw ∷ raws) a =
      let (p, parsed) =
        not_fault (parse_packet opt raw)
          (λ e. parse_packet-safe opt payload asked raw e a.0.0 a.0.1) in
      let (ps, rest, sized) = parse_raw_packets-total raws a.1 in
      elim (Bool-cases p.has_content) [
        | inl content ↦ (
          p ∷ ps,
          rw (parsed, rest, content),
          (parse_packet-size opt payload asked raw a.0.0 parsed content, sized),
        )
        | inr empty_ ↦ (ps, rw (parsed, rest, empty_), sized)
      ]

  -- Under an option with a payload that is not negative and 1 <= min_packets <= max_packets, from
  -- a sink whose invariant holds, MakeFlow on frames of bytes that each have at least 138 +
  -- payload bytes parses all of them without a fault, every packet that is kept has a blob of 128
  -- + payload bytes, and merging them returns with the invariant kept and the packets of each key
  -- behind those of before, in order.
  pub make_flows-Returns :
      (s : Sink) (raws : List RawPacket)
      → Inv m s
      → All (IsFrame payload) raws
      → (ps : List ParsedPacket) × (parse_raw_packets opt raws ≡ ok ps)
        × All (λ p. length p.blob_data ≡ 128 + payload) ps
        × Returns
            (make_flows opt s raws)
            (λ t. Inv m t × ((k : Text) → stream k t ≡ stream k s ++ with_key k ps))
  unfolding make_flows
  make_flows-Returns s raws v a =
      let (ps, parsed, sized) = parse_raw_packets-total raws a in
      (ps, parsed, sized, rw parsed (merge-Returns opt m limit least limited positive fits s ps v))
