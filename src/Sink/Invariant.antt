-- ===== src/Sink/Invariant.antt =====
-- What holds of the flow table and of the double buffer of a sink between two calls, if
-- `min_packets` is a number `m`.
use huntind.Common.{arith, true, false, leb→le, pos, ℕ, ◌≤◌, ◌<◌, ◌≡◌, List, length, All}
use huntind.Common.Outcome.{ok}
use huntind.Strings.{Text}
use huntind.Packet.{ParsedPacket}
use huntind.Buffer.Sequential.{IsQuiet, IsQuiet-empty, pending, pending-empty}
use huntind.Settings.{CaptureOption}
use huntind.Flow.{is_flow_ready, Flow, make_flow}
use huntind.Sink.{Sink, init}

-- The packets of a flow that were sent with its key.
abbrev pub IsKeyed : Text → List ParsedPacket → Type 0
IsKeyed k = All (λ p. p.key ≡ k)

abbrev pub IsEntry : ℕ → Text × List ParsedPacket → Type 0
IsEntry m (k, l) = (0 < length l) × (length l ≤ m) × IsKeyed k l

-- A flow in the buffer is the constructor's, and has exactly `m` packets, all with its key.
abbrev pub IsFlow : ℕ → Flow → Type 0
IsFlow m f =
    (make_flow f.flow_id f.packet_list ≡ ok f)
    × (length f.packet_list ≡ m)
    × IsKeyed f.flow_id f.packet_list

pub record Inv (m : ℕ) (s : Sink) : Type 0 where
  pub quiet : IsQuiet s.queue
  pub entries : All (IsEntry m) s.flow_table
  pub flows : All (IsFlow m) (pending s.queue)

pub Inv-init : (m : ℕ) → Inv m init
unfolding init
Inv-init m = record {
  quiet = IsQuiet-empty;
  entries = tt;
  flows = rw (pending-empty {A = Flow}) tt;
}

module _ (opt : CaptureOption) (m : ℕ) (asked : opt.min_packets ≡ pos m) where
  pub is_flow_ready-le : (l : List ParsedPacket) → is_flow_ready opt l ≡ true → m ≤ length l
  unfolding is_flow_ready
  is_flow_ready-le l h = leb→le m (length l) (rw asked at h)

  pub is_flow_ready-lt : (l : List ParsedPacket) → is_flow_ready opt l ≡ false → length l < m
  unfolding is_flow_ready
  is_flow_ready-lt l h = ground arith
