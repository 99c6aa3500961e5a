-- ===== src/Program/Packets.antt =====
-- Where the captured packets are.
use mathlib.Core.List.{Perm}
use mathlib.Core.List.Perm
use huntind.Common.{List, ◌++◌}
use huntind.Settings.{CaptureOption}
use huntind.Packet.{RawPacket}
use huntind.Program.{Program, taken_by}

module _ (opt : CaptureOption) where
  abbrev Accounted : Program → List RawPacket → Type 0
  Accounted p captured =
      (waiting : List RawPacket) × Perm (taken_by p.consumers ++ waiting) captured
