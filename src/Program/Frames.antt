-- ===== src/Program/Frames.antt =====
-- Frames that hold what their headers announce, and batches of them.
use huntind.Common.{◌≡◌, refl, Bool-cases, inl, inr, List, [], ◌∷◌, length, pos, All}
use huntind.Common.Outcome.{ok}
use huntind.Settings.{CaptureOption}
use huntind.Packet.{RawPacket, ParsedPacket, present}
use huntind.Packet.Reads.{IsByte}
use huntind.Packet.Whole.{IsWhole, parse_packet-whole}
use huntind.Packet.Layout.{parse_packet-size}
use huntind.Sink.{parse_raw_packets}

-- A frame of bytes that holds what its headers announce.
abbrev pub IsReadable : RawPacket → Type 0
IsReadable raw = All IsByte raw.byte_arr × IsWhole 20 raw.byte_arr

abbrev pub IsSized : ParsedPacket → Type 0
IsSized p = length p.blob_data ≡ 148

-- A parsed batch.
abbrev pub IsParsed : CaptureOption → List RawPacket × List ParsedPacket → Type 0
IsParsed opt (raw_list, parsed_list) =
    (parse_raw_packets opt raw_list ≡ ok parsed_list) × All IsSized parsed_list

pub parsed_frames :
    (opt : CaptureOption)
    → opt.payload ≡ pos 20
    → (raw_list : List RawPacket) → All IsReadable raw_list
    → (ps : List ParsedPacket) × IsParsed opt (raw_list, ps)
unfolding parse_raw_packets present
parsed_frames opt asked [] a = ([], (refl, tt))
parsed_frames opt asked (raw ∷ raw_list) ((bytes, whole), a) =
    let (p, parsed) = parse_packet-whole opt 20 raw asked whole in
    let (ps, (rest, sized)) = parsed_frames opt asked raw_list a in
    elim (Bool-cases p.has_content) [
      | inl content ↦ (
        p ∷ ps,
        (
          rw (parsed, rest, content),
          (parse_packet-size opt 20 asked raw bytes parsed content, sized),
        ),
      )
      | inr empty_ ↦ (ps, (rw (parsed, rest, empty_), sized))
    ]
