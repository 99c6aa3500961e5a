-- ===== src/Packet/Bounds.antt =====
-- The length of a frame and the reads of the parser.
use huntind.Common.{ℕ, ◌+◌, ◌≤◌, ◌<◌, ◌≡◌, ◌≢◌, List, length, pos, arith, All}
use huntind.Common.Outcome.{Fault, fault, out_of_bounds}
use huntind.Strings.{Text}
use huntind.Settings.{CaptureOption}
use huntind.Packet.Reads.{load_bytes-total, load_bytes-fault, load-safe, load-IsByte, IsByte}
use huntind.Packet.{
  ParsedPacket, RawPacket, copy_payload_to_blob, process_tcp, process_udp, process_transport,
  process_headers, process_ipv4_packet, process_raw_bytes, parse_packet,
}

module _ (opt : CaptureOption) (payload : ℕ) (asked : opt.payload ≡ pos payload) where
  copy_payload-safe :
      (p : ParsedPacket) (bytes : List ℕ) (ip_off trans_off : ℕ) (suffix : Text) (data_offset : ℕ)
      (e : Fault)
      → ip_off + 4 ≤ length bytes
      → trans_off + 4 ≤ length bytes
      → trans_off + data_offset + payload ≤ length bytes
      → copy_payload_to_blob opt p bytes ip_off trans_off suffix data_offset ≢ fault e
  unfolding copy_payload_to_blob
  copy_payload-safe p bytes ip_off trans_off suffix data_offset e a b c h =
      grind (arith, load_bytes-total, load-safe)

  process_tcp-safe :
      (p : ParsedPacket) (bytes : List ℕ) (ip_off trans_off : ℕ) (e : Fault)
      → All IsByte bytes
      → ip_off + 4 ≤ length bytes
      → trans_off + 60 + payload ≤ length bytes
      → process_tcp opt p bytes ip_off trans_off ≢ fault e
  unfolding process_tcp
  process_tcp-safe p bytes ip_off trans_off e octets a b h =
      grind (arith, load_bytes-total, load-safe, load-IsByte, copy_payload-safe)

  process_udp-safe :
      (p : ParsedPacket) (bytes : List ℕ) (ip_off trans_off : ℕ) (e : Fault)
      → ip_off + 4 ≤ length bytes
      → trans_off + 8 + payload ≤ length bytes
      → process_udp opt p bytes ip_off trans_off ≢ fault e
  unfolding process_udp
  process_udp-safe p bytes ip_off trans_off e a b h =
      grind (arith, load_bytes-total, copy_payload-safe)

  process_transport-safe :
      (p : ParsedPacket) (bytes : List ℕ) (ip_off trans_off : ℕ) (e : Fault)
      → All IsByte bytes
      → ip_off + 4 ≤ length bytes
      → trans_off + 60 + payload ≤ length bytes
      → process_transport opt p bytes ip_off trans_off ≢ fault e
  unfolding process_transport
  process_transport-safe p bytes ip_off trans_off e octets a b h =
      grind (arith, process_tcp-safe, process_udp-safe)

  process_headers-safe :
      (p : ParsedPacket) (bytes : List ℕ) (ip_off : ℕ) (e : Fault)
      → All IsByte bytes
      → ip_off + 120 + payload ≤ length bytes
      → process_headers opt p bytes ip_off ≢ fault e
  unfolding process_headers
  process_headers-safe p bytes ip_off e octets a h =
      grind (arith, load_bytes-total, load-safe, process_transport-safe)

  process_ipv4-safe :
      (p : ParsedPacket) (bytes : List ℕ) (ip_off : ℕ) (e : Fault)
      → All IsByte bytes
      → ip_off + 120 + payload ≤ length bytes
      → process_ipv4_packet opt p bytes ip_off ≢ fault e
  unfolding process_ipv4_packet
  process_ipv4-safe p bytes ip_off e octets a h = grind (arith, load-safe, process_headers-safe)

  -- With a payload option that is not negative, a frame of at least 138 + payload bytes is parsed
  -- without a fault, whatever its bytes are.
  pub parse_packet-safe :
      (raw : RawPacket) (e : Fault)
      → All IsByte raw.byte_arr
      → 138 + payload ≤ length raw.byte_arr
      → parse_packet opt raw ≢ fault e
  unfolding parse_packet process_raw_bytes
  parse_packet-safe raw e octets long h = grind (arith, load_bytes-total, process_ipv4-safe)

-- A frame of fewer than 14 bytes is read outside its bytes.
pub parse_packet-short :
    (opt : CaptureOption) (raw : RawPacket)
    → length raw.byte_arr < 14
    → parse_packet opt raw ≡ fault out_of_bounds
unfolding parse_packet process_raw_bytes
parse_packet-short opt raw short = grind (arith, load_bytes-fault)
