-- ===== src/Packet.antt =====
-- source/parsed_packet.cpp, source/raw_packet.cpp and their headers: an Ethernet frame becomes a
-- flow key and a blob of 128 header bytes and `payload` payload bytes.
-- A pointer into the frame is an offset into its list of bytes; a read outside it is a fault.
-- Multi-byte fields are compared in the byte order of a little-endian machine, as the source does.
pub mod Reads
pub mod Key
pub mod Layout
pub mod Bounds
pub mod Whole
pub mod Examples
use huntind.Common.{
  ℕ, ◌+◌, ◌-◌, ◌*◌, ◌/◌, ◌%◌, ◌≡◌, Bool, true, false, not, ◌&&◌, List, [], ◌∷◌, ◌++◌, length,
  replicate, ltb, leb, ◌==◌, if◌then◌else◌, ℤ, pos, negsuc,
}
use huntind.Common.Outcome.{Outcome, ok, fault, length_error, ◌>>=◌}
use huntind.Settings.{CaptureOption}
use huntind.Strings.{Text, codes, to_string}
use Reads.{load, load_bytes, big_endian, little_endian}

pub record RawPacket : Type 0 where
  pub caplen : ℕ
  pub tv_sec : ℕ
  pub tv_usec : ℕ
  pub byte_arr : List ℕ

pub record ParsedPacket : Type 0 where
  pub protocol : ℕ
  pub ts_sec : ℕ
  pub ts_usec : ℕ
  pub cap_len : ℕ
  pub key : Text
  pub blob_data : List ℕ
  pub has_content : Bool

abbrev pub ethertype_vlan : ℕ
ethertype_vlan = 0x8100

-- `sizeof(vlan_header)`: two packed fields of 16 bits.
abbrev pub vlan_header_size : ℕ
vlan_header_size = 2 + 2

abbrev pub ethertype_ipv4 : ℕ
ethertype_ipv4 = 0x0800

abbrev pub ipproto_tcp : ℕ
ipproto_tcp = 6

abbrev pub ipproto_udp : ℕ
ipproto_udp = 17

abbrev pub zeros : ℕ → List ℕ
zeros n = replicate n 0

-- An address is its four bytes, as they lie in the header.
abbrev pub inet_ntoa : List ℕ → Text
inet_ntoa [] = []
inet_ntoa (b ∷ []) = to_string b
inet_ntoa (b ∷ c ∷ rest) = to_string b ++ (b'.' ∷ inet_ntoa (c ∷ rest))

abbrev pub ordered_ips : List ℕ → List ℕ → List ℕ × List ℕ
ordered_ips src dst = if ltb (little_endian dst) (little_endian src) then (dst, src) else (src, dst)

abbrev pub ordered_ports : List ℕ → List ℕ → ℕ × ℕ
ordered_ports source dest =
    if ltb (little_endian dest) (little_endian source)
    then (big_endian source, big_endian dest)
    else (big_endian dest, big_endian source)

abbrev pub ip_key : List ℕ × List ℕ → Text
ip_key (ip1, ip2) = inet_ntoa ip1 ++ (b'_' ∷ (inet_ntoa ip2 ++ (b'_' ∷ [])))

abbrev pub port_key : ℕ × ℕ → Text → Text
port_key (first, second) suffix = to_string first ++ (b'_' ∷ (to_string second ++ suffix))

-- `std::min(std::max(available, 0), payload)` as a `size_t`; a negative size throws in `append`.
abbrev pub payload_len : ℕ → ℕ → ℤ → Outcome ℕ
payload_len total headers (pos payload) =
    let available = total - headers in ok (if ltb payload available then payload else available)
payload_len total headers (negsuc _) = fault length_error

abbrev pub payload_target : ℤ → ℕ
payload_target (pos payload) = payload + 128
payload_target (negsuc k) = 127 - k

unfoldable pub copy_payload_to_blob :
    CaptureOption
    → ParsedPacket
    → List ℕ
    → (ip_off trans_off : ℕ) → Text
    → (data_offset : ℕ) → Outcome ParsedPacket
copy_payload_to_blob opt p bytes ip_off trans_off suffix data_offset = do
  source ← load_bytes bytes trans_off 2
  dest ← load_bytes bytes (trans_off + 2) 2
  total ← load_bytes bytes (ip_off + 2) 2
  version_hl ← load bytes ip_off
  len ← payload_len (big_endian total) (version_hl % 16 * 4 + data_offset) opt.payload
  payload ← load_bytes bytes (trans_off + data_offset) len
  let blob = p.blob_data ++ payload
  ok (record p {
    key = p.key ++ port_key (ordered_ports source dest) suffix;
    blob_data = blob ++ zeros (payload_target opt.payload - length blob);
  })

unfoldable pub process_tcp :
    CaptureOption → ParsedPacket → List ℕ → (ip_off trans_off : ℕ) → Outcome ParsedPacket
process_tcp opt p bytes ip_off trans_off = do
  doff ← load bytes (trans_off + 12)
  let header_len = doff / 16 * 4
  header ← load_bytes bytes trans_off header_len
  copy_payload_to_blob opt
      (record p { blob_data = p.blob_data ++ (header ++ (zeros (60 - header_len) ++ zeros 8)) })
      bytes ip_off trans_off (codes "_TCP") header_len

unfoldable pub process_udp :
    CaptureOption → ParsedPacket → List ℕ → (ip_off trans_off : ℕ) → Outcome ParsedPacket
process_udp opt p bytes ip_off trans_off = do
  header ← load_bytes bytes trans_off 8
  copy_payload_to_blob opt (record p { blob_data = p.blob_data ++ (header ++ zeros 60) }) bytes
      ip_off trans_off (codes "_UDP") 8

unfoldable pub process_transport :
    CaptureOption → ParsedPacket → List ℕ → (ip_off trans_off : ℕ) → Outcome ParsedPacket
process_transport opt p bytes ip_off trans_off =
    if p.protocol == ipproto_tcp
    then process_tcp opt p bytes ip_off trans_off
    else if p.protocol == ipproto_udp
    then process_udp opt p bytes ip_off trans_off
    else ok p

-- The addresses and the IPv4 header, padded to 60 bytes, then the transport header.
unfoldable pub process_headers :
    CaptureOption → ParsedPacket → List ℕ → (ip_off : ℕ) → Outcome ParsedPacket
process_headers opt p bytes ip_off = do
  src ← load_bytes bytes (ip_off + 12) 4
  dst ← load_bytes bytes (ip_off + 16) 4
  version_hl ← load bytes ip_off
  let header_len = version_hl % 16 * 4
  header ← load_bytes bytes ip_off header_len
  let q = record p {
    key = p.key ++ ip_key (ordered_ips src dst);
    blob_data = p.blob_data ++ (header ++ zeros (60 - header_len));
  }
  process_transport opt q bytes ip_off (ip_off + header_len)

unfoldable pub process_ipv4_packet :
    CaptureOption → ParsedPacket → List ℕ → (ip_off : ℕ) → Outcome (ParsedPacket × Bool)
process_ipv4_packet opt p bytes ip_off = do
  proto ← load bytes (ip_off + 9)
  let q = record p { protocol = proto }
  if not (proto == ipproto_udp) && not (proto == ipproto_tcp)
      then ok (q, false)
      else do r ← process_headers opt q bytes ip_off; ok (r, true)

unfoldable pub process_raw_bytes :
    CaptureOption → ParsedPacket → List ℕ → Outcome (ParsedPacket × Bool)
process_raw_bytes opt p bytes = do
  outer ← load_bytes bytes 12 2
  let pointer = if big_endian outer == ethertype_vlan then vlan_header_size else 0
  inner ← load_bytes bytes (pointer + 12) 2
  if not (big_endian inner == ethertype_ipv4)
      then ok (p, false)
      else process_ipv4_packet opt p bytes (pointer + 14)

-- The constructor. `protocol` has no initialiser; it is 0 here until the IPv4 header is read.
unfoldable pub parse_packet : CaptureOption → RawPacket → Outcome ParsedPacket
parse_packet opt raw = do
  (p, content) ←
      process_raw_bytes opt
        (record {
          protocol = 0;
          ts_sec = raw.tv_sec;
          ts_usec = raw.tv_usec;
          cap_len = raw.caplen;
          key = [];
          blob_data = [];
          has_content = false;
        })
        raw.byte_arr
  ok (record p { has_content = content })

unfoldable pub present : ParsedPacket → Bool
present p = p.has_content

-- The copy constructor.
unfoldable pub copy_packet : ParsedPacket → ParsedPacket
copy_packet copied = record {
  protocol = copied.protocol;
  ts_sec = copied.ts_sec;
  ts_usec = copied.ts_usec;
  cap_len = copied.cap_len;
  key = copied.key;
  blob_data = copied.blob_data;
  has_content = copied.has_content;
}

-- The move constructor: the new packet, and what is left of the other one.
unfoldable pub move_packet : ParsedPacket → ParsedPacket × ParsedPacket
move_packet other = (
  record {
    protocol = other.protocol;
    ts_sec = other.ts_sec;
    ts_usec = other.ts_usec;
    cap_len = other.cap_len;
    key = other.key;
    blob_data = other.blob_data;
    has_content = other.has_content;
  },
  record other { key = []; blob_data = [] },
)
