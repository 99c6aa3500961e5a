-- ===== src/Packet/Examples.antt =====
-- Frames of one TCP connection in both directions, and the theorems of the parser on them.
use huntind.Common.{
  ℕ, ◌≡◌, ◌≢◌, refl, Bool, true, inl, ◌&&◌, List, [], ◌∷◌, ◌++◌, length, take, ltb, ltb→lt, arith,
  All,
}
use huntind.Common.Outcome.{ok, fault, out_of_bounds, length_error}
use huntind.Strings.{to_string}
use huntind.Settings.{default_option}
use huntind.Packet.Reads.{load, load_bytes, big_endian, little_endian, IsByte}
use huntind.Packet.Layout.{parse_packet-size}
use huntind.Packet.Whole.{IsWhole, parse_packet-whole}
use huntind.Packet.Bounds.{parse_packet-safe, parse_packet-short}
use huntind.Packet.Key.{Endpoints, reversed, Carries, parse_packet-reversed}
use huntind.Packet.{
  RawPacket, ParsedPacket, zeros, copy_payload_to_blob, process_tcp, process_udp, process_transport,
  process_headers, process_ipv4_packet, process_raw_bytes, parse_packet,
}

abbrev all_bytes : List ℕ → Bool
all_bytes [] = true
all_bytes (b ∷ bytes) = ltb b 256 && all_bytes bytes

pub all_bytes-IsByte : (bytes : List ℕ) → all_bytes bytes ≡ true → All IsByte bytes
all_bytes-IsByte [] h = tt
all_bytes-IsByte (b ∷ bytes) h = ground (arith, all_bytes-IsByte bytes, ltb→lt b 256)

-- A frame of 158 bytes: Ethernet, 20 bytes of IPv4, 20 bytes of TCP, then 20 bytes of payload.
abbrev frame_of : (src dst source dest : List ℕ) → List ℕ
frame_of src dst source dest =
    zeros 12
    ++ (8
        ∷ 0
        ∷ 69
        ∷ 0
        ∷ 0
        ∷ 60
        ∷ 0
        ∷ 0
        ∷ 0
        ∷ 0
        ∷ 64
        ∷ 6
        ∷ 0
        ∷ 0
        ∷ (src ++ (dst ++ (source ++ (dest ++ (zeros 8 ++ (80 ∷ (zeros 7 ++ zeros 104))))))))

abbrev raw_of : List ℕ → RawPacket
raw_of bytes = record { caplen = length bytes; tv_sec = 100; tv_usec = 0; byte_arr = bytes }

abbrev client : Endpoints
client = record {
  src = 10 ∷ 0 ∷ 0 ∷ 2 ∷ [];
  dst = 10 ∷ 0 ∷ 0 ∷ 1 ∷ [];
  source = 48 ∷ 57 ∷ [];
  dest = 1 ∷ 187 ∷ [];
  proto = 6;
}

abbrev frame_sent : Endpoints → List ℕ
frame_sent e = frame_of e.src e.dst e.source e.dest

abbrev pub there : RawPacket
there = raw_of (frame_sent client)

abbrev back : RawPacket
back = raw_of (frame_sent (reversed client))

pub there_parsed :
    (p : ParsedPacket) × (parse_packet default_option there ≡ ok p) × (p.has_content ≡ true)
unfolding parse_packet process_raw_bytes process_ipv4_packet process_headers process_transport
    process_tcp process_udp copy_payload_to_blob load load_bytes big_endian little_endian to_string
there_parsed = (_, refl, refl)

back_parsed :
    (p : ParsedPacket) × (parse_packet default_option back ≡ ok p) × (p.has_content ≡ true)
unfolding parse_packet process_raw_bytes process_ipv4_packet process_headers process_transport
    process_tcp process_udp copy_payload_to_blob load load_bytes big_endian little_endian to_string
back_parsed = (_, refl, refl)

there-Carries : Carries there.byte_arr client
unfolding load load_bytes big_endian
there-Carries = record {
  pointer = 0;
  outer = 8 ∷ 0 ∷ [];
  inner = 8 ∷ 0 ∷ [];
  first = 69;
  outer_at = refl;
  pointer_is = refl;
  inner_at = refl;
  inner_is = refl;
  first_at = refl;
  proto_at = refl;
  src_at = refl;
  dst_at = refl;
  source_at = refl;
  dest_at = refl;
  transport = inl refl;
}

back-Carries : Carries back.byte_arr (reversed client)
unfolding load load_bytes big_endian
back-Carries = record {
  pointer = 0;
  outer = 8 ∷ 0 ∷ [];
  inner = 8 ∷ 0 ∷ [];
  first = 69;
  outer_at = refl;
  pointer_is = refl;
  inner_at = refl;
  inner_is = refl;
  first_at = refl;
  proto_at = refl;
  src_at = refl;
  dst_at = refl;
  source_at = refl;
  dest_at = refl;
  transport = inl refl;
}

parse_packet-size_example : length there_parsed.0.blob_data ≡ 148
parse_packet-size_example =
    parse_packet-size default_option 20 refl there (all_bytes-IsByte there.byte_arr refl)
      there_parsed.1 there_parsed.2

parse_packet-safe_example : parse_packet default_option there ≢ fault length_error
parse_packet-safe_example =
    parse_packet-safe default_option 20 refl there length_error
      (all_bytes-IsByte there.byte_arr refl) (omega arith)

parse_packet-short_example : parse_packet default_option (raw_of (zeros 12)) ≡ fault out_of_bounds
parse_packet-short_example = parse_packet-short default_option (raw_of (zeros 12)) (omega arith)

parse_packet-reversed_example : there_parsed.0.key ≡ back_parsed.0.key
parse_packet-reversed_example =
    parse_packet-reversed default_option there back client there-Carries back-Carries
      (all_bytes-IsByte there.byte_arr refl) there_parsed.1 back_parsed.1

-- As much of a frame as its IPv4 header announces: 14 bytes and 60.
abbrev pub there_start : RawPacket
there_start = raw_of (take 74 (frame_sent client))

pub there_start-IsWhole : IsWhole 20 there_start.byte_arr
unfolding big_endian
there_start-IsWhole = record {
  network = omega arith;
  tcp = λ h. (omega arith, omega arith);
  udp = λ h. omega arith;
}

parse_packet-whole_example : (p : ParsedPacket) × (parse_packet default_option there_start ≡ ok p)
parse_packet-whole_example =
    parse_packet-whole default_option 20 there_start refl there_start-IsWhole
