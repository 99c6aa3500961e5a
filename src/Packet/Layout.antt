-- ===== src/Packet/Layout.antt =====
-- The size and the layout of the blob.
use huntind.Common.{
  zero, ◌⊎◌, ℕ, ◌+◌, ◌-◌, ◌*◌, ◌%◌, ◌≤◌, ◌≡◌, true, List, [], ◌++◌, length, length-append,
  length-replicate, pos, arith, All,
}
use huntind.Common.Outcome.{ok, >>=-eq-ok}
use huntind.Strings.{Text}
use huntind.Settings.{CaptureOption}
use huntind.Packet.Reads.{length-load_bytes, load_bytes, load, load-IsByte, IsByte}
use huntind.Packet.{
  ipproto_tcp, ipproto_udp, process_transport, ParsedPacket, RawPacket, zeros, copy_payload_to_blob,
  process_tcp, process_udp, process_headers, process_ipv4_packet, process_raw_bytes, parse_packet,
}

padded :
    (blob header : List ℕ) (n : ℕ)
    → blob ≡ []
    → length header ≡ n
    → n ≤ 60
    → length (blob ++ (header ++ zeros (60 - n))) ≡ 60
padded blob header n empty read fits =
    rw empty
      (omega (arith, length-append header (zeros (60 - n)), length-replicate (60 - n) (zero)))

module _ (opt : CaptureOption) (payload : ℕ) (asked : opt.payload ≡ pos payload) where
  copy_payload_lem :
      (p : ParsedPacket) (bytes : List ℕ) (ip_off trans_off : ℕ) (suffix : Text) (data_offset : ℕ)
      {q : ParsedPacket}
      → length p.blob_data ≡ 128
      → copy_payload_to_blob opt p bytes ip_off trans_off suffix data_offset ≡ ok q
      → length q.blob_data ≡ 128 + payload
  unfolding copy_payload_to_blob
  copy_payload_lem p bytes ip_off trans_off suffix data_offset size h =
      grind (arith, length-load_bytes, length-append, length-replicate)

  process_tcp_lem :
      (p : ParsedPacket) (bytes : List ℕ) (ip_off trans_off : ℕ) {q : ParsedPacket}
      → All IsByte bytes
      → length p.blob_data ≡ 60
      → process_tcp opt p bytes ip_off trans_off ≡ ok q
      → length q.blob_data ≡ 128 + payload
  unfolding process_tcp
  process_tcp_lem p bytes ip_off trans_off octets size h =
      grind
        (arith, copy_payload_lem, length-load_bytes, load-IsByte, length-append, length-replicate)

  process_udp_lem :
      (p : ParsedPacket) (bytes : List ℕ) (ip_off trans_off : ℕ) {q : ParsedPacket}
      → length p.blob_data ≡ 60
      → process_udp opt p bytes ip_off trans_off ≡ ok q
      → length q.blob_data ≡ 128 + payload
  unfolding process_udp
  process_udp_lem p bytes ip_off trans_off size h =
      grind (arith, copy_payload_lem, length-load_bytes, length-append, length-replicate)

  process_transport_lem :
      (p : ParsedPacket) (bytes : List ℕ) (ip_off trans_off : ℕ) {q : ParsedPacket}
      → All IsByte bytes
      → length p.blob_data ≡ 60
      → (p.protocol ≡ ipproto_tcp) ⊎ (p.protocol ≡ ipproto_udp)
      → process_transport opt p bytes ip_off trans_off ≡ ok q
      → length q.blob_data ≡ 128 + payload
  unfolding process_transport
  process_transport_lem p bytes ip_off trans_off octets size transport h =
      grind (arith, process_tcp_lem, process_udp_lem)

  process_headers_lem :
      (p : ParsedPacket) (bytes : List ℕ) (ip_off : ℕ) {q : ParsedPacket}
      → All IsByte bytes
      → (p.protocol ≡ ipproto_tcp) ⊎ (p.protocol ≡ ipproto_udp)
      → p.blob_data ≡ []
      → process_headers opt p bytes ip_off ≡ ok q
      → length q.blob_data ≡ 128 + payload
  unfolding process_headers
  process_headers_lem p bytes ip_off octets transport empty h =
      let (src, _, h1) = >>=-eq-ok (load_bytes bytes (ip_off + 12) 4) _ h in
      let (dst, _, h2) = >>=-eq-ok (load_bytes bytes (ip_off + 16) 4) _ h1 in
      let (first, _, h3) = >>=-eq-ok (load bytes ip_off) _ h2 in
      let (header, read, h4) = >>=-eq-ok (load_bytes bytes ip_off (first % 16 * 4)) _ h3 in
      let size =
        padded p.blob_data header (first % 16 * 4) empty (length-load_bytes bytes ip_off _ read)
          (omega arith) in
      process_transport_lem _ bytes ip_off _ octets size transport h4

  process_ipv4_lem :
      (p : ParsedPacket) (bytes : List ℕ) (ip_off : ℕ) {q : ParsedPacket}
      → All IsByte bytes
      → p.blob_data ≡ []
      → process_ipv4_packet opt p bytes ip_off ≡ ok (q, true)
      → length q.blob_data ≡ 128 + payload
  unfolding process_ipv4_packet
  process_ipv4_lem p bytes ip_off octets empty h = grind (arith, process_headers_lem)

  -- With a payload option that is not negative, a frame of bytes that is parsed and accepted
  -- leaves a blob of 128 header bytes and `payload` payload bytes, whatever the lengths in its
  -- headers say.
  pub parse_packet-size :
      (raw : RawPacket) {p : ParsedPacket}
      → All IsByte raw.byte_arr
      → parse_packet opt raw ≡ ok p
      → p.has_content ≡ true
      → length p.blob_data ≡ 128 + payload
  unfolding parse_packet process_raw_bytes
  parse_packet-size raw octets h content = grind (arith, process_ipv4_lem)
