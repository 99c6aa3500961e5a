-- ===== src/Packet/Key.antt =====
-- The flow key, and what it is made of.
use huntind.Common.{
  ℕ, ◌+◌, ◌*◌, ◌/◌, ◌%◌, ◌≡◌, ap₂, ◌∙◌, ◌⊎◌, Bool, true, List, [], ◌++◌, length, ◌==◌,
  if◌then◌else◌, arith, All, sym, refl,
}
use huntind.Common.Outcome.{ok, >>=-eq-ok}
use huntind.Strings.{Text, codes}
use huntind.Settings.{CaptureOption}
use huntind.Packet.Reads.{
  load, load_bytes, length-load_bytes, load_bytes-IsByte, big_endian, IsByte,
  little_endian-injective,
}
use huntind.Packet.{
  ParsedPacket, RawPacket, ethertype_vlan, ethertype_ipv4, ipproto_tcp, ipproto_udp, ip_key,
  port_key, ordered_ips, ordered_ports, copy_payload_to_blob, process_tcp, process_udp,
  process_transport, process_headers, process_ipv4_packet, process_raw_bytes, parse_packet,
}

-- The fields that the key is made of, as they are sent.
pub record Endpoints : Type 0 where
  pub src : List ℕ
  pub dst : List ℕ
  pub source : List ℕ
  pub dest : List ℕ
  pub proto : ℕ

-- The same fields in a packet of the other direction.
abbrev pub reversed : Endpoints → Endpoints
reversed e = record { src = e.dst; dst = e.src; source = e.dest; dest = e.source; proto = e.proto }

abbrev suffix_of : ℕ → Text
suffix_of proto = if proto == ipproto_tcp then codes "_TCP" else codes "_UDP"

abbrev pub flow_key : Endpoints → Text
flow_key e =
    ip_key (ordered_ips e.src e.dst) ++ port_key (ordered_ports e.source e.dest) (suffix_of e.proto)

-- Where an IPv4 frame has these fields, behind a VLAN tag or not.
pub record Carries (bytes : List ℕ) (e : Endpoints) : Type 0 where
  pub pointer : ℕ
  pub outer : List ℕ
  pub inner : List ℕ
  pub first : ℕ
  pub outer_at : load_bytes bytes 12 2 ≡ ok outer
  pub pointer_is : (if big_endian outer == ethertype_vlan then 4 else 0) ≡ pointer
  pub inner_at : load_bytes bytes (pointer + 12) 2 ≡ ok inner
  pub inner_is : big_endian inner ≡ ethertype_ipv4
  pub first_at : load bytes (pointer + 14) ≡ ok first
  pub proto_at : load bytes (pointer + 14 + 9) ≡ ok e.proto
  pub src_at : load_bytes bytes (pointer + 14 + 12) 4 ≡ ok e.src
  pub dst_at : load_bytes bytes (pointer + 14 + 16) 4 ≡ ok e.dst
  pub source_at : load_bytes bytes (pointer + 14 + first % 16 * 4) 2 ≡ ok e.source
  pub dest_at : load_bytes bytes (pointer + 14 + first % 16 * 4 + 2) 2 ≡ ok e.dest
  pub transport : (e.proto ≡ ipproto_tcp) ⊎ (e.proto ≡ ipproto_udp)

module _ (opt : CaptureOption) (bytes : List ℕ) (ip_off trans_off : ℕ) (source dest : List ℕ)
    (source_at : load_bytes bytes trans_off 2 ≡ ok source)
    (dest_at : load_bytes bytes (trans_off + 2) 2 ≡ ok dest) where
  copy_payload-key :
      (p : ParsedPacket) (suffix : Text) (data_offset : ℕ) (q : ParsedPacket)
      → copy_payload_to_blob opt p bytes ip_off trans_off suffix data_offset ≡ ok q
      → q.key ≡ p.key ++ port_key (ordered_ports source dest) suffix
  unfolding copy_payload_to_blob
  copy_payload-key p suffix data_offset q h = grind arith

  tcp-key :
      (p q : ParsedPacket)
      → process_tcp opt p bytes ip_off trans_off ≡ ok q
      → q.key ≡ p.key ++ port_key (ordered_ports source dest) (codes "_TCP")
  unfolding process_tcp
  tcp-key p q h =
      let (doff, _, h1) = >>=-eq-ok (load bytes (trans_off + 12)) _ h in
      let (header, _, h2) = >>=-eq-ok (load_bytes bytes trans_off (doff / 16 * 4)) _ h1 in
      copy_payload-key _ _ _ q h2

  udp-key :
      (p q : ParsedPacket)
      → process_udp opt p bytes ip_off trans_off ≡ ok q
      → q.key ≡ p.key ++ port_key (ordered_ports source dest) (codes "_UDP")
  unfolding process_udp
  udp-key p q h =
      let (header, _, h1) = >>=-eq-ok (load_bytes bytes trans_off 8) _ h in
      copy_payload-key _ _ _ q h1

  transport-key :
      (p q : ParsedPacket)
      → (p.protocol ≡ ipproto_tcp) ⊎ (p.protocol ≡ ipproto_udp)
      → process_transport opt p bytes ip_off trans_off ≡ ok q
      → q.key ≡ p.key ++ port_key (ordered_ports source dest) (suffix_of p.protocol)
  unfolding process_transport
  transport-key p q t h = grind (arith, tcp-key, udp-key)

module _ (opt : CaptureOption) (raw : RawPacket) (e : Endpoints) (c : Carries raw.byte_arr e) where
  open c use {pointer, first}

  headers-key :
      (p q : ParsedPacket)
      → p.protocol ≡ e.proto
      → p.key ≡ []
      → process_headers opt p raw.byte_arr (pointer + 14) ≡ ok q
      → q.key ≡ flow_key e
  unfolding process_headers
  headers-key p q t k h =
      let h1 = simp (c.src_at, c.dst_at, c.first_at) at h in
      let (header, _, h2) =
        >>=-eq-ok (load_bytes raw.byte_arr (pointer + 14) (first % 16 * 4)) _ h1 in
      transport-key opt raw.byte_arr (pointer + 14) _ e.source e.dest c.source_at c.dest_at _ q
        (rw t c.transport) h2
      ∙ rw (k, t)

  ipv4-key :
      (p q : ParsedPacket) (content : Bool)
      → p.key ≡ []
      → process_ipv4_packet opt p raw.byte_arr (pointer + 14) ≡ ok (q, content)
      → (q.key ≡ flow_key e) × (content ≡ true)
  unfolding process_ipv4_packet
  ipv4-key p q content k h =
      let h1 = simp c.proto_at at h in let proto_is = c.transport in grind (arith, headers-key)

  raw_bytes-key :
      (p q : ParsedPacket) (content : Bool)
      → p.key ≡ []
      → process_raw_bytes opt p raw.byte_arr ≡ ok (q, content)
      → (q.key ≡ flow_key e) × (content ≡ true)
  unfolding process_raw_bytes
  raw_bytes-key p q content k h =
      ipv4-key p q content k (simp (c.outer_at, c.pointer_is, c.inner_at, c.inner_is) at h)

  -- The key of a TCP or UDP packet is the text of its endpoints.
  parse_packet-key :
      (p : ParsedPacket)
      → parse_packet opt raw ≡ ok p
      → (p.key ≡ flow_key e) × (p.has_content ≡ true)
  unfolding parse_packet
  parse_packet-key p h =
      let (r, read, h1) = >>=-eq-ok (process_raw_bytes opt _ raw.byte_arr) _ h in
      let (key_is, present) = raw_bytes-key _ r.0 r.1 refl read in ground arith

flow_key-reversed :
    (e : Endpoints)
    → All IsByte e.src × All IsByte e.dst × All IsByte e.source × All IsByte e.dest
    → length e.src ≡ length e.dst
    → length e.source ≡ length e.dest
    → flow_key (reversed e) ≡ flow_key e
flow_key-reversed e (a, b, c, d) n m =
    ap₂ (λ i j. ip_key i ++ port_key j (suffix_of e.proto)) ips ports
  where
    ips : ordered_ips e.dst e.src ≡ ordered_ips e.src e.dst
    ips = ground (arith, little_endian-injective e.src e.dst a b n)

    ports : ordered_ports e.dest e.source ≡ ordered_ports e.source e.dest
    ports = ground (arith, little_endian-injective e.source e.dest c d m)

-- If two frames carry the same endpoints, with addresses and ports swapped, and both are parsed,
-- they get the same flow key.
pub parse_packet-reversed :
    (opt : CaptureOption) (there back : RawPacket) (e : Endpoints) {p q : ParsedPacket}
    → Carries there.byte_arr e
    → Carries back.byte_arr (reversed e)
    → All IsByte there.byte_arr
    → parse_packet opt there ≡ ok p
    → parse_packet opt back ≡ ok q
    → p.key ≡ q.key
parse_packet-reversed opt there back e {p} {q} c d octets h k =
    (parse_packet-key opt there e c p h).0
    ∙ sym (
        flow_key-reversed e
          (
            load_bytes-IsByte _ _ _ octets c.src_at,
            load_bytes-IsByte _ _ _ octets c.dst_at,
            load_bytes-IsByte _ _ _ octets c.source_at,
            load_bytes-IsByte _ _ _ octets c.dest_at,
          )
          (length-load_bytes _ _ _ c.src_at ∙ sym (length-load_bytes _ _ _ c.dst_at))
          (length-load_bytes _ _ _ c.source_at ∙ sym (length-load_bytes _ _ _ c.dest_at)))
    ∙ sym (parse_packet-key opt back (reversed e) d q k).0
