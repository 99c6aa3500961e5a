-- ===== src/Packet/Whole.antt =====
-- Frames that hold what their headers announce.
use huntind.Common.{
  sym, ◌∙◌, ◌⊎◌, ℕ, zero, suc, ◌+◌, ◌-◌, ◌*◌, ◌/◌, ◌%◌, ◌≤◌, ◌<◌, ◌≡◌, ◌≢◌, refl, inl, inr,
  Bool-cases, List, [], ◌∷◌, length, ltb, ◌==◌, ==_iff, if◌then◌else◌, take, drop, pos, arith,
}
use huntind.Common.Outcome.{Fault, Outcome, ok, fault}
use huntind.Strings.{Text}
use huntind.Settings.{CaptureOption}
use huntind.Packet.Reads.{load, big_endian, load_bytes-total}
use huntind.Packet.{
  ParsedPacket, RawPacket, ethertype_vlan, ipproto_tcp, ipproto_udp, copy_payload_to_blob,
  process_tcp, process_udp, process_transport, process_headers, process_ipv4_packet,
  process_raw_bytes, parse_packet,
}

-- The byte at a place, and the number of two bytes there.
abbrev pub byte_at : List ℕ → ℕ → ℕ
byte_at [] i = 0
byte_at (b ∷ bytes) zero = b
byte_at (b ∷ bytes) (suc i) = byte_at bytes i

abbrev pub word_at : List ℕ → ℕ → ℕ
word_at bytes i = big_endian (take 2 (drop i bytes))

load-total : (bytes : List ℕ) (i : ℕ) → i < length bytes → load bytes i ≡ ok (byte_at bytes i)
unfolding load
load-total [] i h = absurd (omega arith)
load-total (b ∷ bytes) zero h = refl
load-total (b ∷ bytes) (suc i) h = load-total bytes i (omega arith)

-- Where the IPv4 header is, and where the transport header.
abbrev pub ip_offset : List ℕ → ℕ
ip_offset bytes = if word_at bytes 12 == ethertype_vlan then 18 else 14

abbrev pub transport_offset : (bytes : List ℕ) (ip_off : ℕ) → ℕ
transport_offset bytes ip_off = ip_off + byte_at bytes ip_off % 16 * 4

-- The payload bytes that are copied: as many as asked for, or as the IPv4 length leaves.
abbrev pub copied_length : (payload : ℕ) (bytes : List ℕ) (ip_off data_offset : ℕ) → ℕ
copied_length payload bytes ip_off data_offset =
    let available = word_at bytes (ip_off + 2) - (byte_at bytes ip_off % 16 * 4 + data_offset) in
    if ltb payload available then payload else available

module _ (opt : CaptureOption) (payload : ℕ) (asked : opt.payload ≡ pos payload) (bytes : List ℕ)
    (ip_off : ℕ) where
  copy_payload-whole :
      (p : ParsedPacket) (trans_off : ℕ) (suffix : Text) (data_offset : ℕ) (e : Fault)
      → ip_off + 4 ≤ length bytes
      → trans_off + 4 ≤ length bytes
      → trans_off + data_offset + copied_length payload bytes ip_off data_offset ≤ length bytes
      → copy_payload_to_blob opt p bytes ip_off trans_off suffix data_offset ≢ fault e
  unfolding copy_payload_to_blob
  copy_payload-whole p trans_off suffix data_offset e a b c =
      rw
        (
          load_bytes-total bytes trans_off 2 (omega arith),
          load_bytes-total bytes (trans_off + 2) 2 (omega arith),
          load_bytes-total bytes (ip_off + 2) 2 (omega arith),
          load-total bytes ip_off (omega arith),
          asked,
          load_bytes-total bytes (trans_off + data_offset)
              (copied_length payload bytes ip_off data_offset) c,
        )
        (λ h. cc)

  process_tcp-whole :
      (p : ParsedPacket) (trans_off : ℕ) (e : Fault)
      → let header_len = byte_at bytes (trans_off + 12) / 16 * 4 in
        ip_off + 4 ≤ length bytes
        → trans_off + 13 ≤ length bytes
        → trans_off + header_len + copied_length payload bytes ip_off header_len ≤ length bytes
        → process_tcp opt p bytes ip_off trans_off ≢ fault e
  unfolding process_tcp
  process_tcp-whole p trans_off e a b c =
      let header_len = byte_at bytes (trans_off + 12) / 16 * 4 in
      rw
        (
          load-total bytes (trans_off + 12) (omega arith),
          load_bytes-total bytes trans_off header_len (omega arith),
        )
        (copy_payload-whole _ trans_off _ header_len e a (omega arith) c)

  process_udp-whole :
      (p : ParsedPacket) (trans_off : ℕ) (e : Fault)
      → ip_off + 4 ≤ length bytes
      → trans_off + 8 + copied_length payload bytes ip_off 8 ≤ length bytes
      → process_udp opt p bytes ip_off trans_off ≢ fault e
  unfolding process_udp
  process_udp-whole p trans_off e a c =
      rw (load_bytes-total bytes trans_off 8 (omega arith))
        (copy_payload-whole _ trans_off _ 8 e a (omega arith) c)

-- The frame reaches behind its IPv4 header, and that of a TCP or UDP packet behind the transport
-- header and the payload bytes that are copied.
pub record IsWhole (payload : ℕ) (bytes : List ℕ) : Type 0 where
  pub network : ip_offset bytes + 20 ≤ length bytes
  pub tcp :
      byte_at bytes (ip_offset bytes + 9) ≡ ipproto_tcp
      → let trans_off = transport_offset bytes (ip_offset bytes) in
        let header_len = byte_at bytes (trans_off + 12) / 16 * 4 in
        (trans_off + 13 ≤ length bytes)
        × (trans_off + header_len + copied_length payload bytes (ip_offset bytes) header_len
            ≤ length bytes)
  pub udp :
      byte_at bytes (ip_offset bytes + 9) ≡ ipproto_udp
      → transport_offset bytes (ip_offset bytes)
          + 8
          + copied_length payload bytes (ip_offset bytes) 8
        ≤ length bytes

module _ (opt : CaptureOption) (payload : ℕ) (asked : opt.payload ≡ pos payload) (bytes : List ℕ)
    (v : IsWhole payload bytes) where
  abbrev off : ℕ
  off = ip_offset bytes

  process_transport-whole :
      (p : ParsedPacket) (e : Fault)
      → p.protocol ≡ byte_at bytes (off + 9)
      → process_transport opt p bytes off (transport_offset bytes off) ≢ fault e
  unfolding process_transport
  process_transport-whole p e same = elim (Bool-cases (p.protocol == ipproto_tcp)) [
    | inl tcp ↦
        let (ports, rest) = v.tcp (sym same ∙ (==_iff p.protocol ipproto_tcp).0 tcp) in
        rw tcp (
          process_tcp-whole opt payload asked bytes off p (transport_offset bytes off) e
            (omega (arith, v.network)) ports rest)
    | inr no_tcp ↦ elim (Bool-cases (p.protocol == ipproto_udp)) [
      | inl udp ↦
          rw (no_tcp, udp)
            (process_udp-whole opt payload asked bytes off p (transport_offset bytes off) e
              (omega (arith, v.network)) (v.udp (sym same ∙ (==_iff p.protocol ipproto_udp).0 udp)))
      | inr no_udp ↦ rw (no_tcp, no_udp) (λ h. cc)
    ]
  ]

  process_headers-whole :
      (p : ParsedPacket) (e : Fault)
      → p.protocol ≡ byte_at bytes (off + 9)
      → transport_offset bytes off ≤ length bytes
      → process_headers opt p bytes off ≢ fault e
  unfolding process_headers
  process_headers-whole p e same inside =
      let header_len = byte_at bytes off % 16 * 4 in
      rw
        (
          load_bytes-total bytes (off + 12) 4 (omega (arith, v.network)),
          load_bytes-total bytes (off + 16) 4 (omega (arith, v.network)),
          load-total bytes off (omega (arith, v.network)),
          load_bytes-total bytes off header_len inside,
        )
        (process_transport-whole _ e same)

  -- A packet of TCP or UDP has its transport header inside.
  inside_of :
      (byte_at bytes (off + 9) ≡ ipproto_tcp) ⊎ (byte_at bytes (off + 9) ≡ ipproto_udp)
      → transport_offset bytes off ≤ length bytes
  inside_of (inl tcp) = omega (arith, (v.tcp tcp).0)
  inside_of (inr udp) = omega (arith, v.udp udp)

  process_ipv4-whole :
      (p : ParsedPacket) (e : Fault) → process_ipv4_packet opt p bytes off ≢ fault e
  unfolding process_ipv4_packet
  process_ipv4-whole p e = grind (arith, load-total, process_headers-whole, inside_of)

  process_raw_bytes-whole : (p : ParsedPacket) (e : Fault) → process_raw_bytes opt p bytes ≢ fault e
  unfolding process_raw_bytes
  process_raw_bytes-whole p e =
      let ipv4 = process_ipv4-whole p e in
      elim (Bool-cases (word_at bytes 12 == ethertype_vlan)) [
        | inl tagged ↦
            let inside = rw tagged at v.network in
            let next = rw tagged at ipv4 in
            rw
              (
                load_bytes-total bytes 12 2 (omega arith),
                tagged,
                load_bytes-total bytes 16 2 (omega arith),
              )
              (ground arith)
        | inr plain ↦
            let inside = rw plain at v.network in
            let next = rw plain at ipv4 in
            rw
              (
                load_bytes-total bytes 12 2 (omega arith),
                plain,
                load_bytes-total bytes 12 2 (omega arith),
              )
              (ground arith)
      ]

-- With a payload option that is not negative, a frame that reaches behind its IPv4 header (or
-- behind where that would be) and, for TCP and UDP, behind the transport header of the announced
-- length and the payload bytes that are copied, is parsed without a fault, with a VLAN tag or
-- without one, however short it is.
pub parse_packet-whole :
    (opt : CaptureOption) (payload : ℕ) (raw : RawPacket)
    → opt.payload ≡ pos payload
    → IsWhole payload raw.byte_arr
    → (p : ParsedPacket) × (parse_packet opt raw ≡ ok p)
unfolding parse_packet
parse_packet-whole opt payload raw asked v =
    not_fault (parse_packet opt raw)
      (λ e h. grind (arith, process_raw_bytes-whole opt payload asked raw.byte_arr v))
  where
    not_fault : {A : Type 0} → (o : Outcome A) → ((e : Fault) → o ≢ fault e) → (a : A) × (o ≡ ok a)
    not_fault (ok a) h = (a, refl)
    not_fault (fault e) h = absurd (h e refl)
