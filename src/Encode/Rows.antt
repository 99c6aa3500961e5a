-- ===== src/Encode/Rows.antt =====
-- `PacketToTensor` on the blobs that the parser makes.
use huntind.Common.{
  ℕ, ◌+◌, ◌-◌, ◌≤◌, ◌≡◌, true, List, [], ◌++◌, length, length-append, length-take, length-drop,
  take, drop, pos, arith, All, Bool-cases, inl, inr, take-length_le, ◌==◌,
}
use huntind.Common.Outcome.{ok}
use huntind.Settings.{CaptureOption}
use huntind.Packet.{RawPacket, ParsedPacket, parse_packet, ipproto_tcp}
use huntind.Packet.Reads.{IsByte}
use huntind.Packet.Layout.{parse_packet-size}
use huntind.Encode.Torch.{Tensors}
use huntind.Encode.{n_digits, cut_row, cut_end, cut_start, packet_to_tensor}

length-cut :
    (blob : List ℕ) (from to : ℕ)
    → from ≤ to
    → to ≤ length blob
    → length (take (to - from) (drop from blob)) ≡ to - from
length-cut blob from to h k =
    omega (arith, length-take (to - from) (drop from blob), length-drop from blob)

sizes :
    (blob : List ℕ) (end start : ℕ)
    → 20 ≤ end
    → start ≡ end + 4
    → start ≤ 148
    → length blob ≡ 148
    → length (
        take (12 - 0) (drop 0 blob)
        ++ (take (end - 20) (drop 20 blob) ++ (take (148 - start) (drop start blob) ++ [])))
      ≡ 136
sizes blob end start h e k size = omega (
  arith,
  length-append (take (12 - 0) (drop 0 blob))
      (take (end - 20) (drop 20 blob) ++ (take (148 - start) (drop start blob) ++ [])),
  length-append (take (end - 20) (drop 20 blob)) (take (148 - start) (drop start blob) ++ []),
  length-append (take (148 - start) (drop start blob)) [],
  length-cut blob 0 12 (omega arith) (omega arith),
  length-cut blob 20 end (omega arith) (omega arith),
  length-cut blob start 148 (omega arith) (omega arith),
)

module _ (t : Tensors ℕ) where
  open t use {
    Tensor, items, items-slice, from_list, items-from_list, items-concat_nil, items-concat_cons,
  }

  -- What is left of a blob.
  abbrev row_of : List ℕ → (protocol : ℕ) → List ℕ
  row_of blob protocol =
      take (12 - 0) (drop 0 blob)
      ++ (take (cut_end protocol - 20) (drop 20 blob)
          ++ (take (148 - cut_start protocol) (drop (cut_start protocol) blob) ++ []))

  packet_to_tensor-items :
      (p : ParsedPacket) (protocol : ℕ)
      → length p.blob_data ≡ 148
      → (row : Tensor) × (packet_to_tensor t p protocol ≡ ok row)
        × (items row ≡ row_of p.blob_data protocol)
  unfolding packet_to_tensor
  packet_to_tensor-items p protocol size = (
    cut_row t (from_list (take n_digits p.blob_data)) protocol,
    rw size,
    simp (
      items-concat_cons,
      items-concat_nil,
      items-slice,
      items-from_list,
      take-length_le 148 p.blob_data (omega arith),
    ),
  )

  row_of-length :
      (blob : List ℕ) (protocol : ℕ) → length blob ≡ 148 → length (row_of blob protocol) ≡ 136
  row_of-length blob protocol size = elim (Bool-cases (protocol == ipproto_tcp)) [
    | inl tcp ↦ rw tcp (sizes blob 60 64 (omega arith) (omega arith) (omega arith) size)
    | inr udp ↦ rw udp (sizes blob 120 124 (omega arith) (omega arith) (omega arith) size)
  ]

  pub packet_to_tensor-total :
      (p : ParsedPacket) (protocol : ℕ)
      → length p.blob_data ≡ 148
      → (row : Tensor) × (packet_to_tensor t p protocol ≡ ok row) × (length (items row) ≡ 136)
  packet_to_tensor-total p protocol size =
      let (row, made, cut) = packet_to_tensor-items p protocol size in
      (row, made, rw cut (row_of-length p.blob_data protocol size))

  -- With the payload option 20, a frame of bytes that is parsed and accepted gives a row of 136
  -- places, whatever protocol it is cut for: the size that a row of a flow's tensor must have.
  pub packet_to_tensor-row :
      (opt : CaptureOption) (raw : RawPacket) (p : ParsedPacket) (protocol : ℕ)
      → opt.payload ≡ pos 20
      → All IsByte raw.byte_arr
      → parse_packet opt raw ≡ ok p
      → p.has_content ≡ true
      → (row : Tensor) × (packet_to_tensor t p protocol ≡ ok row) × (length (items row) ≡ 136)
  packet_to_tensor-row opt raw p protocol asked octets parsed content =
      packet_to_tensor-total p protocol (parse_packet-size opt 20 asked raw octets parsed content)
