-- ===== src/Flow/Print.antt =====
-- How flows and packets are printed: `operator<<` of include/hound/type/parsed_packet.hpp, and `print` and
-- `operator<<` of include/hound/type/hd_flow.hpp.
use huntind.Common.{
  true, false, ℕ, zero, suc, ◌+◌, ◌≡◌, refl, ap, List, [], ◌∷◌, ◌++◌, length, take, ◌==◌,
  if◌then◌else◌, arith, map,
}
use huntind.Common.Batches.{join}
use huntind.Strings.{Text, codes, to_string}
use huntind.Packet.{ParsedPacket}
use huntind.Flow.{Flow}

-- `os << packet`
unfoldable pub packet_text : ParsedPacket → Text
packet_text packet =
    codes "Key: "
    ++ packet.key
    ++ codes ", timestamp: "
    ++ to_string packet.ts_sec
    ++ codes "."
    ++ to_string packet.ts_usec
    ++ codes ", raw data size: "
    ++ to_string packet.cap_len
    ++ codes ", blob data: [ "
    ++ to_string (length packet.blob_data)
    ++ codes " ] bytes"

abbrev pub flow_head : Flow → Text
flow_head flow =
    codes "Flow ID: "
    ++ flow.flow_id
    ++ codes "\tProtocol: "
    ++ to_string flow.protocol
    ++ codes "\tCount: "
    ++ to_string flow.count
    ++ codes "\n"

-- The loops over the packets, from number `i` on: `if (i++ == 5) break;` stands behind the printing.
unfoldable pub print_items : (line : ParsedPacket → Text) (i : ℕ) → List ParsedPacket → Text
print_items line i [] = []
print_items line i (item ∷ rest) =
    let more = print_items line (i + 1) rest in line item ++ (if i == 5 then [] else more)

-- `flow.print(out)`
unfoldable pub print_flow : Flow → Text
print_flow flow =
    flow_head flow
    ++ print_items (λ item. codes "\t" ++ packet_text item) 0 flow.packet_list
    ++ codes "\n"

-- `out << flow`
unfoldable pub flow_text : Flow → Text
flow_text flow =
    flow_head flow
    ++ print_items (λ item. codes "\t" ++ packet_text item ++ codes "\n") 0 flow.packet_list

-- The lines of the first `n` packets.
abbrev pub first_lines : (line : ParsedPacket → Text) (n : ℕ) → List ParsedPacket → Text
first_lines line n items = join (map line (take n items))

print_items-lines :
    (line : ParsedPacket → Text) (n i : ℕ) (items : List ParsedPacket)
    → i + n ≡ 5
    → print_items line i items ≡ first_lines line (suc n) items
unfolding print_items
print_items-lines line n i [] h = refl
print_items-lines line zero i (item ∷ rest) h =
    let last : (i == 5) ≡ true = ground arith in rw last refl
print_items-lines line (suc n) i (item ∷ rest) h =
    let before : (i == 5) ≡ false = ground arith in
    rw before (ap (λ l. line item ++ l) (print_items-lines line n (i + 1) rest (omega arith)))

-- Printing a flow, by `print` and by the operator, gives its first line and then the lines of its
-- first six packets, or of all of them if there are fewer; the loops with their counter and break
-- do this.
pub print-first_six :
    (flow : Flow)
    → (print_flow flow
        ≡ flow_head flow
          ++ first_lines (λ item. codes "\t" ++ packet_text item) 6 flow.packet_list
          ++ codes "\n")
      × (flow_text flow
          ≡ flow_head flow
            ++ first_lines
                (λ item. codes "\t" ++ packet_text item ++ codes "\n")
                6
                flow.packet_list)
unfolding print_flow flow_text
print-first_six flow =
    let print_lines =
      print_items-lines (λ item. codes "\t" ++ packet_text item) 5 0 flow.packet_list refl in
    let text_lines =
      print_items-lines (λ item. codes "\t" ++ packet_text item ++ codes "\n") 5 0 flow.packet_list
        refl in
    (rw print_lines refl, rw text_lines refl)
