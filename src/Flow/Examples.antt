-- ===== src/Flow/Examples.antt =====
-- A flow of two packets, and the theorem of its printing.
use huntind.Common.{◌≡◌, [], ◌∷◌, ◌++◌}
use huntind.Strings.{codes}
use huntind.Sink.Examples.{packet}
use huntind.Flow.Print.{packet_text, flow_head, print_flow, flow_text, first_lines, print-first_six}
use huntind.Flow.{Flow}

abbrev two_packets : Flow
two_packets = record {
  protocol = 6;
  count = 2;
  flow_id = codes "a";
  packet_list = packet (codes "a") 1 ∷ packet (codes "a") 3 ∷ [];
}

print-first_six_example :
    (print_flow two_packets
      ≡ flow_head two_packets
        ++ first_lines (λ item. codes "\t" ++ packet_text item) 6 two_packets.packet_list
        ++ codes "\n")
    × (flow_text two_packets
        ≡ flow_head two_packets
          ++ first_lines
              (λ item. codes "\t" ++ packet_text item ++ codes "\n")
              6
              two_packets.packet_list)
print-first_six_example = print-first_six two_packets
