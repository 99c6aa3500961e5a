-- ===== src/Flow.antt =====
-- include/hound/type/hd_flow.hpp and source/hd_flow.cpp, the flow table of
-- include/hound/sink/kafka_sink.hpp (a `std::map`, in the order of its keys), and the tests of
-- source/util.cpp on the packets of a flow.
pub mod Map
pub mod Sorted
pub mod Print
mod Examples
use huntind.Common.{
  ℕ, ◌+◌, ◌-◌, ◌^◌, List, [], ◌∷◌, ◌++◌, Bool, true, false, length, leb, if◌then◌else◌, ℤ, pos,
  negsuc, sub_ℕ, leb_ℤ,
}
use huntind.Common.Outcome.{Outcome, ok, fault, out_of_bounds, ◌>>=◌}
use huntind.Strings.{Text}
use huntind.Settings.{CaptureOption}
use huntind.Packet.{ParsedPacket}

pub record Flow : Type 0 where
  pub protocol : ℕ
  pub count : ℕ
  pub flow_id : Text
  pub packet_list : List ParsedPacket

-- The constructor reads `_data[0]`.
unfoldable pub make_flow : Text → List ParsedPacket → Outcome Flow
make_flow flow_id [] = fault out_of_bounds
make_flow flow_id (first ∷ rest) = ok (record {
  protocol = first.protocol;
  count = length (first ∷ rest);
  flow_id = flow_id;
  packet_list = first ∷ rest;
})

-- `existing.back()`
unfoldable pub back : List ParsedPacket → Outcome ParsedPacket
back [] = fault out_of_bounds
back (p ∷ []) = ok p
back (p ∷ q ∷ rest) = back (q ∷ rest)

-- An `int32_t` that is compared with a `size_t`.
abbrev pub size_of_int : ℤ → ℕ
size_of_int (pos n) = n
size_of_int (negsuc n) = 2 ^ 64 - 1 - n

unfoldable pub check_length : CaptureOption → List ParsedPacket → Bool
check_length opt existing = leb (size_of_int opt.min_packets) (length existing)

unfoldable pub is_flow_ready : CaptureOption → List ParsedPacket → Bool
unfolding check_length
is_flow_ready opt existing = check_length opt existing

-- `_isTimeout(existing)` at the time `now`, in seconds.
unfoldable pub is_timeout : CaptureOption → (now : ℕ) → List ParsedPacket → Outcome Bool
is_timeout opt now existing = do
  last ← back existing
  ok (leb_ℤ opt.flow_timeout (sub_ℕ now last.ts_sec))

-- `_isTimeout(existing, _new)`
unfoldable pub is_timeout_new : CaptureOption → List ParsedPacket → ParsedPacket → Bool
unfolding is_timeout back
is_timeout_new opt existing new = elim (is_timeout opt new.ts_sec existing) [
  | ok late ↦ late
  | fault _ ↦ false
]
