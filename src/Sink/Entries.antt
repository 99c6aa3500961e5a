-- ===== src/Sink/Entries.antt =====
-- The entries of the flow table in a cleaning round: which of them stay, and which become flows.
use huntind.Common.{
  ℕ, ◌<◌, ◌≡◌, refl, inl, inr, Bool, true, false, Bool-cases, List, [], ◌∷◌, length, if◌then◌else◌,
  arith, All,
}
use huntind.Common.Outcome.{ok}
use huntind.Strings.{Text}
use huntind.Settings.{CaptureOption}
use huntind.Packet.{ParsedPacket}
use huntind.Flow.{Flow, make_flow, is_flow_ready}
use huntind.Flow.Map.{Map}
use huntind.Sink.Invariant.{IsEntry}
use huntind.Common.{sub_ℕ, leb_ℤ}
use huntind.Flow.{back, is_timeout}

back-total : (l : List ParsedPacket) → 0 < length l → (p : ParsedPacket) × (back l ≡ ok p)
unfolding back
back-total [] h = absurd (omega arith)
back-total (p ∷ []) h = (p, refl)
back-total (p ∷ q ∷ l) h = back-total (q ∷ l) (omega arith)

is_timeout-total :
    (opt : CaptureOption) (now : ℕ) (l : List ParsedPacket)
    → 0 < length l
    → (b : Bool) × (is_timeout opt now l ≡ ok b)
unfolding is_timeout
is_timeout-total opt now l h =
    let (p, e) = back-total l h in (leb_ℤ opt.flow_timeout (sub_ℕ now p.ts_sec), rw e)

-- What a round does to one entry.
pub data Fate (opt : CaptureOption) (now : ℕ) (k : Text) (l : List ParsedPacket) : Type 0 where
  long : is_flow_ready opt l ≡ true → Fate opt now k l
  late : is_flow_ready opt l ≡ false → is_timeout opt now l ≡ ok true → Fate opt now k l
  fresh : is_flow_ready opt l ≡ false → is_timeout opt now l ≡ ok false → Fate opt now k l

pub fate :
    (opt : CaptureOption) (now : ℕ) (k : Text) (l : List ParsedPacket)
    → 0 < length l
    → Fate opt now k l
fate opt now k l h = elim (Bool-cases (is_flow_ready opt l)) [
  | inl r ↦ long r
  | inr s ↦
      let (b, e) = is_timeout-total opt now l h in
      elim (Bool-cases b) [ inl t ↦ late s (rw t at e) | inr f ↦ fresh s (rw f at e) ]
]

-- The entries that stay, and those that become flows.
unfoldable pub kept_entries : CaptureOption → ℕ → Map ParsedPacket → Map ParsedPacket
kept_entries opt now [] = []
kept_entries opt now ((k, l) ∷ m) =
    let rest = kept_entries opt now m in
    if is_flow_ready opt l
    then rest
    else elim (is_timeout opt now l) [ ok false ↦ (k, l) ∷ rest | _ ↦ rest ]

unfoldable pub ready_entries : CaptureOption → Map ParsedPacket → Map ParsedPacket
ready_entries opt [] = []
ready_entries opt ((k, l) ∷ m) =
    let rest = ready_entries opt m in if is_flow_ready opt l then (k, l) ∷ rest else rest

-- A flow with the key and the packets of an entry.
abbrev pub IsFlowOf : Text × List ParsedPacket → Flow → Type 0
IsFlowOf (k, l) f = make_flow k l ≡ ok f

abbrev pub AreFlowsOf : Map ParsedPacket → List Flow → Type 0
AreFlowsOf [] [] = Unit
AreFlowsOf [] (f ∷ fs) = ⊥
AreFlowsOf (e ∷ es) [] = ⊥
AreFlowsOf (e ∷ es) (f ∷ fs) = IsFlowOf e f × AreFlowsOf es fs

pub nonempty :
    (m : ℕ) (entries : Map ParsedPacket)
    → All (IsEntry m) entries
    → All (λ e. 0 < length e.1) entries
nonempty m [] a = tt
nonempty m (e ∷ entries) a = (a.0.0, nonempty m entries a.1)

pub kept_entries-All :
    (P : Text × List ParsedPacket → Type 0) (opt : CaptureOption) (now : ℕ) (m : Map ParsedPacket)
    → All P m
    → All P (kept_entries opt now m)
unfolding kept_entries
kept_entries-All P opt now [] a = tt
kept_entries-All P opt now ((k, l) ∷ m) a = ground (arith, kept_entries-All P opt now m a.1)

pub make_flow-fields :
    (k : Text) (l : List ParsedPacket) (f : Flow)
    → make_flow k l ≡ ok f
    → (f.flow_id ≡ k) × (f.packet_list ≡ l)
unfolding make_flow
make_flow-fields k [] f h = cc
make_flow-fields k (p ∷ l) f h = ground arith
