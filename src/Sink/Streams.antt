-- ===== src/Sink/Streams.antt =====
-- The packets of one key, in order, through the flow table and the double buffer.
use huntind.Common.{
  ◌≡◌, refl, sym, inl, inr, true, false, Bool-cases, List, [], ◌∷◌, ◌++◌, append-nil, append_assoc,
  if◌then◌else◌,
}
use huntind.Strings.{Text, text_eq, text_eq_iff}
use huntind.Packet.{ParsedPacket}
use huntind.Buffer.{enqueue}
use huntind.Buffer.Sequential.{IsQuiet, pending, pending-enqueue}
use huntind.Flow.{Flow}
use huntind.Flow.Map.{lookup, put, lookup-put}
use huntind.Sink.{Sink}

unfoldable pub emitted : Text → List Flow → List ParsedPacket
emitted k [] = []
emitted k (f ∷ fs) =
    let rest = emitted k fs in if text_eq f.flow_id k then f.packet_list ++ rest else rest

-- The packets of one key in the order of their arrival: those in flows that left the table, then
-- those in the table.
unfoldable pub stream : Text → Sink → List ParsedPacket
unfolding emitted
stream k s = emitted k (pending s.queue) ++ lookup k s.flow_table

unfoldable pub with_key : Text → List ParsedPacket → List ParsedPacket
with_key k [] = []
with_key k (p ∷ ps) = let rest = with_key k ps in if text_eq p.key k then p ∷ rest else rest

pub emitted-append :
    (k : Text) (fs gs : List Flow) → emitted k (fs ++ gs) ≡ emitted k fs ++ emitted k gs
unfolding emitted
emitted-append k [] gs = refl
emitted-append k (f ∷ fs) gs = elim (Bool-cases (text_eq f.flow_id k)) [
  | inl e ↦ rw (e, emitted-append k fs gs, append_assoc)
  | inr e ↦ rw (e, emitted-append k fs gs)
]

pub emitted-one_same :
    (k : Text) (f : Flow) → text_eq f.flow_id k ≡ true → emitted k (f ∷ []) ≡ f.packet_list
unfolding emitted
emitted-one_same k f e = rw (e, append-nil)

pub emitted-one_other :
    (k : Text) (f : Flow) → text_eq f.flow_id k ≡ false → emitted k (f ∷ []) ≡ []
unfolding emitted
emitted-one_other k f e = rw e

-- One packet more at the end of its entry.
pub stream-appended :
    (k : Text) (s t : Sink) (p : ParsedPacket)
    → t.queue ≡ s.queue
    → t.flow_table ≡ put p.key (lookup p.key s.flow_table ++ p ∷ []) s.flow_table
    → stream k t ≡ stream k s ++ with_key k (p ∷ [])
unfolding stream with_key
stream-appended k s t p q e = elim (Bool-cases (text_eq p.key k)) [
  | inl same ↦
      rw (q, e, lookup-put, same, ← (text_eq_iff p.key k).0 same)
        (sym (append_assoc (emitted p.key (pending s.queue)) (lookup p.key s.flow_table) (p ∷ [])))
  | inr other ↦ rw (q, e, lookup-put, other) (sym (append-nil (stream k s)))
]

-- The packets of an entry go out as a flow, and the entry starts again with one packet.
pub stream-flushed :
    (k : Text) (s t : Sink) (p : ParsedPacket) (f : Flow)
    → IsQuiet s.queue
    → f.flow_id ≡ p.key
    → f.packet_list ≡ lookup p.key s.flow_table
    → t.queue ≡ enqueue s.queue f
    → t.flow_table ≡ put p.key (p ∷ []) s.flow_table
    → stream k t ≡ stream k s ++ with_key k (p ∷ [])
unfolding stream with_key
stream-flushed k s t p f quiet id l q e = elim (Bool-cases (text_eq p.key k)) [
  | inl same ↦ rw (
    q,
    e,
    lookup-put,
    same,
    pending-enqueue s.queue f quiet,
    emitted-append,
    emitted-one_same k f (rw id same),
    l,
    ← (text_eq_iff p.key k).0 same,
  )
  | inr other ↦ rw (
    q,
    e,
    lookup-put,
    other,
    pending-enqueue s.queue f quiet,
    emitted-append,
    emitted-one_other k f (rw id other),
    append-nil,
    append-nil,
  )
]
