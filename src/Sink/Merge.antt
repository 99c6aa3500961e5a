-- ===== src/Sink/Merge.antt =====
-- Merging parsed packets under a valid configuration: `min_packets` is at least 1 and at most
-- `max_packets`.
use huntind.Common.{
  ℕ, ◌≤◌, ◌<◌, ◌≡◌, refl, sym, ap, ◌∙◌, inl, inr, Bool-cases, List, [], ◌∷◌, ◌++◌, append-nil,
  append_assoc, length, length-append, le→leb, pos, arith, All-append,
}
use huntind.Common.Outcome.{ok, ◌>>=◌, Returns, Returns-bind, Returns-map}
use huntind.Strings.{Text}
use huntind.Settings.{CaptureOption}
use huntind.Packet.{ParsedPacket}
use huntind.Buffer.{enqueue}
use huntind.Buffer.Sequential.{enqueue-IsQuiet, pending, pending-enqueue}
use huntind.Flow.{Flow, make_flow, is_flow_ready}
use huntind.Flow.Map.{lookup, put, All-put, All-lookup}
use huntind.Sink.Invariant.{is_flow_ready-le, is_flow_ready-lt, Inv, IsEntry, IsFlow, IsKeyed}
use huntind.Sink.Streams.{stream, with_key, stream-appended, stream-flushed}
use huntind.Sink.{Sink, append_packet, merge_packet, merge_to_existing_flow}

pub make_flow-total :
    (k : Text) (l : List ParsedPacket)
    → 0 < length l
    → (f : Flow) × (make_flow k l ≡ ok f) × (f.flow_id ≡ k) × (f.packet_list ≡ l)
unfolding make_flow
make_flow-total k [] h = absurd (omega arith)
make_flow-total k (p ∷ l) h = (_, refl, refl, refl)

pub with_key-cons :
    (k : Text) (p : ParsedPacket) (ps : List ParsedPacket)
    → with_key k (p ∷ []) ++ with_key k ps ≡ with_key k (p ∷ ps)
unfolding with_key
with_key-cons k p ps = ground arith

module _ (opt : CaptureOption) (m limit : ℕ) (asked : opt.min_packets ≡ pos m)
    (limited : opt.max_packets ≡ pos limit) (positive : 0 < m) (fits : m ≤ limit) where
  abbrev Appended : Sink → ParsedPacket → List ParsedPacket → Sink → Type 0
  Appended s p existing t =
      Inv m t × (t.queue ≡ s.queue) × (t.flow_table ≡ put p.key (existing ++ (p ∷ [])) s.flow_table)

  append_packet-Returns :
      (s : Sink) (p : ParsedPacket) (existing : List ParsedPacket)
      → Inv m s
      → length existing < m
      → IsKeyed p.key existing
      → Returns (append_packet opt s p existing) (Appended s p existing)
  unfolding append_packet
  append_packet-Returns s p existing v room keyed =
      rw
        (
          limited,
          le→leb (length (existing ++ p ∷ [])) limit
              (omega (arith, length-append existing (p ∷ []))),
        )
        (
          record {
            quiet = v.quiet;
            entries =
                All-put (IsEntry m) p.key _ s.flow_table
                  (
                    omega (arith, length-append existing (p ∷ [])),
                    omega (arith, length-append existing (p ∷ [])),
                    All-append (λ q. q.key ≡ p.key) existing (p ∷ []) keyed (refl, tt),
                  )
                  v.entries;
            flows = v.flows;
          },
          refl,
          refl,
        )

  abbrev pub Merged : Sink → List ParsedPacket → Sink → Type 0
  Merged s ps t = Inv m t × ((k : Text) → stream k t ≡ stream k s ++ with_key k ps)

  pub entry_at :
      (s : Sink) (k : Text)
      → Inv m s
      → (length (lookup k s.flow_table) ≤ m) × IsKeyed k (lookup k s.flow_table)
  entry_at s k v = elim (All-lookup (IsEntry m) k s.flow_table v.entries) [
    | inl e ↦ rw e (omega arith, tt)
    | inr h ↦ (h.1, h.2)
  ]

  merge_ready :
      (s : Sink) (p : ParsedPacket)
      → Inv m s
      → m ≤ length (lookup p.key s.flow_table)
      → Returns
          (make_flow p.key (lookup p.key s.flow_table) >>= λ flow.
            append_packet opt (record s { queue = enqueue s.queue flow }) p [])
          (Merged s (p ∷ []))
  merge_ready s p v long =
      let (f, made, id, list) = make_flow-total p.key (lookup p.key s.flow_table) (omega arith) in
      let (short, keyed) = entry_at s p.key v in
      let s' : Sink = record s { queue = enqueue s.queue f } in
      let w : Inv m s' = record {
        quiet = enqueue-IsQuiet s.queue f v.quiet;
        entries = v.entries;
        flows = rw (pending-enqueue s.queue f v.quiet) (
            All-append (IsFlow m) (pending s.queue) (f ∷ []) v.flows
              ((rw (id, list) made, rw list (omega arith), rw (id, list) keyed), tt));
      } in
      rw made (
        Returns-map (append_packet opt s' p []) (Appended s' p []) (Merged s (p ∷ []))
          (append_packet-Returns s' p [] w positive tt)
          λ t a. (a.0, λ k. stream-flushed k s t p f v.quiet id list a.1 a.2))

  pub merge_packet-Returns :
      (s : Sink) (p : ParsedPacket) → Inv m s → Returns (merge_packet opt s p) (Merged s (p ∷ []))
  unfolding merge_packet
  merge_packet-Returns s p v = elim (Bool-cases (is_flow_ready opt (lookup p.key s.flow_table))) [
    | inl ready ↦ rw ready (merge_ready s p v (is_flow_ready-le opt m asked _ ready))
    | inr early ↦ rw early (
        Returns-map (append_packet opt s p (lookup p.key s.flow_table))
          (Appended s p (lookup p.key s.flow_table)) (Merged s (p ∷ []))
          (append_packet-Returns s p _ v (is_flow_ready-lt opt m asked _ early)
            (entry_at s p.key v).1)
          λ t a. (a.0, λ k. stream-appended k s t p a.1 a.2))
  ]

  -- Under an option with 1 <= min_packets <= max_packets, from a sink whose invariant holds,
  -- merging any list of parsed packets returns: no empty flow is built and the assertion on
  -- max_packets holds. The invariant holds again, and for every key the stream (the packets of
  -- that key in flows in the buffer, then in the table) is the old stream followed by the new
  -- packets of that key in order.
  pub merge-Returns :
      (s : Sink) (ps : List ParsedPacket)
      → Inv m s
      → Returns
          (merge_to_existing_flow opt s ps)
          (λ t. Inv m t × ((k : Text) → stream k t ≡ stream k s ++ with_key k ps))
  unfolding merge_to_existing_flow
  merge-Returns s [] v = (v, λ k. unfold with_key in sym (append-nil (stream k s)))
  merge-Returns s (p ∷ ps) v =
      Returns-bind (merge_packet opt s p) (λ t. merge_to_existing_flow opt t ps) (Merged s (p ∷ []))
        (Merged s (p ∷ ps)) (merge_packet-Returns s p v)
        λ t _ a.
          Returns-map (merge_to_existing_flow opt t ps) (Merged t ps) (Merged s (p ∷ ps))
            (merge-Returns t ps a.0)
            λ u b. (
              b.0,
              λ k.
                  b.1 k
                  ∙ rw (a.1 k) (
                      append_assoc (stream k s) (with_key k (p ∷ [])) (with_key k ps)
                      ∙ ap (◌++◌ (stream k s)) (with_key-cons k p ps)),
            )
