-- ===== src/Service/Keys.antt =====
-- What the steps of the sink do to one key: its entry in the flow table and its flows on their way out.
use huntind.Common.{
  ℕ, ◌<◌, ◌≤◌, ◌≡◌, refl, inl, inr, Bool-cases, true, false, List, [], ◌∷◌, ◌++◌, length,
  if◌then◌else◌, arith, All, leb, pos,
}
use huntind.Common.Outcome.{ok, >>=-eq-ok}
use huntind.Strings.{Text, text_eq, text_lt, text_eq_iff}
use huntind.Settings.{CaptureOption}
use huntind.Packet.{ParsedPacket}
use huntind.Buffer.{enqueue}
use huntind.Flow.{Flow, make_flow, is_flow_ready, is_timeout, size_of_int}
use huntind.Flow.Map.{Map, lookup, put}
use huntind.Flow.Sorted.{IsSorted, lookup_below, put-IsSorted}
use huntind.Sink.Invariant.{IsEntry, is_flow_ready-lt, is_flow_ready-le}
use huntind.Sink.Entries.{
  Fate, fate, kept_entries, ready_entries, AreFlowsOf, kept_entries-All, make_flow-fields,
}
use huntind.Sink.{Sink, append_packet, merge_packet}

-- The packet lists of the flows of a key.
unfoldable pub chunks : Text → List Flow → List (List ParsedPacket)
chunks k [] = []
chunks k (f ∷ fs) =
    let rest = chunks k fs in if text_eq f.flow_id k then f.packet_list ∷ rest else rest

pub chunks-append :
    (k : Text) (fs gs : List Flow) → chunks k (fs ++ gs) ≡ chunks k fs ++ chunks k gs
unfolding chunks
chunks-append k [] gs = refl
chunks-append k (f ∷ fs) gs = elim (Bool-cases (text_eq f.flow_id k)) [
  | inl e ↦ rw (e, chunks-append k fs gs)
  | inr e ↦ rw (e, chunks-append k fs gs)
]

-- What merging one packet does, if it returns.
pub data Merged (opt : CaptureOption) (s : Sink) (p : ParsedPacket) (t : Sink) : Type 0 where
  flushed :
      (f : Flow)
      → is_flow_ready opt (lookup p.key s.flow_table) ≡ true
      → f.flow_id ≡ p.key
      → f.packet_list ≡ lookup p.key s.flow_table
      → t.queue ≡ enqueue s.queue f
      → t.flow_table ≡ put p.key (p ∷ []) s.flow_table
      → Merged opt s p t
  appended :
      is_flow_ready opt (lookup p.key s.flow_table) ≡ false
      → t.queue ≡ s.queue
      → t.flow_table ≡ put p.key (lookup p.key s.flow_table ++ p ∷ []) s.flow_table
      → Merged opt s p t

append_packet-fields :
    (opt : CaptureOption) (s t : Sink) (p : ParsedPacket) (existing : List ParsedPacket)
    → append_packet opt s p existing ≡ ok t
    → (t.queue ≡ s.queue) × (t.flow_table ≡ put p.key (existing ++ p ∷ []) s.flow_table)
unfolding append_packet
append_packet-fields opt s t p existing h =
    elim (Bool-cases (leb (length (existing ++ p ∷ [])) (size_of_int opt.max_packets))) [
      | inl fits ↦ let e = rw fits at h in (cc, cc)
      | inr over ↦ let e = rw over at h in cc
    ]

pub merge_packet-Merged :
    (opt : CaptureOption) (s t : Sink) (p : ParsedPacket)
    → merge_packet opt s p ≡ ok t
    → Merged opt s p t
unfolding merge_packet
merge_packet-Merged opt s t p h =
    elim (Bool-cases (is_flow_ready opt (lookup p.key s.flow_table))) [
      | inl ready ↦
          let (f, made, added) =
            >>=-eq-ok (make_flow p.key (lookup p.key s.flow_table))
              (λ flow. append_packet opt (record s { queue = enqueue s.queue flow }) p [])
              (rw ready at h) in
          let (id, list) = make_flow-fields p.key (lookup p.key s.flow_table) f made in
          let (queue, table) =
            append_packet-fields opt (record s { queue = enqueue s.queue f }) t p [] added in
          flushed f ready id list queue table
      | inr early ↦
          let (queue, table) =
            append_packet-fields opt s t p (lookup p.key s.flow_table) (rw early at h) in
          appended early queue table
    ]

pub Merged-IsSorted :
    (opt : CaptureOption) (s t : Sink) (p : ParsedPacket)
    → Merged opt s p t
    → IsSorted s.flow_table
    → IsSorted t.flow_table
Merged-IsSorted opt s t p (flushed f _ _ _ _ table) sorted =
    rw table (put-IsSorted p.key (p ∷ []) s.flow_table sorted)
Merged-IsSorted opt s t p (appended _ _ table) sorted =
    rw table (put-IsSorted p.key (lookup p.key s.flow_table ++ p ∷ []) s.flow_table sorted)

pub kept_entries-IsSorted :
    (opt : CaptureOption) (now : ℕ) (m : Map ParsedPacket)
    → All (λ e. 0 < length e.1) m
    → IsSorted m
    → IsSorted (kept_entries opt now m)
unfolding kept_entries
kept_entries-IsSorted opt now [] a s = tt
kept_entries-IsSorted opt now ((k, l) ∷ m) a s =
    let rest = kept_entries-IsSorted opt now m a.1 s.1 in
    elim (fate opt now k l a.0) [
      | Fate.long r ↦ rw r rest
      | Fate.late r t ↦ rw (r, t) rest
      | Fate.fresh r t ↦
          rw (r, t) (kept_entries-All (λ e. text_lt k e.0 ≡ true) opt now m s.0, rest)
    ]

-- What a cleaning round does to one key: its entry stays, or becomes a flow, or is dropped.
pub data Cleaned (opt : CaptureOption) (now m : ℕ) (before after : List ParsedPacket)
    (out : List (List ParsedPacket)) : Type 0 where
  stayed : after ≡ before → out ≡ [] → Cleaned opt now m before after out
  closed : after ≡ [] → out ≡ before ∷ [] → m ≤ length before → Cleaned opt now m before after out
  dropped :
      after ≡ []
      → out ≡ []
      → length before < m
      → is_timeout opt now before ≡ ok true
      → Cleaned opt now m before after out

module _ (opt : CaptureOption) (m : ℕ) (asked : opt.min_packets ≡ pos m) (positive : 0 < m)
    (now : ℕ) (k : Text) where
  -- Without an entry before, there is nothing after.
  Cleaned-nothing :
      {after : List ParsedPacket} {out : List (List ParsedPacket)}
      → Cleaned opt now m [] after out
      → (after ≡ []) × (out ≡ [])
  Cleaned-nothing (stayed e o) = (e, o)
  Cleaned-nothing (closed e o l) = absurd (omega arith)
  Cleaned-nothing (dropped e o l t) = (e, o)

  abbrev IsCleaned : Map ParsedPacket → List Flow → Type 0
  IsCleaned entries fs =
      Cleaned opt now m (lookup k entries) (lookup k (kept_entries opt now entries)) (chunks k fs)

  pub clean_key :
      (entries : Map ParsedPacket) (fs : List Flow)
      → IsSorted entries
      → All (IsEntry m) entries
      → AreFlowsOf (ready_entries opt entries) fs
      → IsCleaned entries fs
  unfolding kept_entries ready_entries chunks lookup
  clean_key [] [] s a h = stayed refl refl
  clean_key [] (f ∷ fs) s a h = absurd h
  clean_key ((j, l) ∷ entries) fs s a h = elim (fate opt now j l a.0.0) [
    | Fate.long r ↦ first_flow (λ gs. clean_key entries gs s.1 a.1) fs r (rw r at h)
    | Fate.late r t ↦
        let rest = clean_key entries fs s.1 a.1 (rw r at h) in
        elim (Bool-cases (text_eq j k)) [
          | inl same ↦
              let (gone, silent) = Cleaned-nothing (rw (nothing_below same) at rest) in
              rw (r, t, same) (dropped gone silent (is_flow_ready-lt opt m asked l r) t)
          | inr other ↦ rw (r, t, other) rest
        ]
    | Fate.fresh r t ↦
        let rest = clean_key entries fs s.1 a.1 (rw r at h) in
        elim (Bool-cases (text_eq j k)) [
          | inl same ↦
              let (gone, silent) = Cleaned-nothing (rw (nothing_below same) at rest) in
              rw (r, t, same) (stayed refl silent)
          | inr other ↦ rw (r, t, other) rest
        ]
  ]
    where
      nothing_below : text_eq j k ≡ true → lookup k entries ≡ []
      nothing_below same = lookup_below k entries (rw ((text_eq_iff j k).0 same) at s.0)

      first_flow :
          ((gs : List Flow) → AreFlowsOf (ready_entries opt entries) gs → IsCleaned entries gs)
          → (gs : List Flow) → is_flow_ready opt l ≡ true
          → AreFlowsOf ((j, l) ∷ ready_entries opt entries) gs
          → IsCleaned ((j, l) ∷ entries) gs
      first_flow ih [] r h' = absurd h'
      first_flow ih (f ∷ gs) r h' =
          let (id, list) = make_flow-fields j l f h'.0 in
          let rest = ih gs h'.1 in
          elim (Bool-cases (text_eq j k)) [
            | inl same ↦
                let (gone, silent) = Cleaned-nothing (rw (nothing_below same) at rest) in
                rw (r, id, same)
                  (closed gone (rw (list, silent) refl) (is_flow_ready-le opt m asked l r))
            | inr other ↦ rw (r, id, other) rest
          ]
