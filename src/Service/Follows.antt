-- ===== src/Service/Follows.antt =====
-- A run of the specification that a sink follows for a key, and how its parts go on.
pub mod Merging
pub mod Cleaning
use huntind.Common.{
  ℕ, ◌<◌, ◌≤◌, ◌≡◌, refl, sym, ap, ◌∙◌, subst, inl, inr, Bool-cases, true, List, [], ◌∷◌, ◌++◌,
  append-nil, append_assoc, length, arith, pos,
}
use huntind.Common.Outcome.{ok, ok-injective, Returns-ok, >>=-eq-ok}
use huntind.Strings.{Text, text_eq, text_eq_iff}
use huntind.Settings.{CaptureOption}
use huntind.Packet.{ParsedPacket}
use huntind.Buffer.{enqueue}
use huntind.Buffer.Sequential.{IsQuiet, pending, pending-enqueue}
use huntind.Flow.{Flow}
use huntind.Flow.Map.{lookup, lookup-put}
use huntind.Flow.Sorted.{IsSorted}
use huntind.Sink.Invariant.{Inv, is_flow_ready-le, is_flow_ready-lt}
use huntind.Sink.Streams.{with_key}
use huntind.Sink.Merge.{entry_at, merge_packet-Returns, with_key-cons}
use huntind.Sink.Clean.{clean-Returns}
use huntind.Sink.Entries.{nonempty}
use huntind.Sink.{Sink, merge_packet, merge_to_existing_flow, clean_unwanted_flows}
use huntind.Service.Spec.{Spec, SpecStep, SpecRun, sent_of, sent_of-append, sent, lost}
use huntind.Service.Keys.{
  chunks, chunks-append, Merged, merge_packet-Merged, Merged-IsSorted, kept_entries-IsSorted,
  Cleaned, clean_key,
}

-- A run of the specification that ends in what the sink has for a key: `done` was handed out, and
-- `seen` came in.
pub record Follows (m : ℕ) (k : Text) (done : List (List ParsedPacket)) (seen : List ParsedPacket)
    (s : Sink) : Type 0 where
  pub spec : Spec ParsedPacket
  pub run : SpecRun m spec seen
  pub open_is : spec.open_segment ≡ lookup k s.flow_table
  pub sent_is : sent_of spec.segments ≡ done ++ chunks k (pending s.queue)

-- A step that brings nothing in.
pub silent :
    {m : ℕ} {s t : Spec ParsedPacket} {seen : List ParsedPacket}
    → SpecRun m s seen
    → SpecStep m s t []
    → SpecRun m t seen
silent {m} {t = t} {seen} r step =
    subst (λ l. SpecRun m t l) (append-nil seen) (SpecRun.later r step)

pub enqueued :
    (k : Text) (s t : Sink) (f : Flow)
    → IsQuiet s.queue
    → t.queue ≡ enqueue s.queue f
    → chunks k (pending t.queue) ≡ chunks k (pending s.queue) ++ chunks k (f ∷ [])
enqueued k s t f quiet q =
    rw (q, pending-enqueue s.queue f quiet, chunks-append k (pending s.queue) (f ∷ []))

module _ {m : ℕ} {k : Text} {done : List (List ParsedPacket)} {seen : List ParsedPacket} where
  -- The entry of the key goes out, with `m` packets.
  pub close_open :
      (s : Sink) (g : Flow)
      → length (lookup k s.flow_table) ≡ m
      → g.packet_list ≡ lookup k s.flow_table
      → text_eq g.flow_id k ≡ true
      → (f : Follows m k done seen s)
      → (spec : Spec ParsedPacket) × SpecRun m spec seen
        × (spec.open_segment ≡ [])
        × (sent_of spec.segments ≡ (done ++ chunks k (pending s.queue)) ++ chunks k (g ∷ []))
  unfolding chunks
  close_open s g full list id f = (
    record { segments = f.spec.segments ++ (sent f.spec.open_segment ∷ []); open_segment = [] },
    silent f.run (SpecStep.close (ap length f.open_is ∙ full)),
    refl,
    rw
        (
          id,
          list,
          sent_of-append f.spec.segments (sent f.spec.open_segment ∷ []),
          f.sent_is,
          f.open_is,
        )
        refl,
  )

  -- A packet of the key arrives.
  pub arrive_one :
      {t : Sink} (spec : Spec ParsedPacket) (p : ParsedPacket)
      → SpecRun m spec seen
      → length spec.open_segment < m
      → spec.open_segment ++ (p ∷ []) ≡ lookup k t.flow_table
      → sent_of spec.segments ≡ done ++ chunks k (pending t.queue)
      → Follows m k done (seen ++ p ∷ []) t
  arrive_one spec p r room o e = record {
    spec = record spec { open_segment = spec.open_segment ++ (p ∷ []) };
    run = SpecRun.later r (SpecStep.arrive p room);
    open_is = o;
    sent_is = e;
  }

  -- Nothing happens to the key.
  pub untouched :
      (s t : Sink)
      → lookup k t.flow_table ≡ lookup k s.flow_table
      → chunks k (pending t.queue) ≡ chunks k (pending s.queue)
      → Follows m k done seen s
      → Follows m k done seen t
  untouched s t entry flows f = record {
    spec = f.spec;
    run = f.run;
    open_is = f.open_is ∙ sym entry;
    sent_is = f.sent_is ∙ ap (λ l. done ++ l) (sym flows);
  }
