-- ===== src/Service/Follows/Cleaning.antt =====
-- What a cleaning round does to a key is what the specification does in at most one step.
use huntind.Common.{
  ℕ, ◌<◌, ◌≤◌, ◌≡◌, refl, sym, ap, ◌∙◌, List, [], ◌∷◌, ◌++◌, append-nil, append_assoc, length,
  arith, pos,
}
use huntind.Common.Outcome.{ok, Returns-ok}
use huntind.Strings.{Text}
use huntind.Settings.{CaptureOption}
use huntind.Packet.{ParsedPacket}
use huntind.Buffer.Sequential.{pending}
use huntind.Flow.{Flow}
use huntind.Flow.Map.{lookup}
use huntind.Flow.Sorted.{IsSorted}
use huntind.Sink.Invariant.{Inv}
use huntind.Sink.Merge.{entry_at}
use huntind.Sink.Clean.{clean-Returns}
use huntind.Sink.Entries.{nonempty}
use huntind.Sink.{Sink, clean_unwanted_flows}
use huntind.Service.Spec.{SpecStep, sent_of-append, sent, lost}
use huntind.Service.Keys.{chunks, chunks-append, kept_entries-IsSorted, Cleaned, clean_key}
use huntind.Service.Follows.{Follows, silent, untouched}

module _ (opt : CaptureOption) (m limit : ℕ) (asked : opt.min_packets ≡ pos m)
    (limited : opt.max_packets ≡ pos limit) (positive : 0 < m) (fits : m ≤ limit) (k : Text)
    (done : List (List ParsedPacket)) where
  Cleaned-Follows :
      (now : ℕ) (s t : Sink) (seen : List ParsedPacket) (fs : List Flow)
      → pending t.queue ≡ pending s.queue ++ fs
      → Inv m s
      → Cleaned opt now m (lookup k s.flow_table) (lookup k t.flow_table) (chunks k fs)
      → Follows m k done seen s
      → Follows m k done seen t
  Cleaned-Follows now s t seen fs behind v (Cleaned.stayed same none_out) f =
      untouched s t same
        (rw (behind, chunks-append k (pending s.queue) fs, none_out, append-nil) refl) f
  Cleaned-Follows now s t seen fs behind v (Cleaned.closed gone out long) f =
      let short = (entry_at opt m limit asked limited positive fits s k v).0 in
      record {
        spec = record {
          segments = f.spec.segments ++ (sent f.spec.open_segment ∷ []);
          open_segment = [];
        };
        run = silent f.run (SpecStep.close (ap length f.open_is ∙ omega arith));
        open_is = sym gone;
        sent_is =
            rw
              (
                sent_of-append f.spec.segments (sent f.spec.open_segment ∷ []),
                f.sent_is,
                f.open_is,
                behind,
                chunks-append k (pending s.queue) fs,
                out,
              )
              (append_assoc done (chunks k (pending s.queue)) (lookup k s.flow_table ∷ []));
      }
  Cleaned-Follows now s t seen fs behind v (Cleaned.dropped gone none_out short _) f = record {
    spec = record {
      segments = f.spec.segments ++ (lost f.spec.open_segment ∷ []);
      open_segment = [];
    };
    run = silent f.run (SpecStep.drop (rw f.open_is short));
    open_is = sym gone;
    sent_is =
        rw
          (
            sent_of-append f.spec.segments (lost f.spec.open_segment ∷ []),
            append-nil,
            f.sent_is,
            behind,
            chunks-append k (pending s.queue) fs,
            none_out,
            append-nil,
          )
          refl;
  }

  pub clean-Follows :
      (now : ℕ) (s t : Sink) (seen : List ParsedPacket)
      → Inv m s
      → IsSorted s.flow_table
      → clean_unwanted_flows opt now s ≡ ok t
      → Follows m k done seen s
      → IsSorted t.flow_table × Follows m k done seen t
  clean-Follows now s t seen v sorted h f =
      let (_, kept, (fs, behind, are)) = Returns-ok _ h (clean-Returns opt m asked now s v) in
      (
        rw kept
            (kept_entries-IsSorted opt now s.flow_table (nonempty m s.flow_table v.entries) sorted),
        Cleaned-Follows now s t seen fs behind v
            (rw kept (clean_key opt m asked positive now k s.flow_table fs sorted v.entries are)) f,
      )
