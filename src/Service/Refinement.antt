-- ===== src/Service/Refinement.antt =====
-- Every run of the sink, seen at one key, is a run of the specification.
use huntind.Common.{
  ℕ, ◌<◌, ◌≤◌, ◌≡◌, refl, sym, inl, inr, Bool-cases, List, [], ◌∷◌, ◌++◌, append-nil, append_assoc,
  pos, All,
}
use huntind.Common.Outcome.{Outcome, ok, fault, Returns, Returns-ok}
use huntind.Common.Batches.{join}
use huntind.Strings.{Text, text_eq}
use huntind.Settings.{CaptureOption}
use huntind.Packet.{ParsedPacket}
use huntind.Buffer.Sequential.{pending, pending-empty}
use huntind.Flow.{Flow}
use huntind.Flow.Map.{lookup}
use huntind.Flow.Sorted.{IsSorted}
use huntind.Sink.Invariant.{Inv, Inv-init}
use huntind.Sink.Streams.{with_key}
use huntind.Sink.Merge.{merge-Returns}
use huntind.Sink.Clean.{clean-Returns}
use huntind.Sink.{Sink, init, merge_to_existing_flow, clean_unwanted_flows}
use huntind.Service.Spec.{
  Spec, Segment, SpecRun, sent_of, no_segments, packets_of, IsCut, SpecRun-packets,
}
use huntind.Service.Keys.{chunks}
use huntind.Service.Follows.{Follows}
use huntind.Service.Follows.Merging.{merge-Follows}
use huntind.Service.Follows.Cleaning.{clean-Follows}
use huntind.Service.{Service, new_service, count_flows, add_loop_task, stop_service, Step, Run}

pub with_key-append :
    (k : Text) (ps qs : List ParsedPacket) → with_key k (ps ++ qs) ≡ with_key k ps ++ with_key k qs
unfolding with_key
with_key-append k [] qs = refl
with_key-append k (p ∷ ps) qs = elim (Bool-cases (text_eq p.key k)) [
  | inl e ↦ rw (e, with_key-append k ps qs)
  | inr e ↦ rw (e, with_key-append k ps qs)
]

pub join-append {ℓ} : {A : Type ℓ} (xs ys : List (List A)) → join (xs ++ ys) ≡ join xs ++ join ys
join-append [] ys = refl
join-append (x ∷ xs) ys = rw (join-append xs ys, append_assoc)

returned {ℓ κ} :
    {A : Type ℓ} (call : Outcome A) (P : A → Type κ) → Returns call P → (a : A) × (call ≡ ok a)
returned (ok a) P h = (a, refl)
returned (fault e) P h = absurd h.0

module _ (opt : CaptureOption) (m limit : ℕ) (asked : opt.min_packets ≡ pos m)
    (limited : opt.max_packets ≡ pos limit) (positive : 0 < m) (fits : m ≤ limit) where
  -- What holds after every run: the invariant of the sink, and what its steps did for every key.
  record Reached (s : Service) (arrived : List ParsedPacket) : Type 0 where
    sound : Inv m s.sink
    sorted : IsSorted s.sink.flow_table
    follows : (k : Text) → Follows m k [] (with_key k arrived) s.sink

  Reached-step :
      (s t : Service) (arrived new : List ParsedPacket)
      → Reached s arrived
      → Step opt s t new
      → Reached t (arrived ++ new)
  unfolding stop_service count_flows add_loop_task
  Reached-step s t arrived new r (Step.merge ps sink h) =
      let at_key = λ (k : Text).
        merge-Follows opt m limit asked limited positive fits k [] s.sink sink ps
          (with_key k arrived) r.sound r.sorted h (r.follows k) in
      record {
        sound =
            (Returns-ok _ h
              (merge-Returns opt m limit asked limited positive fits s.sink ps r.sound)).0;
        sorted = (at_key []).0;
        follows = λ k. rw (with_key-append k arrived ps) (at_key k).1;
      }
  Reached-step s t arrived new r (Step.clean now sink h) =
      let at_key = λ (k : Text).
        clean-Follows opt m limit asked limited positive fits k [] now s.sink sink
          (with_key k arrived) r.sound r.sorted h (r.follows k) in
      rw append-nil (record {
        sound = (Returns-ok _ h (clean-Returns opt m asked now s.sink r.sound)).0;
        sorted = (at_key []).0;
        follows = λ k. (at_key k).1;
      })
  Reached-step s t arrived new r (Step.loop_read batch rest part) =
      rw append-nil (record { sound = r.sound; sorted = r.sorted; follows = r.follows })
  Reached-step s t arrived new r (Step.loop_skip before after e) =
      rw append-nil (record { sound = r.sound; sorted = r.sorted; follows = r.follows })
  Reached-step s t arrived new r (Step.loop_count before after batch e some_) =
      rw append-nil (record { sound = r.sound; sorted = r.sorted; follows = r.follows })
  Reached-step s t arrived new r (Step.loop_add before after batch e) =
      rw append-nil (record { sound = r.sound; sorted = r.sorted; follows = r.follows })
  Reached-step s t arrived new r Step.stop =
      rw append-nil (record { sound = r.sound; sorted = r.sorted; follows = r.follows })

  Run-Reached : {s : Service} {arrived : List ParsedPacket} → Run opt s arrived → Reached s arrived
  unfolding new_service init chunks with_key no_segments lookup
  Run-Reached Run.start = record {
    sound = Inv-init m;
    sorted = tt;
    follows = λ k. record {
      spec = no_segments;
      run = SpecRun.start;
      open_is = refl;
      sent_is = rw (pending-empty {A = Flow}) refl;
    };
  }
  Run-Reached (Run.later {s} {t} {arrived} {new} r step) =
      Reached-step s t arrived new (Run-Reached r) step

  -- The invariant of the sink holds after every run.
  pub Run-Inv : {s : Service} {arrived : List ParsedPacket} → Run opt s arrived → Inv m s.sink
  Run-Inv r = (Run-Reached r).sound

  pub Run-IsSorted :
      {s : Service} {arrived : List ParsedPacket} → Run opt s arrived → IsSorted s.sink.flow_table
  Run-IsSorted r = (Run-Reached r).sorted

  -- If min_packets is m and max_packets is at least m, and 0 < m, then for every run of the sink
  -- (merging, cleaning, the reading, counting and adding of LoopTask, and stopping, in any order)
  -- and every key there is a run of the specification over the packets of that key that arrived:
  -- its open segment is the entry of the flow table, and the segments that it sent are, in order,
  -- the packet lists of the flows of that key that were enqueued.
  pub Run-refines :
      {s : Service} {arrived : List ParsedPacket}
      → Run opt s arrived
      → (k : Text)
      → (spec : Spec ParsedPacket) × SpecRun m spec (with_key k arrived)
        × (spec.open_segment ≡ lookup k s.sink.flow_table)
        × (sent_of spec.segments ≡ chunks k (pending s.sink.queue))
  Run-refines r k = let f = (Run-Reached r).follows k in (f.spec, f.run, f.open_is, f.sent_is)

  -- If min_packets is m with 0 < m and max_packets is at least m, then after every run of the sink
  -- the packets of a key that arrived are, in order, cut into segments and then the entry of the
  -- flow table; each segment is either sent, with exactly m packets, or lost, with fewer than m;
  -- and the flows of the key that were handed over or wait in the buffer are exactly the sent
  -- segments, in order.
  pub Run-segments :
      {s : Service} {arrived : List ParsedPacket}
      → Run opt s arrived
      → (k : Text)
      → (segments : List (Segment ParsedPacket)) × (packets_of segments
            ++ lookup k s.sink.flow_table
          ≡ with_key k arrived)
        × All (IsCut m) segments
        × (sent_of segments ≡ chunks k (pending s.sink.queue))
  Run-segments {arrived} r k =
      let (spec, run, open_is, sent_is) = Run-refines r k in
      let (whole, cut) = SpecRun-packets run in
      (spec.segments, rw (sym open_is) whole, cut, sent_is)

  -- If min_packets is m with 0 < m and max_packets is at least m, then after every run of the sink
  -- merging any list of packets and cleaning at any time return: no assertion fails and no empty
  -- flow is built.
  pub Run-Returns :
      {s : Service} {arrived : List ParsedPacket}
      → Run opt s arrived
      → ((ps : List ParsedPacket)
          → (sink : Sink) × (merge_to_existing_flow opt s.sink ps ≡ ok sink))
        × ((now : ℕ) → (sink : Sink) × (clean_unwanted_flows opt now s.sink ≡ ok sink))
  Run-Returns {s} r =
      let v = (Run-Reached r).sound in
      (
        λ ps. returned _ _ (merge-Returns opt m limit asked limited positive fits s.sink ps v),
        λ now. returned _ _ (clean-Returns opt m asked now s.sink v),
      )
