-- ===== src/Service/Handed.antt =====
-- What the threads of LoopTask get is what was enqueued, each flow once.
use mathlib.Core.List.{Perm}
use mathlib.Core.List.Perm
use huntind.Common.{
  ℕ, ◌+◌, ◌<◌, ◌≤◌, ◌≡◌, refl, sym, ap, ◌∙◌, List, [], ◌∷◌, ◌++◌, append-nil, append_assoc, length,
  length-append, pos, arith,
}
use huntind.Common.Outcome.{ok, ok-injective, Returns-ok, >>=-eq-ok}
use huntind.Common.Batches.{join}
use huntind.Common.Gather.{join-perm_insert, length-join_insert}
use huntind.Settings.{CaptureOption}
use huntind.Packet.{ParsedPacket}
use huntind.Buffer.Sequential.{pending, pending-empty, pending-enqueue}
use huntind.Flow.{Flow}
use huntind.Sink.Invariant.{Inv}
use huntind.Sink.Merge.{merge_packet-Returns}
use huntind.Sink.Clean.{clean-Returns}
use huntind.Sink.{Sink, init, merge_packet, merge_to_existing_flow}
use huntind.Service.Keys.{Merged, merge_packet-Merged}
use huntind.Service.Refinement.{join-append, Run-Inv}
use huntind.Service.{
  Service, new_service, out_of, count_flows, add_loop_task, stop_service, Step, Run,
}

abbrev Grown : Sink → Sink → Type 0
Grown s t = (fs : List Flow) × (pending t.queue ≡ pending s.queue ++ fs)

-- One list that moves from the lists of one stage to the end of those of the next.
moved_on :
    (front : List Flow) (before after : List (List Flow)) (x : List Flow)
    → Perm ((front ++ x) ++ join (before ++ after)) (front ++ join (before ++ x ∷ after))
moved_on front before after x =
    rw (append_assoc front x (join (before ++ after)))
      (Perm.append_left front (Perm.symm (join-perm_insert before after x)))

join-snoc : (xss : List (List Flow)) (x : List Flow) → join (xss ++ x ∷ []) ≡ join xss ++ x
join-snoc xss x = rw (join-append, append-nil)

-- What waits in the buffer, next to what is out.
abbrev Handed : Service → Type 0
Handed s = (waiting : List Flow) × Perm (out_of s ++ waiting) (pending s.sink.queue)

Grown-Handed : (s : Service) (t : Sink) → Grown s.sink t → Handed s → Handed (record s { sink = t })
Grown-Handed s t (fs, more) (waiting, perm) =
    (waiting ++ fs, rw (more, ← append_assoc (out_of s) waiting fs) (Perm.append_right fs perm))

same-Handed :
    (s t : Service) → t.sink.queue ≡ s.sink.queue → Perm (out_of t) (out_of s) → Handed s → Handed t
same-Handed s t same out (waiting, perm) =
    (waiting, rw same (Perm.trans (Perm.append_right waiting out) perm))

module _ (opt : CaptureOption) (m limit : ℕ) (asked : opt.min_packets ≡ pos m)
    (limited : opt.max_packets ≡ pos limit) (positive : 0 < m) (fits : m ≤ limit) where
  packet-Grown : (s t : Sink) (p : ParsedPacket) → Inv m s → Merged opt s p t → Grown s t
  packet-Grown s t p v (Merged.flushed g ready id list q table) =
      (g ∷ [], rw (q, pending-enqueue s.queue g v.quiet) refl)
  packet-Grown s t p v (Merged.appended early q table) = ([], rw (q, append-nil) refl)

  merge-Grown :
      (s t : Sink) (ps : List ParsedPacket)
      → Inv m s
      → merge_to_existing_flow opt s ps ≡ ok t
      → Grown s t
  unfolding merge_to_existing_flow
  merge-Grown s t [] v h =
      ([], ap (λ (u : Sink). pending u.queue) (sym (ok-injective h)) ∙ sym (append-nil _))
  merge-Grown s t (p ∷ ps) v h =
      let (u, first, rest) =
        >>=-eq-ok (merge_packet opt s p) (λ u. merge_to_existing_flow opt u ps) h in
      let (w, _) =
        Returns-ok _ first (merge_packet-Returns opt m limit asked limited positive fits s p v) in
      let (fs, one) = packet-Grown s u p v (merge_packet-Merged opt s u p first) in
      let (gs, more) = merge-Grown u t ps w rest in
      (fs ++ gs, more ∙ ap (λ l. l ++ gs) one ∙ append_assoc (pending s.queue) fs gs)

  Step-Handed :
      {s t : Service} {arrived new : List ParsedPacket}
      → Run opt s arrived
      → Step opt s t new
      → Handed s
      → Handed t
  unfolding count_flows add_loop_task stop_service
  Step-Handed {s} r (Step.merge ps sink done) h =
      let v = Run-Inv opt m limit asked limited positive fits r in
      Grown-Handed s sink (merge-Grown s.sink sink ps v done) h
  Step-Handed {s} r (Step.clean now sink done) h =
      let v = Run-Inv opt m limit asked limited positive fits r in
      let (_, _, (fs, behind, _)) = Returns-ok _ done (clean-Returns opt m asked now s.sink v) in
      Grown-Handed s sink (fs, behind) h
  Step-Handed {s} r (Step.loop_read batch rest part) h =
      (rest, rw join-snoc (simp append_assoc (simp append_assoc at part)))
  Step-Handed {s} {t} r (Step.loop_skip before after e) h =
      same-Handed s t refl
        (Perm.append_left (join s.jobs)
          (Perm.append_left (join s.counted) (rw e (Perm.symm (join-perm_insert before after [])))))
        h
  Step-Handed {s} {t} r (Step.loop_count before after batch e some_) h =
      same-Handed s t refl
        (Perm.append_left (join s.jobs)
          (rw (e, join-snoc) (moved_on (join s.counted) before after batch)))
        h
  Step-Handed {s} {t} r (Step.loop_add before after batch e) h =
      same-Handed s t refl
        (rw
          (
            e,
            join-snoc,
            ← append_assoc (join s.jobs ++ batch) (join (before ++ after)) (join s.fetched),
            ← append_assoc (join s.jobs) (join (before ++ batch ∷ after)) (join s.fetched),
          )
          (Perm.append_right (join s.fetched) (moved_on (join s.jobs) before after batch)))
        h
  Step-Handed r Step.stop h = h

  pub Run-handed :
      {s : Service} {arrived : List ParsedPacket}
      → Run opt s arrived
      → (waiting : List Flow) × Perm (out_of s ++ waiting) (pending s.sink.queue)
  unfolding new_service init
  Run-handed Run.start = ([], rw (pending-empty {A = Flow}) Perm.rfl)
  Run-handed (Run.later r step) = Step-Handed r step (Run-handed r)

-- What LoopTask counted.
Run-counts :
    {opt : CaptureOption} {s : Service} {arrived : List ParsedPacket}
    → Run opt s arrived
    → s.blocked_flows ≡ length (join s.jobs) + length (join s.counted)
unfolding new_service count_flows add_loop_task stop_service
Run-counts Run.start = refl
Run-counts (Run.later r (Step.merge ps sink h)) = Run-counts r
Run-counts (Run.later r (Step.clean now sink h)) = Run-counts r
Run-counts (Run.later r (Step.loop_read _ _ _)) = Run-counts r
Run-counts (Run.later r (Step.loop_skip _ _ _)) = Run-counts r
Run-counts (Run.later {s} r (Step.loop_count before after batch e some_)) =
    rw join-snoc (omega (arith, Run-counts r, length-append (join s.counted) batch))
Run-counts (Run.later {s} r (Step.loop_add before after batch e)) =
    let moved = length-join_insert before after batch in
    rw join-snoc (omega (arith, rw e at (Run-counts r), moved, length-append (join s.jobs) batch))
Run-counts (Run.later r Step.stop) = Run-counts r
