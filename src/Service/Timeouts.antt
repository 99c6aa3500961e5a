-- ===== src/Service/Timeouts.antt =====
-- Packets are lost by timeouts only.
use huntind.Common.{
  true, ℕ, ◌≤◌, ◌<◌, ◌≡◌, ◌≢◌, refl, sym, ap, ◌∙◌, inl, inr, Bool-cases, List, [], ◌∷◌, ◌++◌,
  append-nil, pos,
}
use huntind.Common.Outcome.{ok, Returns-ok}
use huntind.Common.Batches.{join}
use huntind.Strings.{Text, text_eq}
use huntind.Settings.{CaptureOption}
use huntind.Packet.{ParsedPacket}
use huntind.Buffer.Sequential.{pending, pending-empty}
use huntind.Flow.{Flow, is_timeout}
use huntind.Flow.Map.{lookup}
use huntind.Flow.Sorted.{IsSorted}
use huntind.Sink.Invariant.{Inv}
use huntind.Sink.Streams.{emitted, emitted-append, stream, with_key}
use huntind.Sink.Merge.{merge-Returns}
use huntind.Sink.Clean.{clean-Returns}
use huntind.Sink.{Sink, init, clean_unwanted_flows}
use huntind.Service.Keys.{chunks, Cleaned, clean_key}
use huntind.Service.Refinement.{Run-Inv, Run-IsSorted, with_key-append}
use huntind.Service.{Service, new_service, count_flows, add_loop_task, stop_service, Step, Run}

emitted-chunks : (k : Text) (fs : List Flow) → emitted k fs ≡ join (chunks k fs)
unfolding emitted chunks
emitted-chunks k [] = refl
emitted-chunks k (f ∷ fs) = elim (Bool-cases (text_eq f.flow_id k)) [
  | inl e ↦ rw (e, emitted-chunks k fs)
  | inr e ↦ rw (e, emitted-chunks k fs)
]

-- No cleaning round of the run finds the entry of the key timed out.
abbrev pub IsCalm :
    {opt : CaptureOption} {s : Service} {arrived : List ParsedPacket}
    → Text
    → Run opt s arrived
    → Type 0
IsCalm k Run.start = Unit
IsCalm k (Run.later r (Step.merge ps sink h)) = IsCalm k r
IsCalm {opt} k (Run.later {s} r (Step.clean now sink h)) =
    IsCalm k r × (is_timeout opt now (lookup k s.sink.flow_table) ≢ ok true)
IsCalm k (Run.later r (Step.loop_read _ _ _)) = IsCalm k r
IsCalm k (Run.later r (Step.loop_skip _ _ _)) = IsCalm k r
IsCalm k (Run.later r (Step.loop_count _ _ _ _ _)) = IsCalm k r
IsCalm k (Run.later r (Step.loop_add _ _ _ _)) = IsCalm k r
IsCalm k (Run.later r Step.stop) = IsCalm k r

module _ (opt : CaptureOption) (m limit : ℕ) (asked : opt.min_packets ≡ pos m)
    (limited : opt.max_packets ≡ pos limit) (positive : 0 < m) (fits : m ≤ limit) (k : Text) where
  -- A cleaning round that does not drop the entry keeps the packets of the key in their order.
  Cleaned-stream :
      (now : ℕ) (s t : Sink) (fs : List Flow)
      → pending t.queue ≡ pending s.queue ++ fs
      → Cleaned opt now m (lookup k s.flow_table) (lookup k t.flow_table) (chunks k fs)
      → is_timeout opt now (lookup k s.flow_table) ≢ ok true
      → stream k t ≡ stream k s
  unfolding stream
  Cleaned-stream now s t fs behind (Cleaned.stayed same out) calm =
      rw (behind, same, emitted-append k (pending s.queue) fs, emitted-chunks k fs, out, append-nil)
        refl
  Cleaned-stream now s t fs behind (Cleaned.closed gone out long) calm =
      rw
        (
          behind,
          gone,
          emitted-append k (pending s.queue) fs,
          emitted-chunks k fs,
          out,
          append-nil,
          append-nil,
        )
        refl
  Cleaned-stream now s t fs behind (Cleaned.dropped gone out short late) calm = absurd (calm late)

  clean-stream :
      (now : ℕ) (s t : Sink)
      → Inv m s
      → IsSorted s.flow_table
      → clean_unwanted_flows opt now s ≡ ok t
      → is_timeout opt now (lookup k s.flow_table) ≢ ok true
      → stream k t ≡ stream k s
  clean-stream now s t v sorted h calm =
      let (_, kept, (fs, behind, are)) = Returns-ok _ h (clean-Returns opt m asked now s v) in
      Cleaned-stream now s t fs behind
        (rw kept (clean_key opt m asked positive now k s.flow_table fs sorted v.entries are)) calm

  -- If min_packets is m with 0 < m and max_packets is at least m, then after every run of the sink
  -- in which no cleaning round finds the entry of a key timed out, the packets of that key in the
  -- flows that were enqueued, in the order in which they were enqueued, and then those in the flow
  -- table, are exactly the packets of the key that arrived, in order: packets are lost by timeouts
  -- only.
  pub Run-keeps :
      {s : Service} {arrived : List ParsedPacket} (r : Run opt s arrived)
      → IsCalm k r
      → emitted k (pending s.sink.queue) ++ lookup k s.sink.flow_table ≡ with_key k arrived
  unfolding new_service init emitted with_key lookup stream stop_service count_flows add_loop_task
  Run-keeps Run.start calm = rw (pending-empty {A = Flow}) refl
  Run-keeps (Run.later {s} {arrived} {new} r (Step.merge ps sink h)) calm =
      let inv = Run-Inv opt m limit asked limited positive fits r in
      let streams =
        (Returns-ok _ h (merge-Returns opt m limit asked limited positive fits s.sink ps inv)).1
          k in
      streams ∙ ap (λ l. l ++ with_key k ps) (Run-keeps r calm) ∙ sym (with_key-append k arrived ps)
  Run-keeps (Run.later {s} r (Step.clean now sink h)) (calm, young) =
      let inv = Run-Inv opt m limit asked limited positive fits r in
      let sorted = Run-IsSorted opt m limit asked limited positive fits r in
      let streams = clean-stream now s.sink sink inv sorted h young in
      rw append-nil (streams ∙ Run-keeps r calm)
  Run-keeps (Run.later r (Step.loop_read _ _ _)) calm = rw append-nil (Run-keeps r calm)
  Run-keeps (Run.later r (Step.loop_skip _ _ _)) calm = rw append-nil (Run-keeps r calm)
  Run-keeps (Run.later r (Step.loop_count _ _ _ _ _)) calm = rw append-nil (Run-keeps r calm)
  Run-keeps (Run.later r (Step.loop_add _ _ _ _)) calm = rw append-nil (Run-keeps r calm)
  Run-keeps (Run.later r Step.stop) calm = rw append-nil (Run-keeps r calm)
