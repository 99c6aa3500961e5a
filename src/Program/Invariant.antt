-- ===== src/Program/Invariant.antt =====
-- What holds of the parser and of every consumer with its sink.
use mathlib.Core.List.Perm
use native.Mathlib.Bridge.{le_prop}
use huntind.Common.{
  ℕ, zero, suc, ◌≡◌, refl, sym, ◌∙◌, subst, List, [], ◌∷◌, ◌++◌, append-nil, pos, All, All-append,
}
use huntind.Common.Outcome.{ok, ok-injective}
use huntind.Common.Batches.{join}
use huntind.Common.Gather.{All-insert, All-remove}
use huntind.Settings.{CaptureOption}
use huntind.Packet.{RawPacket, ParsedPacket}
use huntind.Packet.Reads.{IsByte}
use huntind.Buffer.Sequential.{
  pending, pending-empty, pending-enqueue, IsQuiet, IsQuiet-empty, enqueue-IsQuiet,
}
use huntind.Program.Frames.{IsReadable, IsSized, IsParsed, parsed_frames}
use huntind.Live.{LiveParser, new_parser, live_handler, stop_capture}
use huntind.Sink.{parse_raw_packets}
use huntind.Service.Pipeline.{parse_raw_packets-append, All-split, All-Perm, All-IsProp}
use huntind.Service.Refinement.{join-append}
use huntind.Service
use huntind.Service.{Service, new_service, stop_service}
use huntind.Program.{
  Consumer, Program, new_consumer, new_consumers, new_program, add_make_flow, taken_by, Local, Step,
  Run,
}

-- The buffer has what was captured.
abbrev Kept : LiveParser → List RawPacket → Type 0
Kept parser captured = IsQuiet parser.queue × (pending parser.queue ≡ captured)

pub Run-Kept :
    {opt : CaptureOption} {workers : ℕ} {p : Program} {captured : List RawPacket}
    → Run opt workers p captured
    → Kept p.parser captured
unfolding new_program new_parser live_handler stop_capture
Run-Kept Run.start = (IsQuiet-empty, pending-empty)
Run-Kept (Run.later {p} {captured} r (Step.capture raw)) =
    let (quiet, kept) = Run-Kept r in
    (
      enqueue-IsQuiet p.parser.queue raw quiet,
      rw (pending-enqueue p.parser.queue raw quiet, kept) refl,
    )
Run-Kept (Run.later r Step.stop) = rw append-nil (Run-Kept r)
Run-Kept (Run.later r (Step.wake _ _ _ _ _ _ _)) = rw append-nil (Run-Kept r)
Run-Kept (Run.later r (Step.fetch _ _ _ _ _ _ _ _ _)) = rw append-nil (Run-Kept r)
Run-Kept (Run.later r (Step.leave _ _ _ _ _ _)) = rw append-nil (Run-Kept r)
Run-Kept (Run.later r (Step.within _ _ _ _ _ _)) = rw append-nil (Run-Kept r)

-- The service has come to its state by a run, on the packets of the merged batches.
pub record Fed (opt : CaptureOption) (service : Service) (merged : List (List RawPacket))
    : Type 0 where
  pub arrived : List ParsedPacket
  pub run : Service.Run opt service arrived
  pub read_all : parse_raw_packets opt (join merged) ≡ ok arrived

pub record Sound (opt : CaptureOption) (c : Consumer) : Type 0 where
  pub fed : Fed opt c.service c.merged
  pub frames : All (All IsReadable) (c.raw_tasks ++ c.fetched)
  pub parsed : All (IsParsed opt) c.parsed_tasks

-- A step of the service that brings no packet in.
Fed-quiet :
    {opt : CaptureOption} {s t : Service} {merged : List (List RawPacket)}
    → Fed opt s merged
    → Service.Step opt s t []
    → Fed opt t merged
Fed-quiet {opt} {s} {t} f step = record {
  arrived = f.arrived;
  run = subst (λ l. Service.Run opt t l) (append-nil f.arrived) (Service.Run.later f.run step);
  read_all = f.read_all;
}

IsReadable-IsProp : (raw : RawPacket) → IsProp (IsReadable raw)
IsReadable-IsProp raw = hlevel (le_prop, All-IsProp IsByte (λ b. le_prop) raw.byte_arr)

new_consumers-Sound : (opt : CaptureOption) (workers : ℕ) → All (Sound opt) (new_consumers workers)
unfolding new_consumers new_consumer parse_raw_packets
new_consumers-Sound opt zero = tt
new_consumers-Sound opt (suc workers) = (
  record {
    fed = record { arrived = []; run = Service.Run.start; read_all = refl };
    frames = tt;
    parsed = tt;
  },
  new_consumers-Sound opt workers,
)

module _ (opt : CaptureOption) (asked : opt.payload ≡ pos 20) where
  Local-Sound : {c d : Consumer} → Local opt c d → Sound opt c → Sound opt d
  unfolding add_make_flow
  Local-Sound {c} (Local.skip e) v = record {
    fed = v.fed;
    frames = rw append-nil (All-split (All IsReadable) c.raw_tasks c.fetched v.frames).0;
    parsed = v.parsed;
  }
  Local-Sound {c} (Local.hand_over batch e some_) v = record {
    fed = v.fed;
    frames = rw append-nil (rw e at v.frames);
    parsed = v.parsed;
  }
  Local-Sound {c} (Local.parse before after raw_list parsed_list here at_ done) v =
      let (tasks, held) = All-split (All IsReadable) c.raw_tasks c.fetched v.frames in
      let (frames, rest) = All-remove (All IsReadable) before after raw_list (rw at_ at tasks) in
      let (ps, (parsed, sized)) = parsed_frames opt asked raw_list frames in
      let same : ps ≡ parsed_list = ok-injective (sym parsed ∙ done) in
      record {
        fed = v.fed;
        frames = All-append (All IsReadable) (before ++ after) c.fetched rest held;
        parsed =
            All-append (IsParsed opt) c.parsed_tasks ((raw_list, parsed_list) ∷ []) v.parsed
              ((done, subst (All IsSized) same sized), tt);
      }
  Local-Sound {c} (Local.merge before after raw_list parsed_list sink here at_ done) v =
      let ((parsed, sized), rest) =
        All-remove (IsParsed opt) before after (raw_list, parsed_list) (rw at_ at v.parsed) in
      record {
        fed = record {
          arrived = v.fed.arrived ++ parsed_list;
          run = Service.Run.later v.fed.run (Service.Step.merge parsed_list sink done);
          read_all =
              rw (join-append, append-nil)
                (parse_raw_packets-append opt (join c.merged) raw_list v.fed.read_all parsed);
        };
        frames = v.frames;
        parsed = rest;
      }
  Local-Sound (Local.serve service here step same) v = record {
    fed = Fed-quiet v.fed step;
    frames = v.frames;
    parsed = v.parsed;
  }
  Local-Sound (Local.destroy ended) v = record { fed = v.fed; frames = v.frames; parsed = v.parsed }

  -- One consumer goes on.
  moved-Sound :
      {consumers : List Consumer} (before after : List Consumer) (c d : Consumer)
      → consumers ≡ before ++ c ∷ after
      → (Sound opt c → Sound opt d)
      → All (Sound opt) consumers
      → All (Sound opt) (before ++ d ∷ after)
  moved-Sound before after c d at_ move v =
      let (w, others) = All-remove (Sound opt) before after c (rw at_ at v) in
      All-insert (Sound opt) before after d others (move w)

  Step-Sound :
      {p q : Program} {captured new : List RawPacket}
      → pending p.parser.queue ≡ captured
      → All IsReadable captured
      → Step opt p q new
      → All (Sound opt) p.consumers
      → All (Sound opt) q.consumers
  Step-Sound kept a (Step.capture raw) v = v
  Step-Sound kept a Step.stop v = v
  Step-Sound kept a (Step.wake before after c at_ _ _ _) v =
      moved-Sound before after c _ at_
        (λ w. record { fed = w.fed; frames = w.frames; parsed = w.parsed }) v
  Step-Sound {p} kept a (Step.fetch before after c batch rest at_ _ none_held perm) v =
      let all = All-Perm IsReadable IsReadable-IsProp (Perm.symm perm) (rw (sym kept) at a) in
      let (_, more) = All-split IsReadable (taken_by p.consumers) (batch ++ rest) all in
      let (mine, _) = All-split IsReadable batch rest more in
      moved-Sound before after c _ at_
        (λ w. record {
          fed = w.fed;
          frames =
              All-append (All IsReadable) c.raw_tasks (batch ∷ [])
                (All-split (All IsReadable) c.raw_tasks c.fetched w.frames).0 (mine, tt);
          parsed = w.parsed;
        })
        v
  Step-Sound kept a (Step.leave before after c at_ _ _) v =
      moved-Sound before after c _ at_
        (λ w. record {
          fed = Fed-quiet w.fed Service.Step.stop;
          frames = w.frames;
          parsed = w.parsed;
        })
        v
  Step-Sound kept a (Step.within before after c d at_ move) v =
      moved-Sound before after c d at_ (Local-Sound move) v

  pub Run-Sound :
      {workers : ℕ} {p : Program} {captured : List RawPacket}
      → Run opt workers p captured
      → All IsReadable captured
      → All (Sound opt) p.consumers
  unfolding new_program
  Run-Sound {workers} Run.start a = new_consumers-Sound opt workers
  Run-Sound (Run.later {captured} {new} r step) a =
      let earlier = (All-split IsReadable captured new a).0 in
      Step-Sound (Run-Kept r).1 earlier step (Run-Sound r earlier)
