-- ===== src/Service/Follows/Merging.antt =====
-- What merging does to a key is what the specification does in a few steps.
use huntind.Common.{
  ℕ, ◌<◌, ◌≤◌, ◌≡◌, refl, sym, ◌∙◌, subst, inl, inr, Bool-cases, List, [], ◌∷◌, ◌++◌, append-nil,
  append_assoc, length, arith, pos,
}
use huntind.Common.Outcome.{ok, ok-injective, Returns-ok, >>=-eq-ok}
use huntind.Strings.{Text, text_eq, text_eq_iff}
use huntind.Settings.{CaptureOption}
use huntind.Packet.{ParsedPacket}
use huntind.Buffer.Sequential.{pending}
use huntind.Flow.Map.{lookup, lookup-put}
use huntind.Flow.Sorted.{IsSorted}
use huntind.Sink.Invariant.{Inv, is_flow_ready-le, is_flow_ready-lt}
use huntind.Sink.Streams.{with_key}
use huntind.Sink.Merge.{entry_at, merge_packet-Returns, with_key-cons}
use huntind.Sink.{Sink, merge_packet, merge_to_existing_flow}
use huntind.Service.Keys.{chunks, Merged, merge_packet-Merged, Merged-IsSorted}
use huntind.Service.Follows.{Follows, enqueued, close_open, arrive_one, untouched}

module _ (opt : CaptureOption) (m limit : ℕ) (asked : opt.min_packets ≡ pos m)
    (limited : opt.max_packets ≡ pos limit) (positive : 0 < m) (fits : m ≤ limit) (k : Text)
    (done : List (List ParsedPacket)) where
  Merged-Follows :
      (s t : Sink) (p : ParsedPacket) (seen : List ParsedPacket)
      → Inv m s
      → Merged opt s p t
      → Follows m k done seen s
      → Follows m k done (seen ++ with_key k (p ∷ [])) t
  unfolding with_key chunks
  Merged-Follows s t p seen v (Merged.flushed g ready id list q table) f =
      elim (Bool-cases (text_eq p.key k)) [
        | inl same ↦
            let e = (text_eq_iff p.key k).0 same in
            let full : length (lookup k s.flow_table) ≡ m =
              let h = (entry_at opt m limit asked limited positive fits s k v).0 in
              let r = is_flow_ready-le opt m asked (lookup k s.flow_table) (rw e at ready) in
              omega arith in
            let (spec, run, empty_, out) = close_open s g full (rw e at list) (rw (id) same) f in
            rw same (
              arrive_one spec p run (rw empty_ positive) (rw (empty_, table, lookup-put, same) refl)
                (rw (out, enqueued k s t g v.quiet q)
                  (append_assoc done (chunks k (pending s.queue)) (chunks k (g ∷ [])))))
        | inr other ↦
            rw (other, append-nil)
              (untouched s t (rw (table, lookup-put, other) refl)
                (enqueued k s t g v.quiet q ∙ rw (id, other, append-nil) refl) f)
      ]
  Merged-Follows s t p seen v (Merged.appended early q table) f =
      elim (Bool-cases (text_eq p.key k)) [
        | inl same ↦
            let e = (text_eq_iff p.key k).0 same in
            let room = is_flow_ready-lt opt m asked (lookup k s.flow_table) (rw e at early) in
            rw same (
              arrive_one f.spec p f.run (rw f.open_is room)
                (rw (f.open_is, table, lookup-put, same, e) refl) (rw q f.sent_is))
        | inr other ↦
            rw (other, append-nil)
              (untouched s t (rw (table, lookup-put, other) refl) (rw q refl) f)
      ]

  pub merge-Follows :
      (s t : Sink) (ps seen : List ParsedPacket)
      → Inv m s
      → IsSorted s.flow_table
      → merge_to_existing_flow opt s ps ≡ ok t
      → Follows m k done seen s
      → IsSorted t.flow_table × Follows m k done (seen ++ with_key k ps) t
  unfolding merge_to_existing_flow
  merge-Follows s t [] seen v sorted h f =
      let e = ok-injective h in
      (
        subst (λ u. IsSorted u.flow_table) e sorted,
        unfold with_key in rw append-nil (subst (λ u. Follows m k done seen u) e f),
      )
  merge-Follows s t (p ∷ ps) seen v sorted h f =
      let (u, first, rest) =
        >>=-eq-ok (merge_packet opt s p) (λ u. merge_to_existing_flow opt u ps) h in
      let (w, _) =
        Returns-ok _ first (merge_packet-Returns opt m limit asked limited positive fits s p v) in
      let merged = merge_packet-Merged opt s u p first in
      let (sorted', g) =
        merge-Follows u t ps (seen ++ with_key k (p ∷ [])) w
          (Merged-IsSorted opt s u p merged sorted) rest (Merged-Follows s u p seen v merged f) in
      (
        sorted',
        rw
            (
              sym (with_key-cons k p ps),
              sym (append_assoc seen (with_key k (p ∷ [])) (with_key k ps)),
            )
            g,
      )
