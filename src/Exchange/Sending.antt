-- ===== src/Exchange/Sending.antt =====
-- `PropagatePeer` and `PropagateAll` of exchange/exchange.go: which peers are skipped afterwards.
use panorama.Prelude.{
  ℕ, ◌≡◌, sym, ap, ◌∙◌, ◌==◌, GoString, string_eq, nat_eq, str_beq_iff, Option, none, some, true,
  false, arith, Option-cases, Bool-cases, inl, inr,
}
use panorama.Prelude.Map
use panorama.Prelude.Map.{get-delete}
use panorama.Exchange.{
  ExchangeProtocol, Network, LearnReportRequest, normal, ReplyStatus, ignored, skipped, set,
  new_ignore_set, load, get_or_make_client, note_reply, call_peer, propagate_peer,
}
use panorama.Exchange.Interest.{skips, IsWf, skips-store, skips-attach, test-set}

abbrev held : ExchangeProtocol → GoString → Option ℕ
held s subject = Map.get subject s.skip_subject_peers

-- The peer's reply to the request, if it can be reached.
abbrev pub answer : Network → ExchangeProtocol → GoString → LearnReportRequest → Option ReplyStatus
answer net s peer request = elim (get_or_make_client net s peer).0 [
  | none ↦ none
  | some addr ↦ net.learn_report addr request
]

-- Making a client changes nothing that is skipped.
skip_subject_peers-get_or_make_client :
    (net : Network) (s : ExchangeProtocol) (peer : GoString)
    → ((get_or_make_client net s peer).1.skip_subject_peers ≡ s.skip_subject_peers)
      × ((get_or_make_client net s peer).1.heap ≡ s.heap)
      × ((get_or_make_client net s peer).1.next ≡ s.next)
unfolding get_or_make_client
skip_subject_peers-get_or_make_client net s peer = ground arith

-- A peer that ignored a report is in the subject's set afterwards.
skips-note_reply :
    (s : ExchangeProtocol) (peer : GoString) (request : LearnReportRequest)
    → IsWf s
    → request.kind ≡ normal
    → skips
        (note_reply s peer (held s request.report.subject) request ignored).1
        request.report.subject
        peer
      ≡ true
unfolding note_reply
skips-note_reply s peer request wf k =
    let subject = request.report.subject in
    elim (Option-cases (held s subject)) [
      | inl e ↦
          rw (k, note_reply, e)
            (skips-attach s subject (set new_ignore_set peer) wf subject peer
              ∙ ground (
                arith,
                str_beq_iff subject subject,
                str_beq_iff peer peer,
                test-set new_ignore_set peer peer,
              ))
      | inr (p, e) ↦
          rw (k, note_reply, e)
            (skips-store s subject (set (load s p) peer) wf p e subject peer
              ∙ ground (
                arith,
                str_beq_iff subject subject,
                str_beq_iff peer peer,
                test-set (load s p) peer peer,
              ))
    ]

-- A peer in the subject's set is not contacted.
propagate_peer-skips :
    (net : Network) (s : ExchangeProtocol) (peer : GoString) (request : LearnReportRequest)
    → skips s request.report.subject peer ≡ true
    → propagate_peer net s peer (held s request.report.subject) request ≡ (skipped, s)
unfolding propagate_peer
propagate_peer-skips net s peer request h = rw (propagate_peer, h) (ground arith)

module _ (net : Network) (s : ExchangeProtocol) (peer : GoString)
    (request : LearnReportRequest) where
  abbrev subject : GoString
  subject = request.report.subject

  abbrev with_client : ExchangeProtocol
  with_client = (get_or_make_client net s peer).1

  with_client-IsWf : IsWf s → IsWf with_client
  with_client-IsWf wf =
      let (skip, heap, next) = skip_subject_peers-get_or_make_client net s peer in
      record {
        below = λ x p e. rw next (wf.below x p (ap (Map.get x) (sym skip) ∙ e));
        apart = λ x y p e f.
            wf.apart x y p (ap (Map.get x) (sym skip) ∙ e) (ap (Map.get y) (sym skip) ∙ f);
      }

  propagate_peer-reply :
      (reply : ReplyStatus)
      → (peer == s.id) ≡ false
      → skips s subject peer ≡ false
      → answer net s peer request ≡ some reply
      → propagate_peer net s peer (held s subject) request
        ≡ note_reply with_client peer (held s subject) request reply
  unfolding propagate_peer
  propagate_peer-reply reply other fresh a =
      rw (propagate_peer, other, fresh)
        (elim (Option-cases (get_or_make_client net s peer).0) [
          | inl e ↦ ground (arith, a, e)
          | inr (addr, e) ↦
              let b : net.learn_report addr request ≡ some reply = rw (answer, e) at a in
              rw (e, call_peer, b)
        ])

  skips-propagate_peer :
      IsWf s
      → request.kind ≡ normal
      → (peer == s.id) ≡ false
      → answer net s peer request ≡ some ignored
      → skips (propagate_peer net s peer (held s subject) request).1 subject peer ≡ true
  skips-propagate_peer wf k other a = elim (Bool-cases (skips s subject peer)) [
    | inl e ↦ rw (propagate_peer-skips net s peer request e) e
    | inr e ↦ rw (propagate_peer-reply ignored other e a) (
        rw (ap (Map.get subject) (sym (skip_subject_peers-get_or_make_client net s peer).0))
          (skips-note_reply with_client peer request (with_client-IsWf wf) k))
  ]

-- At most one peer is skipped for the subject.
abbrev pub AtMostOne : ExchangeProtocol → GoString → Type 0
AtMostOne s subject = (x y : GoString) → skips s subject x ≡ true → skips s subject y ≡ true → x ≡ y
