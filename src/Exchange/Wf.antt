-- ===== src/Exchange/Wf.antt =====
-- What the propagations, subscriptions and pings of exchange/exchange.go keep: no two subjects share
-- a set of ignoring peers.
use panorama.Prelude.{
  ℕ, ◌==◌, GoString, string_eq, Option, none, some, Bool, false, ◌&&◌, [], ◌∷◌, arith, Option-cases,
  Bool-cases, inl, inr,
}
use panorama.Prelude.Map
use panorama.Prelude.Map.{GoMap}
use panorama.Timestamp.{Timestamp}
use panorama.Exchange.{
  ExchangeProtocol, Network, LearnReportRequest, ReplyStatus, get_or_make_client, is_normal,
  is_ignored, note_reply, call_peer, propagate_peer, propagate_each, propagate_all, ping, ping_each,
  ping_all, held_ignores, new_exchange_protocol, addr_of,
}
use panorama.Exchange.Interest.{IsWf, attach-IsWf, store-IsWf}

module _ (net : Network) where
  pub get_or_make_client-IsWf :
      (s : ExchangeProtocol) (peer : GoString) → IsWf s → IsWf (get_or_make_client net s peer).1
  unfolding get_or_make_client
  get_or_make_client-IsWf s peer wf = elim (Option-cases (Map.get peer s.clients)) [
    | inr (addr, e) ↦ rw (get_or_make_client, e) wf
    | inl e ↦ elim (Bool-cases (net.dial (addr_of (Map.get peer s.peers)))) [
      | inl f ↦ rw (get_or_make_client, e, f) (record { below = wf.below; apart = wf.apart })
      | inr f ↦ rw (get_or_make_client, e, f) wf
    ]
  ]

  note_reply-IsWf :
      (s : ExchangeProtocol) (peer : GoString) (held : Option ℕ) (request : LearnReportRequest)
      (reply : ReplyStatus)
      → IsWf s
      → IsWf (note_reply s peer held request reply).1
  unfolding note_reply
  note_reply-IsWf s peer held request reply wf =
      elim (Bool-cases (is_normal request.kind && is_ignored reply)) [
        | inr e ↦ rw (note_reply, e) wf
        | inl e ↦ elim (Option-cases held) [
          | inl f ↦ rw (note_reply, e, f) (attach-IsWf s request.report.subject _ wf)
          | inr (p, f) ↦ rw (note_reply, e, f) (store-IsWf s p _ wf)
        ]
      ]

  call_peer-IsWf :
      (s : ExchangeProtocol) (peer : GoString) (held : Option ℕ) (request : LearnReportRequest)
      (client : Option GoString)
      → IsWf s
      → IsWf (call_peer net s peer held request client).1
  unfolding call_peer
  call_peer-IsWf s peer held request none wf = wf
  call_peer-IsWf s peer held request (some addr) wf =
      elim (Option-cases (net.learn_report addr request)) [
        | inl e ↦ rw (call_peer, e) wf
        | inr (reply, e) ↦ rw (call_peer, e) (note_reply-IsWf s peer held request reply wf)
      ]

  propagate_peer-IsWf :
      (s : ExchangeProtocol) (peer : GoString) (held : Option ℕ) (request : LearnReportRequest)
      → IsWf s
      → IsWf (propagate_peer net s peer held request).1
  unfolding propagate_peer
  propagate_peer-IsWf s peer held request wf = elim (Bool-cases (peer == s.id)) [
    | inl e ↦ rw (propagate_peer, e) wf
    | inr e ↦ elim (Bool-cases (held_ignores s held peer)) [
      | inl f ↦ rw (propagate_peer, e, f) wf
      | inr f ↦
          let made = get_or_make_client net s peer in
          rw (propagate_peer, e, f)
            (call_peer-IsWf made.1 peer held request made.0 (get_or_make_client-IsWf s peer wf))
    ]
  ]

  propagate_each-IsWf :
      (peers : GoMap GoString GoString) (held : Option ℕ) (request : LearnReportRequest)
      (s : ExchangeProtocol) (ferr : Bool)
      → IsWf s
      → IsWf (propagate_each net peers held request s ferr).1
  unfolding propagate_each
  propagate_each-IsWf [] held request s ferr wf = wf
  propagate_each-IsWf ((peer, addr) ∷ peers) held request s ferr wf =
      propagate_each-IsWf peers held request (propagate_peer net s peer held request).1 _
        (propagate_peer-IsWf s peer held request wf)

  -- Whatever the network answers, a propagation keeps the sets apart.
  pub propagate_all-IsWf :
      (s : ExchangeProtocol) (request : LearnReportRequest)
      → IsWf s
      → IsWf (propagate_all net s request).1
  unfolding propagate_all
  propagate_all-IsWf s request wf =
      propagate_each-IsWf s.peers (Map.get request.report.subject s.skip_subject_peers) request s
        false wf

  ping_each-IsWf :
      (peers : GoMap GoString GoString) (s : ExchangeProtocol) (result : GoMap GoString Timestamp)
      (ferr : Bool)
      → IsWf s
      → IsWf (ping_each net peers s result ferr).2
  unfolding ping_each ping
  ping_each-IsWf [] s result ferr wf = wf
  ping_each-IsWf ((peer, addr) ∷ peers) s result ferr wf = elim (Bool-cases (peer == s.id)) [
    | inl e ↦ rw (ping_each, e) (ping_each-IsWf peers s result ferr wf)
    | inr e ↦
        rw (ping_each, e)
          (ping_each-IsWf peers (ping net s peer).1 _ _ (get_or_make_client-IsWf s peer wf))
  ]

  pub ping_all-IsWf : (s : ExchangeProtocol) → IsWf s → IsWf (ping_all net s).2
  unfolding ping_all
  ping_all-IsWf s wf = ping_each-IsWf s.peers s [] false wf

pub new-IsWf :
    (id addr : GoString) (peers : GoMap GoString GoString)
    → IsWf (new_exchange_protocol id addr peers)
unfolding new_exchange_protocol Map.get
new-IsWf id addr peers = record {
  below = λ x p e. ground (arith, e);
  apart = λ x y p e f. ground (arith, e);
}
