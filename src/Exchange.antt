-- ===== src/Exchange.antt =====
-- exchange/exchange.go: propagation of reports and subscriptions to the peers. The sets of ignoring
-- peers stand on a heap, since a propagation holds a pointer to one. gRPC is a parameter; durations
-- and log lines are left out.
pub mod Interest
pub mod Sending
pub mod Wf
use panorama.Prelude.{
  ℕ, suc, ◌+◌, ◌==◌, GoString, string_eq, nat_eq, Option, none, some, List, [], ◌∷◌, ◌++◌, Bool,
  true, false, ◌&&◌, not, if◌then◌else◌,
}
use panorama.Prelude.Map
use panorama.Prelude.Map.{GoMap}
use panorama.Prelude.Int.{pos}
use panorama.Timestamp.{Timestamp}
use panorama.Health.{Observation, Report}

pub record Peer : Type 0 where
  pub id : GoString
  pub addr : GoString

pub data Kind : Type 0 where
  normal subscription unsubscription : Kind

pub record LearnReportRequest : Type 0 where
  pub kind : Kind
  pub source : Peer
  pub report : Report

pub data ReplyStatus : Type 0 where
  ignored accepted failed : ReplyStatus

abbrev pub IgnoreSet : Type 0
IgnoreSet = GoMap GoString Bool

unfoldable pub new_ignore_set : IgnoreSet
new_ignore_set = []

unfoldable pub test : IgnoreSet → GoString → Bool
test entries peer = Map.has peer entries

unfoldable pub set : IgnoreSet → GoString → IgnoreSet
set entries peer = Map.put peer true entries

unfoldable pub remove : IgnoreSet → GoString → IgnoreSet
remove entries peer = Map.delete peer entries

-- `heap` holds the `IgnoreSet` objects by address, and `next` is the next free address;
-- `skip_subject_peers` holds pointers. `clients` records the address that a peer's client dials.
pub record ExchangeProtocol : Type 0 where
  pub id : GoString
  pub addr : GoString
  pub peers : GoMap GoString GoString
  pub skip_subject_peers : GoMap GoString ℕ
  pub heap : GoMap ℕ IgnoreSet
  pub next : ℕ
  pub clients : GoMap GoString GoString
  pub me : Peer

unfoldable pub new_exchange_protocol :
    GoString → GoString → GoMap GoString GoString → ExchangeProtocol
new_exchange_protocol id addr peers = record {
  id = id;
  addr = addr;
  peers = peers;
  skip_subject_peers = [];
  heap = [];
  next = 0;
  clients = [];
  me = record { id = id; addr = addr };
}

-- gRPC: whether a dial succeeds, and the replies of the peer behind an address, none for an error.
pub record Network : Type 0 where
  pub dial : GoString → Bool
  pub learn_report : GoString → LearnReportRequest → Option ReplyStatus
  pub ping : GoString → Peer → Option Timestamp

-- The set behind a pointer.
abbrev pub load : ExchangeProtocol → ℕ → IgnoreSet
load s p = elim (Map.get p s.heap) [ none ↦ [] | some entries ↦ entries ]

abbrev pub store : ExchangeProtocol → ℕ → IgnoreSet → ExchangeProtocol
store s p entries = record s { heap = Map.put p entries s.heap }

-- A new set, and the pointer to it stored under the subject.
unfoldable pub attach : ExchangeProtocol → GoString → IgnoreSet → ExchangeProtocol
attach s subject entries = record s {
  heap = Map.put s.next entries s.heap;
  next = s.next + 1;
  skip_subject_peers = Map.put subject s.next s.skip_subject_peers;
}

-- A missing key of `Peers` reads as the empty string.
abbrev pub addr_of : Option GoString → GoString
addr_of none = []
addr_of (some addr) = addr

-- The address of the client, or none where the dial fails.
unfoldable pub get_or_make_client :
    Network → ExchangeProtocol → GoString → Option GoString × ExchangeProtocol
get_or_make_client net s peer = elim (Map.get peer s.clients) [
  | some addr ↦ (some addr, s)
  | none ↦
      let addr = addr_of (Map.get peer s.peers) in
      if net.dial addr
      then (some addr, record s { clients = Map.put peer addr s.clients })
      else (none, s)
]

-- What `PropagatePeer` returns, and the requests that it sent: at most one.
pub data Propagation : Type 0 where
  skipped : Propagation
  sent : Propagation
  broken : Propagation

abbrev pub is_normal : Kind → Bool
is_normal normal = true
is_normal _ = false

abbrev pub is_ignored : ReplyStatus → Bool
is_ignored ignored = true
is_ignored _ = false

-- After the reply: a peer that ignored a report goes into the set that the caller holds, or into a
-- new one if the caller holds none.
unfoldable pub note_reply :
    ExchangeProtocol
    → GoString
    → Option ℕ
    → LearnReportRequest
    → ReplyStatus
    → Propagation × ExchangeProtocol
unfolding set new_ignore_set attach
note_reply s peer held request reply =
    if is_normal request.kind && is_ignored reply
    then elim held [
      | none ↦ (skipped, attach s request.report.subject (set new_ignore_set peer))
      | some p ↦ (skipped, store s p (set (load s p) peer))
    ]
    else (sent, s)

abbrev pub held_ignores : ExchangeProtocol → Option ℕ → GoString → Bool
held_ignores s none peer = false
held_ignores s (some p) peer = test (load s p) peer

unfoldable pub call_peer :
    Network
    → ExchangeProtocol
    → GoString
    → Option ℕ
    → LearnReportRequest
    → Option GoString
    → Propagation × ExchangeProtocol
unfolding note_reply
call_peer net s peer held request none = (broken, s)
call_peer net s peer held request (some addr) = elim (net.learn_report addr request) [
  | none ↦ (broken, s)
  | some reply ↦ note_reply s peer held request reply
]

-- `PropagatePeer`, with the pointer that `PropagateAll` holds: `skipped` for (true, nil), `sent`
-- for (false, nil), `broken` for an error.
unfoldable pub propagate_peer :
    Network
    → ExchangeProtocol
    → GoString
    → Option ℕ
    → LearnReportRequest
    → Propagation × ExchangeProtocol
unfolding call_peer get_or_make_client test
propagate_peer net s peer held request =
    if peer == s.id
    then (skipped, s)
    else if held_ignores s held peer
    then (skipped, s)
    else let (client, s') = get_or_make_client net s peer in
      call_peer net s' peer held request client

-- The goroutines of `PropagateAll`, in the order in which they run; the flag is `ferr != nil`.
unfoldable pub propagate_each :
    Network
    → GoMap GoString GoString
    → Option ℕ
    → LearnReportRequest
    → ExchangeProtocol
    → Bool
    → Bool × ExchangeProtocol
propagate_each net [] held request s ferr = (ferr, s)
propagate_each net ((peer, addr) ∷ peers) held request s ferr =
    let r = propagate_peer net s peer held request in
    propagate_each net peers held request r.1 (elim r.0 [ broken ↦ true | _ ↦ ferr ])

unfoldable pub propagate_all :
    Network → ExchangeProtocol → LearnReportRequest → Bool × ExchangeProtocol
unfolding propagate_each
propagate_all net s request =
    propagate_each net s.peers (Map.get request.report.subject s.skip_subject_peers) request s false

-- The report of a subscription names its subject and sender; its observation is nil.
abbrev pub subject_report : ExchangeProtocol → GoString → Report
subject_report s subject = record {
  observer = s.me.id;
  subject = subject;
  observation = record { ts = record { seconds = pos 0; nanos = pos 0 }; metrics = [] };
}

unfoldable pub subscribe : Network → ExchangeProtocol → GoString → Bool × ExchangeProtocol
unfolding propagate_all
subscribe net s subject =
    propagate_all net s
      (record { kind = subscription; source = s.me; report = subject_report s subject })

unfoldable pub unsubscribe : Network → ExchangeProtocol → GoString → Bool × ExchangeProtocol
unfolding propagate_all
unsubscribe net s subject =
    propagate_all net s
      (record { kind = unsubscription; source = s.me; report = subject_report s subject })

unfoldable pub propagate : Network → ExchangeProtocol → Report → Bool × ExchangeProtocol
unfolding propagate_all
propagate net s report =
    propagate_all net s (record { kind = normal; source = s.me; report = report })

-- The reply's time, or none for an error.
unfoldable pub ping : Network → ExchangeProtocol → GoString → Option Timestamp × ExchangeProtocol
unfolding get_or_make_client
ping net s peer =
    let (client, s') = get_or_make_client net s peer in
    (elim client [ none ↦ none | some addr ↦ net.ping addr s.me ], s')

-- The loop of `PingAll`: the replies, and whether there was an error.
unfoldable pub ping_each :
    Network
    → GoMap GoString GoString
    → ExchangeProtocol
    → GoMap GoString Timestamp
    → Bool
    → GoMap GoString Timestamp × Bool × ExchangeProtocol
unfolding ping
ping_each net [] s result ferr = (result, ferr, s)
ping_each net ((peer, addr) ∷ peers) s result ferr =
    let r = ping net s peer in
    let skip = ping_each net peers s result ferr in
    let next =
      ping_each net peers r.1 (elim r.0 [ none ↦ result | some time ↦ Map.put peer time result ])
        (elim r.0 [ none ↦ true | some time ↦ ferr ]) in
    if peer == s.id then skip else next

unfoldable pub ping_all :
    Network → ExchangeProtocol → GoMap GoString Timestamp × Bool × ExchangeProtocol
unfolding ping_each
ping_all net s = ping_each net s.peers s [] false

unfoldable pub interested : ExchangeProtocol → GoString → GoString → Bool × ExchangeProtocol
unfolding remove
interested s peer subject = elim (Map.get subject s.skip_subject_peers) [
  | none ↦ (false, s)
  | some p ↦ (true, store s p (remove (load s p) peer))
]

unfoldable pub uninterested : ExchangeProtocol → GoString → GoString → Bool × ExchangeProtocol
unfolding set new_ignore_set attach
uninterested s peer subject = elim (Map.get subject s.skip_subject_peers) [
  | none ↦ (true, attach s subject (set new_ignore_set peer))
  | some p ↦ (true, store s p (set (load s p) peer))
]
