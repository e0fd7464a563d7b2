-- ===== src/Service/Invariant.antt =====
-- What holds of every server that a new one of service/service.go can become.
use panorama.Prelude.{
  ℕ, ◌≡◌, refl, subst, ◌==◌, GoString, string_eq, nat_eq, Option, none, some, List, [], ◌∷◌, ◌++◌,
  false, ltb, length, arith, Option-cases, Bool-cases, inl, inr,
}
use panorama.Prelude.Map
use panorama.Prelude.Map.{GoMap, Distinct, put-Distinct}
use panorama.Health.{Report}
use panorama.Raw
use panorama.Raw.{RawHealthStorage, Time}
use panorama.Raw.Bounded.{IsBounded, add_report-IsBounded, add_subject-IsBounded}
use panorama.Cache.{CacheItem, CacheList, get_list}
use panorama.Inferences
use panorama.Inferences.{HealthInferenceStorage, turn}
use panorama.Inferences.Results.{IsPaired}
use panorama.Exchange.{ExchangeProtocol, Kind, normal, subscription, unsubscription}
use panorama.Exchange.Interest.{IsWf, interested-IsWf, uninterested-IsWf}
use panorama.Db.{Registration}
use panorama.Service.{
  HealthGServer, Task, register, find_registration, fresh_handle, assign, restore, check_handle,
  submit_result, submit_report, learn_result, learn_by_kind,
}
use panorama.Service.Tasks.{add_held, release_held, infer_retired}

-- Each subject has one panorama, whose views hold at most MaxReportPerView observations; a subject
-- has a result exactly if it has a workbook; each handle has one registration; and no two subjects
-- share a set of ignoring peers.
pub record IsInvariant (s : HealthGServer) : Type 0 where
  pub bounded : IsBounded s.storage
  pub paired : IsPaired s.inference
  pub once : Distinct s.registrations
  pub apart : IsWf s.exchange

pub register-IsInvariant :
    (s : HealthGServer) (module_name observer : GoString) (now : Time)
    → IsInvariant s
    → IsInvariant (register s module_name observer now).1
unfolding register assign
register-IsInvariant s module_name observer now v =
    let r = find_registration module_name observer s.registrations 0 in
    elim (Option-cases r.0) [
      | inr (handle, e) ↦ rw (register, e) v
      | inl e ↦
          rw (register, e)
            (record {
              bounded = add_subject-IsBounded s.storage observer now v.bounded;
              paired = v.paired;
              once = put-Distinct (fresh_handle s.next_handle r.1) _ s.registrations v.once;
              apart = v.apart;
            })
    ]

restore-IsInvariant :
    (s : HealthGServer) (handle : ℕ) (reg : Registration) (now : Time)
    → IsInvariant s
    → IsInvariant (restore s handle reg now)
unfolding restore
restore-IsInvariant s handle reg now v = record {
  bounded = add_subject-IsBounded s.storage reg.observer now v.bounded;
  paired = v.paired;
  once = put-Distinct handle reg s.registrations v.once;
  apart = v.apart;
}

-- The server, if there is one, keeps the invariant.
abbrev pub Keeps : Option HealthGServer → Type 0
Keeps none = Unit
Keeps (some u) = IsInvariant u

check_handle-Keeps :
    (s : HealthGServer) (handle : ℕ) (observer : GoString) (now : Time)
    → IsInvariant s
    → Keeps (check_handle s handle observer now)
unfolding check_handle
check_handle-Keeps s handle observer now v = elim (Option-cases (Map.get handle s.registrations)) [
  | inr (reg, e) ↦ rw (check_handle, e) v
  | inl e ↦ elim (Option-cases s.old_registrations) [
    | inl f ↦ rw (check_handle, e, f) tt
    | inr (old, f) ↦ elim (Option-cases (Map.get handle old)) [
      | inl g ↦ rw (check_handle, e, f, g) tt
      | inr (reg, g) ↦ elim (Bool-cases (reg.observer == observer)) [
        | inl h ↦ rw (check_handle, e, f, g, h) (restore-IsInvariant s handle reg now v)
        | inr h ↦ rw (check_handle, e, f, g, h) tt
      ]
    ]
  ]
]

-- The changes that leave three parts as they are.
pub with_storage :
    (s : HealthGServer) (storage : RawHealthStorage) (tasks : List Task) (buffer : CacheList Report)
    → IsInvariant s
    → IsBounded storage
    → IsInvariant (record s { storage = storage; tasks = tasks; hold_buffer = buffer })
with_storage s storage tasks buffer v b = record {
  bounded = b;
  paired = v.paired;
  once = v.once;
  apart = v.apart;
}

pub with_exchange :
    (s : HealthGServer) (exchange : ExchangeProtocol)
    → IsInvariant s
    → IsWf exchange
    → IsInvariant (record s { exchange = exchange })
with_exchange s exchange v w = record {
  bounded = v.bounded;
  paired = v.paired;
  once = v.once;
  apart = w;
}

pub with_inference :
    (s : HealthGServer) (inference : HealthInferenceStorage)
    → IsInvariant s
    → IsPaired inference
    → IsInvariant (record s { inference = inference })
with_inference s inference v p = record {
  bounded = v.bounded;
  paired = p;
  once = v.once;
  apart = v.apart;
}

submit_result-IsInvariant :
    (s : HealthGServer) (report : Report) (storage : RawHealthStorage) (rc : Raw.AddResult)
    → IsInvariant s
    → IsBounded storage
    → IsInvariant (submit_result s report (storage, rc)).1
unfolding submit_result
submit_result-IsInvariant s report storage Raw.ignored v b = with_storage s storage _ _ v b
submit_result-IsInvariant s report storage Raw.accepted v b = with_storage s storage _ _ v b
submit_result-IsInvariant s report storage Raw.failed v b = with_storage s storage _ _ v b

pub submit_report-IsInvariant :
    (s : HealthGServer) (handle : ℕ) (report : Report) (now : Time)
    → IsInvariant s
    → IsInvariant (submit_report s handle report now).1
unfolding submit_report
submit_report-IsInvariant s handle report now v =
    elim (Option-cases (check_handle s handle report.observer now)) [
      | inl e ↦ rw (submit_report, e) v
      | inr (s', e) ↦
          let v' : IsInvariant s' =
            subst Keeps e (check_handle-Keeps s handle report.observer now v) in
          rw (submit_report, e)
            (submit_result-IsInvariant s' report _ _ v'
              (add_report-IsBounded s'.storage report false now v'.bounded))
    ]

learn_result-IsInvariant :
    (s : HealthGServer) (source : GoString) (report : Report) (now : Time)
    (storage : RawHealthStorage) (rc : Raw.AddResult)
    → IsInvariant s
    → IsBounded storage
    → IsInvariant (learn_result s source report now (storage, rc)).1
unfolding learn_result
learn_result-IsInvariant s source report now storage Raw.ignored v b =
    with_storage s storage _ _ v b
learn_result-IsInvariant s source report now storage Raw.failed v b = with_storage s storage _ _ v b
learn_result-IsInvariant s source report now storage Raw.accepted v b = record {
  bounded = b;
  paired = v.paired;
  once = v.once;
  apart = interested-IsWf s.exchange source report.subject v.apart;
}

pub learn_by_kind-IsInvariant :
    (kind : Kind) (s : HealthGServer) (source : GoString) (report : Report) (now : Time)
    → IsInvariant s
    → IsInvariant (learn_by_kind kind s source report now).1
unfolding learn_by_kind
learn_by_kind-IsInvariant normal s source report now v =
    learn_result-IsInvariant s source report now _ _ v
      (add_report-IsBounded s.storage report s.config.filter_submission now v.bounded)
learn_by_kind-IsInvariant subscription s source report now v =
    with_exchange s _ v (interested-IsWf s.exchange source report.subject v.apart)
learn_by_kind-IsInvariant unsubscription s source report now v =
    with_exchange s _ v (uninterested-IsWf s.exchange source report.subject v.apart)

add_held-IsBounded :
    (items : List (CacheItem Report)) (storage : RawHealthStorage) (now : Time)
    → IsBounded storage
    → IsBounded (add_held storage items now)
unfolding add_held
add_held-IsBounded [] storage now b = b
add_held-IsBounded (item ∷ items) storage now b =
    add_held-IsBounded items _ now (add_report-IsBounded storage item.value false now b)

pub release_held-IsInvariant :
    (s : HealthGServer) (subject : GoString) (now : Time)
    → IsInvariant s
    → IsInvariant (release_held s subject now)
unfolding release_held
release_held-IsInvariant s subject now v = go (get_list s.hold_buffer subject now).0 refl
  where
    go :
        (items : List (CacheItem Report))
        → (get_list s.hold_buffer subject now).0 ≡ items
        → IsInvariant (release_held s subject now)
    go [] e = rw (release_held, e) (with_storage s s.storage s.tasks _ v v.bounded)
    go (item ∷ rest) e =
        rw (release_held, e)
          (with_storage s _ _ _ v (add_held-IsBounded (item ∷ rest) s.storage now v.bounded))

-- Sending a message to the inference service changes no result.
pub infer_report_async-IsPaired :
    (s s' : HealthInferenceStorage) (report : Report)
    → IsPaired s
    → Inferences.infer_report_async s report ≡ some s'
    → IsPaired s'
unfolding Inferences.infer_report_async
infer_report_async-IsPaired s s' report p e x = ground (arith, e, p x)

pub infer_retired-IsPaired :
    (retired : GoMap GoString ℕ) (s s' : HealthInferenceStorage)
    → IsPaired s
    → infer_retired s retired ≡ some s'
    → IsPaired s'
unfolding infer_retired Inferences.infer_subject_async
infer_retired-IsPaired [] s s' p e = λ x. ground (arith, e, p x)
infer_retired-IsPaired ((subject, r) ∷ retired) s s' p e =
    elim (Bool-cases (ltb (length s.subject_ch) Inferences.channel_size)) [
      | inl f ↦
          infer_retired-IsPaired retired (record s { subject_ch = s.subject_ch ++ subject ∷ [] }) s'
            (λ x. p x) (rw (infer_retired, f) at e)
      | inr f ↦ absurd (ground (arith, e, f))
    ]
