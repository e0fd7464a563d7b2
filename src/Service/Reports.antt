-- ===== src/Service/Reports.antt =====
-- `SubmitReport`, `LearnReport` and `AnalyzeReport` of service/service.go.
use panorama.Prelude.{
  ℕ, ◌≡◌, refl, ap, ◌∙◌, ◌==◌, GoString, string_eq, nat_eq, Option, none, some, is_some, List, [],
  ◌∷◌, ◌++◌, Bool, true, false, ◌&&◌, ◌⊎◌, inl, inr, arith, if◌then◌else◌, Bool-cases, Option-cases,
}
use panorama.Prelude.Map
use panorama.Prelude.Map.{GoMap, get-put}
use panorama.Health.{Report}
use panorama.Raw.{RawHealthStorage, Time}
use panorama.Raw
use panorama.Raw.Frame.{pushed, drops, add_report_cases, get_view-add_subject}
use panorama.Cache.{set_list}
use panorama.Db.{Registration}
use panorama.Exchange.{normal, ignored, accepted, interested}
use panorama.Service.{
  HealthGServer, Task, analyze, propagates, check_handle, restore, submit_result, submit_report,
  learn_result, learn_by_kind,
}

-- The old registration that a handle falls back on, if it names the observer.
abbrev pub old_for : Option (GoMap ℕ Registration) → ℕ → GoString → Option Registration
old_for none handle observer = none
old_for (some old) handle observer = elim (Map.get handle old) [
  | none ↦ none
  | some reg ↦ if reg.observer == observer then some reg else none
]

-- A handle is good if it is registered, or was in an earlier run for the same observer.
abbrev pub is_good : HealthGServer → ℕ → GoString → Bool
is_good s handle observer =
    if Map.has handle s.registrations
    then true
    else is_some (old_for s.old_registrations handle observer)

-- The server once the check of the handle has passed.
abbrev pub checked : HealthGServer → ℕ → GoString → Time → HealthGServer
checked s handle observer now = elim (Map.get handle s.registrations) [
  | some reg ↦ s
  | none ↦ elim (old_for s.old_registrations handle observer) [
    | none ↦ s
    | some reg ↦ restore s handle reg now
  ]
]

check_handle_lem :
    (s : HealthGServer) (handle : ℕ) (observer : GoString) (now : Time)
    → check_handle s handle observer now
      ≡ (if is_good s handle observer then some (checked s handle observer now) else none)
unfolding check_handle
check_handle_lem s handle observer now = elim (Option-cases (Map.get handle s.registrations)) [
  | inr (reg, e) ↦ ground (arith, e)
  | inl e ↦ elim (Option-cases s.old_registrations) [
    | inl f ↦ ground (arith, e, f)
    | inr (old, f) ↦ ground (arith, e, f)
  ]
]

-- Restoring a registration adds its observer to the watch list, and changes no view.
get_view-checked :
    (s : HealthGServer) (handle : ℕ) (who : GoString) (now : Time) (observer subject : GoString)
    → Raw.get_view (checked s handle who now).storage observer subject
      ≡ Raw.get_view s.storage observer subject
unfolding restore
get_view-checked s handle who now observer subject =
    elim (Option-cases (Map.get handle s.registrations)) [
      | inr (reg, e) ↦ ground (arith, e)
      | inl e ↦ elim (Option-cases (old_for s.old_registrations handle who)) [
        | inl f ↦ ground (arith, e, f)
        | inr (reg, f) ↦
            ground (arith, e, f, get_view-add_subject s.storage reg.observer now observer subject)
      ]
    ]

tasks-checked :
    (s : HealthGServer) (handle : ℕ) (who : GoString) (now : Time)
    → (checked s handle who now).tasks ≡ s.tasks
unfolding restore
tasks-checked s handle who now = elim (Option-cases (Map.get handle s.registrations)) [
  | inr (reg, e) ↦ ground (arith, e)
  | inl e ↦ elim (Option-cases (old_for s.old_registrations handle who)) [
    | inl f ↦ ground (arith, e, f)
    | inr (reg, f) ↦ ground (arith, e, f)
  ]
]

-- The server after an accepted report.
abbrev submitted : HealthGServer → ℕ → Report → Time → HealthGServer
submitted s handle report now =
    let s' = checked s handle report.observer now in
    record s' {
      storage = (Raw.add_report s'.storage report false now).0;
      tasks = s'.tasks ++ analyze report true ∷ propagates report ∷ [];
    }

submit_report_good :
    (s : HealthGServer) (handle : ℕ) (report : Report) (now : Time)
    → is_good s handle report.observer ≡ true
    → (Raw.add_report (checked s handle report.observer now).storage report false now).1
      ≡ Raw.accepted
    → submit_report s handle report now ≡ (some accepted, submitted s handle report now)
unfolding submit_report submit_result
submit_report_good s handle report now e g =
    let check : check_handle s handle report.observer now
        ≡ some (checked s handle report.observer now) =
      check_handle_lem s handle report.observer now ∙ rw e in
    rw (submit_report, check) (rw (submit_result, g))

submit_report_bad :
    (s : HealthGServer) (handle : ℕ) (report : Report) (now : Time)
    → is_good s handle report.observer ≡ false
    → submit_report s handle report now ≡ (none, s)
unfolding submit_report
submit_report_bad s handle report now e =
    let check : check_handle s handle report.observer now ≡ none =
      check_handle_lem s handle report.observer now ∙ rw e in
    rw (submit_report, check)

-- `SubmitReport` refuses a report exactly if its handle is not good, and then changes nothing. It
-- accepts every other report: the view of its observer and subject has the observation pushed, no
-- other view changes, and its analysis and its propagation are started.
pub submit_report_cases :
    (s : HealthGServer) (handle : ℕ) (report : Report) (now : Time)
    → ((is_good s handle report.observer ≡ false) × (submit_report s handle report now ≡ (none, s)))
      ⊎ ((is_good s handle report.observer ≡ true)
          × ((submit_report s handle report now).0 ≡ some accepted)
          × ((submit_report s handle report now).1.tasks
              ≡ s.tasks ++ analyze report true ∷ propagates report ∷ [])
          × ((observer subject : GoString)
              → Raw.get_view (submit_report s handle report now).1.storage observer subject ≡ (
                  if (report.subject == subject) && (report.observer == observer)
                  then some (pushed report (Raw.get_view s.storage report.observer report.subject))
                  else Raw.get_view s.storage observer subject)))
submit_report_cases s handle report now =
    let s' = checked s handle report.observer now in
    elim (Bool-cases (is_good s handle report.observer)) [
      | inl e ↦ elim (add_report_cases s'.storage report false now) [
        | inl (f, g) ↦ absurd (ground (arith, f))
        | inr (f, g, views) ↦ rw (submit_report_good s handle report now e g) (
            inr (
              e,
              refl,
              ap (λ (t : List Task). t ++ analyze report true ∷ propagates report ∷ [])
                  (tasks-checked s handle report.observer now),
              λ o x.
                  rw
                    (
                      ← get_view-checked s handle report.observer now o x,
                      ← get_view-checked s handle report.observer now report.observer
                          report.subject,
                    )
                    (views o x),
            ))
      ]
      | inr e ↦ inl (e, submit_report_bad s handle report now e)
    ]

learn_report_good :
    (s : HealthGServer) (source : GoString) (report : Report) (now : Time)
    → (Raw.add_report s.storage report s.config.filter_submission now).1 ≡ Raw.accepted
    → learn_by_kind normal s source report now ≡ (
      accepted,
      record s {
        storage = (Raw.add_report s.storage report s.config.filter_submission now).0;
        exchange = (interested s.exchange source report.subject).1;
        tasks = s.tasks ++ analyze report false ∷ [];
      },
    )
unfolding learn_by_kind
learn_report_good s source report now g = rw (learn_by_kind, learn_result, g)

-- A peer's report that is filtered out is answered IGNORED and put on hold under its subject, and
-- nothing else changes. Any other is accepted: the view of its observer and subject has the
-- observation pushed and no other view changes, the peer counts as interested in the subject, the
-- analysis is started, and nothing is put on hold.
pub learn_report_cases :
    (s : HealthGServer) (source : GoString) (report : Report) (now : Time)
    → ((drops s.storage report s.config.filter_submission ≡ true)
        × (learn_by_kind normal s source report now ≡ (
          ignored,
          record s { hold_buffer = set_list s.hold_buffer report.subject report now },
        )))
      ⊎ ((drops s.storage report s.config.filter_submission ≡ false)
          × ((learn_by_kind normal s source report now).0 ≡ accepted)
          × ((learn_by_kind normal s source report now).1.exchange
              ≡ (interested s.exchange source report.subject).1)
          × ((learn_by_kind normal s source report now).1.tasks
              ≡ s.tasks ++ analyze report false ∷ [])
          × ((learn_by_kind normal s source report now).1.hold_buffer ≡ s.hold_buffer)
          × ((observer subject : GoString)
              → Raw.get_view (learn_by_kind normal s source report now).1.storage observer subject
                ≡ (if (report.subject == subject) && (report.observer == observer)
                    then some
                        (pushed report (Raw.get_view s.storage report.observer report.subject))
                    else Raw.get_view s.storage observer subject)))
unfolding learn_by_kind
learn_report_cases s source report now =
    elim (add_report_cases s.storage report s.config.filter_submission now) [
      | inl (e, f) ↦ inl (e, rw (learn_by_kind, f))
      | inr (e, g, views) ↦
          rw (learn_report_good s source report now g) (inr (e, refl, refl, refl, refl, views))
    ]
