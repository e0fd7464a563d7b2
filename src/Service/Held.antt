-- ===== src/Service/Held.antt =====
-- Reports on hold: `LearnReport` and `AnalyzeReport` of service/service.go together.
use panorama.Prelude.{◌==◌, ◌+◌, ◌≡◌, ◌∙◌, string_eq, str_beq_iff, some, false, arith, inl, inr}
use panorama.Prelude.Map
use panorama.Health.{Report}
use panorama.Raw
use panorama.Raw.{RawHealthStorage, Time}
use panorama.Raw.Frame.{pushed, add_report_cases}
use panorama.Cache.{CacheItem, CacheList}
use panorama.Service.{HealthGServer}
use panorama.Service.Queries.{get_view}

abbrev item_of : CacheList Report → Report → Time → CacheItem Report
item_of c report held = record { expires = held + c.ttl; value = report }

view-add_report :
    (storage : RawHealthStorage) (report : Report) (now : Time)
    → Raw.get_view (Raw.add_report storage report false now).0 report.observer report.subject
      ≡ some (pushed report (Raw.get_view storage report.observer report.subject))
view-add_report storage report now = elim (add_report_cases storage report false now) [
  | inl (out, e) ↦ absurd (ground (arith, out))
  | inr (kept, _, views) ↦ ground (
    arith,
    views report.observer report.subject,
    str_beq_iff report.subject report.subject,
    str_beq_iff report.observer report.observer,
  )
]

-- After a report of an observer other than its subject is accepted, `GetView` of its subject and its
-- observer answers as before, whatever that is, and the report's view is the answer for the two
-- exchanged: the handler passes the subject and the observer of its request in the wrong order.
pub get_view-add_report :
    (s : HealthGServer) (report : Report) (now : Time)
    → (report.subject == report.observer) ≡ false
    → let s' = record s { storage = (Raw.add_report s.storage report false now).0 } in
      (get_view s' report.subject report.observer ≡ get_view s report.subject report.observer)
      × (get_view s' report.observer report.subject
          ≡ some (pushed report (get_view s report.observer report.subject)))
unfolding get_view
get_view-add_report s report now other = (
  elim (add_report_cases s.storage report false now) [
    | inl (out, e) ↦ absurd (ground (arith, out))
    | inr (kept, _, views) ↦
        views report.subject report.observer
        ∙ ground (
          arith,
          other,
          str_beq_iff report.subject report.observer,
          str_beq_iff report.observer report.subject,
        )
  ],
  view-add_report s.storage report now,
)
