-- ===== src/Shell/Commands/Sessions.antt =====
-- `runCmd` of cmd/hview-client/main.go: when it leaves the prompt, and what it does to the session.
use panorama.Prelude.{
  ◌==◌, ◌≡◌, refl, sym, GoString, string_eq, str, str_beq, subst, beq→eq, Option, none, some, List,
  [], ◌∷◌, Bool, true, false, ◌||◌, arith, Option-cases, Bool-cases, inl, inr,
}
use panorama.Timestamp.{Timestamp}
use panorama.Exchange.{ReplyStatus}
use panorama.Filter.{Result, returns, errors, panics}
use panorama.Filter.Ensured.{Ensures}
use panorama.Shell.{
  Session, HealthClient, Shown, Ran, ends, repeats_get, repeats_dump, parse_report, exe_get,
}
use panorama.Shell.Commands.{
  Library, exe_dump, exe_list, ping, report, tail, me, run_cmd, shows, is_positive, show_result,
}

abbrev pub leaves : GoString → Bool
leaves cmd = cmd == str "exit" || cmd == str "quit"

module _ (lib : Library) {W : Type 0} (client : HealthClient W) where
  -- What a command does to the prompt and the session, given whether it leaves, registers or reports.
  abbrev pub Keeps : Bool → Bool → Bool → Session → Ran W → Type 0
  Keeps stops is_me is_report session (repeats_get freq args) = Unit
  Keeps stops is_me is_report session (repeats_dump freq args) = Unit
  Keeps stops is_me is_report session (ends stop shown session' w) =
      (stop ≡ stops)
      × (is_me ≡ false → session'.handle ≡ session.handle)
      × (is_me ≡ false → is_report ≡ false → session' ≡ session)

  abbrev Named : GoString → List GoString → Timestamp → Session → W → Type 0
  Named cmd args now session w =
      Ensures (Keeps (leaves cmd) (cmd == str "me") (cmd == str "report") session)
        (run_cmd lib client (cmd ∷ args) now session w)

  shows-Keeps :
      (is_me is_report : Bool) (session : Session) (r : Result (List Shown × W))
      → Ensures (Keeps false is_me is_report session) (shows lib client session r)
  shows-Keeps is_me is_report session (returns shown) = (refl, λ m. refl, λ m n. refl)
  shows-Keeps is_me is_report session errors = tt
  shows-Keeps is_me is_report session panics = tt

  ping-Keeps :
      (is_me is_report : Bool) (now : Timestamp) (session : Session) (w : W)
      → Keeps false is_me is_report session (ping lib client now session w)
  unfolding ping
  ping-Keeps is_me is_report now session w =
      elim (Option-cases (client.ping session.observer now w).0) [
        | inl e ↦ rw (ping, e) (refl, λ m. refl, λ m n. refl)
        | inr (t, e) ↦ rw (ping, e) (refl, λ m. refl, λ m n. refl)
      ]

  tail-Keeps :
      (is_me is_report : Bool) (args : List GoString) (session : Session) (w : W)
      → Keeps false is_me is_report session (tail lib client args session w)
  unfolding tail
  tail-Keeps is_me is_report [] session w = (refl, λ m. refl, λ m n. refl)
  tail-Keeps is_me is_report (cmd ∷ []) session w = (refl, λ m. refl, λ m n. refl)
  tail-Keeps is_me is_report (cmd ∷ text ∷ []) session w = (refl, λ m. refl, λ m n. refl)
  tail-Keeps is_me is_report (cmd ∷ text ∷ what ∷ args) session w =
      elim (Option-cases (lib.atoi text)) [
        | inl e ↦ rw (tail, e) (refl, λ m. refl, λ m n. refl)
        | inr (freq, e) ↦ elim (Bool-cases (is_positive lib client freq)) [
          | inr f ↦ rw (tail, e, f) (refl, λ m. refl, λ m n. refl)
          | inl f ↦ elim (Bool-cases (what == str "get")) [
            | inl g ↦ rw (tail, e, f, g) tt
            | inr g ↦ elim (Bool-cases (what == str "dump")) [
              | inl k ↦ rw (tail, e, f, g, k) tt
              | inr k ↦ rw (tail, e, f, g, k) (refl, λ m. refl, λ m n. refl)
            ]
          ]
        ]
      ]

  me-Keeps :
      (is_report : Bool) (args : List GoString) (session : Session) (w : W)
      → Keeps false true is_report session (me lib client args session w)
  unfolding me
  me-Keeps is_report [] session w = (refl, λ m. refl, λ m n. refl)
  me-Keeps is_report (cmd ∷ []) session w = (refl, λ m. refl, λ m n. refl)
  me-Keeps is_report (cmd ∷ name ∷ args) session w =
      (refl, λ m. absurd (ground (arith, m)), λ m n. absurd (ground (arith, m)))

  show_result-Keeps :
      (shown : List Shown) (session session' : Session) (w : W) (reply : Option ReplyStatus)
      → session'.handle ≡ session.handle
      → Ensures (Keeps false false true session) (show_result lib client shown session' w reply)
  show_result-Keeps shown session session' w none h = tt
  show_result-Keeps shown session session' w (some status) h =
      (refl, λ m. h, λ m n. absurd (ground (arith, n)))

  report-Keeps :
      (args : List GoString) (now : Timestamp) (session : Session) (w : W)
      → Ensures (Keeps false false true session) (report lib client args now session w)
  unfolding report parse_report
  report-Keeps [] now session w = tt
  report-Keeps (cmd ∷ []) now session w = tt
  report-Keeps (cmd ∷ subject ∷ args) now session w = show_result-Keeps _ session _ _ _ refl

  -- A claim about a command: it holds of the command of a name, and of every other one.
  by_name :
      (cmd name : GoString) (args : List GoString) (now : Timestamp) (session : Session) (w : W)
      → Named name args now session w
      → ((cmd == name) ≡ false → Named cmd args now session w)
      → Named cmd args now session w
  by_name cmd name args now session w h k = elim (Bool-cases (cmd == name)) [
    | inl e ↦ subst (λ x. Named x args now session w) (sym (beq→eq cmd name e)) h
    | inr e ↦ k e
  ]

  -- A command that ends leaves the prompt exactly if it is `exit` or `quit`. No command but `me`
  -- changes the handle, and no command but `me` and `report` anything of the session.
  pub run_cmd-Keeps :
      (cmd : GoString) (args : List GoString) (now : Timestamp) (session : Session) (w : W)
      → Ensures
          (Keeps (leaves cmd) (cmd == str "me") (cmd == str "report") session)
          (run_cmd lib client (cmd ∷ args) now session w)
  unfolding run_cmd str_beq
  run_cmd-Keeps cmd args now session w =
      by_name cmd (str "ping") args now session w (ping-Keeps false false now session w) λ e1.
        by_name cmd (str "report") args now session w
          (report-Keeps (str "report" ∷ args) now session w)
          λ e2.
            by_name cmd (str "get") args now session w
              (shows-Keeps false false session (exe_get client (str "get" ∷ args) w))
              λ e3.
                by_name cmd (str "dump") args now session w
                  (shows-Keeps false false session (exe_dump lib client (str "dump" ∷ args) w))
                  λ e4.
                    by_name cmd (str "tail") args now session w
                      (tail-Keeps false false (str "tail" ∷ args) session w)
                      λ e5.
                        by_name cmd (str "list") args now session w
                          (shows-Keeps false false session
                            (exe_list lib client (str "list" ∷ args) w))
                          λ e6.
                            by_name cmd (str "me") args now session w
                              (me-Keeps false (str "me" ∷ args) session w)
                              λ e7.
                                by_name cmd (str "help") args now session w
                                  (refl, λ m. refl, λ m n. refl)
                                  λ e8. elim (Bool-cases (leaves cmd)) [
                                    | inl e ↦
                                        rw (run_cmd, e1, e2, e3, e4, e5, e6, e7, e8, e)
                                          (refl, λ m. refl, λ m n. refl)
                                    | inr e ↦
                                        rw (run_cmd, e1, e2, e3, e4, e5, e6, e7, e8, e)
                                          (refl, λ m. refl, λ m n. refl)
                                  ]
