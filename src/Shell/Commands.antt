-- ===== src/Shell/Commands.antt =====
-- cmd/hview-client/main.go: `exeDump`, `runCmd` and `runPrompt`. A time of now, whose conversion
-- does not fail, comes with each command.
pub mod Sessions
use panorama.Prelude.{
  zero, suc, ℕ, ◌==◌, ◌≡◌, GoString, string_eq, str, Option, none, some, List, [], ◌∷◌, ◌++◌, Bool,
  true, false, ◌||◌, not, nat_beq, length, map, if◌then◌else◌,
}
use panorama.Prelude.Map
use panorama.Prelude.Map.{GoMap}
use panorama.Prelude.Strings.{keys_of}
use panorama.Prelude.Int.{ℤ, pos, negsuc, ltb_ℤ}
use panorama.Timestamp.{Timestamp}
use panorama.Health.{Score, Panorama, Inference}
use panorama.Exchange.{ReplyStatus, accepted, ignored, failed}
use panorama.Filter.{Result, returns, errors, panics, ◌>>=◌}
use panorama.Shell.{
  Session, HealthClient, Shown, shows_help, shows_error, shows_panorama, shows_inference,
  shows_title, shows_subject, shows_status, shows_pong, shows_observer, Ran, ends, repeats_get,
  repeats_dump, arg, parse_report, register, help, exe_get,
}
use panorama.Shell.Subjects.{cmp_subject}
use panorama.ZooKeeper.Ensemble.{white_width}

abbrev all_words : GoString × List GoString → List GoString
all_words (word, rest) = if nat_beq (length word) 0 then rest else word ∷ rest

-- The word that begins the string, and the other words, after so many bytes that are known to be
-- white space.
unfoldable pub words : ℕ → GoString → GoString × List GoString
unfolding white_width
words known [] = ([], [])
words (suc known) (c ∷ s) = words known s
words zero (c ∷ s) = elim (white_width (c ∷ s)) [
  | zero ↦ (c ∷ (words zero s).0, (words zero s).1)
  | suc known ↦ ([], all_words (words known s))
]

-- `strings.Fields`
unfoldable pub fields : GoString → List GoString
unfolding words
fields s = all_words (words 0 s)

-- What the client gets from Go's library.
pub record Library : Type 0 where
  pub atoi : GoString → Option ℤ
  pub parse_float : GoString → Option Score
  pub sort : (GoString → GoString → Bool) → List GoString → List GoString

-- The panoramas, or the inferences, of sorted keys, all of which the map has.
unfoldable pub dump_panoramas : GoMap GoString Panorama → List GoString → List Shown
dump_panoramas m [] = []
dump_panoramas m (key ∷ keys) =
    shows_title key ∷ elim (Map.get key m) [ none ↦ [] | some pano ↦ shows_panorama pano ∷ [] ]
    ++ dump_panoramas m keys

unfoldable pub dump_inferences : GoMap GoString Inference → List GoString → List Shown
dump_inferences m [] = []
dump_inferences m (key ∷ keys) =
    shows_title key ∷ shows_inference (Map.get key m) ∷ dump_inferences m keys

unfoldable pub list_subjects : GoMap GoString Timestamp → List Shown
list_subjects [] = []
list_subjects ((subject, ts) ∷ subjects) = shows_subject subject ts ∷ list_subjects subjects

module _ (lib : Library) {W : Type 0} (client : HealthClient W) where
  unfoldable pub exe_dump : List GoString → W → Result (List Shown × W)
  unfolding dump_panoramas dump_inferences
  exe_dump (cmd ∷ what ∷ []) w =
      if what == str "panorama"
      then (let (tenants, w') = client.dump_panorama w in
          elim tenants [
            | none ↦ returns (shows_error ∷ [], w')
            | some m ↦ returns (dump_panoramas m (lib.sort (cmp_subject lib.atoi) (keys_of m)), w')
          ])
      else if what == str "inference"
      then (let (tenants, w') = client.dump_inference w in
          elim tenants [
            | none ↦ returns (shows_error ∷ [], w')
            | some m ↦ returns (dump_inferences m (lib.sort (cmp_subject lib.atoi) (keys_of m)), w')
          ])
      else help client w
  exe_dump _ w = help client w

  -- A command that ends and keeps the session.
  abbrev pub shows : Session → Result (List Shown × W) → Result (Ran W)
  shows session r = r >>= λ shown. returns (ends false shown.0 session shown.1)

  -- An error of the request is shadowed and not shown. A reply has a time that can be converted.
  unfoldable pub ping : Timestamp → Session → W → Ran W
  ping now session w =
      let (reply, w') = client.ping session.observer now w in
      elim reply [
        | none ↦ ends false [] session w'
        | some t ↦ ends false (shows_pong t ∷ []) session w'
      ]

  -- `reply.Result` of a nil reply panics.
  abbrev pub show_result : List Shown → Session → W → Option ReplyStatus → Result (Ran W)
  show_result shown session w none = panics
  show_result shown session w (some status) =
      returns (ends false (shown ++ shows_status status ∷ []) session w)

  unfoldable pub report : List GoString → Timestamp → Session → W → Result (Ran W)
  unfolding parse_report
  report args now session w = do
    (shown, r, session') ← parse_report lib.parse_float args now session
    let (reply, w') = client.submit_report session'.handle r w
    show_result shown session' w' reply

  abbrev pub is_positive : ℤ → Bool
  is_positive freq = ltb_ℤ (pos 0) freq

  unfoldable pub tail : List GoString → Session → W → Ran W
  tail (cmd ∷ text ∷ what ∷ args) session w = elim (lib.atoi text) [
    | none ↦ ends false (shows_error ∷ shows_help ∷ []) session w
    | some freq ↦
        if not (is_positive freq)
        then ends false (shows_error ∷ shows_help ∷ []) session w
        else if what == str "get"
        then repeats_get freq (what ∷ args)
        else if what == str "dump"
        then repeats_dump freq (what ∷ args)
        else ends false (shows_help ∷ []) session w
  ]
  tail _ session w = ends false (shows_help ∷ []) session w

  unfoldable pub exe_list : List GoString → W → Result (List Shown × W)
  unfolding list_subjects
  exe_list (cmd ∷ what ∷ []) w =
      if what == str "subject"
      then (let (reply, w') = client.get_observed_subjects w in
          returns
            (elim reply [ none ↦ shows_error ∷ [] | some subjects ↦ list_subjects subjects ], w'))
      else help client w
  exe_list _ w = help client w

  unfoldable pub me : List GoString → Session → W → Ran W
  unfolding register
  me (cmd ∷ name ∷ args) session w =
      let (ok, session', w') = register client (record session { observer = name }) w in
      ends false (if ok then [] else shows_error ∷ []) session' w'
  me _ session w = ends false (shows_observer session.observer ∷ []) session w

  -- `runCmd`: `ends` has what it returns, which is true to leave the prompt.
  unfoldable pub run_cmd : List GoString → Timestamp → Session → W → Result (Ran W)
  unfolding exe_dump ping report tail exe_list me
  run_cmd [] now session w = panics
  run_cmd (cmd ∷ args) now session w =
      if cmd == str "ping"
      then returns (ping now session w)
      else if cmd == str "report"
      then report (cmd ∷ args) now session w
      else if cmd == str "get"
      then shows session (exe_get client (cmd ∷ args) w)
      else if cmd == str "dump"
      then shows session (exe_dump (cmd ∷ args) w)
      else if cmd == str "tail"
      then returns (tail (cmd ∷ args) session w)
      else if cmd == str "list"
      then shows session (exe_list (cmd ∷ args) w)
      else if cmd == str "me"
      then returns (me (cmd ∷ args) session w)
      else if cmd == str "help"
      then returns (ends false (shows_help ∷ []) session w)
      else if cmd == str "exit" || cmd == str "quit"
      then returns (ends true [] session w)
      else returns (ends false (shows_error ∷ []) session w)

  -- The output of a command before that of the ones after it.
  abbrev pub shown_first : List Shown → Ran W → Ran W
  shown_first shown (ends stop more session w) = ends stop (shown ++ more) session w
  shown_first shown (repeats_get freq args) = repeats_get freq args
  shown_first shown (repeats_dump freq args) = repeats_dump freq args

  -- `runPrompt`, on the lines of its input.
  unfoldable pub run_prompt : List (GoString × Timestamp) → Session → W → Result (Ran W)
  unfolding fields run_cmd
  run_prompt [] session w = returns (ends false [] session w)
  run_prompt ((line, now) ∷ lines) session w =
      if nat_beq (length (fields line)) 0
      then run_prompt lines session w
      else (run_cmd (fields line) now session w >>= λ ran. elim ran [
        | ends stop shown session' w' ↦
            let rest = run_prompt lines session' w' in
            if stop
            then returns (ends true shown session' w')
            else (rest >>= λ more. returns (shown_first shown more))
        | repeats_get freq args ↦ returns (repeats_get freq args)
        | repeats_dump freq args ↦ returns (repeats_dump freq args)
      ])

  -- One round of the loop of `tail`: `exeGet`, or `exeDump`.
  unfoldable pub tail_round : Ran W → W → Result (List Shown × W)
  unfolding exe_dump
  tail_round (repeats_get freq args) w = exe_get client args w
  tail_round (repeats_dump freq args) w = exe_dump args w
  tail_round (ends stop shown session w) w' = returns ([], w')
