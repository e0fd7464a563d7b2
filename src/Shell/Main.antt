-- ===== src/Shell/Main.antt =====
-- cmd/hview-client/main.go: `main`, from the parsed flags to the last command. Dialing and the host's
-- name are parameters; exiting is an error.
use panorama.Prelude.{
  ◌==◌, GoString, string_eq, str, Option, List, [], ◌∷◌, Bool, false, ◌||◌, not, if◌then◌else◌,
}
use panorama.Timestamp.{Timestamp}
use panorama.Filter.{Result, errors, panics}
use panorama.LogTail.Main.{server_addr}
use panorama.Shell.{Session, HealthClient, Ran, register}
use panorama.Shell.Commands.{Library, run_cmd, run_prompt}

abbrev no_session : Session
no_session = record { observer = []; handle = 0 }

abbrev asks_help : List GoString → Bool
asks_help [] = false
asks_help (a ∷ []) = false
asks_help (a ∷ b ∷ args) = a == str "-h" || a == str "--help"

-- The server's address, the arguments after the flags, the lines of the input and the time of each
-- command.
pub record ClientFlags : Type 0 where
  pub server : GoString
  pub args : List GoString
  pub hostname : Option GoString
  pub lines : List (GoString × Timestamp)
  pub now : Timestamp

module _ (lib : Library) {W : Type 0} (client : HealthClient W)
    (dial : GoString → W → Bool × W) where
  -- The prompt, or the one command of the arguments.
  abbrev run : List GoString → ClientFlags → Session → W → Result (Ran W)
  run [] flags session w = run_prompt lib client flags.lines session w
  run (a ∷ args) flags session w = run_cmd lib client (a ∷ args) flags.now session w

  unfoldable pub client_main : ClientFlags → W → Result (Ran W)
  unfolding register server_addr
  client_main flags w =
      let (dialed, w1) = dial (server_addr flags.server flags.hostname) w in
      let (ok, session, w2) = register client no_session w1 in
      if asks_help flags.args
      then errors
      else if not dialed
      then panics
      else if not ok
      then panics
      else run flags.args flags session w2
