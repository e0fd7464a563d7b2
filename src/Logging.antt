-- ===== src/Logging.antt =====
-- util/logging.go: the level of the logger, and what it lets through. The text of a message is left
-- out.
use panorama.Prelude.{ℕ, ◌==◌, GoString, string_eq, str, Bool, leb, if◌then◌else◌}
use panorama.Health.{to_lower}
use panorama.Filter.{Result, returns, errors, panics}

pub data LogLevel : Type 0 where
  panic_level fatal_level error_level warning_level info_level debug_level : LogLevel

unfoldable pub level_number : LogLevel → ℕ
level_number panic_level = 0
level_number fatal_level = 1
level_number error_level = 2
level_number warning_level = 3
level_number info_level = 4
level_number debug_level = 5

-- The level of the global logger at the start.
abbrev pub initial_level : LogLevel
initial_level = info_level

-- The switch on the name in lower case.
unfoldable pub level_of_name : GoString → LogLevel → LogLevel
level_of_name name level =
    if name == str "debug"
    then debug_level
    else if name == str "info"
    then info_level
    else if name == str "warn"
    then warning_level
    else if name == str "error"
    then error_level
    else if name == str "fatal"
    then fatal_level
    else if name == str "panic"
    then panic_level
    else level

-- `SetLogLevelString` at a logger's level.
unfoldable pub set_log_level_string : GoString → LogLevel → LogLevel
unfolding level_of_name
set_log_level_string name level = level_of_name (to_lower name) level

-- Whether a message of a level is written.
unfoldable pub is_written : LogLevel → LogLevel → Bool
unfolding level_number
is_written message level = leb (level_number message) (level_number level)

-- `LogF`, which ends the program only if the message is written: an exit is an error.
unfoldable pub log_f : LogLevel → Result {0} Unit
unfolding is_written
log_f level = if is_written fatal_level level then errors else returns tt

-- `LogP`
unfoldable pub log_p : LogLevel → Result {0} Unit
unfolding is_written
log_p level = if is_written panic_level level then panics else returns tt
