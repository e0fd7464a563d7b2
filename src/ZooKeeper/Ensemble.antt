-- ===== src/ZooKeeper/Ensemble.antt =====
-- plugin/zookeeper.go: `ParseEnsembleFile`, on the lines of a file that could be opened.
pub mod Printed
use panorama.Prelude.{
  ℕ, zero, suc, ◌≡◌, GoString, str, Option, none, some, List, [], ◌∷◌, ◌++◌, Bool, true, false,
  ◌&&◌, ◌||◌, nat_beq, ltb, leb, length, if◌then◌else◌,
}
use panorama.Filter.{Result, returns, errors, panics, ◌>>=◌}
use panorama.ZooKeeper.{ZkServer, Standard}

-- line[:idx] at the first '#', or the whole line
unfoldable pub strip_comment : GoString → GoString
strip_comment [] = []
strip_comment (c ∷ s) = let rest = strip_comment s in if nat_beq c b'#' then [] else c ∷ rest

-- `strings.Split` at a byte: the first part and the others.
unfoldable pub split : ℕ → GoString → GoString × List GoString
split sep [] = ([], [])
split sep (c ∷ s) =
    let rest = split sep s in if nat_beq c sep then ([], rest.0 ∷ rest.1) else (c ∷ rest.0, rest.1)

-- The white space of ASCII.
abbrev pub is_space : ℕ → Bool
is_space c = nat_beq c 32 || (leb 9 c && leb c 13)

-- U+0085 and U+00A0
abbrev is_space_2 : ℕ → ℕ → Bool
is_space_2 c d = nat_beq c 194 && (nat_beq d 133 || nat_beq d 160)

-- U+1680, U+2000 to U+200A, U+2028, U+2029, U+202F, U+205F and U+3000
abbrev is_space_3 : ℕ → ℕ → ℕ → Bool
is_space_3 c d e =
    (nat_beq c 225 && nat_beq d 154 && nat_beq e 128)
    || (nat_beq c 226
        && nat_beq d 128
        && ((leb 128 e && leb e 138) || nat_beq e 168 || nat_beq e 169 || nat_beq e 175))
    || (nat_beq c 226 && nat_beq d 129 && nat_beq e 159)
    || (nat_beq c 227 && nat_beq d 128 && nat_beq e 128)

-- The number of bytes of the white space of Unicode that a string begins with, in UTF-8: 0 if it
-- begins with none.
unfoldable pub white_width : GoString → ℕ
white_width [] = 0
white_width (c ∷ []) = if is_space c then 1 else 0
white_width (c ∷ d ∷ []) = if is_space c then 1 else if is_space_2 c d then 2 else 0
white_width (c ∷ d ∷ e ∷ s) =
    if is_space c then 1 else if is_space_2 c d then 2 else if is_space_3 c d e then 3 else 0

-- The string without the white space at its front, of which so many bytes are already known.
unfoldable pub trim_from : ℕ → GoString → GoString
trim_from known [] = []
trim_from (suc known) (c ∷ s) = trim_from known s
trim_from zero (c ∷ s) = elim (white_width (c ∷ s)) [ zero ↦ c ∷ s | suc known ↦ trim_from known s ]

unfoldable pub trim_back : GoString → GoString
unfolding white_width
trim_back [] = []
trim_back (c ∷ s) =
    let rest = trim_back s in
    if nat_beq (white_width (c ∷ rest)) (length (c ∷ rest)) then [] else c ∷ rest

-- `strings.TrimSpace`
unfoldable pub trim_space : GoString → GoString
unfolding trim_from trim_back white_width
trim_space s = trim_back (trim_from 0 s)

abbrev pub conf_id_prefix : GoString
conf_id_prefix = str "server."

-- `strings.HasPrefix`, and the rest of the string after the prefix.
unfoldable pub after_prefix : GoString → GoString → Option GoString
after_prefix [] s = some s
after_prefix (p ∷ prefix) [] = none
after_prefix (p ∷ prefix) (c ∷ s) =
    let rest = after_prefix prefix s in if nat_beq p c then rest else none

-- `net.LookupIP`, each address as a string: none for an error.
abbrev pub LookupIp : Type 0
LookupIp = GoString → Option (List GoString)

abbrev pub first_address : GoString → Option (List GoString) → Result ZkServer
first_address eid none = errors
first_address eid (some []) = panics
first_address eid (some (address ∷ sips)) = returns (record { eid = eid; address = address })

module _ (std : Standard) (lookup_ip : LookupIp) where
  -- The server of a key that begins with the prefix.
  unfoldable pub server_of : GoString → GoString → Result ZkServer
  unfolding split
  server_of eid value =
      let addr_str = (split b':' value).0 in
      if std.is_ip addr_str
      then returns (record { eid = eid; address = addr_str })
      else first_address eid (lookup_ip addr_str)

  -- The server of a line that is split at '=': none where the loop continues.
  unfoldable pub entry_of : GoString → List GoString → Result (Option ZkServer)
  unfolding trim_space after_prefix server_of
  entry_of key (value ∷ []) = elim (after_prefix conf_id_prefix (trim_space key)) [
    | none ↦ returns none
    | some eid ↦ server_of eid (trim_space value) >>= λ server. returns (some server)
  ]
  entry_of key _ = errors

  -- A line without its comment.
  unfoldable pub parse_entry : GoString → Result (Option ZkServer)
  unfolding split entry_of
  parse_entry [] = returns none
  parse_entry (c ∷ s) = let (key, values) = split b'=' (c ∷ s) in entry_of key values

  abbrev pub append_server : List ZkServer → Option ZkServer → List ZkServer
  append_server ensemble none = ensemble
  append_server ensemble (some server) = ensemble ++ server ∷ []

  -- The loop over the lines; both tests for an empty line stand in `parse_entry`.
  unfoldable pub parse_lines : List GoString → List ZkServer → Result (List ZkServer)
  unfolding strip_comment parse_entry
  parse_lines [] ensemble = returns ensemble
  parse_lines (line ∷ lines) ensemble =
      parse_entry (strip_comment line) >>= λ found. parse_lines lines (append_server ensemble found)

  abbrev pub unless_empty : List ZkServer → Result (List ZkServer)
  unless_empty [] = errors
  unless_empty (server ∷ ensemble) = returns (server ∷ ensemble)

  unfoldable pub parse_ensemble_file : Option (List GoString) → Result (List ZkServer)
  unfolding parse_lines
  parse_ensemble_file none = errors
  parse_ensemble_file (some lines) = parse_lines lines [] >>= unless_empty
