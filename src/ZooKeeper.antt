-- ===== src/ZooKeeper.antt =====
-- plugin/zookeeper.go: the events in a line of a ZooKeeper log, with `Event` of types/event.go and
-- the checks of util/validate.go. `net`, `time.Parse` and `strconv.Atoi` are parameters, as is
-- regexp. Messages on the standard error are left out.
pub mod Ensemble
pub mod Plugin
pub mod Lookup
pub mod Attributed
pub mod Panics
use panorama.Prelude.{
  ℕ, zero, suc, ◌+◌, ◌==◌, ◌≡◌, GoString, string_eq, str, Option, none, some, List, [], ◌∷◌, ◌++◌,
  Bool, true, false, ◌&&◌, not, nat_beq, ltb, length, if◌then◌else◌,
}
use panorama.Prelude.Map
use panorama.Prelude.Map.{GoMap}
use panorama.Prelude.Int.{ℤ, pos, negsuc, ◌+ℤ◌, scale, wrap64}
use panorama.Health.{Status, Score}
use panorama.Filter.{
  Result, returns, errors, panics, ◌>>=◌, Fields, field_of, FieldFilterBranch,
  FieldClassifierResult, RegexpOps, eval, find_string_submatch_map, must_compile,
}

-- A time is in nanoseconds since 1970.
pub record Event : Type 0 where
  pub time : ℤ
  pub id : GoString
  pub subject : GoString
  pub context : GoString
  pub status : Status
  pub score : Score
  pub extra : GoString

pub record ZkServer : Type 0 where
  pub eid : GoString
  pub address : GoString

pub record ZooKeeperEventParser : Type 0 where
  pub entity_id_prefix : GoString
  pub eid_addr_map : GoMap GoString GoString
  pub addr_eid_map : GoMap GoString GoString
  pub filter_tree : List FieldFilterBranch

abbrev pub eid_prefix : GoString
eid_prefix = str "peer@"

abbrev pub zookeeper_line_re : GoString
zookeeper_line_re =
    str
      "^(?P<time>[0-9,-: ]+) \\[myid:(?P<id>\\d+)\\] - (?P<level>[A-Z]+) +\\[(?P<tag>.+):(?P<class>[a-zA-Z_\\$]+)@(?P<line>[0-9]+)\\] - (?P<content>.+)$"

abbrev pub tag_id_re : GoString
tag_id_re = str "^(?P<context>[a-zA-Z_\\.\\$]+):(?P<id>\\d+)$"

abbrev pub tag_host_re : GoString
tag_host_re =
    str "^(?P<context>[a-zA-Z_\\.\\-\\$]+):?(?P<source>[^/]*)/(?P<host>[^:]+):(?P<port>\\d+)$"

-- What the parser uses of Go's library: whether `net.ParseIP` is not nil, `strconv.Atoi`, and
-- `time.Parse` at the layout of the log; none for an error.
pub record Standard : Type 0 where
  pub is_ip : GoString → Bool
  pub atoi : GoString → Option ℤ
  pub parse_time : GoString → Option ℤ

-- The compiled patterns, which are global variables.
pub record Patterns (Re : Type 0) : Type 0 where
  pub zkline_reg : Re
  pub tag_id_reg : Re
  pub tag_host_reg : Re

abbrev pub is_port_number : Option ℤ → Bool
is_port_number none = false
is_port_number (some (negsuc n)) = false
is_port_number (some (pos i)) = ltb 0 i && ltb i 65536

unfoldable pub is_port : Standard → GoString → Bool
is_port std s = is_port_number (std.atoi s)

-- s[:n] and s[n:]
unfoldable pub slice_to : ℕ → GoString → Result GoString
slice_to zero s = returns []
slice_to (suc n) [] = panics
slice_to (suc n) (c ∷ s) = slice_to n s >>= λ t. returns (c ∷ t)

unfoldable pub slice_from : ℕ → GoString → Result GoString
slice_from zero s = returns s
slice_from (suc n) [] = panics
slice_from (suc n) (c ∷ s) = slice_from n s

-- The result, or an early return of nil.
abbrev pub or_nil {ℓ} : {A : Type ℓ} → Option A → Result A
or_nil none = errors
or_nil (some a) = returns a

-- The two maps of `NewZooKeeperEventParser`.
unfoldable pub eid_to_addr : List ZkServer → GoMap GoString GoString → GoMap GoString GoString
eid_to_addr [] m = m
eid_to_addr (server ∷ ensemble) m = eid_to_addr ensemble (Map.put server.eid server.address m)

unfoldable pub addr_to_eid : List ZkServer → GoMap GoString GoString → GoMap GoString GoString
addr_to_eid [] m = m
addr_to_eid (server ∷ ensemble) m = addr_to_eid ensemble (Map.put server.address server.eid m)

-- `NewZooKeeperEventParser`, given the tree that is made of its configuration.
unfoldable pub new_zoo_keeper_event_parser :
    GoString → List ZkServer → Result (List FieldFilterBranch) → Result ZooKeeperEventParser
unfolding eid_to_addr addr_to_eid
new_zoo_keeper_event_parser idprefix ensemble tree = do
  filter_tree ← tree
  returns (record {
    entity_id_prefix = idprefix;
    eid_addr_map = eid_to_addr ensemble [];
    addr_eid_map = addr_to_eid ensemble [];
    filter_tree = filter_tree;
  })

module _ {Re : Type 0} (ops : RegexpOps Re) where
  unfoldable pub compile_patterns : Result (Patterns Re)
  unfolding must_compile
  compile_patterns = do
    zkline_reg ← must_compile ops zookeeper_line_re
    tag_id_reg ← must_compile ops tag_id_re
    tag_host_reg ← must_compile ops tag_host_re
    returns
        (record { zkline_reg = zkline_reg; tag_id_reg = tag_id_reg; tag_host_reg = tag_host_reg })

  module _ (std : Standard) (regs : Patterns Re) (parser : ZooKeeperEventParser) where
    -- The subject and the context that a tag gives: `tag_subject` and `tag_context`.
    unfoldable pub resolve_tag : GoString → GoString → Result (GoString × GoString)
    unfolding is_port
    resolve_tag myid tag =
        let by_id = find_string_submatch_map ops regs.tag_id_reg tag [] in
        let by_host = find_string_submatch_map ops regs.tag_host_reg tag [] in
        let host = field_of by_host (str "host") in
        if not (nat_beq (length by_id) 0)
        then (if Map.has (field_of by_id (str "id")) parser.eid_addr_map
            then returns (field_of by_id (str "id"), field_of by_id (str "context"))
            else errors)
        else if not (nat_beq (length by_host) 0)
            && std.is_ip host
            && is_port std (field_of by_host (str "port"))
        then (if host == str "0.0.0.0"
            then returns (myid, field_of by_host (str "context"))
            else (or_nil (Map.get host parser.addr_eid_map) >>= λ eid.
                returns (eid, field_of by_host (str "context"))))
        else returns (myid, tag)

    -- The subject of the event: the one that the classifier names, as an address or an id, or that
    -- of the tag.
    unfoldable pub subject_named : GoString → GoString → GoString
    subject_named named tag_subject =
        if not (nat_beq (length named) 0)
        then elim (Map.get named parser.addr_eid_map) [ none ↦ named | some eid ↦ eid ]
        else tag_subject

    -- The end of `ParseLine`, from the classifier's result on.
    unfoldable pub event_of : Fields → FieldClassifierResult → GoString → GoString → Result Event
    unfolding subject_named slice_to slice_from
    event_of result cres tag_subject tag_context =
        let subject = subject_named cres.subject tag_subject in
        if nat_beq (length subject) 0 then errors else do
          date ← slice_to 19 (field_of result (str "time"))
          timestamp ← or_nil (std.parse_time date)
          digits ← slice_from 20 (field_of result (str "time"))
          ms ← or_nil (std.atoi digits)
          returns (record {
            time = timestamp +ℤ wrap64 (scale 1000000 ms);
            id = parser.entity_id_prefix ++ field_of result (str "id");
            subject = parser.entity_id_prefix ++ subject;
            context = if not (nat_beq (length cres.context) 0) then cres.context else tag_context;
            status = cres.status;
            score = cres.score;
            extra = field_of result (str "content");
          })

    -- The fields of the line, with those of its tag, which the filters read.
    abbrev pub tagged : Fields → GoString → GoString → Fields
    tagged result tag_subject tag_context =
        Map.put (str "tag_subject") tag_subject (Map.put (str "tag_context") tag_context result)

    unfoldable pub classify : Fields → GoString × GoString → Result Event
    unfolding event_of
    classify result (tag_subject, tag_context) =
        elim (eval parser.filter_tree (tagged result tag_subject tag_context)) [
          | none ↦ errors
          | some (ret, classifier) ↦ event_of result (classifier ret) tag_subject tag_context
        ]

    -- `ParseLine`, which returns nil where the result is an error.
    unfoldable pub parse_line : GoString → Result Event
    unfolding resolve_tag classify
    parse_line line =
        let result = find_string_submatch_map ops regs.zkline_reg line [] in
        if nat_beq (length result) 0
        then errors
        else if field_of result (str "level") == str "DEBUG"
        then errors
        else (resolve_tag (field_of result (str "id")) (field_of result (str "tag"))
            >>= classify result)
