-- ===== src/Filter/Build.antt =====
-- types/filter.go: filters, classifiers and trees from their configuration (types/config.go).
pub mod InSet
use panorama.Prelude.{
  ℕ, ◌==◌, ◌≡◌, ◌↔◌, Eq, GoString, string_eq, str_beq_iff, str, Option, none, some, List, [], ◌∷◌,
  ◌++◌, Bool, true, false, ◌&&◌, ◌||◌, not, nat_beq, arith, if◌then◌else◌,
}
use panorama.Prelude.Map
use panorama.Prelude.Map.{GoMap}
use panorama.Health.{Status, Score, invalid, status_beq, status_from_full_str}
use panorama.Filter.{
  Result, returns, errors, panics, ◌>>=◌, FieldFilter, FieldClassifier, FieldClassifierResult,
  FieldFilterBody, FieldFilterBranch, field_of, RegexpOps, new_field_in_set_filter,
  new_field_not_equal_filter, new_field_equals_filter, new_field_regex_any_filter,
  new_field_m_regexp_map_any_filter, new_field_regex_filter, new_field_m_regexp_map_filter,
}

pub record ClassifierConfig : Type 0 where
  pub context : GoString
  pub subject : GoString
  pub status : GoString
  pub score : GoString

pub record FieldFilterClauseConfig : Type 0 where
  pub field : GoString
  pub operator : GoString
  pub pattern_text : GoString
  pub capture_result : Bool

pub record FieldFilterChainConfig : Type 0 where
  pub chain : List FieldFilterClauseConfig
  pub classifier : ClassifierConfig

-- s[len(s)-1] and s[:len(s)-1] of `c ∷ s`.
unfoldable pub last_byte : ℕ → GoString → ℕ
last_byte c [] = c
last_byte c (d ∷ s) = last_byte d s

unfoldable pub but_last : ℕ → GoString → GoString
but_last c [] = []
but_last c (d ∷ s) = c ∷ but_last d s

-- `strings.Split` at the separator "',": the first part and the others.
unfoldable pub split_quoted : GoString → GoString × List GoString
split_quoted [] = ([], [])
split_quoted (c ∷ []) = (c ∷ [], [])
split_quoted (c ∷ d ∷ s) =
    let skip = split_quoted s in
    let keep = split_quoted (d ∷ s) in
    if nat_beq c 39 && nat_beq d 44 then ([], skip.0 ∷ skip.1) else (c ∷ keep.0, keep.1)

-- strings.TrimLeft(part, " ")
unfoldable pub trim_left : GoString → GoString
trim_left [] = []
trim_left (c ∷ s) = let rest = trim_left s in if nat_beq c 32 then rest else c ∷ s

-- One part without its quotes; `part[0]` panics on an empty one, `part[1:0]` on a lone quote.
unfoldable pub unquote : Bool → GoString → Result GoString
unfolding last_byte but_last
unquote is_last [] = panics
unquote is_last (c ∷ []) =
    if not (nat_beq c 39) then errors else if is_last then panics else returns []
unquote is_last (c ∷ d ∷ s) =
    if not (nat_beq c 39)
    then errors
    else if not is_last
    then returns (d ∷ s)
    else if not (nat_beq (last_byte d s) 39)
    then errors
    else returns (but_last d s)

unfoldable pub unquote_all : GoString → List GoString → Result (List GoString)
unfolding unquote trim_left
unquote_all part [] = do element ← unquote true (trim_left part); returns (element ∷ [])
unquote_all part (next ∷ parts) = do
  element ← unquote false (trim_left part)
  elements ← unquote_all next parts
  returns (element ∷ elements)

unfoldable pub string_array_to_slice : GoString → Result (List GoString)
unfolding last_byte but_last split_quoted unquote_all
string_array_to_slice [] = panics
string_array_to_slice (c ∷ []) = errors
string_array_to_slice (c ∷ d ∷ s) =
    if not (nat_beq c b'[') || not (nat_beq (last_byte d s) b']')
    then errors
    else let (part, parts) = split_quoted (but_last d s) in unquote_all part parts

abbrev pub bool_beq : Bool → Bool → Bool
bool_beq true b = b
bool_beq false b = not b

unfoldable pub clause_beq : FieldFilterClauseConfig → FieldFilterClauseConfig → Bool
clause_beq a b =
    (a.field == b.field)
    && (a.operator == b.operator)
    && (a.pattern_text == b.pattern_text)
    && bool_beq a.capture_result b.capture_result

pub clause_beq_iff : (a b : FieldFilterClauseConfig) → (clause_beq a b ≡ true) ↔ (a ≡ b)
unfolding clause_beq
clause_beq_iff a b = ground (
  arith,
  str_beq_iff a.field b.field,
  str_beq_iff a.operator b.operator,
  str_beq_iff a.pattern_text b.pattern_text,
)

instance abbrev pub clause_eq : Eq FieldFilterClauseConfig
clause_eq = record { beq = clause_beq; beq_iff = clause_beq_iff }

module _ {Re : Type 0} (ops : RegexpOps Re) where
  abbrev pub in_set : GoString → Result (List GoString) → Result FieldFilter
  in_set field parsed = do elements ← parsed; new_field_in_set_filter field elements

  unfoldable pub new_field_filter : FieldFilterClauseConfig → Result FieldFilter
  new_field_filter config =
      if config.operator == str "=="
      then returns (new_field_equals_filter config.field config.pattern_text)
      else if config.operator == str "!="
      then returns (new_field_not_equal_filter config.field config.pattern_text)
      else if config.operator == str "~"
      then (if config.capture_result
          then new_field_m_regexp_map_filter ops config.field (config.field ++ str "_")
              config.pattern_text
          else new_field_regex_filter ops config.field config.pattern_text)
      else if config.operator == str "(-"
      then in_set config.field (string_array_to_slice config.pattern_text)
      else if config.operator == str "(~"
      then (string_array_to_slice config.pattern_text >>= λ patterns.
          if config.capture_result
          then new_field_m_regexp_map_any_filter ops config.field (config.field ++ str "_") patterns
          else new_field_regex_any_filter ops config.field patterns)
      else errors

  unfoldable pub new_filters : List FieldFilterClauseConfig → Result (List FieldFilter)
  unfolding new_field_filter
  new_filters [] = returns []
  new_filters (config ∷ configs) = do
    filter ← new_field_filter config
    chain ← new_filters configs
    returns (filter ∷ chain)

-- `<name>` stands for the captured field of that name.
unfoldable pub indexed_subject : GoString → Option GoString
unfolding last_byte but_last
indexed_subject [] = none
indexed_subject (c ∷ []) = none
indexed_subject (c ∷ d ∷ s) =
    if nat_beq c b'<' && nat_beq (last_byte d s) b'>' then some (but_last d s) else none

abbrev pub subject_of : GoString → Option GoString → Option (GoMap GoString GoString) → GoString
subject_of subject none result = subject
subject_of subject (some name) none = []
subject_of subject (some name) (some result) = field_of result name

-- `strconv.ParseFloat`, then `float32`, is a parameter: none for an error.
unfoldable pub new_field_classifier :
    (GoString → Option Score) → ClassifierConfig → Result FieldClassifier
unfolding indexed_subject
new_field_classifier parse_float config =
    let status = status_from_full_str config.status in
    if status_beq status invalid then errors else elim (parse_float config.score) [
      | none ↦ errors
      | some score ↦ returns (λ result. record {
        context = config.context;
        subject = subject_of config.subject (indexed_subject config.subject) result;
        status = status;
        score = score;
      })
    ]

module _ {Re : Type 0} (ops : RegexpOps Re) (parse_float : GoString → Option Score) where
  -- The branches in the order of the tree, by their heads, which the map `branches` finds.
  abbrev pub Branches : Type 0
  Branches = GoMap FieldFilterClauseConfig FieldFilterBranch

  unfoldable pub branch_for : FieldFilterClauseConfig → Branches → Result FieldFilterBranch
  unfolding new_field_filter
  branch_for head branches = elim (Map.get head branches) [
    | some branch ↦ returns branch
    | none ↦ new_field_filter ops head >>= λ filter. returns (record { head = filter; bodies = [] })
  ]

  unfoldable pub add_chain : FieldFilterChainConfig → Branches → Result Branches
  unfolding branch_for new_filters new_field_classifier
  add_chain chain_config branches = elim chain_config.chain [
    | [] ↦ errors
    | head ∷ clauses ↦ do
      branch ← branch_for head branches
      chain ← new_filters ops clauses
      classifier ← new_field_classifier parse_float chain_config.classifier
      returns (
          Map.put head
            (record branch {
              bodies = branch.bodies ++ record { chain = chain; classifier = classifier } ∷ [];
            })
            branches)
  ]

  unfoldable pub add_chains : List FieldFilterChainConfig → Branches → Result Branches
  unfolding add_chain
  add_chains [] branches = returns branches
  add_chains (chain_config ∷ configs) branches =
      add_chain chain_config branches >>= add_chains configs

  unfoldable pub new_field_filter_tree :
      List FieldFilterChainConfig → Result (List FieldFilterBranch)
  unfolding add_chains
  new_field_filter_tree filter_tree = do
    branches ← add_chains filter_tree []
    returns (branches_of branches)
    where
      branches_of : Branches → List FieldFilterBranch
      branches_of [] = []
      branches_of ((head, branch) ∷ rest) = branch ∷ branches_of rest
