-- ===== src/Filter.antt =====
-- types/filter.go and util/regex.go: the filters that turn the fields of a log event into a status.
-- Go's regexp and `strconv.ParseFloat` are parameters; a closure is a function, and a nil map none.
pub mod Ensured
pub mod Chosen
pub mod Build
use panorama.Prelude.{
  ℕ, suc, ◌+◌, ◌-◌, ◌==◌, ◌≡◌, ◌↔◌, Eq, GoString, string_eq, str, Option, none, some, List, [], ◌∷◌,
  ◌++◌, Bool, true, false, ◌&&◌, not, nat_beq, length, arith, if◌then◌else◌,
}
use panorama.Prelude.Map
use panorama.Prelude.Map.{GoMap}
use panorama.Health.{Status, Score, status_beq, status_from_full_str}

-- A value, an error, or a panic.
pub data Result {ℓ} (A : Type ℓ) : Type ℓ where
  returns : A → Result A
  errors : Result A
  panics : Result A

infixl 5 ◌>>=◌
abbrev pub ◌>>=◌ {ℓ κ} : {A : Type ℓ} {B : Type κ} → Result A → (A → Result B) → Result B
returns a >>= f = f a
errors >>= f = errors
panics >>= f = panics

abbrev pub Fields : Type 0
Fields = GoMap GoString GoString

abbrev pub FieldFilter : Type 0
FieldFilter = Fields → Option Fields × Bool

pub record FieldClassifierResult : Type 0 where
  pub context : GoString
  pub subject : GoString
  pub status : Status
  pub score : Score

abbrev pub FieldClassifier : Type 0
FieldClassifier = Option Fields → FieldClassifierResult

pub record FieldFilterBody : Type 0 where
  pub chain : List FieldFilter
  pub classifier : FieldClassifier

pub record FieldFilterBranch : Type 0 where
  pub head : FieldFilter
  pub bodies : List FieldFilterBody

-- for k, v := range ret { result[k] = v }
unfoldable pub copy_all : Fields → Fields → Fields
copy_all [] result = result
copy_all ((k, v) ∷ ret) result = copy_all ret (Map.put k v result)

unfoldable pub merge_result : Option Fields → Option Fields → Option Fields
unfolding copy_all
merge_result none result = result
merge_result (some ret) none = some ret
merge_result (some ret) (some result) = some (copy_all ret result)

-- The loop over a chain: `found`, and `result`, which keeps what the filters before a failing one
-- have added.
unfoldable pub eval_chain : Fields → List FieldFilter → Option Fields → Bool × Option Fields
unfolding merge_result
eval_chain fields [] result = (true, result)
eval_chain fields (filter ∷ chain) result =
    let (ret, ok) = filter fields in
    let rest = eval_chain fields chain (merge_result ret result) in
    if ok then rest else (false, result)

-- What `Eval` returns: the captured fields and the classifier, or none for false.
abbrev pub Evaluated : Type 0
Evaluated = Option (Option Fields × FieldClassifier)

unfoldable pub eval_bodies : Fields → List FieldFilterBody → Option Fields → Evaluated
unfolding eval_chain
eval_bodies fields [] result = none
eval_bodies fields (body ∷ bodies) result =
    let (found, result') = eval_chain fields body.chain result in
    let rest = eval_bodies fields bodies result' in
    if found then some (result', body.classifier) else rest

unfoldable pub eval : List FieldFilterBranch → Fields → Evaluated
unfolding eval_bodies
eval [] fields = none
eval (branch ∷ tree) fields =
    let (result, ok) = branch.head fields in
    let rest = eval tree fields in if ok then eval_bodies fields branch.bodies result else rest

-- A missing field reads as the empty string.
abbrev pub field_of : Fields → GoString → GoString
field_of fields field = elim (Map.get field fields) [ none ↦ [] | some value ↦ value ]

-- The set is a nil map, so that storing an element panics.
unfoldable pub new_field_in_set_filter : GoString → List GoString → Result FieldFilter
new_field_in_set_filter field [] = returns (λ fields. (none, false))
new_field_in_set_filter field (ele ∷ elements) = panics

unfoldable pub new_field_not_equal_filter : GoString → GoString → FieldFilter
new_field_not_equal_filter field match fields = (none, not (match == field_of fields field))

unfoldable pub new_field_equals_filter : GoString → GoString → FieldFilter
new_field_equals_filter field match fields = (none, match == field_of fields field)

-- Go's regexp: `MustCompile` panics where `compile` is none; a match has the whole match and the
-- groups, as many as `SubexpNames` has names.
pub record RegexpOps (Re : Type 0) : Type 0 where
  pub compile : GoString → Option Re
  pub match_string : Re → GoString → Bool
  pub find_string_submatch : Re → GoString → Option (List GoString)
  pub subexp_names : Re → List GoString

-- The loop of `FindStringSubmatchMap`, from the index `i` on.
unfoldable pub name_groups : GoString → ℕ → List GoString → List GoString → Fields → Fields
name_groups prefix i [] result groups = groups
name_groups prefix i (name ∷ names) [] groups = groups
name_groups prefix i (name ∷ names) (group ∷ result) groups =
    name_groups prefix (i + 1) names result (
      if nat_beq i 0
      then Map.put (str "_all_") group groups
      else if nat_beq (length name) 0
      then Map.put (str "_all_") group groups
      else Map.put (prefix ++ name) group groups)

module _ {Re : Type 0} (ops : RegexpOps Re) where
  unfoldable pub find_string_submatch_map : Re → GoString → GoString → Fields
  unfolding name_groups
  find_string_submatch_map r s group_prefix = elim (ops.find_string_submatch r s) [
    | none ↦ []
    | some result ↦ name_groups group_prefix 0 (ops.subexp_names r) result []
  ]

  unfoldable pub must_compile : GoString → Result Re
  must_compile pattern = elim (ops.compile pattern) [ none ↦ panics | some re ↦ returns re ]

  unfoldable pub compile_all : List GoString → Result (List Re)
  unfolding must_compile
  compile_all [] = returns []
  compile_all (pattern ∷ patterns) = do
    re ← must_compile pattern
    res ← compile_all patterns
    returns (re ∷ res)

  unfoldable pub any_match : List Re → GoString → Bool
  any_match [] s = false
  any_match (re ∷ res) s =
      let rest = any_match res s in if ops.match_string re s then true else rest

  unfoldable pub first_match : List Re → GoString → GoString → Option Fields × Bool
  unfolding find_string_submatch_map
  first_match [] s prefix = (none, false)
  first_match (re ∷ res) s prefix =
      let match = find_string_submatch_map re s prefix in
      let rest = first_match res s prefix in
      if not (nat_beq (length match) 0) then (some match, true) else rest

  unfoldable pub new_field_regex_any_filter : GoString → List GoString → Result FieldFilter
  unfolding compile_all any_match
  new_field_regex_any_filter field patterns = do
    res ← compile_all patterns
    returns (λ fields. (none, any_match res (field_of fields field)))

  unfoldable pub new_field_m_regexp_map_any_filter :
      GoString → GoString → List GoString → Result FieldFilter
  unfolding compile_all first_match
  new_field_m_regexp_map_any_filter field prefix_group patterns = do
    res ← compile_all patterns
    returns (λ fields. first_match res (field_of fields field) prefix_group)

  unfoldable pub new_field_regex_filter : GoString → GoString → Result FieldFilter
  unfolding must_compile
  new_field_regex_filter field pattern = do
    re ← must_compile pattern
    returns (λ fields. (none, ops.match_string re (field_of fields field)))

  unfoldable pub new_field_m_regexp_map_filter : GoString → GoString → GoString → Result FieldFilter
  unfolding must_compile find_string_submatch_map
  new_field_m_regexp_map_filter field prefix_group pattern = do
    re ← must_compile pattern
    returns (λ fields.
        let match = find_string_submatch_map re (field_of fields field) prefix_group in
        (some match, not (nat_beq (length match) 0)))
