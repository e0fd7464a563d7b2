-- ===== src/Filter/Build/InSet.antt =====
-- The operator `(-` of `NewFieldFilter`.
use panorama.Prelude.{
  ◌≡◌, refl, GoString, string_eq, str, str_beq, List, [], ◌∷◌, Bool, true, false, not, ◌||◌,
  nat_beq, Bool-cases, inl, inr,
}
use panorama.Filter.{Result, returns, errors, panics, ◌>>=◌, RegexpOps, new_field_in_set_filter}
use panorama.Filter.Build.{
  FieldFilterClauseConfig, new_field_filter, in_set, string_array_to_slice, unquote_all, unquote,
  trim_left, last_byte, but_last, split_quoted,
}

abbrev pub is_returned {ℓ} : {A : Type ℓ} → Result A → Bool
is_returned (returns a) = true
is_returned errors = false
is_returned panics = false

module _ {Re : Type 0} (ops : RegexpOps Re) (field : GoString) where
  in_set-one :
      (r : Result GoString)
      → is_returned (in_set ops field (r >>= λ element. returns (element ∷ []))) ≡ false
  unfolding new_field_in_set_filter
  in_set-one (returns element) = refl
  in_set-one errors = refl
  in_set-one panics = refl

  in_set-more :
      (r : Result GoString) (q : Result (List GoString))
      → is_returned
          (in_set ops field (r >>= λ element. q >>= λ elements. returns (element ∷ elements)))
        ≡ false
  unfolding new_field_in_set_filter
  in_set-more (returns element) (returns elements) = refl
  in_set-more (returns element) errors = refl
  in_set-more (returns element) panics = refl
  in_set-more errors q = refl
  in_set-more panics q = refl

  in_set-unquote_all :
      (part : GoString) (parts : List GoString)
      → is_returned (in_set ops field (unquote_all part parts)) ≡ false
  unfolding unquote_all
  in_set-unquote_all part [] = in_set-one (unquote true (trim_left part))
  in_set-unquote_all part (next ∷ parts) =
      in_set-more (unquote false (trim_left part)) (unquote_all next parts)

  in_set-string_array_to_slice :
      (s : GoString) → is_returned (in_set ops field (string_array_to_slice s)) ≡ false
  unfolding string_array_to_slice
  in_set-string_array_to_slice [] = refl
  in_set-string_array_to_slice (c ∷ []) = refl
  in_set-string_array_to_slice (c ∷ d ∷ s) =
      elim (Bool-cases (not (nat_beq c b'[') || not (nat_beq (last_byte d s) b']'))) [
        | inl e ↦ rw (string_array_to_slice, e)
        | inr e ↦
            let parts = split_quoted (but_last d s) in
            rw (string_array_to_slice, e) (in_set-unquote_all parts.0 parts.1)
      ]

-- `NewFieldFilter` never makes a filter for the operator `(-`: it returns an error or panics,
-- whatever the pattern is, since the set that it stores the elements into is nil.
pub new_field_filter-in_set :
    {Re : Type 0} (ops : RegexpOps Re) (config : FieldFilterClauseConfig)
    → config.operator ≡ str "(-"
    → is_returned (new_field_filter ops config) ≡ false
unfolding new_field_filter str_beq
new_field_filter-in_set ops config e =
    rw (new_field_filter, e) (in_set-string_array_to_slice ops config.field config.pattern_text)
