-- ===== src/Filter/Chosen.antt =====
-- `Eval` of types/filter.go against the choice of a body that ignores what the filters capture.
use panorama.Prelude.{
  ◌≡◌, refl, Option, none, some, List, [], ◌∷◌, Bool, true, ◌&&◌, arith, if◌then◌else◌, Bool-cases,
  inl, inr,
}
use panorama.Filter.{
  Fields, FieldFilter, FieldClassifier, FieldFilterBody, FieldFilterBranch, Evaluated, merge_result,
  eval_chain, eval_bodies, eval,
}

abbrev pub all_pass : Fields → List FieldFilter → Bool
all_pass fields [] = true
all_pass fields (filter ∷ chain) = (filter fields).1 && all_pass fields chain

abbrev pub first_body : Fields → List FieldFilterBody → Option FieldClassifier
first_body fields [] = none
first_body fields (body ∷ bodies) =
    if all_pass fields body.chain then some body.classifier else first_body fields bodies

abbrev pub first_branch : Fields → List FieldFilterBranch → List FieldFilterBody
first_branch fields [] = []
first_branch fields (branch ∷ tree) =
    if (branch.head fields).1 then branch.bodies else first_branch fields tree

abbrev pub classifier_of : Evaluated → Option FieldClassifier
classifier_of none = none
classifier_of (some (result, classifier)) = some classifier

found-eval_chain :
    (fields : Fields) (chain : List FieldFilter) (result : Option Fields)
    → (eval_chain fields chain result).0 ≡ all_pass fields chain
unfolding eval_chain
found-eval_chain fields [] result = refl
found-eval_chain fields (filter ∷ chain) result =
    ground (arith, found-eval_chain fields chain (merge_result (filter fields).0 result))

classifier_of-eval_bodies :
    (fields : Fields) (bodies : List FieldFilterBody) (result : Option Fields)
    → classifier_of (eval_bodies fields bodies result) ≡ first_body fields bodies
unfolding eval_bodies
classifier_of-eval_bodies fields [] result = refl
classifier_of-eval_bodies fields (body ∷ bodies) result = ground (
  arith,
  found-eval_chain fields body.chain result,
  classifier_of-eval_bodies fields bodies (eval_chain fields body.chain result).1,
)

-- `Eval` finds the first branch whose head passes, and in it the first body whose filters all
-- pass: it returns that body's classifier, and false if there is no such body.
pub classifier_of-eval :
    (tree : List FieldFilterBranch) (fields : Fields)
    → classifier_of (eval tree fields) ≡ first_body fields (first_branch fields tree)
unfolding eval eval_bodies
classifier_of-eval [] fields = refl
classifier_of-eval (branch ∷ tree) fields = elim (Bool-cases (branch.head fields).1) [
  | inl e ↦ rw (eval, e) (classifier_of-eval_bodies fields branch.bodies (branch.head fields).0)
  | inr e ↦ rw (eval, e) (classifier_of-eval tree fields)
]
