-- ===== src/Health/Names.antt =====
-- The two status parsers of types/health.go against tables of names.
use panorama.Prelude.{◌≡◌, ◌≢◌, ◌↔◌, GoString, str, str_beq_iff, arith, str_beq, refl, sym, ap, ◌∙◌}
use panorama.Health.{
  Status, invalid, na, healthy, pending, maybe_unhealthy, unhealthy, dying, dead, to_lower,
  status_from_lower, status_from_full_str,
}

-- The names of idl/health.proto in lower case.
abbrev pub full_name : Status → GoString
full_name invalid = str "invalid"
full_name na = str "na"
full_name healthy = str "healthy"
full_name pending = str "pending"
full_name maybe_unhealthy = str "maybe_unhealthy"
full_name unhealthy = str "unhealthy"
full_name dying = str "dying"
full_name dead = str "dead"

lower-full_name : (st : Status) → status_from_lower (full_name st) ≡ st
unfolding status_from_lower str_beq
lower-full_name invalid = refl
lower-full_name _ = refl

lower_names : (s : GoString) → status_from_lower s ≢ invalid → s ≡ full_name (status_from_lower s)
unfolding status_from_lower
lower_names s h = ground (
  arith,
  str_beq_iff s (str "na"),
  str_beq_iff s (str "unhealthy"),
  str_beq_iff s (str "healthy"),
  str_beq_iff s (str "pending"),
  str_beq_iff s (str "maybe_unhealthy"),
  str_beq_iff s (str "dying"),
  str_beq_iff s (str "dead"),
)

-- A status other than INVALID is parsed exactly from its own name, in any case.
pub status_from_full_str_iff :
    (s : GoString) (st : Status)
    → st ≢ invalid
    → (status_from_full_str s ≡ st) ↔ (to_lower s ≡ full_name st)
unfolding status_from_full_str
status_from_full_str_iff s st h = (
  λ e. lower_names (to_lower s) (λ k. h (sym e ∙ k)) ∙ ap full_name e,
  λ e. ap status_from_lower e ∙ lower-full_name st,
)
