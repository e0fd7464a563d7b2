-- ===== src/ZooKeeper/Panics.antt =====
-- The slices that `ParseLine` of plugin/zookeeper.go takes of a line's time.
use panorama.Prelude.{
  ℕ, zero, suc, ◌≤◌, ◌==◌, ◌≡◌, refl, GoString, string_eq, str, Option, none, some, [], ◌∷◌, Bool,
  true, false, ◌&&◌, not, nat_beq, length, arith, if◌then◌else◌, Option-cases, Bool-cases, inl, inr,
}
use panorama.Prelude.Map
use panorama.Filter.{
  Result, returns, errors, panics, ◌>>=◌, Fields, field_of, FieldClassifierResult, RegexpOps, eval,
  find_string_submatch_map,
}
use panorama.ZooKeeper.{
  ZooKeeperEventParser, Standard, Patterns, slice_to, slice_from, or_nil, is_port, resolve_tag,
  subject_named, event_of, tagged, classify, parse_line,
}

abbrev pub panicked {ℓ} : {A : Type ℓ} → Result A → Bool
panicked (returns a) = false
panicked errors = false
panicked panics = true

panicked-bind {ℓ κ} :
    {A : Type ℓ} {B : Type κ} (r : Result A) (f : A → Result B)
    → panicked r ≡ false
    → ((a : A) → panicked (f a) ≡ false)
    → panicked (r >>= f) ≡ false
panicked-bind (returns a) f h k = k a
panicked-bind errors f h k = refl
panicked-bind panics f h k = h

panicked-if {ℓ} :
    {A : Type ℓ} (b : Bool) (x y : Result A)
    → panicked x ≡ false
    → panicked y ≡ false
    → panicked (if b then x else y) ≡ false
panicked-if true x y h k = h
panicked-if false x y h k = k

slice_to-panicked : (n : ℕ) (s : GoString) → n ≤ length s → panicked (slice_to n s) ≡ false
unfolding slice_to
slice_to-panicked zero s h = refl
slice_to-panicked (suc n) [] h = absurd (omega (arith, h))
slice_to-panicked (suc n) (c ∷ s) h =
    panicked-bind (slice_to n s) _ (slice_to-panicked n s (omega (arith, h))) λ t. refl

slice_from-panicked : (n : ℕ) (s : GoString) → n ≤ length s → panicked (slice_from n s) ≡ false
unfolding slice_from
slice_from-panicked zero s h = refl
slice_from-panicked (suc n) [] h = absurd (omega (arith, h))
slice_from-panicked (suc n) (c ∷ s) h = slice_from-panicked n s (omega (arith, h))

or_nil-panicked {ℓ} : {A : Type ℓ} (o : Option A) → panicked (or_nil o) ≡ false
or_nil-panicked none = refl
or_nil-panicked (some a) = refl

module _ {Re : Type 0} (ops : RegexpOps Re) (std : Standard) (regs : Patterns Re)
    (parser : ZooKeeperEventParser) where
  resolve_tag-panicked :
      (myid tag : GoString) → panicked (resolve_tag ops std regs parser myid tag) ≡ false
  unfolding resolve_tag
  resolve_tag-panicked myid tag =
      let by_id = find_string_submatch_map ops regs.tag_id_reg tag [] in
      let by_host = find_string_submatch_map ops regs.tag_host_reg tag [] in
      let host = field_of by_host (str "host") in
      let context = field_of by_host (str "context") in
      let by_address =
        or_nil (Map.get host parser.addr_eid_map) >>= λ eid. returns (eid, context) in
      panicked-if (not (nat_beq (length by_id) 0))
        (if Map.has (field_of by_id (str "id")) parser.eid_addr_map
          then returns (field_of by_id (str "id"), field_of by_id (str "context"))
          else errors)
        (if not (nat_beq (length by_host) 0)
            && std.is_ip host
            && is_port std (field_of by_host (str "port"))
          then (if host == str "0.0.0.0" then returns (myid, context) else by_address)
          else returns (myid, tag))
        (panicked-if _ (returns _) errors refl refl)
        (panicked-if _ (if host == str "0.0.0.0" then returns (myid, context) else by_address)
          (returns (myid, tag))
          (panicked-if _ (returns (myid, context)) by_address refl (
            panicked-bind (or_nil (Map.get host parser.addr_eid_map)) _ (or_nil-panicked _)
              λ eid. refl))
          refl)

  event_of-panicked :
      (fields : Fields) (cres : FieldClassifierResult) (tag_subject tag_context : GoString)
      → 20 ≤ length (field_of fields (str "time"))
      → panicked (event_of ops std regs parser fields cres tag_subject tag_context) ≡ false
  unfolding event_of
  event_of-panicked fields cres tag_subject tag_context h =
      elim (Bool-cases
        (nat_beq (length (subject_named ops std regs parser cres.subject tag_subject)) 0)) [
          | inl e ↦ rw (event_of, e)
          | inr e ↦
              rw (event_of, e)
                (panicked-bind (slice_to 19 (field_of fields (str "time"))) _
                  (slice_to-panicked 19 (field_of fields (str "time")) (omega (arith, h)))
                  λ date.
                    panicked-bind (or_nil (std.parse_time date)) _ (or_nil-panicked _) λ timestamp.
                      panicked-bind (slice_from 20 (field_of fields (str "time"))) _
                        (slice_from-panicked 20 _ h)
                        λ digits.
                          panicked-bind (or_nil (std.atoi digits)) _ (or_nil-panicked _) λ ms. refl)
        ]

  classify-panicked :
      (fields : Fields) (tag_subject tag_context : GoString)
      → 20 ≤ length (field_of fields (str "time"))
      → panicked (classify ops std regs parser fields (tag_subject, tag_context)) ≡ false
  unfolding classify
  classify-panicked fields tag_subject tag_context h =
      elim (Option-cases
        (eval parser.filter_tree (tagged ops std regs parser fields tag_subject tag_context))) [
          | inl e ↦ rw (classify, e)
          | inr ((captured, classifier), e) ↦
              rw (classify, e)
                (event_of-panicked fields (classifier captured) tag_subject tag_context h)
        ]

  -- `ParseLine` does not panic on a line whose time has at least 20 bytes, a date and a fraction.
  pub parse_line-panicked :
      (line : GoString)
      → 20 ≤ length (field_of (find_string_submatch_map ops regs.zkline_reg line []) (str "time"))
      → panicked (parse_line ops std regs parser line) ≡ false
  unfolding parse_line
  parse_line-panicked line h =
      let fields = find_string_submatch_map ops regs.zkline_reg line [] in
      elim (Bool-cases (nat_beq (length fields) 0)) [
        | inl e ↦ rw (parse_line, e)
        | inr e ↦ elim (Bool-cases (field_of fields (str "level") == str "DEBUG")) [
          | inl f ↦ rw (parse_line, e, f)
          | inr f ↦
              rw (parse_line, e, f)
                (panicked-bind (resolve_tag ops std regs parser _ _) _
                  (resolve_tag-panicked _ (field_of fields (str "tag")))
                  λ tagging. classify-panicked fields tagging.0 tagging.1 h)
        ]
      ]
