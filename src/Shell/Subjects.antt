-- ===== src/Shell/Subjects.antt =====
-- cmd/hview-client/main.go: the order in which `sortSubjects` lists subjects.
use panorama.Prelude.{
  ℕ, ◌≡◌, GoString, Option, none, some, [], ◌∷◌, Bool, true, ◌&&◌, ◌||◌, not, leb, nat_beq, length,
  if◌then◌else◌, Bool-cases, inl, inr,
}
use panorama.Prelude.Strings.{str_ltb}
use panorama.Prelude.Int.{ℤ, pos, ltb_ℤ}

pub record Tok : Type 0 where
  pub s : GoString
  pub n : ℤ

abbrev pub is_digit : ℕ → Bool
is_digit c = leb b'0' c && leb c b'9'

-- The longest beginning whose bytes are all digits, or all not, and the rest.
unfoldable pub run_of : Bool → GoString → GoString × GoString
run_of digits [] = ([], [])
run_of digits (c ∷ s) =
    let rest = run_of digits s in
    if (if digits then is_digit c else not (is_digit c)) then (c ∷ rest.0, rest.1) else ([], c ∷ s)

-- The next match of `\d+|\D+`, and the rest.
unfoldable pub next_run : GoString → Option (GoString × GoString)
unfolding run_of
next_run [] = none
next_run (c ∷ s) = let (run, rest) = run_of (is_digit c) s in some (c ∷ run, rest)

module _ (atoi : GoString → Option ℤ) where
  -- The body of the loop of `tokString`.
  unfoldable pub add_run : GoString → Tok → Tok
  add_run x t = elim (atoi x) [ none ↦ record t { s = x } | some n ↦ record t { n = n } ]

  -- `tokString`, from the first two runs.
  unfoldable pub tok_string : GoString → Tok
  unfolding next_run add_run
  tok_string str = elim (next_run str) [
    | none ↦ record { s = []; n = pos 0 }
    | some (first, rest) ↦ elim (next_run rest) [
      | none ↦ add_run first (record { s = []; n = pos 0 })
      | some (second, end) ↦ add_run second (add_run first (record { s = []; n = pos 0 }))
    ]
  ]

  -- The first test: no text, and less.
  abbrev is_early : Tok → Tok → Bool
  is_early t1 t2 = nat_beq (length t1.s) 0 && (str_ltb [] t2.s || ltb_ℤ t1.n t2.n)

  unfoldable pub cmp_tok : Tok → Tok → Bool
  unfolding str_ltb
  cmp_tok t1 t2 =
      if is_early t1 t2 then true else if str_ltb t1.s t2.s then true else ltb_ℤ t1.n t2.n

  unfoldable pub cmp_subject : GoString → GoString → Bool
  unfolding tok_string cmp_tok
  cmp_subject str1 str2 = cmp_tok (tok_string str1) (tok_string str2)

  -- Wherever the text of one subject comes first and the number of the other, each of the two is
  -- before the other.
  pub cmp_subject-both :
      (a b : GoString)
      → str_ltb (tok_string a).s (tok_string b).s ≡ true
      → ltb_ℤ (tok_string b).n (tok_string a).n ≡ true
      → (cmp_subject a b ≡ true) × (cmp_subject b a ≡ true)
  unfolding cmp_subject cmp_tok
  cmp_subject-both a b h k = (
    elim (Bool-cases (is_early (tok_string a) (tok_string b))) [
      | inl e ↦ rw (cmp_subject, cmp_tok, e)
      | inr e ↦ rw (cmp_subject, cmp_tok, e, h)
    ],
    elim (Bool-cases (is_early (tok_string b) (tok_string a))) [
      | inl e ↦ rw (cmp_subject, cmp_tok, e)
      | inr e ↦ elim (Bool-cases (str_ltb (tok_string b).s (tok_string a).s)) [
        | inl f ↦ rw (cmp_subject, cmp_tok, e, f)
        | inr f ↦ rw (cmp_subject, cmp_tok, e, f, k)
      ]
    ],
  )
