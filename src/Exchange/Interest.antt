-- ===== src/Exchange/Interest.antt =====
-- `Interested` and `Uninterested` of exchange/exchange.go: which peers are skipped for a subject.
use panorama.Prelude.{
  ℕ, ◌<◌, ◌≡◌, refl, ◌∙◌, ◌==◌, GoString, string_eq, nat_eq, str_beq_iff, nat_beq_iff, some, Bool,
  true, false, ◌&&◌, arith, if◌then◌else◌, Option-cases, inl, inr,
}
use panorama.Prelude.Map
use panorama.Prelude.Map.{get-put, get-delete}
use panorama.Exchange.{
  ExchangeProtocol, IgnoreSet, test, set, remove, new_ignore_set, attach, load, store, held_ignores,
  interested, uninterested,
}

-- Whether reports about the subject are not sent to the peer.
abbrev pub skips : ExchangeProtocol → GoString → GoString → Bool
skips s subject peer = held_ignores s (Map.get subject s.skip_subject_peers) peer

-- The pointers are below the next free address, and no two subjects share one.
pub record IsWf (s : ExchangeProtocol) : Type 0 where
  pub below : (x : GoString) (p : ℕ) → Map.get x s.skip_subject_peers ≡ some p → p < s.next
  pub apart :
      (x y : GoString) (p : ℕ)
      → Map.get x s.skip_subject_peers ≡ some p
      → Map.get y s.skip_subject_peers ≡ some p
      → x ≡ y

-- What is skipped after the set of one subject is replaced.
abbrev pub replaced : ExchangeProtocol → GoString → IgnoreSet → GoString → GoString → Bool
replaced s subject entries x peer = if subject == x then test entries peer else skips s x peer

module _ (s : ExchangeProtocol) (subject : GoString) (entries : IgnoreSet) (wf : IsWf s) where
  pub skips-store :
      (p : ℕ)
      → Map.get subject s.skip_subject_peers ≡ some p
      → (x peer : GoString) → skips (store s p entries) x peer ≡ replaced s subject entries x peer
  skips-store p e x peer = elim (Option-cases (Map.get x s.skip_subject_peers)) [
    | inl f ↦ ground (arith, str_beq_iff subject x)
    | inr (q, f) ↦ ground (
      arith,
      str_beq_iff subject x,
      get-put p q entries s.heap,
      nat_beq_iff p q,
      wf.apart subject x p,
    )
  ]

  pub skips-attach :
      (x peer : GoString)
      → skips (attach s subject entries) x peer ≡ replaced s subject entries x peer
  unfolding attach
  skips-attach x peer = elim (Option-cases (Map.get x s.skip_subject_peers)) [
    | inl f ↦ ground (
      arith,
      get-put subject x s.next s.skip_subject_peers,
      get-put s.next s.next entries s.heap,
      nat_beq_iff s.next s.next,
    )
    | inr (q, f) ↦ ground (
      arith,
      get-put subject x s.next s.skip_subject_peers,
      get-put s.next s.next entries s.heap,
      get-put s.next q entries s.heap,
      nat_beq_iff s.next s.next,
      nat_beq_iff s.next q,
      wf.below x q f,
    )
  ]

pub test-set :
    (entries : IgnoreSet) (peer other : GoString)
    → test (set entries peer) other ≡ (if peer == other then true else test entries other)
unfolding test set
test-set entries peer other = ground (arith, get-put peer other true entries)

test-remove :
    (entries : IgnoreSet) (peer other : GoString)
    → test (remove entries peer) other ≡ (if peer == other then false else test entries other)
unfolding test remove
test-remove entries peer other = ground (arith, get-delete peer other entries)

pub test-new : (other : GoString) → test new_ignore_set other ≡ false
unfolding test new_ignore_set Map.get
test-new other = refl

module _ (s : ExchangeProtocol) (peer subject : GoString) (wf : IsWf s) where
  -- `Uninterested` makes the peer be skipped for the subject, and changes nothing else that is
  -- skipped, if no two subjects share a set.
  pub skips-uninterested :
      (x other : GoString)
      → skips (uninterested s peer subject).1 x other
        ≡ (if (subject == x) && (peer == other) then true else skips s x other)
  unfolding uninterested
  skips-uninterested x other = elim (Option-cases (Map.get subject s.skip_subject_peers)) [
    | inl e ↦
        rw (uninterested, e)
          (skips-attach s subject (set new_ignore_set peer) wf x other
            ∙ ground
                (arith, str_beq_iff subject x, test-set new_ignore_set peer other, test-new other))
    | inr (p, e) ↦
        rw (uninterested, e)
          (skips-store s subject (set (load s p) peer) wf p e x other
            ∙ ground (arith, str_beq_iff subject x, test-set (load s p) peer other))
  ]

  -- `Interested` makes the peer not be skipped for the subject, and changes nothing else that is
  -- skipped, if no two subjects share a set. It answers whether the subject has a set.
  pub skips-interested :
      ((interested s peer subject).0 ≡ Map.has subject s.skip_subject_peers)
      × ((x other : GoString)
          → skips (interested s peer subject).1 x other
            ≡ (if (subject == x) && (peer == other) then false else skips s x other))
  unfolding interested
  skips-interested = elim (Option-cases (Map.get subject s.skip_subject_peers)) [
    | inl e ↦ rw (interested, e) (refl, λ x other. ground (arith, str_beq_iff subject x))
    | inr (p, e) ↦
        rw (interested, e)
          (
            refl,
            λ x other.
                skips-store s subject (remove (load s p) peer) wf p e x other
                ∙ ground (arith, str_beq_iff subject x, test-remove (load s p) peer other),
          )
  ]

pub store-IsWf :
    (s : ExchangeProtocol) (p : ℕ) (entries : IgnoreSet) → IsWf s → IsWf (store s p entries)
store-IsWf s p entries wf = record { below = wf.below; apart = wf.apart }

pub attach-IsWf :
    (s : ExchangeProtocol) (subject : GoString) (entries : IgnoreSet)
    → IsWf s
    → IsWf (attach s subject entries)
unfolding attach
attach-IsWf s subject entries wf = record {
  below = λ x p e. ground (arith, get-put subject x s.next s.skip_subject_peers, wf.below x p);
  apart = λ x y p e f. ground (
    arith,
    get-put subject x s.next s.skip_subject_peers,
    get-put subject y s.next s.skip_subject_peers,
    str_beq_iff subject x,
    str_beq_iff subject y,
    wf.below x p,
    wf.below y p,
    wf.apart x y p,
  );
}

-- Both keep the pointers apart.
pub interested-IsWf :
    (s : ExchangeProtocol) (peer subject : GoString) → IsWf s → IsWf (interested s peer subject).1
unfolding interested
interested-IsWf s peer subject wf = elim (Option-cases (Map.get subject s.skip_subject_peers)) [
  | inl e ↦ rw (interested, e) wf
  | inr (p, e) ↦ rw (interested, e) (store-IsWf s p _ wf)
]

pub uninterested-IsWf :
    (s : ExchangeProtocol) (peer subject : GoString) → IsWf s → IsWf (uninterested s peer subject).1
unfolding uninterested
uninterested-IsWf s peer subject wf = elim (Option-cases (Map.get subject s.skip_subject_peers)) [
  | inl e ↦ rw (uninterested, e) (attach-IsWf s subject _ wf)
  | inr (p, e) ↦ rw (uninterested, e) (store-IsWf s p _ wf)
]
