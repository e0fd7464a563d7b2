-- ===== src/Service/Handles.antt =====
-- `Register` of service/service.go: the handles that it gives.
use panorama.Prelude.{
  ℕ, subst, ◌≤◌, ◌<◌, ◌≡◌, refl, ◌==◌, GoString, string_eq, nat_eq, str_beq_iff, nat_beq_iff,
  Option, none, some, [], ◌∷◌, Bool, true, false, ◌&&◌, ltb, All, ◌⊎◌, inl, inr, arith,
  if◌then◌else◌, Bool-cases, Option-cases,
}
use panorama.Prelude.Map
use panorama.Prelude.Map.{GoMap, Distinct, get-put}
use panorama.Raw.{Time}
use panorama.Db.{Registration}
use panorama.Service.{HealthGServer, find_registration, fresh_handle, register}

-- The registration is of the module and the observer.
abbrev pub is_of : GoString → GoString → Registration → Bool
is_of module_name observer reg = (reg.module_name == module_name) && (reg.observer == observer)

-- No handle is the greatest uint64.
abbrev pub HasRoom : GoMap ℕ Registration → Type 0
HasRoom = All (λ e. e.0 < 18446744073709551615)

module _ (module_name observer : GoString) where
  -- What the loop over the registrations finds.
  abbrev Found : GoMap ℕ Registration → Option ℕ → Type 0
  Found regs none = All (λ e. is_of module_name observer e.1 ≡ false) regs
  Found regs (some handle) =
      (reg : Registration) × (Map.get handle regs ≡ some reg)
      × (is_of module_name observer reg ≡ true)

  find_registration-Found :
      (regs : GoMap ℕ Registration) (m : ℕ)
      → Distinct regs
      → Found regs (find_registration module_name observer regs m).0
  unfolding find_registration Map.get
  find_registration-Found [] m d = tt
  find_registration-Found ((handle, reg) ∷ regs) m d =
      let m' = if ltb m handle then handle else m in
      elim (Bool-cases (is_of module_name observer reg)) [
        | inl e ↦ rw (find_registration, e) (reg, rw ((nat_beq_iff handle handle).1 refl), e)
        | inr e ↦
            rw (find_registration, e)
              (weaken (find_registration module_name observer regs m').0 e
                (find_registration-Found regs m' d.1))
      ]
    where
      weaken :
          (o : Option ℕ)
          → is_of module_name observer reg ≡ false
          → Found regs o
          → Found ((handle, reg) ∷ regs) o
      weaken none e f = (e, f)
      weaken (some h) e (r, g, k) = (r, ground (arith, g, d.0, nat_beq_iff handle h), k)

  -- Without a match the loop has seen the greatest handle.
  find_registration-max :
      (regs : GoMap ℕ Registration) (m : ℕ)
      → (find_registration module_name observer regs m).0 ≡ none
      → (m ≤ (find_registration module_name observer regs m).1)
        × All (λ e. e.0 ≤ (find_registration module_name observer regs m).1) regs
  unfolding find_registration
  find_registration-max [] m h = (omega arith, tt)
  find_registration-max ((handle, reg) ∷ regs) m h =
      elim (Bool-cases (is_of module_name observer reg)) [
        | inl e ↦ absurd (ground (arith, h, e))
        | inr e ↦
            let m' = if ltb m handle then handle else m in
            let same : (find_registration module_name observer regs m').1
                ≡ (find_registration module_name observer ((handle, reg) ∷ regs) m).1 =
              rw (find_registration, e) in
            let (low, all) = find_registration-max regs m' (rw (find_registration, e) at h) in
            (
              rw (← same) (ground (arith, low)),
              (rw (← same) (ground (arith, low)), subst (λ n. All (λ x. x.0 ≤ n) regs) same all),
            )
      ]

  find_registration-lt :
      (regs : GoMap ℕ Registration) (m : ℕ)
      → m < 18446744073709551615
      → HasRoom regs
      → (find_registration module_name observer regs m).1 < 18446744073709551615
  unfolding find_registration
  find_registration-lt [] m h r = h
  find_registration-lt ((handle, reg) ∷ regs) m h r =
      ground (arith, find_registration-lt regs (if ltb m handle then handle else m))

get-above :
    (regs : GoMap ℕ Registration) (m h : ℕ)
    → All (λ e. e.0 ≤ m) regs
    → m < h
    → Map.get h regs ≡ none
unfolding Map.get
get-above [] m h a lt = refl
get-above ((handle, reg) ∷ regs) m h a lt =
    ground (arith, nat_beq_iff handle h, get-above regs m h a.1 lt)

-- The new handle is above every handle that is in use.
above :
    (next max_handle : ℕ)
    → max_handle < 18446744073709551615
    → max_handle < fresh_handle next max_handle
unfolding fresh_handle
above next max_handle h = ground arith

-- What `Register` does: a registered pair of module and observer gets the handle of one of its
-- registrations, and nothing changes; any other pair gets a handle that is not in use, which then
-- stands for it, while every other handle stands for what it stood for.
abbrev pub Registers : HealthGServer → GoString → GoString → ℕ × HealthGServer → Type 0
Registers s module_name observer (handle, s') =
    ((s' ≡ s)
      × ((reg : Registration) × (Map.get handle s.registrations ≡ some reg)
          × (is_of module_name observer reg ≡ true)))
    ⊎ ((Map.get handle s.registrations ≡ none)
        × ((reg : Registration) × (is_of module_name observer reg ≡ true)
            × ((other : ℕ)
                → Map.get other s'.registrations
                  ≡ (if handle == other then some reg else Map.get other s.registrations))))

-- `Register` gives a registered pair of module and observer the handle of one of its registrations,
-- and changes nothing; any other pair gets a handle that is not in use, which then stands for it,
-- while every other handle stands for what it stood for. Handles are distinct, and below 2^64 - 1.
pub register-Registers :
    (s : HealthGServer) (module_name observer : GoString) (now : Time)
    → Distinct s.registrations
    → HasRoom s.registrations
    → Registers s module_name observer (register s module_name observer now)
unfolding register
register-Registers s module_name observer now d room =
    let regs = s.registrations in
    let r = find_registration module_name observer regs 0 in
    elim (Option-cases r.0) [
      | inl e ↦
          let handle = fresh_handle s.next_handle r.1 in
          let (low, all) = find_registration-max module_name observer regs 0 e in
          rw (register, e)
            (inr (
              get-above regs r.1 handle all (
                  above s.next_handle r.1
                    (find_registration-lt module_name observer regs 0 (omega arith) room)),
              (
                _,
                ground (arith, str_beq_iff module_name module_name, str_beq_iff observer observer),
                λ other. get-put handle other _ regs,
              ),
            ))
      | inr (handle, e) ↦
          rw (register, e)
            (inl (
              refl,
              subst (Found module_name observer regs) e
                  (find_registration-Found module_name observer regs 0 d),
            ))
    ]
