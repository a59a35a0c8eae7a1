-- ===== src/Probe/Registry.antt =====
-- k8sprobe: what a request is answered after any registrations.
use go_toolkits.Base.{
  ℕ, zero, suc, subst, ◌<◌, ◌≡◌, refl, sym, ◌∙◌, ap, ◌≢◌, Bool, true, false, List, [], ◌∷◌, ◌++◌,
  append_assoc, append-nil, arith, ◌==◌, ==_iff, if◌then◌else◌, by_if, All, Bool-cases, map, ◌⊎◌,
  inl, inr,
}
use go_toolkits.Base.Bytes.{Bytes, codes, same, is_empty, same_iff}
use go_toolkits.Base.Assoc.{number_eq, lookup, lookup-insert}
use go_toolkits.Probe.{
  type_string, Manager, Response, or_empty, new_manager, register_probe, check_each, check_probe,
  respond, serve_http, init_server, apply_options, with_address,
}

module _ {C : Type 0} where
  abbrev pub register_all : List (ℕ × C) → Manager C → Manager C
  register_all [] m = m
  register_all ((t, c) ∷ rs) m = register_all rs (register_probe t c m)

  -- The checkers that were registered for t, in their order.
  abbrev pub of_type : ℕ → List (ℕ × C) → List C
  of_type t [] = []
  of_type t ((u, c) ∷ rs) = if u == t then c ∷ of_type t rs else of_type t rs

  abbrev registered : ℕ → Manager C → List C
  registered t m = or_empty (lookup t m.probes)

  registered-register_probe :
      (t u : ℕ) (c : C) (m : Manager C)
      → registered t (register_probe u c m) ≡ registered t m ++ (if u == t then c ∷ [] else [])
  unfolding register_probe
  registered-register_probe t u c m = elim (Bool-cases (u == t)) [
    | inl h ↦
        rw (lookup-insert u t (registered u m ++ c ∷ []) m.probes, h)
          (ap (λ v. registered v m ++ c ∷ []) ((==_iff u t).0 h))
    | inr h ↦
        rw (lookup-insert u t (registered u m ++ c ∷ []) m.probes, h)
          (sym (append-nil (registered t m)))
  ]

  if-append :
      (b : Bool) (c : C) (cs : List C)
      → (if b then c ∷ [] else []) ++ cs ≡ (if b then c ∷ cs else cs)
  if-append true c cs = refl
  if-append false c cs = refl

  registered-register_all :
      (t : ℕ) (rs : List (ℕ × C)) (m : Manager C)
      → registered t (register_all rs m) ≡ registered t m ++ of_type t rs
  registered-register_all t [] m = sym (append-nil _)
  registered-register_all t ((u, c) ∷ rs) m =
      registered-register_all t rs (register_probe u c m)
      ∙ ap (λ cs. cs ++ of_type t rs) (registered-register_probe t u c m)
      ∙ append_assoc (registered t m) _ _
      ∙ ap (λ cs. registered t m ++ cs) (if-append (u == t) c (of_type t rs))

  options-probes :
      (addrs : List Bytes) (m : Manager C)
      → (apply_options (map with_address addrs) m).probes ≡ m.probes
  unfolding apply_options with_address
  options-probes [] m = refl
  options-probes (a ∷ addrs) m = options-probes addrs (with_address a m)

  init_server-probes : (m : Manager C) → (init_server m).probes ≡ m.probes
  unfolding init_server
  init_server-probes m =
      by_if (λ (n : Manager C). n.probes ≡ m.probes) (is_empty m.addr) {x = m} (λ _. refl)
        (λ _. refl)

  new_manager-probes :
      (addrs : List Bytes) → (new_manager {C = C} (map with_address addrs)).probes ≡ []
  unfolding new_manager
  new_manager-probes addrs = init_server-probes _ ∙ options-probes addrs _

  registered_lem :
      (t : ℕ) (addrs : List Bytes) (rs : List (ℕ × C))
      → registered t (register_all rs (new_manager (map with_address addrs))) ≡ of_type t rs
  unfolding lookup
  registered_lem t addrs rs =
      registered-register_all t rs _
      ∙ ap (λ ps. or_empty (lookup t ps) ++ of_type t rs) (new_manager-probes addrs)

module _ {C : Type 0} (is_valid : C → Bool × Bytes) where
  abbrev Valid : C → Type 0
  Valid c = (is_valid c).0 ≡ true

  -- The checkers before c are valid, and c is not.
  abbrev FirstInvalid : List C → C → Type 0
  FirstInvalid cs c =
      (good : List C) × (rest : List C) × (cs ≡ good ++ c ∷ rest)
      × All Valid good
      × ((is_valid c).0 ≡ false)

  check_each-cases :
      (cs : List C)
      → (All Valid cs × (check_each is_valid cs ≡ (true, [])))
        ⊎ ((c : C) × FirstInvalid cs c × (check_each is_valid cs ≡ (false, (is_valid c).1)))
  unfolding check_each
  check_each-cases [] = inl (tt, refl)
  check_each-cases (c ∷ cs) = elim (Bool-cases (is_valid c).0) [
    | inr h ↦ inr (c, ([], cs, refl, tt, h), rw h refl)
    | inl h ↦ elim (check_each-cases cs) [
      | inl (a, e) ↦ inl ((h, a), rw h e)
      | inr (d, (good, rest, s, a, f), e) ↦
          inr (d, (c ∷ good, rest, ap (λ ds. c ∷ ds) s, (h, a), f), rw h e)
    ]
  ]

  -- The answer to a request for one of the types, whose checkers these are.
  abbrev pub Answered : List C → Response → Type 0
  Answered cs w =
      (All Valid cs × (w ≡ record { status = 200; body = codes "OK" }))
      ⊎ ((c : C) × FirstInvalid cs c × (w ≡ record { status = 503; body = (is_valid c).1 }))

  respond-Answered : (cs : List C) → Answered cs (respond (check_each is_valid cs))
  unfolding respond
  respond-Answered cs = elim (check_each-cases cs) [
    | inl (a, e) ↦ inl (a, rw e refl)
    | inr (c, f, e) ↦ inr (c, f, rw e refl)
  ]

  -- A request for one of the three types, or for none.
  abbrev Served : Bytes → Manager C → Response → Type 0
  Served value m w =
      ((t : ℕ) × (t < 3) × (value ≡ type_string t) × (w ≡ respond (check_probe is_valid t m)))
      ⊎ (((t : ℕ) → t < 3 → value ≢ type_string t) × (w.status ≡ 400))

  below_three : (P : ℕ → Type 0) → P 0 → P 1 → P 2 → (t : ℕ) → t < 3 → P t
  below_three P p q r zero h = p
  below_three P p q r (suc zero) h = q
  below_three P p q r (suc (suc zero)) h = r
  below_three P p q r (suc (suc (suc t))) h = absurd (omega (arith, h))

  apart : (value name : Bytes) → same value name ≡ false → value ≢ name
  apart value name h e = ground (arith, same_iff value name)

  serve_http-Served : (value : Bytes) (m : Manager C) → Served value m (serve_http is_valid value m)
  unfolding serve_http
  serve_http-Served value m =
      let P : Response → Type 0 = Served value m in
      by_if P (same value (type_string 0)) (λ h. inl (0, omega arith, (same_iff value _).0 h, refl))
        (λ h0.
          by_if P (same value (type_string 1))
            (λ h. inl (1, omega arith, (same_iff value _).0 h, refl))
            (λ h1.
              by_if P (same value (type_string 2))
                (λ h. inl (2, omega arith, (same_iff value _).0 h, refl))
                (λ h2. inr (
                  below_three (λ t. value ≢ type_string t) (apart _ _ h0) (apart _ _ h1)
                      (apart _ _ h2),
                  refl,
                ))))

  -- Whatever probes were registered, in any order and of any types, a request for one of the three
  -- types is answered 200 and OK if all its checkers are valid, and else 503 and the cause of the one
  -- that was registered first of those that are not; any other request is answered 400.
  pub serve_http-register_all :
      (addrs : List Bytes) (rs : List (ℕ × C)) (value : Bytes)
      → let w =
          serve_http is_valid value (register_all rs (new_manager (map with_address addrs))) in
        ((t : ℕ) × (t < 3) × (value ≡ type_string t) × Answered (of_type t rs) w)
        ⊎ (((t : ℕ) → t < 3 → value ≢ type_string t) × (w.status ≡ 400))
  unfolding check_probe
  serve_http-register_all addrs rs value =
      elim (serve_http-Served value (register_all rs (new_manager (map with_address addrs)))) [
        | inr none_ ↦ inr none_
        | inl (t, l, e, w) ↦ inl (
          t,
          l,
          e,
          subst (Answered (of_type t rs))
              (sym (w ∙ ap (λ cs. respond (check_each is_valid cs)) (registered_lem t addrs rs)))
              (respond-Answered (of_type t rs)),
        )
      ]
