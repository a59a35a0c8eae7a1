-- ===== src/Wsrpc/Service/Lookup.antt =====
-- wsrpc/server.go: what register leaves behind, and that a registered method is found again.
use go_toolkits.Base.{
  ◌≡◌, refl, sym, ◌∙◌, subst, ◌≢◌, ◌⊎◌, inl, inr, Bool, false, not, ◌&&◌, Option, none, some, [],
  ◌∷◌, ◌++◌, arith, if◌then◌else◌, by_if,
}
use go_toolkits.Base.Bytes.{Bytes, same_iff, is_empty, contains_byte}
use go_toolkits.Base.Assoc.{Assoc, bytes_eq, lookup, lookup-insert}
use go_toolkits.Wsrpc.Service.{
  Service, Services, MethodType, Receiver, Error, already_defined, no_service, no_method,
  is_exported, suitable_methods, install, register, cut_last_dot, get_service,
}

cut_last_dot-plain : (k : Bytes) → contains_byte k b'.' ≡ false → cut_last_dot k ≡ none
unfolding cut_last_dot contains_byte
cut_last_dot-plain [] n = refl
cut_last_dot-plain (c ∷ k) n = ground (arith, cut_last_dot-plain k)

-- A name with a dot and a method without one is taken apart again, dots in the name included.
pub cut_last_dot-append :
    (s k : Bytes) → contains_byte k b'.' ≡ false → cut_last_dot (s ++ b'.' ∷ k) ≡ some (s, k)
unfolding cut_last_dot
cut_last_dot-append [] k n = rw (cut_last_dot-plain k n)
cut_last_dot-append (c ∷ s) k n = rw (cut_last_dot-append s k n)

module _ {M : Type 0} where
  abbrev pub registered_name : Receiver M → Bytes → Bool → Bytes
  registered_name rcvr name use_name = if use_name then name else rcvr.type_name

  -- What a call of register has done, if it gave no error: the new entry is there and was not
  -- there before, and all other services are as they were.
  pub record IsRegistered (services services' : Services M) (rcvr : Receiver M) (n : Bytes)
      : Type 0 where
    pub fresh : lookup n services ≡ none
    pub entry :
        lookup n services' ≡ some (record { name = n; methods = suitable_methods rcvr.methods })
    pub others : (j : Bytes) → n ≢ j → lookup j services' ≡ lookup j services

  abbrev pub Outcome : Services M → Receiver M → Bytes → Services M × Option Error → Type 0
  Outcome services rcvr n (services', none) = IsRegistered services services' rcvr n
  Outcome services rcvr n (services', some e) = services' ≡ services

  install-Outcome :
      (services : Services M) (rcvr : Receiver M) (n : Bytes) (ms : Assoc Bytes (MethodType M))
      → lookup n services ≡ none
      → suitable_methods rcvr.methods ≡ ms
      → Outcome services rcvr n (install services rcvr n ms)
  unfolding install
  install-Outcome services rcvr n [] h e = refl
  install-Outcome services rcvr n (m ∷ ms) h e =
      let svc : Service M = record { name = n; methods = m ∷ ms } in
      record {
        fresh = h;
        entry = ground (arith, lookup-insert n n svc services, same_iff n n);
        others = λ j d. ground (arith, lookup-insert n j svc services, same_iff n j);
      }

  -- register either adds exactly the service with the suitable methods of the receiver under a name
  -- that was free, or gives an error and changes nothing.
  pub register-Outcome :
      (services : Services M) (rcvr : Receiver M) (name : Bytes) (use_name : Bool)
      → Outcome services rcvr
          (registered_name rcvr name use_name)
          (register services rcvr name use_name)
  unfolding register
  register-Outcome services rcvr name use_name =
      let n = registered_name rcvr name use_name in
      by_if (Outcome services rcvr n) (is_empty n) (λ _. refl)
        λ _.
          by_if (Outcome services rcvr n) (not (is_exported n) && not use_name) (λ _. refl)
            λ _. go (lookup n services) refl
    where
      go :
          (found : Option (Service M))
          → lookup (registered_name rcvr name use_name) services ≡ found
          → Outcome services rcvr (registered_name rcvr name use_name) (elim found [
            | some s ↦ (services, some already_defined)
            | none ↦
                install services rcvr
                  (registered_name rcvr name use_name)
                  (suitable_methods rcvr.methods)
          ])
      go none h = install-Outcome services rcvr _ _ h refl
      go (some s) h = refl

  -- The answer of getService for a name that was cut at its last dot.
  answer_for : Services M → Bytes → Bytes → (Service M × MethodType M) ⊎ Error
  answer_for services n k = elim (lookup n services) [
    | none ↦ inr (no_service n)
    | some s ↦ elim (lookup k s.methods) [
      | none ↦ inr (no_method (n ++ b'.' ∷ k))
      | some t ↦ inl (s, t)
    ]
  ]

  get_service-append :
      (services : Services M) (n k : Bytes)
      → contains_byte k b'.' ≡ false
      → get_service services (n ++ b'.' ∷ k) ≡ answer_for services n k
  unfolding get_service answer_for
  get_service-append services n k plain = rw (cut_last_dot-append n k plain, get_service)

  abbrev pub added_service : Receiver M → Bytes → Service M
  added_service rcvr n = record { name = n; methods = suitable_methods rcvr.methods }

  -- What a call finds under "Service.Method" after a registration without an error: a suitable
  -- method of the receiver, or the error for a missing method; and under the name of another
  -- service what it found before.
  pub get_service-register :
      (services services' : Services M) (rcvr : Receiver M) (name : Bytes) (use_name : Bool)
      (k : Bytes)
      → register services rcvr name use_name ≡ (services', none)
      → contains_byte k b'.' ≡ false
      → let n = registered_name rcvr name use_name in
        (get_service services' (n ++ b'.' ∷ k) ≡ elim (lookup k (suitable_methods rcvr.methods)) [
          | none ↦ inr (no_method (n ++ b'.' ∷ k))
          | some t ↦ inl (added_service rcvr n, t)
        ])
        × ((j : Bytes)
            → n ≢ j
            → get_service services' (j ++ b'.' ∷ k) ≡ get_service services (j ++ b'.' ∷ k))
  unfolding answer_for
  get_service-register services services' rcvr name use_name k e plain =
      let n = registered_name rcvr name use_name in
      let done : IsRegistered services services' rcvr n =
        subst (Outcome services rcvr n) e (register-Outcome services rcvr name use_name) in
      (
        get_service-append services' n k plain ∙ rw (done.entry, answer_for) refl,
        λ j d.
            get_service-append services' j k plain
            ∙ rw (done.others j d, answer_for) refl
            ∙ sym (get_service-append services j k plain),
      )
