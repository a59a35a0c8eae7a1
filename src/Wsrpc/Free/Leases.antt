-- ===== src/Wsrpc/Free/Leases.antt =====
-- wsrpc/server.go: that the free lists hand no value out twice.
use go_toolkits.Base.{
  ℕ, ◌<◌, ◌≡◌, refl, sym, ◌∙◌, ap, ◌≢◌, Option, none, some, List, [], ◌∷◌, ◌++◌, arith, ◌==◌,
  ==_iff, by_if, All, Distinct, Distinct-middle, Distinct-into, All-middle, All_into, All_imp,
  All-behind, Distinct-front, append_assoc, subst,
}
use go_toolkits.Wsrpc.Free.{Cell, Memory, put, get_from, get_request, free_request}

-- The memory, and the requests that were handed out and not freed since.
pub record Leases (X : Type 0) : Type 0 where
  pub memory : Memory X
  pub held : List ℕ

module _ {X : Type 0} (zero_ : X) where
  -- The holders ask for a request, write into one that they hold, or free one that they hold.
  pub data Step (s : Leases X) : Leases X → Type 0 where
    gets : Step s (record {
      memory = (get_request zero_ s.memory).0;
      held = (get_request zero_ s.memory).1 ∷ s.held;
    })
    writes :
        (p : ℕ) (before behind : List ℕ) (x : X)
        → s.held ≡ before ++ p ∷ behind
        → Step s (record s {
          memory = record s.memory {
            cell = put p (record { body = x; next = (s.memory.cell p).next }) s.memory.cell;
          };
        })
    frees :
        (p : ℕ) (before behind : List ℕ)
        → s.held ≡ before ++ p ∷ behind
        → Step s (record { memory = free_request p s.memory; held = before ++ behind })

  pub data Reach (s : Leases X) : Leases X → Type 0 where
    here : Reach s s
    next : {t u : Leases X} → Reach s t → Step t u → Reach s u

module _ {X : Type 0} where
  -- The free list from an address on is the list of these addresses.
  Chain : (ℕ → Cell X) → Option ℕ → List ℕ → Type 0
  Chain f o [] = o ≡ none
  Chain f o (p ∷ ps) = (o ≡ some p) × Chain f (f p).next ps

  Chain-put :
      (f : ℕ → Cell X) (q : ℕ) (c : Cell X) (o : Option ℕ) (ps : List ℕ)
      → All (λ p. q ≢ p) ps
      → Chain f o ps
      → Chain (put q c f) o ps
  unfolding Chain put
  Chain-put f q c o [] a e = e
  Chain-put f q c o (p ∷ ps) (n, a) (e, h) = (
    e,
    by_if (λ (d : Cell X). Chain (put q c f) d.next ps) (p == q)
        (λ t. absurd (n (sym ((==_iff p q).0 t)))) (λ _. Chain-put f q c (f p).next ps a h),
  )

  record Inv (s : Leases X) : Type 0 where
    free : List ℕ
    chain : Chain s.memory.cell s.memory.head free
    distinct : Distinct (s.held ++ free)
    below : All (λ p. p < s.memory.fresh) (s.held ++ free)

  put_same : (q : ℕ) (c : Cell X) (f : ℕ → Cell X) → put q c f q ≡ c
  unfolding put
  put_same q c f =
      by_if (λ (d : Cell X). d ≡ c) (q == q) (λ _. refl) (λ h. absurd (ground (arith, ==_iff q q)))

  get_new :
      (zero_ : X) (s : Leases X) (i : Inv s)
      → i.free ≡ []
      → s.memory.head ≡ none
      → Inv (record {
        memory = (get_from zero_ none s.memory).0;
        held = (get_from zero_ none s.memory).1 ∷ s.held;
      })
  unfolding get_from Chain
  get_new zero_ s i e h = record {
    free = [];
    chain = h;
    distinct = (
      All_imp (s.held ++ []) (λ p l q. omega (arith, l, q)) low,
      subst (λ fs. Distinct (s.held ++ fs)) e i.distinct,
    );
    below = (omega arith, All_imp (s.held ++ []) (λ p l. omega (arith, l)) low);
  }
    where
      low : All (λ p. p < s.memory.fresh) (s.held ++ [])
      low = subst (λ fs. All (λ p. p < s.memory.fresh) (s.held ++ fs)) e i.below

  get_old :
      (zero_ : X) (s : Leases X) (i : Inv s) (q : ℕ) (fs : List ℕ)
      → i.free ≡ q ∷ fs
      → Inv (record {
        memory = (get_from zero_ (some q) s.memory).0;
        held = (get_from zero_ (some q) s.memory).1 ∷ s.held;
      })
  unfolding get_from Chain
  get_old zero_ s i q fs e = record {
    free = fs;
    chain = Chain-put s.memory.cell q _ _ fs (All-behind (λ p. q ≢ p) s.held fs apart.0) linked.1;
    distinct = apart;
    below =
        All-middle (λ p. p < s.memory.fresh) s.held q fs
          (subst (λ gs. All (λ p. p < s.memory.fresh) (s.held ++ gs)) e i.below);
  }
    where
      apart : Distinct (q ∷ (s.held ++ fs))
      apart = Distinct-middle s.held q fs (subst (λ gs. Distinct (s.held ++ gs)) e i.distinct)

      linked : Chain s.memory.cell s.memory.head (q ∷ fs)
      linked = subst (Chain s.memory.cell s.memory.head) e i.chain

  get-Inv :
      (zero_ : X) (s : Leases X) (i : Inv s) (o : Option ℕ) (fs : List ℕ)
      → s.memory.head ≡ o
      → i.free ≡ fs
      → Inv (record {
        memory = (get_from zero_ o s.memory).0;
        held = (get_from zero_ o s.memory).1 ∷ s.held;
      })
  unfolding Chain
  get-Inv zero_ s i none [] h e = get_new zero_ s i e h
  get-Inv zero_ s i none (q ∷ fs) h e = absurd (
      let l : Chain s.memory.cell s.memory.head (q ∷ fs) =
        subst (Chain s.memory.cell s.memory.head) e i.chain in
      let k = l.0 in cc)
  get-Inv zero_ s i (some p) [] h e = absurd (
      let l : Chain s.memory.cell s.memory.head [] =
        subst (Chain s.memory.cell s.memory.head) e i.chain in
      cc)
  get-Inv zero_ s i (some p) (q ∷ fs) h e =
      let l : Chain s.memory.cell s.memory.head (q ∷ fs) =
        subst (Chain s.memory.cell s.memory.head) e i.chain in
      let m : s.memory.head ≡ some q = l.0 in
      let k : q ≡ p = cc in
      subst
        (λ r. Inv (record {
          memory = (get_from zero_ (some r) s.memory).0;
          held = (get_from zero_ (some r) s.memory).1 ∷ s.held;
        }))
        k (get_old zero_ s i q fs e)

  -- A request that is held stands apart from the others.
  held_apart :
      (s : Leases X) (i : Inv s) (p : ℕ) (before behind : List ℕ)
      → s.held ≡ before ++ p ∷ behind
      → Distinct (p ∷ (before ++ (behind ++ i.free)))
  held_apart s i p before behind e = Distinct-middle before p (behind ++ i.free) (
      subst Distinct (ap (λ hs. hs ++ i.free) e ∙ append_assoc before (p ∷ behind) i.free)
        i.distinct)

  free_apart :
      (s : Leases X) (i : Inv s) (p : ℕ) (before behind : List ℕ)
      → s.held ≡ before ++ p ∷ behind
      → All (λ q. p ≢ q) i.free
  free_apart s i p before behind e =
      All-behind (λ q. p ≢ q) behind i.free
        (All-behind (λ q. p ≢ q) before (behind ++ i.free) (held_apart s i p before behind e).0)

  frees-Inv :
      (s : Leases X) (i : Inv s) (p : ℕ) (before behind : List ℕ)
      → s.held ≡ before ++ p ∷ behind
      → Inv (record { memory = free_request p s.memory; held = before ++ behind })
  unfolding free_request Chain
  frees-Inv s i p before behind e =
      let c : Cell X = record { body = (s.memory.cell p).body; next = s.memory.head } in
      record {
        free = p ∷ i.free;
        chain = (
          refl,
          subst (λ d. Chain (put p c s.memory.cell) d.next i.free)
              (sym (put_same p c s.memory.cell))
              (Chain-put s.memory.cell p c s.memory.head i.free (free_apart s i p before behind e)
                i.chain),
        );
        distinct = Distinct-into (before ++ behind) p i.free (
            subst (λ ps. Distinct (p ∷ ps)) (sym (append_assoc before behind i.free))
              (held_apart s i p before behind e));
        below =
            All_into (λ q. q < s.memory.fresh) (before ++ behind) p i.free low.0
              (subst (All (λ q. q < s.memory.fresh)) (sym (append_assoc before behind i.free))
                low.1);
      }
    where
      low : (p < s.memory.fresh) × All (λ q. q < s.memory.fresh) (before ++ (behind ++ i.free))
      low =
          All-middle (λ q. q < s.memory.fresh) before p (behind ++ i.free)
            (subst (All (λ q. q < s.memory.fresh))
              (ap (λ hs. hs ++ i.free) e ∙ append_assoc before (p ∷ behind) i.free) i.below)

  Step-Inv : (zero_ : X) {s t : Leases X} → Step zero_ s t → Inv s → Inv t
  unfolding get_request
  Step-Inv zero_ {s = s} gets i = get-Inv zero_ s i s.memory.head i.free refl refl
  Step-Inv zero_ {s = s} (writes p before behind x e) i = record {
    free = i.free;
    chain =
        Chain-put s.memory.cell p _ s.memory.head i.free (free_apart s i p before behind e) i.chain;
    distinct = i.distinct;
    below = i.below;
  }
  Step-Inv zero_ {s = s} (frees p before behind e) i = frees-Inv s i p before behind e

  Reach-Inv : (zero_ : X) {s t : Leases X} → Reach zero_ s t → Inv s → Inv t
  Reach-Inv zero_ here i = i
  Reach-Inv zero_ (next r st) i = Step-Inv zero_ st (Reach-Inv zero_ r i)

  get_from-body :
      (zero_ : X) (m : Memory X) (o : Option ℕ)
      → let (m', p) = get_from zero_ o m in (m'.cell p).body ≡ zero_
  unfolding get_from
  get_from-body zero_ m none = ap (λ (c : Cell X). c.body) (put_same m.fresh _ m.cell)
  get_from-body zero_ m (some p) = ap (λ (c : Cell X). c.body) (put_same p _ m.cell)

  -- No request in use, and nothing freed yet.
  abbrev pub no_leases : (ℕ → Cell X) → Leases X
  no_leases f = record { memory = record { cell = f; fresh = 0; head = none }; held = [] }

  -- However requests are asked for, written to by who holds them, and freed by who holds them: those in
  -- use at a time are distinct, and a further getRequest hands out one that is not in use, and cleared.
  pub Reach-Distinct :
      (zero_ : X) (f : ℕ → Cell X) (s : Leases X)
      → Reach zero_ (no_leases f) s
      → let (m, p) = get_request zero_ s.memory in Distinct (p ∷ s.held) × ((m.cell p).body ≡ zero_)
  unfolding get_request Chain
  Reach-Distinct zero_ f s r =
      let i = Reach-Inv zero_ r (record { free = []; chain = refl; distinct = tt; below = tt }) in
      let j = get-Inv zero_ s i s.memory.head i.free refl refl in
      (
        Distinct-front ((get_from zero_ s.memory.head s.memory).1 ∷ s.held) j.free j.distinct,
        get_from-body zero_ s.memory s.memory.head,
      )
