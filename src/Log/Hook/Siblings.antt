-- ===== src/Log/Hook/Siblings.antt =====
-- log/hook/core.go: what With makes of the fields of a core, and of those of its other clones.
use go_toolkits.Base.{
  ℕ, zero, suc, ◌≤◌, ◌<◌, ◌≡◌, refl, sym, ◌∙◌, ap, some, List, [], ◌∷◌, ◌++◌, arith, ltb, ltb-true,
  ltb-false, get_elem?-append, length, take, get_elem?, append_assoc, append-nil, length-append,
  take_all, Bool-cases, inl, inr, subst,
}
use go_toolkits.Log.Hook.{
  Field, Array, Heap, Slice, BaseCore, cells_of, read, put_cell, set_array, append_field,
  add_fields, with_fields,
}

length-take : {A : Type 0} (n : ℕ) (xs : List A) → n ≤ length xs → length (take n xs) ≡ n
length-take zero xs h = refl
length-take (suc n) [] h = absurd (omega (arith, h))
length-take (suc n) (x ∷ xs) h = omega (arith, length-take n xs (omega (arith, h)))

module _ {V : Type 0} where
  -- The slice lies within what was written of its array.
  pub record Held (heap : Heap V) (s : Slice) : Type 0 where
    pub arr : Array V
    pub at : get_elem? heap s.array ≡ some arr
    pub fits : s.len ≤ length arr.cells

  get_elem?-set_array :
      (i : ℕ) (heap : Heap V) (a b : Array V)
      → get_elem? heap i ≡ some a
      → get_elem? (set_array i b heap) i ≡ some b
  unfolding set_array
  get_elem?-set_array i [] a b e = cc
  get_elem?-set_array zero (c ∷ heap) a b e = refl
  get_elem?-set_array (suc i) (c ∷ heap) a b e = get_elem?-set_array i heap a b e

  take-put_cell :
      (i : ℕ) (x : Field V) (cells : List (Field V))
      → i ≤ length cells
      → (take (suc i) (put_cell i x cells) ≡ take i cells ++ x ∷ [])
        × (take i (put_cell i x cells) ≡ take i cells)
        × (suc i ≤ length (put_cell i x cells))
  take-put_cell zero x cells h = (refl, refl, omega arith)
  take-put_cell (suc i) x [] h = absurd (omega (arith, h))
  take-put_cell (suc i) x (y ∷ cells) h =
      let (p, q, r) = take-put_cell i x cells (omega (arith, h)) in
      (ap (λ zs. y ∷ zs) p, ap (λ zs. y ∷ zs) q, omega (arith, r))

  append_in_place :
      (grow : ℕ → ℕ) (s : Slice) (x : Field V) (heap : Heap V) (a : Array V)
      → get_elem? heap s.array ≡ some a
      → s.len < a.capacity
      → append_field grow s x heap ≡ (
        record s { len = suc s.len },
        set_array s.array (record { cells = put_cell s.len x a.cells; capacity = a.capacity }) heap,
      )
  unfolding append_field
  append_in_place grow s x heap a e l = rw (e, ltb-true s.len a.capacity l) refl

  append_moved :
      (grow : ℕ → ℕ) (s : Slice) (x : Field V) (heap : Heap V) (a : Array V)
      → get_elem? heap s.array ≡ some a
      → a.capacity ≤ s.len
      → append_field grow s x heap ≡ (
        record { array = length heap; len = suc s.len },
        heap ++ record { cells = read heap s ++ x ∷ []; capacity = grow (suc s.len) } ∷ [],
      )
  unfolding append_field
  append_moved grow s x heap a e l = rw (e, ltb-false s.len a.capacity l) refl

  length-read : (s : Slice) (heap : Heap V) → Held heap s → length (read heap s) ≡ s.len
  unfolding read
  length-read s heap h =
      ap (λ o. length (take s.len (cells_of o))) h.at ∙ length-take s.len h.arr.cells h.fits

  read_lem :
      (heap : Heap V) (i n : ℕ) (a : Array V)
      → get_elem? heap i ≡ some a
      → read heap (record { array = i; len = n }) ≡ take n a.cells
  unfolding read
  read_lem heap i n a e = ap (λ o. take n (cells_of o)) e

  -- What an append gives: the slice that is held with a field behind its fields.
  Appended : Heap V → Slice → Field V → Slice × Heap V → Type 0
  Appended heap s x p = Held p.1 p.0 × (read p.1 p.0 ≡ read heap s ++ x ∷ [])

  in_place-Appended :
      (s : Slice) (x : Field V) (heap : Heap V) (h : Held heap s)
      → Appended heap s x (
        record s { len = suc s.len },
        set_array s.array
            (record { cells = put_cell s.len x h.arr.cells; capacity = h.arr.capacity })
            heap,
      )
  unfolding Appended read
  in_place-Appended s x heap h =
      let (p, q, r) = take-put_cell s.len x h.arr.cells h.fits in
      let e = get_elem?-set_array s.array heap h.arr _ h.at in
      (
        record { arr = _; at = e; fits = r },
        ap (λ o. take (suc s.len) (cells_of o)) e
            ∙ p
            ∙ ap (λ o. take s.len (cells_of o) ++ x ∷ []) (sym h.at),
      )

  moved-Appended :
      (grow : ℕ → ℕ) (s : Slice) (x : Field V) (heap : Heap V)
      → Held heap s
      → Appended heap s x (
        record { array = length heap; len = suc s.len },
        heap ++ record { cells = read heap s ++ x ∷ []; capacity = grow (suc s.len) } ∷ [],
      )
  unfolding Appended
  moved-Appended grow s x heap h =
      let ys : List (Field V) = read heap s ++ x ∷ [] in
      let n : length ys ≡ suc s.len =
        omega (arith, length-append (read heap s) (x ∷ []), length-read s heap h) in
      let e =
        get_elem?-append heap (record { cells = ys; capacity = grow (suc s.len) } ∷ []) 0
          (length heap) (omega arith) in
      (
        record { arr = _; at = e; fits = omega (arith, n) },
        read_lem _ (length heap) (suc s.len) _ e ∙ ap (λ k. take k ys) (sym n) ∙ take_all ys,
      )

  append-Appended :
      (grow : ℕ → ℕ) (s : Slice) (x : Field V) (heap : Heap V)
      → Held heap s
      → Appended heap s x (append_field grow s x heap)
  append-Appended grow s x heap h = elim (Bool-cases (ltb s.len h.arr.capacity)) [
    | inl t ↦
        subst (Appended heap s x)
          (sym (append_in_place grow s x heap h.arr h.at (ground (arith, t))))
          (in_place-Appended s x heap h)
    | inr t ↦
        subst (Appended heap s x) (sym (append_moved grow s x heap h.arr h.at (ground (arith, t))))
          (moved-Appended grow s x heap h)
  ]

  add_fields-read :
      (grow : ℕ → ℕ) (xs : List (Field V)) (s : Slice) (heap : Heap V)
      → Held heap s
      → let p = add_fields grow xs s heap in Held p.1 p.0 × (read p.1 p.0 ≡ read heap s ++ xs)
  unfolding add_fields Appended
  add_fields-read grow [] s heap h = (h, sym (append-nil (read heap s)))
  add_fields-read grow (x ∷ xs) s heap h =
      let (h1, e1) = append-Appended grow s x heap h in
      let (h2, e2) =
        add_fields-read grow xs (append_field grow s x heap).0 (append_field grow s x heap).1 h1 in
      (h2, e2 ∙ ap (λ ys. ys ++ xs) e1 ∙ append_assoc (read heap s) (x ∷ []) xs)

  -- With gives a core that has the fields of the old one and then the further ones, in their order,
  -- whether append finds room in the array or moves the fields to another.
  pub with_fields-read :
      (grow : ℕ → ℕ) (xs : List (Field V)) (c : BaseCore) (heap : Heap V)
      → Held heap c.withfields
      → let (d, heap') = with_fields grow xs c heap in
        Held heap' d.withfields × (read heap' d.withfields ≡ read heap c.withfields ++ xs)
  unfolding with_fields
  with_fields-read grow xs c heap h = add_fields-read grow xs c.withfields heap h

  with_one :
      (grow : ℕ → ℕ) (x : Field V) (c : BaseCore) (heap : Heap V) (a : Array V)
      → get_elem? heap c.withfields.array ≡ some a
      → c.withfields.len < a.capacity
      → with_fields grow (x ∷ []) c heap ≡ (
        record c { withfields = record c.withfields { len = suc c.withfields.len } },
        set_array c.withfields.array
            (record { cells = put_cell c.withfields.len x a.cells; capacity = a.capacity })
            heap,
      )
  unfolding with_fields add_fields
  with_one grow x c heap a e l =
      ap (λ p. (record c { withfields = p.0 }, p.1))
        (append_in_place grow c.withfields x heap a e l)

  -- If there is room for a field behind those of a core, and With makes one clone with x and then
  -- another with y, both of that core, the first clone has lost x and has y in its place.
  pub with_fields_twice :
      (grow : ℕ → ℕ) (x y : Field V) (c : BaseCore) (heap : Heap V) (a : Array V)
      → get_elem? heap c.withfields.array ≡ some a
      → c.withfields.len ≤ length a.cells
      → c.withfields.len < a.capacity
      → let (first, heap1) = with_fields grow (x ∷ []) c heap in
        let (second, heap2) = with_fields grow (y ∷ []) c heap1 in
        read heap2 first.withfields ≡ read heap c.withfields ++ y ∷ []
  with_fields_twice grow x y c heap a e h l =
      let n : ℕ = c.withfields.len in
      let i : ℕ = c.withfields.array in
      let (p, q, r) = take-put_cell n x a.cells h in
      let a1 : Array V = record { cells = put_cell n x a.cells; capacity = a.capacity } in
      let e1 = get_elem?-set_array i heap a a1 e in
      let (p2, q2, r2) = take-put_cell n y a1.cells (omega (arith, r)) in
      let a2 : Array V = record { cells = put_cell n y a1.cells; capacity = a.capacity } in
      rw (with_one grow x c heap a e l, with_one grow y c (set_array i a1 heap) a1 e1 l)
        (read_lem _ i (suc n) a2 (get_elem?-set_array i (set_array i a1 heap) a1 a2 e1)
          ∙ p2
          ∙ ap (λ ys. ys ++ y ∷ []) (q ∙ sym (read_lem heap i n a e)))
