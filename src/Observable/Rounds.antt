-- ===== src/Observable/Rounds.antt =====
-- observable/helpers.go: the loop of remove over a slice that it changes, round by round.
use go_toolkits.Base.{
  drop-append, take-append, take_all, ℕ, zero, suc, ◌+◌, ◌-◌, ◌≤◌, ◌<◌, ◌≡◌, refl, ◌∙◌, ap, subst,
  ◌≢◌, true, false, Option, none, some, List, [], ◌∷◌, ◌++◌, arith, ◌==◌, leb, All, length,
  length-append, get_elem?, drop, Option-cases, inl, inr,
}
use go_toolkits.Observable.{Callback, Slice, remove_at, remove_from}

-- The callback is another one than fn.
abbrev pub Other : ℕ → Callback → Type 0
Other fn cb = cb.fn ≢ fn

-- There is a callback, and it is another one.
abbrev pub Passed : ℕ → Option Callback → Type 0
Passed fn none = ⊥
Passed fn (some cb) = Other fn cb

pub get_elem?-All :
    (fn : ℕ) (xs : List Callback) (j : ℕ)
    → All (Other fn) xs
    → j < length xs
    → Passed fn (get_elem? xs j)
get_elem?-All fn [] j a h = omega (arith, h)
get_elem?-All fn (x ∷ xs) zero a h = a.0
get_elem?-All fn (x ∷ xs) (suc j) a h = get_elem?-All fn xs j a.1 (omega (arith, h))

other_false : (a b : ℕ) → a ≢ b → (a == b) ≡ false
other_false a b d = ground arith

same_true : (a b : ℕ) → a ≡ b → (a == b) ≡ true
same_true a b e = ground arith

remove_from_other :
    (fn n i : ℕ) (s : Slice)
    → Passed fn (get_elem? s.array i)
    → remove_from (suc n) fn i s ≡ remove_from n fn (i + 1) s
unfolding remove_from
remove_from_other fn n i s h = elim (Option-cases (get_elem? s.array i)) [
  | inl e ↦ absurd (subst (Passed fn) e h)
  | inr (cb, e) ↦ rw (e, other_false cb.fn fn (subst (Passed fn) e h), remove_from) refl
]

pub remove_from_hit :
    (fn n i : ℕ) (s s' : Slice) (cb : Callback)
    → get_elem? s.array i ≡ some cb
    → cb.fn ≡ fn
    → remove_at i s ≡ some s'
    → remove_from (suc n) fn i s ≡ remove_from n fn (i + 1) s'
unfolding remove_from
remove_from_hit fn n i s s' cb e f r = rw (e, same_true cb.fn fn f, r, remove_from) refl

not_le : (a b : ℕ) → b ≤ a → leb (a + 1) b ≡ false
not_le a b e = ground arith

remove_at_out : (i : ℕ) (s : Slice) → s.len ≤ i → remove_at i s ≡ none
unfolding remove_at
remove_at_out i s h = rw (not_le i s.len h) refl

pub remove_from_end : (fn i : ℕ) (s : Slice) → remove_from 0 fn i s ≡ some s
unfolding remove_from
remove_from_end fn i s = refl

-- A hit at the end of the slice is out of bounds.
pub remove_from_out :
    (fn n i : ℕ) (s : Slice) (cb : Callback)
    → get_elem? s.array i ≡ some cb
    → cb.fn ≡ fn
    → s.len ≤ i
    → remove_from (suc n) fn i s ≡ none
unfolding remove_from
remove_from_out fn n i s cb e f h =
    rw (e, same_true cb.fn fn f, remove_at_out i s h, remove_from) refl

-- The loop goes past other callbacks.
pub remove_from_pass :
    (fn p n i : ℕ) (s : Slice)
    → ((j : ℕ) → i ≤ j → j < i + p → Passed fn (get_elem? s.array j))
    → remove_from (p + n) fn i s ≡ remove_from n fn (i + p) s
remove_from_pass fn zero n i s h =
    ap (λ m. remove_from m fn i s) (omega arith) ∙ ap (λ k. remove_from n fn k s) (omega arith)
remove_from_pass fn (suc p) n i s h =
    ap (λ m. remove_from m fn i s) (omega arith)
    ∙ remove_from_other fn (p + n) i s (h i (omega arith) (omega arith))
    ∙ remove_from_pass fn p n (i + 1) s (λ j a b. h j (omega (arith, a)) (omega (arith, b)))
    ∙ ap (λ k. remove_from n fn k s) (omega arith)

-- The slice after the first hit.
abbrev pub closed_up : List Callback → Callback → List Callback → Slice
closed_up pre cb post = record {
  array = pre ++ (post ++ drop (length post) (cb ∷ post));
  len = length pre + length post;
}

pub remove_at_lem :
    (pre : List Callback) (cb : Callback) (post : List Callback)
    → remove_at (length pre) (record { array = pre ++ cb ∷ post; len = length (pre ++ cb ∷ post) })
      ≡ some (closed_up pre cb post)
unfolding remove_at
remove_at_lem pre cb post =
    let n = length-append pre (cb ∷ post) in
    rw
      (
        take_all (pre ++ cb ∷ post),
        take-append pre (cb ∷ post),
        drop-append pre (cb ∷ post) 1 (length pre + 1) refl,
        drop-append pre (cb ∷ post) (length post) (length (pre ++ cb ∷ post) - 1)
            (omega (arith, n)),
        lt_true (length pre) (length (pre ++ cb ∷ post)) (omega (arith, n)),
      )
      (ap (λ k. some (record { array = pre ++ (post ++ drop (length post) (cb ∷ post)); len = k }))
        (omega (arith, n)))
  where
    lt_true : (a b : ℕ) → a + 1 ≤ b → leb (a + 1) b ≡ true
    lt_true a b h = ground arith
