-- ===== src/Base/Lists.antt =====
-- Lists measured and indexed by native numbers, under the library's names, and two predicates.
use Prim.Native.Nat.{ℕ, zero, suc, ◌+◌, ◌-◌, ◌≤◌}
use mathlib.Core.Path.{◌≡◌, refl, sym, ◌∙◌, ap}
use mathlib.Core.Logic.{◌⊎◌, ◌≢◌}
use mathlib.Core.List.{List, [], ◌∷◌, ◌++◌}
use mathlib.Core.Option.{Option, none, some}
use native.Mathlib.Omega.{arith}

module _ {ℓ} {A : Type ℓ} where
  abbrev pub length : List A → ℕ
  length [] = 0
  length (x ∷ xs) = suc (length xs)

  abbrev pub get_elem? : List A → ℕ → Option A
  get_elem? [] i = none
  get_elem? (x ∷ xs) zero = some x
  get_elem? (x ∷ xs) (suc i) = get_elem? xs i

  abbrev pub take : ℕ → List A → List A
  take zero xs = []
  take (suc n) [] = []
  take (suc n) (x ∷ xs) = x ∷ take n xs

  abbrev pub drop : ℕ → List A → List A
  drop zero xs = xs
  drop (suc n) [] = []
  drop (suc n) (x ∷ xs) = drop n xs

  pub length-append : (xs ys : List A) → length (xs ++ ys) ≡ length xs + length ys
  length-append [] ys = omega arith
  length-append (x ∷ xs) ys = omega (arith, length-append xs ys)

  -- The j-th place behind a list.
  abbrev pub behind : List A → ℕ → ℕ
  behind [] j = j
  behind (x ∷ xs) j = suc (behind xs j)

  behind_lem : (xs : List A) (j : ℕ) → behind xs j ≡ length xs + j
  behind_lem [] j = omega arith
  behind_lem (x ∷ xs) j = omega (arith, behind_lem xs j)

  get_elem?-behind : (xs ys : List A) (j : ℕ) → get_elem? (xs ++ ys) (behind xs j) ≡ get_elem? ys j
  get_elem?-behind [] ys j = refl
  get_elem?-behind (x ∷ xs) ys j = get_elem?-behind xs ys j

  drop-behind : (xs ys : List A) (j : ℕ) → drop (behind xs j) (xs ++ ys) ≡ drop j ys
  drop-behind [] ys j = refl
  drop-behind (x ∷ xs) ys j = drop-behind xs ys j

  pub get_elem?-append :
      (xs ys : List A) (j k : ℕ) → k ≡ length xs + j → get_elem? (xs ++ ys) k ≡ get_elem? ys j
  get_elem?-append xs ys j k e =
      ap (get_elem? (xs ++ ys)) (e ∙ sym (behind_lem xs j)) ∙ get_elem?-behind xs ys j

  pub drop-append : (xs ys : List A) (j k : ℕ) → k ≡ length xs + j → drop k (xs ++ ys) ≡ drop j ys
  drop-append xs ys j k e =
      ap (λ m. drop m (xs ++ ys)) (e ∙ sym (behind_lem xs j)) ∙ drop-behind xs ys j

  pub take-append : (xs ys : List A) → take (length xs) (xs ++ ys) ≡ xs
  take-append [] ys = refl
  take-append (x ∷ xs) ys = ap (λ zs. x ∷ zs) (take-append xs ys)

  pub take-append_over :
      (n : ℕ) (xs ys : List A) → length xs ≤ n → take n (xs ++ ys) ≡ xs ++ take (n - length xs) ys
  take-append_over n [] ys h = ap (λ k. take k ys) (omega arith)
  take-append_over zero (x ∷ xs) ys h = absurd (omega (arith, h))
  take-append_over (suc n) (x ∷ xs) ys h =
      ap (λ zs. x ∷ zs)
        (take-append_over n xs ys (omega (arith, h)) ∙ ap (λ k. xs ++ take k ys) (omega arith))

  pub take-append_both :
      (n : ℕ) (xs ys : List A) → take n (xs ++ ys) ≡ take n xs ++ take (n - length (take n xs)) ys
  take-append_both zero xs ys = refl
  take-append_both (suc n) [] ys = ap (λ k. take k ys) {x = suc n} (omega arith)
  take-append_both (suc n) (x ∷ xs) ys =
      ap (λ zs. x ∷ zs) (take-append_both n xs ys ∙ ap (λ k. take n xs ++ take k ys) (omega arith))

  pub take_all : (xs : List A) → take (length xs) xs ≡ xs
  take_all [] = refl
  take_all (x ∷ xs) = ap (λ zs. x ∷ zs) (take_all xs)

  pub take-drop : (n : ℕ) (xs : List A) → take n xs ++ drop n xs ≡ xs
  take-drop zero xs = refl
  take-drop (suc n) [] = refl
  take-drop (suc n) (x ∷ xs) = ap (λ zs. x ∷ zs) (take-drop n xs)

  pub length-drop : (n : ℕ) (xs : List A) → length (drop n xs) ≡ length xs - n
  length-drop zero xs = omega arith
  length-drop (suc n) [] = omega arith
  length-drop (suc n) (x ∷ xs) = omega (arith, length-drop n xs)

  pub drop_past : (n : ℕ) (xs : List A) → length xs ≤ n → drop n xs ≡ []
  drop_past zero [] h = refl
  drop_past zero (x ∷ xs) h = absurd (omega (arith, h))
  drop_past (suc n) [] h = refl
  drop_past (suc n) (x ∷ xs) h = drop_past n xs (omega (arith, h))

  pub drop-drop : (m n k : ℕ) (xs : List A) → k ≡ m + n → drop n (drop m xs) ≡ drop k xs
  drop-drop zero n k xs e = ap (λ j. drop j xs) (omega (arith, e))
  drop-drop (suc m) n zero xs e = absurd (omega (arith, e))
  drop-drop (suc m) zero (suc k) [] e = refl
  drop-drop (suc m) (suc n) (suc k) [] e = refl
  drop-drop (suc m) n (suc k) (x ∷ xs) e = drop-drop m n k xs (omega (arith, e))

pub take-nil {ℓ} : {A : Type ℓ} (n : ℕ) → take {A = A} n [] ≡ []
take-nil zero = refl
take-nil (suc n) = refl

-- Every element, and some element: predicates by recursion, which compute to tuples and sums.
abbrev pub All {ℓ κ} : {A : Type ℓ} → (A → Type κ) → List A → Type κ
All P [] = Unit
All P (x ∷ xs) = P x × All P xs

abbrev pub Any : {A : Type 0} → (A → Type 0) → List A → Type 0
Any P [] = ⊥
Any P (x ∷ xs) = P x ⊎ Any P xs

pub All-append {ℓ κ} :
    {A : Type ℓ} (P : A → Type κ) (xs ys : List A) → All P xs → All P ys → All P (xs ++ ys)
All-append P [] ys hx hy = hy
All-append P (x ∷ xs) ys hx hy = (hx.0, All-append P xs ys hx.1 hy)

pub All-drop : {A : Type 0} (P : A → Type 0) (n : ℕ) (xs : List A) → All P xs → All P (drop n xs)
All-drop P zero xs a = a
All-drop P (suc n) [] a = tt
All-drop P (suc n) (x ∷ xs) a = All-drop P n xs a.1

pub All-take : {A : Type 0} (P : A → Type 0) (n : ℕ) (xs : List A) → All P xs → All P (take n xs)
All-take P zero xs a = tt
All-take P (suc n) [] a = tt
All-take P (suc n) (x ∷ xs) a = (a.0, All-take P n xs a.1)

pub All_imp :
    {A : Type 0} {P Q : A → Type 0} (xs : List A) → ((x : A) → P x → Q x) → All P xs → All Q xs
All_imp [] f a = tt
All_imp (x ∷ xs) f a = (f x a.0, All_imp xs f a.1)

pub All-behind : {A : Type 0} (P : A → Type 0) (xs ys : List A) → All P (xs ++ ys) → All P ys
All-behind P [] ys a = a
All-behind P (x ∷ xs) ys a = All-behind P xs ys a.1

-- No element stands twice in the list.
abbrev pub Distinct : List ℕ → Type 0
Distinct [] = Unit
Distinct (c ∷ cs) = All (λ d. c ≢ d) cs × Distinct cs

pub All-middle :
    {A : Type 0} (P : A → Type 0) (xs : List A) (x : A) (ys : List A)
    → All P (xs ++ x ∷ ys)
    → P x × All P (xs ++ ys)
All-middle P [] x ys a = a
All-middle P (z ∷ xs) x ys a = let (p, b) = All-middle P xs x ys a.1 in (p, (a.0, b))

pub All_into :
    {A : Type 0} (P : A → Type 0) (xs : List A) (x : A) (ys : List A)
    → P x
    → All P (xs ++ ys)
    → All P (xs ++ x ∷ ys)
All_into P [] x ys p a = (p, a)
All_into P (z ∷ xs) x ys p a = (a.0, All_into P xs x ys p a.1)

pub Distinct-middle :
    (xs : List ℕ) (x : ℕ) (ys : List ℕ) → Distinct (xs ++ x ∷ ys) → Distinct (x ∷ (xs ++ ys))
Distinct-middle [] x ys d = d
Distinct-middle (z ∷ xs) x ys (a, d) =
    let (apart, rest) = All-middle (λ c. z ≢ c) xs x ys a in
    let (b, e) = Distinct-middle xs x ys d in (((λ h. apart (sym h)), b), (rest, e))

pub Distinct-into :
    (xs : List ℕ) (x : ℕ) (ys : List ℕ) → Distinct (x ∷ (xs ++ ys)) → Distinct (xs ++ x ∷ ys)
Distinct-into [] x ys d = d
Distinct-into (z ∷ xs) x ys ((p, b), (a, d)) =
    (All_into (λ c. z ≢ c) xs x ys (λ h. p (sym h)) a, Distinct-into xs x ys (b, d))

pub All-front : {A : Type 0} (P : A → Type 0) (xs ys : List A) → All P (xs ++ ys) → All P xs
All-front P [] ys a = tt
All-front P (x ∷ xs) ys a = (a.0, All-front P xs ys a.1)

pub Distinct-front : (xs ys : List ℕ) → Distinct (xs ++ ys) → Distinct xs
Distinct-front [] ys d = tt
Distinct-front (x ∷ xs) ys (a, d) = (All-front (λ c. x ≢ c) xs ys a, Distinct-front xs ys d)
