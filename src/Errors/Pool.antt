-- ===== src/Errors/Pool.antt =====
-- errors/errors.go: what the pool holds after any calls, and which calls it refuses.
use go_toolkits.Base.{
  ℕ, ◌+◌, ◌%◌, ◌^◌, ◌≡◌, refl, sym, ◌∙◌, ap, ◌≢◌, ◌⊎◌, inl, inr, Bool, true, false, Option, none,
  some, List, [], ◌∷◌, ◌++◌, arith, ◌==◌, ==_iff, not, ◌&&◌, Bool-cases, ◌||◌, if◌then◌else◌, All,
  Distinct, by_if,
}
use go_toolkits.Base.Bytes.{Bytes}
use go_toolkits.Base.Assoc.{number_eq, lookup, insert, lookup-insert}
use go_toolkits.Errors.{
  Code, Error, Status, Made, marshal, assert_code, Pool_, unless_there, put_error, with_code,
  add_error,
}

-- A call of Add on some Error, which may differ from call to call; a panic is recovered from.
pub record Call : Type 0 where
  pub error : Error
  pub code : Code
  pub message : Bytes

abbrev pub call : Call → Pool_ → Pool_ × Option Made
call x pool = add_error x.error x.code x.message pool

-- The code of an error; that of nil is 0.
abbrev pub code_of : Made → ℕ
code_of Made.no_error = 0
code_of (Made.as_status s) = s.code
code_of (Made.as_json s) = s.code

-- The code of an error that went through the pool.
abbrev pub pooled : Call → Option Made → List ℕ
pooled x none = []
pooled x (some made) = if x.error.escape_pool then [] else code_of made ∷ []

abbrev pub calls : List Call → Pool_ → Pool_
calls [] pool = pool
calls (x ∷ xs) pool = calls xs (call x pool).0

-- The codes of the errors that the calls make and that do not escape the pool, in their order.
abbrev pub codes_of : List Call → Pool_ → List ℕ
codes_of [] pool = []
codes_of (x ∷ xs) pool = pooled x (call x pool).1 ++ codes_of xs (call x pool).0

abbrev pub among : ℕ → List ℕ → Bool
among c [] = false
among c (d ∷ ds) = d == c || among c ds

-- What a call does to the pool: nothing, or it puts in a code that was not there, with which it makes
-- its error.
abbrev Effect : Call → Pool_ → Pool_ × Option Made → Type 0
Effect x pool p =
    ((p.0 ≡ pool) × (pooled x p.1 ≡ []))
    ⊎ ((c : ℕ) × (lookup c pool ≡ none) × (p.0 ≡ insert c c pool) × (pooled x p.1 ≡ c ∷ []))

code_of-marshal : (er : Error) (s : Status) → code_of (marshal er s) ≡ s.code
unfolding marshal
code_of-marshal er s =
    by_if (λ (m : Made). code_of m ≡ s.code) er.built_in
      (λ _.
        by_if (λ (m : Made). code_of m ≡ s.code) (s.code == 0)
          (λ zero_. sym ((==_iff s.code 0).0 zero_)) (λ _. refl))
      (λ _. refl)

unless_there-Effect :
    (x : Call) (c : ℕ) (made : Made) (o : Option ℕ) (pool : Pool_)
    → lookup c pool ≡ o
    → x.error.escape_pool ≡ false
    → code_of made ≡ c
    → Effect x pool (unless_there c made o pool)
unfolding unless_there
unless_there-Effect x c made none pool l e m = inr (c, l, refl, rw (e, m) refl)
unless_there-Effect x c made (some d) pool l e m = inl (refl, refl)

put_error-Effect :
    (x : Call) (c : ℕ) (pool : Pool_) → Effect x pool (put_error x.error c x.message pool)
unfolding put_error
put_error-Effect x c pool =
    by_if (Effect x pool) x.error.escape_pool (λ e. inl (refl, rw e refl))
      (λ e. unless_there-Effect x c _ (lookup c pool) pool refl e (code_of-marshal x.error _))

with_code-Effect :
    (x : Call) (o : Option ℕ) (pool : Pool_) → Effect x pool (with_code x.error x.message o pool)
unfolding with_code
with_code-Effect x none pool = inl (refl, refl)
with_code-Effect x (some c) pool = put_error-Effect x _ pool

call-Effect : (x : Call) (pool : Pool_) → Effect x pool (call x pool)
unfolding add_error
call-Effect x pool = with_code-Effect x (assert_code x.code) pool

abbrev New : Pool_ → ℕ → Type 0
New pool d = lookup d pool ≡ none

if_none :
    (b : Bool) (c : ℕ) (o : Option ℕ) → (if b then some c else o) ≡ none → (b ≡ false) × (o ≡ none)
if_none true c o e = absurd (cc)
if_none false c o e = (refl, e)

not_put :
    (c : ℕ) (pool : Pool_) (ds : List ℕ)
    → All (New (insert c c pool)) ds
    → All (λ d. c ≢ d) ds × All (New pool) ds
not_put c pool [] a = (tt, tt)
not_put c pool (d ∷ ds) (n, a) =
    let (p, q) = not_put c pool ds a in
    let (apart, new) = if_none (c == d) c (lookup d pool) (sym (lookup-insert c d c pool) ∙ n) in
    ((ground (arith, apart, ==_iff c d), p), (new, q))

codes_of-New :
    (xs : List Call) (pool : Pool_)
    → All (New pool) (codes_of xs pool) × Distinct (codes_of xs pool)
codes_of-New [] pool = (tt, tt)
codes_of-New (x ∷ xs) pool = elim (call-Effect x pool) [
  | inl (e, f) ↦ rw (f, e) (codes_of-New xs pool)
  | inr (c, n, e, f) ↦
      let (a, distinct) = codes_of-New xs (insert c c pool) in
      let (apart, new) = not_put c pool _ a in rw (f, e) ((n, new), (apart, distinct))
]

-- The codes of the errors that any calls of Add make, on any Errors whose pool is not escaped, are
-- distinct, whatever numbers they start from and however the sums wrap around.
pub codes_of-Distinct : (xs : List Call) → Distinct (codes_of xs [])
codes_of-Distinct xs = (codes_of-New xs []).1

abbrev has : Option ℕ → Bool
has none = false
has (some c) = true

has-swap :
    (b a : Bool) (c : ℕ) (o : Option ℕ) → a || has (if b then some c else o) ≡ (b || a) || has o
has-swap true true c o = refl
has-swap true false c o = refl
has-swap false true c o = refl
has-swap false false c o = refl

has-calls :
    (d : ℕ) (xs : List Call) (pool : Pool_)
    → has (lookup d (calls xs pool)) ≡ among d (codes_of xs pool) || has (lookup d pool)
has-calls d [] pool = refl
has-calls d (x ∷ xs) pool = elim (call-Effect x pool) [
  | inl (e, f) ↦ rw (f, e) (has-calls d xs pool)
  | inr (c, n, e, f) ↦
      rw (f, e)
        (has-calls d xs (insert c c pool)
          ∙ ap (λ o. among d (codes_of xs (insert c c pool)) || has o) (lookup-insert c d c pool)
          ∙ has-swap (c == d) (among d (codes_of xs (insert c c pool))) c (lookup d pool))
]

-- What is answered where the code is in the pool or not.
abbrev pub verdict : Bool → Made → Option Made
verdict true made = none
verdict false made = some made

unless_there-verdict :
    (c : ℕ) (made : Made) (o : Option ℕ) (pool : Pool_)
    → (unless_there c made o pool).1 ≡ verdict (has o) made
unfolding unless_there
unless_there-verdict c made none pool = refl
unless_there-verdict c made (some d) pool = refl

or-false : (b : Bool) → b || false ≡ b
or-false true = refl
or-false false = refl

put_error-verdict :
    (er : Error) (c : ℕ) (msg : Bytes) (pool : Pool_)
    → (put_error er c msg pool).1
      ≡ verdict
          (not er.escape_pool && has (lookup c pool))
          (marshal er (record { code = c; message = msg }))
unfolding put_error
put_error-verdict er c msg pool = elim (Bool-cases er.escape_pool) [
  | inl e ↦ rw e refl
  | inr e ↦ rw e (unless_there-verdict c _ (lookup c pool) pool)
]

-- After any calls of Add, a call with a code of kind int or int32 panics exactly if its Error does not
-- escape the pool and the sum of the code and the Error's first, as an int32, is the code of an error
-- that was made through the pool before; otherwise it answers what marshal gives for that sum and its
-- message.
pub add_error-among :
    (xs : List Call) (er : Error) (code : Code) (n : ℕ) (msg : Bytes)
    → assert_code code ≡ some n
    → let c = (n + er.err_code) % 2 ^ 32 in
      (add_error er code msg (calls xs [])).1
      ≡ verdict
          (not er.escape_pool && among c (codes_of xs []))
          (marshal er (record { code = c; message = msg }))
unfolding add_error with_code lookup
add_error-among xs er code n msg e =
    let c : ℕ = (n + er.err_code) % 2 ^ 32 in
    rw e (
      put_error-verdict er c msg (calls xs [])
      ∙ ap
          (λ b. verdict (not er.escape_pool && b) (marshal er (record { code = c; message = msg })))
          (has-calls c xs [] ∙ or-false (among c (codes_of xs []))))
