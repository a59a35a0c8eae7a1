-- ===== src/Mask/Loop/Decides.antt =====
-- The loop of matchIterative, against the meaning of masks in Mask/Glob.antt.
use mathlib.Core.List.{tail}
use go_toolkits.Base.{
  ℕ, zero, suc, ◌+◌, ◌*◌, ◌≤◌, ◌<◌, ◌≡◌, refl, sym, subst, by_test, ◌≢◌, ◌↔◌, ◌⊎◌, inl, inr, Bool,
  true, false, Option, none, some, [], ◌∷◌, arith, ◌==◌, ==_iff, length, Bool-cases,
}
use go_toolkits.Base.Bytes.{Bytes}
use go_toolkits.Mask.Glob.{
  star, Glob, end, byte, run, run_one, run_end, run_split, byte_inv, byte_end, run_twice, run_byte,
}
use go_toolkits.Mask.Loop.{
  Back, Round, go_back, only_stars, match_loop, answer, run_match, match_iterative,
}

-- The run ended, and its answer is right about G.
abbrev Decides : Type 0 → Option Bool → Type 0
Decides G none = ⊥
Decides G (some true) = G
Decides G (some false) = ¬ G

Decides-of_iff : {G H : Type 0} (r : Option Bool) → G ↔ H → Decides G r → Decides H r
Decides-of_iff none e d = d
Decides-of_iff (some true) e d = e.0 d
Decides-of_iff (some false) e d = λ h. d (e.1 h)

Decides-of_test : {G : Type 0} (b : Bool) → (b ≡ true) ↔ G → Decides G (some b)
Decides-of_test true e = e.0 refl
Decides-of_test false e = λ g. cc (e.1 g)

only_stars_iff : (p : Bytes) → (only_stars p ≡ true) ↔ Glob p []
unfolding only_stars
only_stars_iff [] = (λ _. end, λ _. refl)
only_stars_iff (x ∷ p) = elim (Bool-cases (x == star)) [
  | inl hit ↦ rw hit (
    λ h. run [] ((==_iff x star).0 hit) refl ((only_stars_iff p).0 h),
    λ d. (only_stars_iff p).1 (run_end ((==_iff x star).0 hit) d),
  )
  | inr miss ↦ rw miss ((λ h. cc), λ d. absurd (byte_end (ground arith) d))
]

-- What the retries can still find.
abbrev Pending : Back → Type 0
Pending none = ⊥
Pending (some (value, expr)) = Glob (star ∷ expr) (tail value)

abbrev Sizes : ℕ → ℕ → Bytes → Back → Type 0
Sizes m k value none = length value ≤ m
Sizes m k value (some (v, e)) = (length value ≤ length v) × (length v ≤ m) × (length e < k)

record Inv (f m k : ℕ) (value expr : Bytes) (back : Back) : Type 0 where
  later : Pending back → Glob (star ∷ expr) value
  sizes : Sizes m k value back
  short : length expr < k
  fuel : m * k + length expr < f

abbrev Right : Bytes → Bytes → Back → Option Bool → Type 0
Right value expr back = Decides (Glob expr value ⊎ Pending back)

abbrev Rounds : ℕ → ℕ → Round → Type 0
Rounds f k next =
    (m : ℕ) (value expr : Bytes) (back : Back)
    → Inv f m k value expr back
    → Right value expr back (next value expr back)

-- After a mismatch only the retries are left, and the next of them has a shorter text.
go_back-Right :
    {f m k c : ℕ} {value expr : Bytes} (back : Back) (next : Round)
    → Rounds f k next
    → Inv (suc f) m k (c ∷ value) expr back
    → ¬ Glob expr (c ∷ value)
    → Right (c ∷ value) expr back (go_back back next)
unfolding go_back
go_back-Right none next ih i miss = elim [ inl d ↦ miss d | inr e ↦ e ]
go_back-Right (some ([], e)) next ih i miss = absurd (omega (arith, i.sizes))
go_back-Right {m = zero} (some (b ∷ v, e)) next ih i miss = absurd (omega (arith, i.sizes))
go_back-Right {m = suc m} (some (b ∷ v, e)) next ih i miss =
    Decides-of_iff (next v e (some (v, e)))
      (λ d. inr ((run_split v).1 d), elim [ inl d ↦ absurd (miss d) | inr d ↦ (run_split v).0 d ])
      (ih m v e (some (v, e)) (record {
        later = λ d. (run_split v).1 (inr d);
        sizes = omega (arith, i.sizes);
        short = omega (arith, i.sizes);
        fuel = omega arith;
      }))

-- A star opens a new place to retry from, which finds all that the old ones could.
star-Inv :
    {f m k c x : ℕ} {value expr : Bytes} (back : Back)
    → Inv (suc f) m k (c ∷ value) (x ∷ expr) back
    → Inv f m k (c ∷ value) expr (some (c ∷ value, expr))
star-Inv {c} none i = record {
  later = run_one c;
  sizes = omega arith;
  short = omega arith;
  fuel = omega arith;
}
star-Inv {c} (some (v, e)) i = record {
  later = run_one c;
  sizes = omega arith;
  short = omega arith;
  fuel = omega arith;
}

star-Right :
    {x c : ℕ} {value expr : Bytes} (back : Back) (r : Option Bool)
    → x ≡ star
    → (Pending back → Glob (star ∷ x ∷ expr) (c ∷ value))
    → Right (c ∷ value) expr (some (c ∷ value, expr)) r
    → Right (c ∷ value) (x ∷ expr) back r
star-Right {x} {c} {value} {expr} back r e later = Decides-of_iff r (to, from)
  where
    as_star : Glob (x ∷ expr) (c ∷ value) ↔ Glob (star ∷ expr) (c ∷ value)
    as_star = (
      λ d. subst (λ y. Glob (y ∷ expr) (c ∷ value)) e d,
      λ d. subst (λ y. Glob (y ∷ expr) (c ∷ value)) (sym e) d,
    )

    to :
        Glob expr (c ∷ value) ⊎ Glob (star ∷ expr) value
        → Glob (x ∷ expr) (c ∷ value) ⊎ Pending back
    to d = inl (as_star.1 ((run_split (c ∷ value)).1 d))

    from :
        Glob (x ∷ expr) (c ∷ value) ⊎ Pending back
        → Glob expr (c ∷ value) ⊎ Glob (star ∷ expr) value
    from (inl d) = (run_split (c ∷ value)).0 (as_star.0 d)
    from (inr d) = (run_split (c ∷ value)).0 (run_twice e (later d))

byte-Inv :
    {f m k c x : ℕ} {value expr : Bytes} (back : Back)
    → x ≢ star
    → Inv (suc f) m k (c ∷ value) (x ∷ expr) back
    → Inv f m k value expr back
byte-Inv {value} none n i = record {
  later = λ d. absurd d;
  sizes = omega arith;
  short = omega arith;
  fuel = omega arith;
}
byte-Inv {value} (some (v, e)) n i = record {
  later = λ d. run_byte value n (i.later d);
  sizes = omega (arith, i.sizes);
  short = omega arith;
  fuel = omega arith;
}

byte-Right :
    {x c : ℕ} (value expr : Bytes) (back : Back) (r : Option Bool)
    → x ≢ star
    → x ≡ c
    → Right value expr back r
    → Right (c ∷ value) (x ∷ expr) back r
byte-Right value expr back r n e = Decides-of_iff r (
  elim [ inl d ↦ inl (byte n e d) | inr d ↦ inr d ],
  elim [ inl d ↦ inl (byte_inv n d).1 | inr d ↦ inr d ],
)

end-Right :
    (expr : Bytes) (back : Back)
    → (Pending back → Glob (star ∷ expr) [])
    → Right [] expr back (some (only_stars expr))
end-Right expr back later = Decides-of_test (only_stars expr) (
  λ h. inl ((only_stars_iff expr).0 h),
  elim [
    | inl d ↦ (only_stars_iff expr).1 d
    | inr d ↦ (only_stars_iff expr).1 (run_end refl (later d))
  ],
)

match_loop-Right : (f k : ℕ) → Rounds f k (match_loop f)
unfolding match_loop
match_loop-Right zero k m value expr back i = absurd (omega arith)
match_loop-Right (suc f) k m [] expr back i = end-Right expr back i.later
match_loop-Right (suc f) k m (c ∷ value) [] back i =
    go_back-Right back (match_loop f) (match_loop-Right f k) i (λ d. elim d [ ])
match_loop-Right (suc f) k m (c ∷ value) (x ∷ expr) back i =
    by_test (Right (c ∷ value) (x ∷ expr) back) (x == star)
      (λ hit.
        star-Right back _ ((==_iff x star).0 hit) i.later
          (match_loop-Right f k m (c ∷ value) expr _ (star-Inv back i)))
      λ miss.
        by_test (Right (c ∷ value) (x ∷ expr) back) (x == c)
          (λ hit.
            byte-Right value expr back _ (ground arith) ((==_iff x c).0 hit)
              (match_loop-Right f k m value expr back (byte-Inv back (ground arith) i)))
          λ other.
            go_back-Right back (match_loop f) (match_loop-Right f k) i
              (λ d. absurd (ground (arith, (byte_inv (ground arith) d).0)))

pub run_match-Decides : (value expr : Bytes) → Decides (Glob expr value) (run_match value expr)
unfolding run_match
run_match-Decides value expr =
    Decides-of_iff (match_loop ((length value + 1) * (length expr + 1)) value expr none)
      (elim [ inl d ↦ d | inr e ↦ absurd e ], inl)
      (match_loop-Right _ (length expr + 1) (length value) value expr none (record {
        later = λ d. absurd d;
        sizes = omega arith;
        short = omega arith;
        fuel = omega arith;
      }))

-- The loop ends within (len(value) + 1) * (len(expr) + 1) rounds.
pub run_match_total : (value expr : Bytes) → run_match value expr ≢ none
run_match_total value expr h = subst (Decides (Glob expr value)) h (run_match-Decides value expr)

answer_iff : {G : Type 0} (r : Option Bool) → Decides G r → (answer r ≡ true) ↔ G
answer_iff none d = absurd d
answer_iff (some true) d = (λ _. d, λ _. refl)
answer_iff (some false) d = ((λ h. cc), λ g. absurd (d g))

-- matchIterative answers true on exactly the texts that the mask stands for.
pub match_iterative_iff :
    (value expr : Bytes) → (match_iterative value expr ≡ true) ↔ Glob expr value
unfolding match_iterative
match_iterative_iff value expr = answer_iff (run_match value expr) (run_match-Decides value expr)
