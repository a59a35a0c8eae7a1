-- ===== src/Mask/Glob.antt =====
-- What a mask without exclusions means, with no order of search in it: every byte stands for
-- itself, and '*' for any run of bytes.
use mathlib.Core.List.{tail}
use go_toolkits.Base.{
  ℕ, ◌≡◌, refl, sym, ap, ◌∙◌, subst, ◌≢◌, ◌↔◌, ◌⊎◌, inl, inr, [], ◌∷◌, ◌++◌, append_assoc,
}
use go_toolkits.Base.Bytes.{Bytes}

abbrev pub star : ℕ
star = b'*'

pub data Glob : Bytes → Bytes → Type 0 where
  end : Glob [] []
  byte : {x c : ℕ} {p s : Bytes} → x ≢ star → x ≡ c → Glob p s → Glob (x ∷ p) (c ∷ s)
  run : {x : ℕ} {p s t : Bytes} (u : Bytes) → x ≡ star → t ≡ u ++ s → Glob p s → Glob (x ∷ p) t

module _ {p : Bytes} where
  pub run_none : {s : Bytes} → Glob p s → Glob (star ∷ p) s
  run_none d = run [] refl refl d

  pub run_one : (c : ℕ) {s : Bytes} → Glob (star ∷ p) s → Glob (star ∷ p) (c ∷ s)
  run_one c (byte n e d) = absurd (n refl)
  run_one c (run u e q d) = run (c ∷ u) e (ap (λ t. c ∷ t) q) d

  pub run_all : (u : Bytes) {s : Bytes} → Glob p s → Glob (star ∷ p) (u ++ s)
  run_all u d = run u refl refl d

  pub run_end : {x : ℕ} → x ≡ star → Glob (x ∷ p) [] → Glob p []
  run_end e (run [] _ q d) = subst (Glob p) (sym q) d
  run_end e (run (c ∷ u) _ q d) = cc

  -- A star takes no byte, or the first and then more.
  pub run_split : (s : Bytes) → Glob (star ∷ p) s ↔ (Glob p s ⊎ Glob (star ∷ p) (tail s))
  run_split [] = (λ d. inl (run_end refl d), elim [ inl d ↦ run_none d | inr d ↦ d ])
  run_split (c ∷ s) = (to, elim [ inl d ↦ run_none d | inr d ↦ run_one c d ])
    where
      cut : (u v : Bytes) → c ∷ s ≡ u ++ v → Glob p v → Glob p (c ∷ s) ⊎ Glob (star ∷ p) s
      cut [] v q d = inl (subst (Glob p) (sym q) d)
      cut (b ∷ u) v q d = inr (run u refl (ap tail q) d)

      to : Glob (star ∷ p) (c ∷ s) → Glob p (c ∷ s) ⊎ Glob (star ∷ p) s
      to (byte n e d) = absurd (n refl)
      to (run u e q d) = cut u _ q d

  pub byte_inv : {x c : ℕ} {s : Bytes} → x ≢ star → Glob (x ∷ p) (c ∷ s) → (x ≡ c) × Glob p s
  byte_inv n (byte _ e d) = (e, d)
  byte_inv n (run u e q d) = absurd (n e)

  pub byte_end : {x : ℕ} → x ≢ star → ¬ Glob (x ∷ p) []
  byte_end n (run u e q d) = n e

  pub run_twice : {x : ℕ} {s : Bytes} → x ≡ star → Glob (star ∷ x ∷ p) s → Glob (star ∷ p) s
  run_twice {x} e (byte n _ d) = absurd (n refl)
  run_twice {x} {s} e (run u _ q d) = inner d q
    where
      inner : {v : Bytes} → Glob (x ∷ p) v → s ≡ u ++ v → Glob (star ∷ p) s
      inner (byte n _ _) _ = absurd (n e)
      inner (run w _ r d') q' =
          run (u ++ w) refl (q' ∙ ap (λ t. u ++ t) r ∙ sym (append_assoc u w _)) d'

  -- Wherever the byte x was found after the star, p goes on after the first byte at the latest.
  pub run_byte : {x c : ℕ} (s : Bytes) → x ≢ star → Glob (star ∷ x ∷ p) (c ∷ s) → Glob (star ∷ p) s
  run_byte s n (byte m _ _) = absurd (m refl)
  run_byte {x} {c} s n (run u _ q d) = found u d q
    where
      found : (u : Bytes) {v : Bytes} → Glob (x ∷ p) v → c ∷ s ≡ u ++ v → Glob (star ∷ p) s
      found u (run _ e _ _) q' = absurd (n e)
      found [] (byte _ e d') q' = run [] refl (ap tail q') d'
      found (b ∷ u) (byte {c = y} {s = r} _ e d') q' =
          run (u ++ y ∷ []) refl (ap tail q' ∙ sym (append_assoc u (y ∷ []) r)) d'
