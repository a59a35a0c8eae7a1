-- ===== src/Apptools/Builder/Cleanup.antt =====
-- apptools/builder.go: what a Build that succeeds cleans up, and what one that fails leaves.
use go_toolkits.Base.{
  ℕ, zero, suc, ◌≡◌, refl, sym, ◌∙◌, ap, Option, none, some, List, [], ◌∷◌, ◌++◌, map, get_elem?,
  length, append-nil, append_assoc, ◌⊎◌, inl, inr, Option-cases,
}
use go_toolkits.Apptools.Builder.{
  Made, made, refuses, Builder, built, fails, Step, makes, optional, first_error, early_steps,
  factories, make_all, behind_early, build, clean_down, cleanup,
}

-- The calls of a list's cleanups, the last one first.
abbrev pub backwards : List ℕ → List (Option ℕ)
backwards [] = []
backwards (c ∷ cs) = backwards cs ++ some c ∷ []

clean_down-suc :
    (c : ℕ) (cs : List ℕ) (i : ℕ) → clean_down (c ∷ cs) (suc i) ≡ clean_down cs i ++ some c ∷ []
unfolding clean_down
clean_down-suc c cs zero = refl
clean_down-suc c cs (suc i) = ap (λ r. get_elem? cs i ∷ r) (clean_down-suc c cs i)

cleanup-backwards : (cs : List ℕ) → cleanup cs ≡ backwards cs
unfolding cleanup clean_down
cleanup-backwards [] = refl
cleanup-backwards (c ∷ cs) =
    clean_down-suc c cs (length cs) ∙ ap (λ r. r ++ some c ∷ []) (cleanup-backwards cs)

-- The cleanups that these factories give, where none of them gives an error.
abbrev pub all_made : {E : Type 0} → List (Made E) → Option (List ℕ)
all_made [] = some []
all_made (made c ∷ fs) = elim (all_made fs) [ some cs ↦ some (c ∷ cs) | none ↦ none ]
all_made (refuses e ∷ fs) = none

module _ {E : Type 0} where
  make_all-built :
      (gops : Option E) (steps : List Step) (before : List ℕ) (fs : List (Made E)) (cs : List ℕ)
      → (make_all gops steps before fs).1 ≡ built cs
      → (ds : List ℕ) × (all_made fs ≡ some ds) × (cs ≡ before ++ ds)
  unfolding make_all
  make_all-built none steps before [] cs h =
      let e : cs ≡ before = cc in ([], refl, e ∙ sym (append-nil before))
  make_all-built (some e) steps before [] cs h = cc
  make_all-built gops steps before (made c ∷ fs) cs h =
      let (ds, e, k) = make_all-built gops (steps ++ makes c ∷ []) (before ++ c ∷ []) fs cs h in
      (c ∷ ds, rw e refl, k ∙ append_assoc before (c ∷ []) ds)
  make_all-built gops steps before (refuses e ∷ fs) cs h = cc

  -- Where Build succeeds, no factory gave an error, and its cleanup function calls the cleanup of each
  -- factory, that of the last one first.
  pub build-cleanup :
      (b : Builder E) (cs : List ℕ)
      → (build b).1 ≡ built cs
      → (ds : List ℕ) × (all_made (factories b) ≡ some ds) × (cleanup cs ≡ backwards ds)
  unfolding build
  build-cleanup b cs h = elim (Option-cases (first_error (early_steps b))) [
    | inl e ↦
        let (ds, m, k) =
          make_all-built _ [] [] (factories b) cs (sym (ap (λ o. (behind_early o b).1) e) ∙ h) in
        (ds, m, ap cleanup k ∙ cleanup-backwards ds)
    | inr (x, e) ↦ let no : fails x ≡ built cs = sym (ap (λ o. (behind_early o b).1) e) ∙ h in cc
  ]

  -- What gave the error: a factory, of which the ones behind it are left, or gops behind them all.
  abbrev pub Cause : Option E → List (Made E) → E → Type 0
  Cause gops left e =
      ((left ≡ []) × (gops ≡ some e)) ⊎ ((fs : List (Made E)) × (left ≡ refuses e ∷ fs))

  make_all-fails :
      (gops : Option E) (steps : List Step) (before : List ℕ) (fs : List (Made E)) (e : E)
      → (make_all gops steps before fs).1 ≡ fails e
      → (ds : List ℕ) × (left : List (Made E)) × ((make_all gops steps before fs).0
          ≡ steps ++ map makes ds)
        × (fs ≡ map made ds ++ left)
        × Cause gops left e
  unfolding make_all
  make_all-fails none steps before [] e h = cc
  make_all-fails (some x) steps before [] e h =
      let same_e : x ≡ e = cc in ([], [], sym (append-nil steps), refl, inl (refl, ap some same_e))
  make_all-fails gops steps before (made c ∷ fs) e h =
      let (ds, left, t, f, cause) =
        make_all-fails gops (steps ++ makes c ∷ []) (before ++ c ∷ []) fs e h in
      (
        c ∷ ds,
        left,
        t ∙ append_assoc steps (makes c ∷ []) (map makes ds),
        ap (λ r. made c ∷ r) f,
        cause,
      )
  make_all-fails gops steps before (refuses x ∷ fs) e h =
      let same_e : x ≡ e = cc in
      ([], refuses x ∷ fs, sym (append-nil steps), refl, inr (fs, ap (λ y. refuses y ∷ fs) same_e))

  -- Where Build fails, whatever gave the error, no cleanup is called in it, though the factories before
  -- the error, none of them if a step before the factories gave it, have made what they make.
  pub build-fails :
      (b : Builder E) (e : E)
      → (build b).1 ≡ fails e
      → (ds : List ℕ) × (left : List (Made E)) × ((build b).0 ≡ map makes ds)
        × (factories b ≡ map made ds ++ left)
        × (((ds ≡ []) × (first_error (early_steps b) ≡ some e))
            ⊎ Cause (first_error (optional b.gops)) left e)
  unfolding build
  build-fails b e h = elim (Option-cases (first_error (early_steps b))) [
    | inl none_ ↦
        let (ds, left, t, f, cause) =
          make_all-fails _ [] [] (factories b) e (sym (ap (λ o. (behind_early o b).1) none_) ∙ h) in
        (ds, left, ap (λ o. (behind_early o b).0) none_ ∙ t, f, inr cause)
    | inr (x, early) ↦
        let same_e : fails x ≡ fails e = sym (ap (λ o. (behind_early o b).1) early) ∙ h in
        let again : x ≡ e = cc in
        (
          [],
          factories b,
          ap (λ o. (behind_early o b).0) early,
          refl,
          inl (refl, early ∙ ap some again),
        )
  ]
