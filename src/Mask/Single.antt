-- ===== src/Mask/Single.antt =====
-- MatchSingle of utils/utils.go: each fast path against the meaning of masks.
use go_toolkits.Base.{
  ℕ, ◌≡◌, refl, sym, ap, subst, ◌∙◌, ◌≢◌, ◌↔◌, Bool, true, false, not, [], ◌∷◌, ◌++◌, append-nil,
  arith, by_if,
}
use go_toolkits.Base.Bytes.{Bytes, same, same_iff, has_prefix, has_suffix, contains, contains_byte}
use go_toolkits.Base.Bytes.Search.{has_prefix_iff, has_suffix_iff, contains_iff}
use go_toolkits.Mask.Glob.{star, Glob, end, byte, run}
use go_toolkits.Mask.Loop.Decides.{match_iterative_iff}
use go_toolkits.Mask.{
  rest, front, star_text, is_infix, is_suffix, is_prefix, fast_paths, match_single,
}

-- No '*' in the bytes.
abbrev pub Plain : Bytes → Type 0
Plain t = contains_byte t star ≡ false

Glob-plain→ : (t p s : Bytes) → Plain t → Glob (t ++ p) s → (v : Bytes) × (s ≡ t ++ v) × Glob p v
unfolding contains_byte
Glob-plain→ [] p s n d = (s, refl, d)
Glob-plain→ (x ∷ t) p s n (byte {c} {s = r} _ e d) =
    let (v, q, g) = Glob-plain→ t p r (ground arith) d in (v, ground arith, g)
Glob-plain→ (x ∷ t) p s n (run u e q d) = absurd (ground arith)

Glob-plain : (t p v : Bytes) → Plain t → Glob p v → Glob (t ++ p) (t ++ v)
unfolding contains_byte
Glob-plain [] p v n d = d
Glob-plain (x ∷ t) p v n d = byte (ground arith) refl (Glob-plain t p v (ground arith) d)

pub Glob-any : (s : Bytes) → Glob star_text s
Glob-any s = run s refl (sym (append-nil s)) end

Glob-end_inv : {s : Bytes} → Glob [] s → s ≡ []
Glob-end_inv end = refl

run_inv : {p s : Bytes} → Glob (star ∷ p) s → (u : Bytes) × (v : Bytes) × (s ≡ u ++ v) × Glob p v
run_inv (byte n _ _) = absurd (n refl)
run_inv (run {s = v} u _ q d) = (u, v, q, d)

pub same-Plain : (value t : Bytes) → Plain t → (same value t ≡ true) ↔ Glob t value
same-Plain value t n = (
  λ h.
      rw ((same_iff value t).0 h) (subst (λ r. Glob r r) (append-nil t) (Glob-plain t [] [] n end)),
  λ d.
      let (v, e, g) = Glob-plain→ t [] value n (subst (λ r. Glob r value) (sym (append-nil t)) d) in
      (same_iff value t).1 (e ∙ ap (λ r. t ++ r) (Glob-end_inv g) ∙ append-nil t),
)

pub prefix_iff :
    (value t : Bytes) → Plain t → (has_prefix value t ≡ true) ↔ Glob (t ++ star_text) value
prefix_iff value t n = (
  λ h. let (v, e) = (has_prefix_iff value t).0 h in rw e (Glob-plain t star_text v n (Glob-any v)),
  λ d. let (v, e, _) = Glob-plain→ t star_text value n d in (has_prefix_iff value t).1 (v, e),
)

pub suffix_iff : (value t : Bytes) → Plain t → (has_suffix value t ≡ true) ↔ Glob (star ∷ t) value
suffix_iff value t n = (
  λ h.
      let (u, e) = (has_suffix_iff value t).0 h in
      run u refl e ((same-Plain t t n).0 ((same_iff t t).1 refl)),
  λ d.
      let (u, v, e, g) = run_inv d in
      (has_suffix_iff value t).1
        (u, e ∙ ap (λ r. u ++ r) ((same_iff v t).0 ((same-Plain v t n).1 g))),
)

pub infix_iff :
    (value t : Bytes) → Plain t → (contains value t ≡ true) ↔ Glob (star ∷ t ++ star_text) value
infix_iff value t n = (
  λ h.
      let (u, v, e) = (contains_iff value t).0 h in
      run u refl e (Glob-plain t star_text v n (Glob-any v)),
  λ d.
      let (u, w, e, g) = run_inv d in
      let (v, q, _) = Glob-plain→ t star_text w n g in
      (contains_iff value t).1 (u, v, e ∙ ap (λ r. u ++ r) q),
)

leads : (expr : Bytes) → has_prefix expr star_text ≡ true → expr ≡ star ∷ rest expr
unfolding has_prefix
leads [] h = cc
leads (c ∷ s) h = ground arith

front-append : (u : Bytes) (c : ℕ) → front (u ++ c ∷ []) ≡ u
unfolding front
front-append [] c = refl
front-append (b ∷ []) c = refl
front-append (b ∷ d ∷ u) c = ap (λ r. b ∷ r) (front-append (d ∷ u) c)

closes : (expr : Bytes) → has_suffix expr star_text ≡ true → expr ≡ front expr ++ star_text
closes expr h =
    let (u, e) = (has_suffix_iff expr star_text).0 h in
    rw e (ap (λ r. r ++ star_text) (sym (front-append u star)))

encloses :
    (expr : Bytes)
    → same expr star_text ≡ false
    → has_prefix expr star_text ≡ true
    → has_suffix expr star_text ≡ true
    → expr ≡ star ∷ front (rest expr) ++ star_text
unfolding same front
encloses [] n p q = cc (leads [] p)
encloses (c ∷ []) n p q = absurd (ground (arith, leads (c ∷ []) p))
encloses (c ∷ d ∷ s) n p q = ground (arith, leads (c ∷ d ∷ s) p, closes (c ∷ d ∷ s) q)

-- What MatchSingle decides.
abbrev pub Fits : Bytes → Bytes → Type 0
Fits value expr = (value ≢ []) × (expr ≢ []) × Glob expr value

module _ (value expr : Bytes) where
  abbrev Tells : Bool → Type 0
  Tells b = (b ≡ true) ↔ Glob expr value

  Tells-as : {p : Bytes} {b : Bool} → expr ≡ p → (b ≡ true) ↔ Glob p value → Tells b
  Tells-as e t = rw e t

  fast_paths_iff : Tells (fast_paths value expr)
  unfolding fast_paths
  fast_paths_iff =
      by_if Tells (same expr star_text)
        (λ h. (λ _. rw ((same_iff expr star_text).0 h) (Glob-any value), λ _. refl))
        λ other.
          by_if Tells (not (contains_byte expr star)) (λ h. same-Plain value expr (ground arith))
            λ _.
              by_if Tells (is_infix expr)
                (λ h.
                  Tells-as (encloses expr other (ground arith) (ground arith))
                    (infix_iff value (front (rest expr)) (ground arith)))
                λ _.
                  by_if Tells (is_suffix expr)
                    (λ h.
                      Tells-as (leads expr (ground arith))
                        (suffix_iff value (rest expr) (ground arith)))
                    λ _.
                      by_if Tells (is_prefix expr)
                        (λ h.
                          Tells-as (closes expr (ground arith))
                            (prefix_iff value (front expr) (ground arith)))
                        λ _. match_iterative_iff value expr

-- MatchSingle answers true on exactly the texts that are not empty and that a mask which is not
-- empty stands for, whichever of its paths decides.
pub match_single_iff : (value expr : Bytes) → (match_single value expr ≡ true) ↔ Fits value expr
unfolding match_single
match_single_iff [] [] = ((λ h. cc), λ f. absurd (f.0 refl))
match_single_iff (c ∷ value) [] = ((λ h. cc), λ f. absurd (f.1 refl))
match_single_iff [] (x ∷ expr) = ((λ h. cc), λ f. absurd (f.0 refl))
match_single_iff (c ∷ value) (x ∷ expr) = (
  λ h. ((λ e. cc), (λ e. cc), (fast_paths_iff (c ∷ value) (x ∷ expr)).0 h),
  λ f. (fast_paths_iff (c ∷ value) (x ∷ expr)).1 f.2,
)
