-- ===== src/Mask/Many.antt =====
-- Match of utils/utils.go, against what a list of masks means.
use go_toolkits.Base.{
  ◌≡◌, refl, sym, ◌∙◌, Bool-cases, ◌≢◌, ◌↔◌, ◌⊎◌, inl, inr, Bool, true, false, Option, none, some,
  List, [], ◌∷◌, ◌++◌, map, arith, ◌==◌, ==_iff, by_if, Any,
}
use go_toolkits.Base.Bytes.{Bytes, split, split_from}
use go_toolkits.Mask.Single.{Fits, match_single_iff}
use go_toolkits.Mask.{match_single, trim, check_mask, match_masks, match}

-- The masks of a pattern, those that are empty included.
abbrev pub masks : Bytes → List Bytes
masks pattern = map trim (split b',' pattern)

-- What one mask lets through, and what it shuts out.
abbrev pub Includes : Bytes → Bytes → Type 0
Includes value [] = ⊥
Includes value (c ∷ mask) = (c ≢ b'!') × Fits value (c ∷ mask)

abbrev pub Excludes : Bytes → Bytes → Type 0
Excludes value [] = ⊥
Excludes value (c ∷ mask) = (c ≡ b'!') × Fits value mask

module _ (value : Bytes) where
  -- What is to be shown of an answer, where `found` was set before the masks that are left.
  abbrev Passes : Bool → List Bytes → Type 0
  Passes found ms = ((found ≡ true) ⊎ Any (Includes value) ms) × (¬ Any (Excludes value) ms)

  abbrev Checked : Bool → Bytes → Option Bool → Type 0
  Checked found mask none = Excludes value mask
  Checked found mask (some found') =
      (¬ Excludes value mask) × ((found' ≡ true) ↔ ((found ≡ true) ⊎ Includes value mask))

  no_fit : (mask : Bytes) → match_single value mask ≡ false → ¬ Fits value mask
  no_fit mask miss fit = cc (sym miss ∙ (match_single_iff value mask).1 fit)

  check_mask-Checked :
      (found : Bool) (mask : Bytes) → Checked found mask (check_mask value found mask)
  unfolding check_mask
  check_mask-Checked found [] = ((λ e. e), (inl, elim [ inl h ↦ h | inr e ↦ absurd e ]))
  check_mask-Checked found (c ∷ mask) =
      by_if (Checked found (c ∷ mask)) (c == b'!')
        (λ bang.
          by_if (Checked found (c ∷ mask)) (match_single value mask)
            (λ hit. ((==_iff c b'!').0 bang, (match_single_iff value mask).0 hit))
            λ miss. (
              (λ e. no_fit mask miss e.1),
              (inl, elim [ inl h ↦ h | inr i ↦ absurd (i.0 ((==_iff c b'!').0 bang)) ]),
            ))
        λ plain.
          by_if (Checked found (c ∷ mask)) (match_single value (c ∷ mask))
            (λ hit. (
              (λ e. ground (arith, e.0)),
              ((λ _. inr (ground arith, (match_single_iff value (c ∷ mask)).0 hit)), λ _. refl),
            ))
            λ miss. (
              (λ e. ground (arith, e.0)),
              (inl, elim [ inl h ↦ h | inr i ↦ absurd (no_fit (c ∷ mask) miss i.1) ]),
            )

  -- One mask in front of those that `k` goes on with.
  Passes-step :
      (found : Bool) (mask : Bytes) (ms : List Bytes) (r : Option Bool) (k : Bool → Bool)
      → Checked found mask r
      → ((f : Bool) → (k f ≡ true) ↔ Passes f ms)
      → (elim r [ none ↦ false | some f ↦ k f ] ≡ true) ↔ Passes found (mask ∷ ms)
  Passes-step found mask ms none k c g = ((λ h. cc), λ p. absurd (p.1 (inl c)))
  Passes-step found mask ms (some f) k (clean, (to, from)) g = (
    λ h.
        let (some_of, none_of) = (g f).0 h in
        (
          elim some_of [
            | inl e ↦ elim (to e) [ inl e' ↦ inl e' | inr i ↦ inr (inl i) ]
            | inr a ↦ inr (inr a)
          ],
          elim [ inl x ↦ clean x | inr a ↦ none_of a ],
        ),
    λ (some_of, none_of). (g f).1 (
      elim some_of [
        | inl e ↦ inl (from (inl e))
        | inr a ↦ elim a [ inl i ↦ inl (from (inr i)) | inr a' ↦ inr a' ]
      ],
      λ a. none_of (inr a),
    ),
  )

  Passes-end : (f : Bool) → (f ≡ true) ↔ Passes f []
  Passes-end f = (λ h. (inl h, λ e. e), λ p. elim p.0 [ inl h ↦ h | inr e ↦ absurd e ])

  match_masks_iff :
      (token pattern : Bytes) (found : Bool)
      → (match_masks value token pattern found ≡ true)
        ↔ Passes found (map trim (split_from b',' token pattern))
  unfolding match_masks split_from
  match_masks_iff token [] found =
      Passes-step found (trim token) [] (check_mask value found (trim token)) (λ f. f)
        (check_mask-Checked found (trim token)) Passes-end
  match_masks_iff token (c ∷ pattern) found = elim (Bool-cases (c == b',')) [
    | inl comma ↦
        rw (comma, match_masks, split_from)
          (Passes-step found (trim token) _ (check_mask value found (trim token)) _
            (check_mask-Checked found (trim token)) (match_masks_iff [] pattern))
    | inr other ↦
        rw (other, match_masks, split_from) (match_masks_iff (token ++ c ∷ []) pattern found)
  ]

Includes-nil : (mask : Bytes) → ¬ Includes [] mask
Includes-nil [] i = i
Includes-nil (c ∷ mask) i = i.1.0 refl

Any-Includes-nil : (ms : List Bytes) → ¬ Any (Includes []) ms
Any-Includes-nil [] a = a
Any-Includes-nil (mask ∷ ms) (inl i) = Includes-nil mask i
Any-Includes-nil (mask ∷ ms) (inr a) = Any-Includes-nil ms a

Passes-start :
    (value : Bytes) (ms : List Bytes)
    → Passes value false ms ↔ (Any (Includes value) ms × (¬ Any (Excludes value) ms))
Passes-start value ms = (λ p. (elim p.0 [ inl h ↦ (cc) | inr a ↦ a ], p.1), λ q. (inr q.0, q.1))

-- Match answers true exactly where some mask of the comma-separated pattern lets the value through
-- and none with a '!' shuts it out; masks are read without the spaces at their ends.
pub match_iff :
    (value pattern : Bytes)
    → (match value pattern ≡ true)
      ↔ (Any (Includes value) (masks pattern) × (¬ Any (Excludes value) (masks pattern)))
unfolding match trim split
match_iff [] [] = ((λ h. cc), λ q. absurd (Any-Includes-nil (masks []) q.0))
match_iff [] (c ∷ pattern) = ((λ h. cc), λ q. absurd (Any-Includes-nil (masks (c ∷ pattern)) q.0))
match_iff (b ∷ value) [] = ((λ h. cc), λ q. elim q.0 [ inl i ↦ absurd i | inr a ↦ absurd a ])
match_iff (b ∷ value) (c ∷ pattern) =
    let m = match_masks_iff (b ∷ value) [] (c ∷ pattern) false in
    let p = Passes-start (b ∷ value) (masks (c ∷ pattern)) in (λ h. p.0 (m.0 h), λ q. m.1 (p.1 q))
