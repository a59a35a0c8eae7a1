-- ===== src/Cli/Names.antt =====
-- cli/cli.go: what FormatStrings makes of its strings.
use go_toolkits.Base.{ℕ, ◌≡◌, refl, sym, ◌∙◌, ap, List, [], ◌∷◌, ◌++◌, append_assoc}
use go_toolkits.Base.Bytes.{Bytes}
use go_toolkits.Cli.{format_from, format_strings}

-- The strings that are not empty.
abbrev pub present : List Bytes → List Bytes
present [] = []
present ([] ∷ strs) = present strs
present ((c ∷ s) ∷ strs) = (c ∷ s) ∷ present strs

-- strings.Join(s :: strs, "-")
abbrev pub joined : Bytes → List Bytes → Bytes
joined s [] = s
joined s (t ∷ strs) = s ++ b'-' ∷ joined t strs

-- strings.Join(strs, "-")
abbrev pub join : List Bytes → Bytes
join [] = []
join (s ∷ strs) = joined s strs

joined-append : (s t : Bytes) (strs : List Bytes) → joined (s ++ t) strs ≡ s ++ joined t strs
joined-append s t [] = refl
joined-append s t (u ∷ strs) = append_assoc s t (b'-' ∷ joined u strs)

pub format_from-joined :
    (c : ℕ) (str : Bytes) (strs : List Bytes)
    → format_from (c ∷ str) strs ≡ joined (c ∷ str) (present strs)
unfolding format_from
format_from-joined c str [] = refl
format_from-joined c str ([] ∷ strs) = format_from-joined c str strs
format_from-joined c str ((d ∷ s) ∷ strs) =
    format_from-joined c (str ++ b'-' ∷ d ∷ s) strs
    ∙ joined-append (c ∷ str) (b'-' ∷ d ∷ s) (present strs)
    ∙ ap (λ r. (c ∷ str) ++ r) (joined-append (b'-' ∷ []) (d ∷ s) (present strs))

-- FormatStrings gives the strings that are not empty, with a dash between each two of them.
pub format_strings-join : (strs : List Bytes) → format_strings strs ≡ join (present strs)
unfolding format_strings format_from
format_strings-join [] = refl
format_strings-join ([] ∷ strs) = format_strings-join strs
format_strings-join ((c ∷ s) ∷ strs) = format_from-joined c s strs

present-append : (xs ys : List Bytes) → present (xs ++ ys) ≡ present xs ++ present ys
present-append [] ys = refl
present-append ([] ∷ xs) ys = present-append xs ys
present-append ((c ∷ s) ∷ xs) ys = ap (λ r. (c ∷ s) ∷ r) (present-append xs ys)

joined-split :
    (s : Bytes) (xs : List Bytes) (t : Bytes) (ys : List Bytes)
    → joined s (xs ++ t ∷ ys) ≡ joined s xs ++ b'-' ∷ joined t ys
joined-split s [] t ys = refl
joined-split s (u ∷ xs) t ys =
    ap (λ r. s ++ b'-' ∷ r) (joined-split u xs t ys)
    ∙ sym (append_assoc s (b'-' ∷ joined u xs) (b'-' ∷ joined t ys))

joined-front : (d : ℕ) (s : Bytes) (ts : List Bytes) → joined (d ∷ s) ts ≡ d ∷ joined s ts
joined-front d s ts = joined-append (d ∷ []) s ts

-- The loop goes on behind xs with what it has made of them.
format_from-append :
    (str : Bytes) (xs ys : List Bytes)
    → format_from str (xs ++ ys) ≡ format_from (format_from str xs) ys
unfolding format_from
format_from-append str [] ys = refl
format_from-append str (x ∷ xs) ys = format_from-append _ xs ys

-- What stands behind a string that is not empty may be formatted first.
format_from-later :
    (c : ℕ) (str : Bytes) (ys : List Bytes)
    → format_from (c ∷ str) ys ≡ format_from (c ∷ str) (format_strings ys ∷ [])
unfolding format_from format_strings
format_from-later c str [] = refl
format_from-later c str ([] ∷ ys) = format_from-later c str ys
format_from-later c str ((d ∷ s) ∷ ys) =
    let made : format_from (d ∷ s) ys ≡ d ∷ joined s (present ys) =
      format_from-joined d s ys ∙ joined-front d s (present ys) in
    format_from-joined c str ((d ∷ s) ∷ ys)
    ∙ ap (λ r. (c ∷ str) ++ b'-' ∷ r) (joined-front d s (present ys))
    ∙ sym (ap (λ r. format_from (c ∷ str) (r ∷ [])) made)

format_strings-one : (s : Bytes) → format_strings (s ∷ []) ≡ s
unfolding format_strings format_from
format_strings-one [] = refl
format_strings-one (c ∷ s) = refl

format_strings-two :
    (a : Bytes) (ys : List Bytes) → format_from a ys ≡ format_strings (a ∷ format_strings ys ∷ [])
unfolding format_strings format_from
format_strings-two [] ys = sym (format_strings-one (format_strings ys))
format_strings-two (c ∷ a) ys = format_from-later c a ys

-- FormatStrings of two lists of strings, one behind the other, is FormatStrings of what it gives for
-- the first list and what it gives for the second.
pub format_strings-append :
    (xs ys : List Bytes)
    → format_strings (xs ++ ys) ≡ format_strings (format_strings xs ∷ format_strings ys ∷ [])
unfolding format_strings
format_strings-append xs ys =
    format_from-append [] xs ys ∙ format_strings-two (format_strings xs) ys
