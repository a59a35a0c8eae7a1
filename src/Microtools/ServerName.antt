-- ===== src/Microtools/ServerName.antt =====
-- microtools/cmd.go: the server name that GetContextServerName finds in a service name.
use go_toolkits.Base.{
  ℕ, suc, ◌≡◌, refl, sym, ◌∙◌, ap, subst, ◌↔◌, false, Option, none, some, List, [], ◌∷◌, ◌++◌, ◌==◌,
  length, drop, arith, Option-cases, by_if, drop_past, append_assoc, ◌⊎◌, inl, inr,
}
use go_toolkits.Base.Bytes.{Bytes, codes, contains_byte}
use go_toolkits.Cli.{Context, read_flags, get_context_service}
use go_toolkits.Cli.Names.{present, join, format_strings-join}
use go_toolkits.Microtools.{
  format_from, format_strings, last_dash, behind_dash, get_context_server_name,
}

format_from-same :
    (str : Bytes) (strs : List Bytes) → format_from str strs ≡ go_toolkits.Cli.format_from str strs
unfolding format_from go_toolkits.Cli.format_from
format_from-same str [] = refl
format_from-same str (s ∷ strs) = format_from-same _ strs

-- FormatStrings of microtools and FormatStrings of cli give the same.
pub format_strings-same :
    (strs : List Bytes) → format_strings strs ≡ go_toolkits.Cli.format_strings strs
unfolding format_strings go_toolkits.Cli.format_strings
format_strings-same strs = format_from-same [] strs

last_dash-none : (s : Bytes) → contains_byte s b'-' ≡ false → last_dash s ≡ none
unfolding last_dash contains_byte
last_dash-none [] h = refl
last_dash-none (c ∷ s) h = rw (last_dash-none s (ground arith)) (ground arith)

last_dash-append :
    (u t : Bytes) → contains_byte t b'-' ≡ false → last_dash (u ++ b'-' ∷ t) ≡ some (length u)
unfolding last_dash
last_dash-append [] t h = rw (last_dash-none t h) refl
last_dash-append (c ∷ u) t h = rw (last_dash-append u t h) refl

abbrev cut : Bytes → Option ℕ → Bytes
cut s none = s
cut s (some i) = drop (suc i) s

behind_dash-cut : (s : Bytes) (o : Option ℕ) → behind_dash s o ≡ cut s o
unfolding behind_dash
behind_dash-cut s none = refl
behind_dash-cut s (some i) =
    by_if (λ r. r ≡ drop (suc i) s) (suc i == length s)
      (λ h. sym (drop_past (suc i) s (ground arith))) (λ h. refl)

-- Behind the last dash there is none.
no_dash_behind : (s : Bytes) → contains_byte (cut s (last_dash s)) b'-' ≡ false
unfolding last_dash contains_byte
no_dash_behind [] = refl
no_dash_behind (c ∷ s) =
    let ih = no_dash_behind s in
    elim (Option-cases (last_dash s)) [
      | inl e ↦
          let plain : contains_byte s b'-' ≡ false =
            subst (λ o. contains_byte (cut s o) b'-' ≡ false) e ih in
          rw e (
            by_if (λ o. contains_byte (cut (c ∷ s) o) b'-' ≡ false) (c == b'-') (λ h. plain)
              (λ h. rw (h, plain) refl))
      | inr (i, e) ↦ rw e (subst (λ o. contains_byte (cut s o) b'-' ≡ false) e ih)
    ]

-- What a service name says of the server's name.
abbrev server_of : Bytes → Bytes
server_of s = get_context_server_name (some (s ∷ []))

server_of-cut : (s : Bytes) → server_of s ≡ cut s (last_dash s)
unfolding get_context_server_name get_context_service last_dash
server_of-cut [] = refl
server_of-cut (c ∷ s) = behind_dash-cut (c ∷ s) _

server_of_plain : (s : Bytes) → contains_byte s b'-' ≡ false → server_of s ≡ s
server_of_plain s h = server_of-cut s ∙ ap (cut s) (last_dash-none s h)

drop-past_dash : (u : Bytes) (d : ℕ) (t : Bytes) → drop (suc (length u)) (u ++ d ∷ t) ≡ t
drop-past_dash [] d t = refl
drop-past_dash (c ∷ u) d t = drop-past_dash u d t

server_of_last : (u t : Bytes) → contains_byte t b'-' ≡ false → server_of (u ++ b'-' ∷ t) ≡ t
server_of_last u t h =
    server_of-cut (u ++ b'-' ∷ t)
    ∙ ap (cut (u ++ b'-' ∷ t)) (last_dash-append u t h)
    ∙ drop-past_dash u b'-' t

-- A service name ends in the server's name: alone, or behind a dash.
service_name-ends :
    (company project : Bytes) (c : ℕ) (s : Bytes)
    → let name = join (present (company ∷ project ∷ (c ∷ s) ∷ [])) in
      (name ≡ c ∷ s) ⊎ ((u : Bytes) × (name ≡ u ++ b'-' ∷ c ∷ s))
service_name-ends [] [] c s = inl refl
service_name-ends [] (p ∷ project) c s = inr (p ∷ project, refl)
service_name-ends (q ∷ company) [] c s = inr (q ∷ company, refl)
service_name-ends (q ∷ company) (p ∷ project) c s = inr (
  (q ∷ company) ++ b'-' ∷ p ∷ project,
  sym (append_assoc (q ∷ company) (b'-' ∷ p ∷ project) (b'-' ∷ c ∷ s)),
)

found :
    (company project : Bytes) (c : ℕ) (s : Bytes)
    → contains_byte (c ∷ s) b'-' ≡ false
    → server_of (join (present (company ∷ project ∷ (c ∷ s) ∷ []))) ≡ c ∷ s
found company project c s h = elim (service_name-ends company project c s) [
  | inl e ↦ ap server_of e ∙ server_of_plain (c ∷ s) h
  | inr (u, e) ↦ ap server_of e ∙ server_of_last u (c ∷ s) h
]

-- Where cli's Init has read a server name that is not empty, and the service name that it makes
-- comes in as the service of a request, microtools finds the server name in it exactly if there is
-- no dash in the server name.
pub get_context_server_name_iff :
    (flags : Context) (c : ℕ) (s : Bytes)
    → flags.string (codes "server_name") ≡ c ∷ s
    → (get_context_server_name (some ((read_flags flags).service_name ∷ []))
        ≡ (read_flags flags).server_name)
      ↔ (contains_byte (c ∷ s) b'-' ≡ false)
unfolding read_flags
get_context_server_name_iff flags c s e =
    let company = flags.string (codes "company_name") in
    let project = flags.string (codes "project_name") in
    let name : (read_flags flags).service_name ≡ join (present (company ∷ project ∷ (c ∷ s) ∷ [])) =
      ap (λ n. go_toolkits.Cli.format_strings (company ∷ project ∷ n ∷ [])) e
      ∙ format_strings-join (company ∷ project ∷ (c ∷ s) ∷ []) in
    (
      λ r.
          subst (λ n. contains_byte n b'-' ≡ false)
            (sym (server_of-cut (read_flags flags).service_name) ∙ r ∙ e)
            (no_dash_behind (read_flags flags).service_name),
      λ h. ap server_of name ∙ found company project c s h ∙ sym e,
    )
