-- ===== src/Redis/Address.antt =====
-- redis/redis.go: what becomes of an address, and of the numbers of a configuration.
use go_toolkits.Base.{◌≡◌, refl, ap, true, false, ◌&&◌, List, [], ◌∷◌, ◌++◌, by_if, ◌⊎◌, inl, inr}
use go_toolkits.Base.Bytes.{Bytes, has_prefix}
use go_toolkits.Base.Bytes.Search.{has_prefix_iff}
use go_toolkits.Redis.{
  ℤ, is_positive, Config, default_config, or_default, merge, plain_scheme, tls_scheme, with_scheme,
  new,
}

-- Of "redis://" and "rediss://" a text begins with one at most.
one_scheme : (s : Bytes) → has_prefix s plain_scheme ≡ true → has_prefix s tls_scheme ≡ false
unfolding has_prefix
one_scheme s h = let (v, e) = (has_prefix_iff s plain_scheme).0 h in rw e refl

append_scheme : (s : Bytes) → has_prefix (plain_scheme ++ s) plain_scheme ≡ true
unfolding has_prefix
append_scheme s = refl

with_scheme-plain : (s : Bytes) → has_prefix (with_scheme s) plain_scheme ≡ true
unfolding with_scheme has_prefix
with_scheme-plain [] = refl
with_scheme-plain (c ∷ s) =
    by_if (λ (t : Bytes). has_prefix t plain_scheme ≡ true) (has_prefix (c ∷ s) plain_scheme)
      (λ h. h) (λ _. append_scheme (c ∷ s))

-- Whatever the configuration is, the address that New dials begins with "redis://", and New does not
-- ask for TLS, whether the address that was given says "rediss://" or not.
pub new-PlainScheme :
    (conf : Config)
    → (has_prefix (new conf).url plain_scheme ≡ true)
      × ((new conf).use_tls ≡ false)
      × ((new conf).skip_verify ≡ false)
unfolding new
new-PlainScheme conf =
    let plain = with_scheme-plain conf.master_addr in
    let e = one_scheme (with_scheme conf.master_addr) plain in
    (plain, e, ap (λ b. b && conf.tls_skip_verify) e)

-- What a configuration has in its numbers, in the order of its fields.
abbrev pub numbers : Config → List ℤ
numbers c =
    c.max_active ∷ c.max_idle ∷ c.idle_timeout ∷ c.connect_timeout ∷ c.read_timeout
    ∷ c.write_timeout ∷ []

-- A positive number that is n itself, or d in place of an n that is not positive.
abbrev Kept : ℤ → ℤ → ℤ → Type 0
Kept n d m = (is_positive m ≡ true) × ((m ≡ n) ⊎ ((is_positive n ≡ false) × (m ≡ d)))

abbrev pub Merged : List ℤ → List ℤ → List ℤ → Type 0
Merged [] [] [] = Unit
Merged (n ∷ ns) (d ∷ ds) (m ∷ ms) = Kept n d m × Merged ns ds ms
Merged _ _ _ = ⊥

or_default-Kept : (n d : ℤ) → is_positive d ≡ true → Kept n d (or_default n d)
unfolding or_default
or_default-Kept n d h =
    by_if (Kept n d) (is_positive n) (λ p. (p, inl refl)) (λ p. (h, inr (p, refl)))

-- merge with the default configuration makes all six numbers positive: one that is positive stays,
-- and any other is replaced by that of the default.
pub merge-default_config :
    (c : Config) → Merged (numbers c) (numbers default_config) (numbers (merge c default_config))
unfolding merge default_config is_positive
merge-default_config c =
    let k : (n d : ℤ) → is_positive d ≡ true → Kept n d (or_default n d) = or_default-Kept in
    (k _ _ refl, (k _ _ refl, (k _ _ refl, (k _ _ refl, (k _ _ refl, (k _ _ refl, tt))))))
