-- ===== src/Redis/Tests.antt =====
-- A server that holds three keys and answers SCAN in two pages, and the theorems at inputs of theirs.
use go_toolkits.Base.{ℕ, ◌≡◌, refl, true, none, some, List, [], ◌∷◌, ◌++◌, ◌==◌, arith}
use go_toolkits.Base.Bytes.{Bytes, codes, has_prefix}
use go_toolkits.Base.Assoc.{bytes_eq}
use go_toolkits.Redis.{ℤ, pos, negsuc, Config, default_config, merge, plain_scheme, Dial, new}
use go_toolkits.Redis.Pool.{Arg, text, int, Call, opens, closes, does, Result, Redigo}
use go_toolkits.Redis.Pool.Calls.{
  Request, r_set_ex, r_bulk_hmset, serve, plan, Passing, FailsWith, failure, serve-failure,
}
use go_toolkits.Redis.Pool.Scan.{returned, scan_dels, scan_dels-Pages, deletion, verdict, Pages}

abbrev secure : Config
secure = record default_config {
  master_addr = codes "rediss://cache:6380";
  tls_skip_verify = true;
  max_idle = negsuc 0;
  read_timeout = pos 9;
}

secure_url : (new secure).url ≡ codes "redis://rediss://cache:6380"
unfolding new go_toolkits.Redis.with_scheme has_prefix
secure_url = refl

-- The values of the server. Its error 0 is the ErrNil of a missing key, and 1 that of a bad argument.
data Value : Type 0 where
  okay : Value
  cursor_of : ℤ → Value
  keys_of : List Bytes → Value
  a_page : ℤ → List Bytes → Value

by_args : List Arg → Result ℕ Value
by_args (int (ℤ.pos ℕ.zero) ∷ args) = (a_page (pos 7) (codes "a1" ∷ codes "a2" ∷ []), none)
by_args (int n ∷ args) = (a_page (pos 0) (codes "a3" ∷ []), none)
by_args (text key ∷ []) = (okay, some 0)
by_args (text key ∷ int (ℤ.negsuc n) ∷ args) = (okay, some 1)
by_args args = (okay, none)

answer : Call ℕ → Result ℕ Value
answer (does name args) = by_args args
answer c = (okay, none)

answers : List (Call ℕ) → Result ℕ Value
answers [] = (okay, none)
answers (c ∷ []) = answer c
answers (c ∷ d ∷ t) = answers (d ∷ t)

to_int : Result ℕ Value → Result ℕ ℤ
to_int (cursor_of n, e) = (n, e)
to_int (v, e) = (pos 0, e)

to_strings : Result ℕ Value → Result ℕ (List Bytes)
to_strings (keys_of ks, e) = (ks, e)
to_strings (v, e) = ([], e)

to_values : Result ℕ Value → Result ℕ (List Value)
to_values (a_page n ks, e) = (cursor_of n ∷ keys_of ks ∷ [], e)
to_values (v, e) = ([], e)

abbrev server : Redigo Value ℕ ℕ
server = record {
  reply = answers;
  string = λ (v, e). ([], e);
  int_ = to_int;
  strings = to_strings;
  values = to_values;
  string_map = λ (v, e). ([], e);
  is_nil = λ e. e == 0;
  script_not_found = 2;
}

abbrev bulk : Request Value ℕ ℕ
bulk = r_bulk_hmset ((codes "k", text (codes "f") ∷ text (codes "v") ∷ []) ∷ [])

on_int' : (v : Value) (e : ℕ) → (to_int (v, some e)).1 ≡ some e
unfolding to_int
on_int' okay e = refl
on_int' (cursor_of n) e = refl
on_int' (keys_of ks) e = refl
on_int' (a_page n ks) e = refl

on_strings' : (v : Value) (e : ℕ) → (to_strings (v, some e)).1 ≡ some e
unfolding to_strings
on_strings' okay e = refl
on_strings' (cursor_of n) e = refl
on_strings' (keys_of ks) e = refl
on_strings' (a_page n ks) e = refl

on_values' : (v : Value) (e : ℕ) → (to_values (v, some e)).1 ≡ some e
unfolding to_values
on_values' okay e = refl
on_values' (cursor_of n) e = refl
on_values' (keys_of ks) e = refl
on_values' (a_page n ks) e = refl

server-Passing : Passing server
server-Passing = record {
  on_string = λ v e. refl;
  on_int = on_int';
  on_strings = on_strings';
  on_values = on_values';
  on_string_map = λ v e. refl;
}

abbrev expired : Request Value ℕ ℕ
expired = r_set_ex (codes "k") (codes "v") (negsuc 0)

expired_fails : FailsWith server [] okay 1 (plan [] expired)
unfolding answers answer by_args
expired_fails = refl

serve-failure_example : (serve server [] expired []).1 ≡ failure server expired okay 1
serve-failure_example = serve-failure server server-Passing [] expired [] okay 1 expired_fails

abbrev two_pages : List (Value × Value)
two_pages =
    (cursor_of (pos 7), keys_of (codes "a1" ∷ codes "a2" ∷ []))
    ∷ (cursor_of (pos 0), keys_of (codes "a3" ∷ []))
    ∷ []

two_pages_come : Pages server (codes "a*") (pos 0) two_pages (opens ∷ [])
unfolding answers answer by_args to_values to_int
two_pages_come = (refl, refl, (refl, refl))

scan_dels-Pages_example :
    let t = deletion server (codes "a*") two_pages [] in
    scan_dels server 5 (codes "a*") []
    ≡ (t ++ closes ∷ [], returned (verdict server (to_values (answers t)).1))
scan_dels-Pages_example =
    scan_dels-Pages server (codes "a*") two_pages 5 [] two_pages_come (omega arith)
