-- ===== src/Redis/Pool/Calls.antt =====
-- redis/pool.go: the calls that each operation of a pool makes, and the errors that it passes on.
use go_toolkits.Base.{
  ◌≡◌, refl, sym, ◌∙◌, ap, Bool, true, false, Option, none, some, List, [], ◌∷◌, ◌++◌, append_assoc,
  append-nil, if◌then◌else◌,
}
use go_toolkits.Base.Bytes.{Bytes, codes}
use go_toolkits.Base.Assoc.{Assoc, bytes_eq, lookup}
use go_toolkits.Redis.{ℤ}
use go_toolkits.Redis.Pool.{
  Arg, text, int, Call, opens, flushes, receives, closes, does, sends, runs, sends_hash, Result,
  Redigo, Op, with_conn, ask, with_do, set, get_set, set_nx, set_ex, hset, hincr_by, hmset,
  send_hmsets, bulk_hmset, sadd, srem, smembers, hget, hget_all, hget_all_string_map, get, dels,
  do_, send_script, send_with, bulk_with, send_hashes, bulk_script,
}

-- A call of an operation of the pool, the two with SCAN left aside.
pub data Request (V E S : Type 0) : Type 0 where
  r_set r_get_set r_set_nx r_sadd r_srem r_hget : Bytes → Bytes → Request V E S
  r_set_ex r_hincr_by : Bytes → Bytes → ℤ → Request V E S
  r_hset : Bytes → Bytes → Bytes → Request V E S
  r_hmset r_do : Bytes → List Arg → Request V E S
  r_bulk_hmset : List (Bytes × List Arg) → Request V E S
  r_smembers r_hget_all_string_map r_get : Bytes → Request V E S
  r_hget_all : Bytes → (List V → Option E) → Request V E S
  r_dels : List Arg → Request V E S
  r_send_script : Bytes → Option (V → Option E → Option E) → List Arg → Request V E S
  r_bulk_script : Bytes → List (List Arg) → Request V E S

-- What a request is for the server: nothing at all, or some calls and one whose reply counts.
pub data Plan (S : Type 0) : Type 0 where
  nothing : Plan S
  calls : List (Call S) → Call S → Plan S

module _ {S : Type 0} where
  abbrev one : Bytes → List Arg → Plan S
  one name args = calls [] (does name args)

  abbrev hmsets : List (Bytes × List Arg) → List (Call S)
  hmsets [] = []
  hmsets ((k, fs) ∷ kvs) = sends (codes "HMSET") (text k ∷ fs) ∷ hmsets kvs

  abbrev hashes : S → List (List Arg) → List (Call S)
  hashes s [] = flushes ∷ []
  hashes s (args ∷ argss) = sends_hash s args ∷ hashes s argss

  abbrev with_script : Option S → (S → Plan S) → Plan S
  with_script none k = nothing
  with_script (some s) k = k s

  -- The calls up to the one whose reply counts, on a connection that is opened for them.
  abbrev pub asked : List (Call S) → List (Call S) → Call S → List (Call S)
  asked t cs c = (t ++ opens ∷ []) ++ (cs ++ c ∷ [])

  -- What is done of a plan: no call, or one connection that is opened, used and closed.
  abbrev pub done : List (Call S) → Plan S → List (Call S)
  done t nothing = t
  done t (calls cs c) = asked t cs c ++ closes ∷ []

  send_hmsets_lem :
      (kvs : List (Bytes × List Arg)) (t : List (Call S)) → send_hmsets kvs t ≡ t ++ hmsets kvs
  unfolding send_hmsets
  send_hmsets_lem [] t = sym (append-nil t)
  send_hmsets_lem ((k, fs) ∷ kvs) t = send_hmsets_lem kvs _ ∙ append_assoc t _ _

  send_hashes_lem :
      (argss : List (List Arg)) (s : S) (t : List (Call S))
      → send_hashes s argss t ++ flushes ∷ [] ≡ t ++ hashes s argss
  unfolding send_hashes
  send_hashes_lem [] s t = refl
  send_hashes_lem (args ∷ argss) s t = send_hashes_lem argss s _ ∙ append_assoc t _ _

  bulk_lem :
      (t cs ds : List (Call S)) (c : Call S)
      → ds ≡ (t ++ opens ∷ []) ++ cs
      → ds ++ c ∷ [] ≡ asked t cs c
  bulk_lem t cs ds c e = ap (λ us. us ++ c ∷ []) e ∙ append_assoc (t ++ opens ∷ []) cs (c ∷ [])

if_nil :
    {E : Type 0} (b : Bool) (s : Bytes) (e : E)
    → (if◌then◌else◌ {A = Result E Bytes} b (s, none) (s, some e)).1 ≡ (if b then none else some e)
if_nil true s e = refl
if_nil false s e = refl

module _ {V E : Type 0} where
  abbrev by_callback : Option (V → Option E → Option E) → V → E → Option E
  by_callback none v e = some e
  by_callback (some f) v e = f v (some e)

module _ {E S : Type 0} where
  abbrev pub error_of : {X : Type 0} → List (Call S) × Result E X → List (Call S) × Option E
  error_of (t, (x, e)) = (t, e)

module _ {V E S : Type 0} where
  -- The calls and the error of the operation that is asked for.
  abbrev pub serve : Redigo V E S → Assoc Bytes S → Request V E S → Op S (Option E)
  serve r m (r_set k v) t = set r k v t
  serve r m (r_get_set k v) t = error_of (get_set r k v t)
  serve r m (r_set_nx k v) t = error_of (set_nx r k v t)
  serve r m (r_sadd k v) t = sadd r k v t
  serve r m (r_srem k v) t = srem r k v t
  serve r m (r_hget k f) t = error_of (hget r k f t)
  serve r m (r_set_ex k v n) t = error_of (set_ex r k v n t)
  serve r m (r_hincr_by k f n) t = error_of (hincr_by r k f n t)
  serve r m (r_hset k f v) t = hset r k f v t
  serve r m (r_hmset k fs) t = hmset r k fs t
  serve r m (r_do name args) t = error_of (do_ r name args t)
  serve r m (r_bulk_hmset kvs) t = bulk_hmset r kvs t
  serve r m (r_smembers k) t = error_of (smembers r k t)
  serve r m (r_hget_all_string_map k) t = error_of (hget_all_string_map r k t)
  serve r m (r_get k) t = error_of (get r k t)
  serve r m (r_hget_all k f) t = hget_all r k f t
  serve r m (r_dels ks) t = dels r ks t
  serve r m (r_send_script name f args) t = send_script r m name f args t
  serve r m (r_bulk_script name argss) t = bulk_script r m name argss t

  -- The connection that an operation opens and the calls that it makes on it, which tell its own reply
  -- from others; as BulkHMSet makes them, with EXEC but without MULTI.
  abbrev pub plan : Assoc Bytes S → Request V E S → Plan S
  plan m (r_set k v) = one (codes "SET") (text k ∷ text v ∷ [])
  plan m (r_get_set k v) = one (codes "GETSET") (text k ∷ text v ∷ [])
  plan m (r_set_nx k v) = one (codes "SETNX") (text k ∷ text v ∷ [])
  plan m (r_sadd k v) = one (codes "SADD") (text k ∷ text v ∷ [])
  plan m (r_srem k v) = one (codes "SREM") (text k ∷ text v ∷ [])
  plan m (r_hget k f) = one (codes "HGET") (text k ∷ text f ∷ [])
  plan m (r_set_ex k v n) = one (codes "SETEX") (text k ∷ int n ∷ text v ∷ [])
  plan m (r_hincr_by k f n) = one (codes "HINCRBY") (text k ∷ text f ∷ int n ∷ [])
  plan m (r_hset k f v) = one (codes "HSET") (text k ∷ text f ∷ text v ∷ [])
  plan m (r_hmset k fs) = one (codes "HMSET") (text k ∷ fs)
  plan m (r_do name args) = one name args
  plan m (r_bulk_hmset kvs) = calls (hmsets kvs) (does (codes "EXEC") [])
  plan m (r_smembers k) = one (codes "SMEMBERS") (text k ∷ [])
  plan m (r_hget_all_string_map k) = one (codes "HGETALL") (text k ∷ [])
  plan m (r_get k) = one (codes "GET") (text k ∷ [])
  plan m (r_hget_all k f) = one (codes "HGETALL") (text k ∷ [])
  plan m (r_dels ks) = one (codes "DEL") ks
  plan m (r_send_script name f args) = with_script (lookup name m) (λ s. calls [] (runs s args))
  plan m (r_bulk_script name argss) =
      with_script (lookup name m) (λ s. calls (hashes s argss) receives)

  -- redigo's conversions pass an error on.
  pub record Passing (r : Redigo V E S) : Type 0 where
    pub on_string : (v : V) (e : E) → (r.string (v, some e)).1 ≡ some e
    pub on_int : (v : V) (e : E) → (r.int_ (v, some e)).1 ≡ some e
    pub on_strings : (v : V) (e : E) → (r.strings (v, some e)).1 ≡ some e
    pub on_values : (v : V) (e : E) → (r.values (v, some e)).1 ≡ some e
    pub on_string_map : (v : V) (e : E) → (r.string_map (v, some e)).1 ≡ some e

  -- What an operation answers of a reply with an error.
  abbrev pub failure : Redigo V E S → Request V E S → V → E → Option E
  failure r (r_get key) v e = if r.is_nil e then none else some e
  failure r (r_send_script name f args) v e = by_callback f v e
  failure r q v e = some e

  -- The reply that counts is the error e, with the value v.
  abbrev pub FailsWith : Redigo V E S → List (Call S) → V → E → Plan S → Type 0
  FailsWith r t v e nothing = ⊥
  FailsWith r t v e (calls cs c) = r.reply (asked t cs c) ≡ (v, some e)

  send_with-failure :
      (r : Redigo V E S) (o : Option S) (f : Option (V → Option E → Option E)) (args : List Arg)
      (t : List (Call S)) (v : V) (e : E)
      → FailsWith r t v e (with_script o (λ s. calls [] (runs s args)))
      → (send_with r o f args t).1 ≡ by_callback f v e
  unfolding send_with with_conn ask
  send_with-failure r none f args t v e g = elim g [ ]
  send_with-failure r (some s) none args t v e g = rw g refl
  send_with-failure r (some s) (some f) args t v e g = rw g refl

  bulk_with-failure :
      (r : Redigo V E S) (o : Option S) (argss : List (List Arg)) (t : List (Call S)) (v : V)
      (e : E)
      → FailsWith r t v e (with_script o (λ s. calls (hashes s argss) receives))
      → (bulk_with r o argss t).1 ≡ some e
  unfolding bulk_with with_conn ask
  bulk_with-failure r none argss t v e g = elim g [ ]
  bulk_with-failure r (some s) argss t v e g =
      let h =
        ap r.reply (bulk_lem t _ _ receives (send_hashes_lem argss s (t ++ opens ∷ []))) ∙ g in
      ap (λ x. x.1) h

  bulk_hmset-failure :
      (r : Redigo V E S)
      → Passing r
      → (kvs : List (Bytes × List Arg)) (t : List (Call S)) (v : V) (e : E)
      → FailsWith r t v e (calls (hmsets kvs) (does (codes "EXEC") []))
      → (bulk_hmset r kvs t).1 ≡ some e
  unfolding bulk_hmset with_conn ask
  bulk_hmset-failure r p kvs t v e g =
      let h = ap r.reply (bulk_lem t _ _ _ (send_hmsets_lem kvs (t ++ opens ∷ []))) ∙ g in
      ap (λ x. (r.values x).1) h ∙ p.on_values v e

  -- If redigo's conversions pass errors on, and the reply that counts is an error, every operation but
  -- the two with SCAN answers that error, apart from Get, which answers none to a key that is missing,
  -- and SendScript with a callback, which answers what the callback does.
  pub serve-failure :
      (r : Redigo V E S)
      → Passing r
      → (m : Assoc Bytes S) (q : Request V E S) (t : List (Call S)) (v : V) (e : E)
      → FailsWith r t v e (plan m q)
      → (serve r m q t).1 ≡ failure r q v e
  unfolding set get_set set_nx set_ex hset hincr_by hmset sadd srem smembers hget hget_all
      hget_all_string_map get dels do_ send_script bulk_script with_do with_conn ask
  serve-failure r p m (r_bulk_hmset kvs) t v e g = bulk_hmset-failure r p kvs t v e g
  serve-failure r p m (r_send_script name f args) t v e g =
      send_with-failure r (lookup name m) f args t v e g
  serve-failure r p m (r_bulk_script name argss) t v e g =
      bulk_with-failure r (lookup name m) argss t v e g
  serve-failure r p m (r_get_set k x) t v e g = rw (g, p.on_string v e) refl
  serve-failure r p m (r_set_nx k x) t v e g = rw (g, p.on_int v e) refl
  serve-failure r p m (r_hget k f) t v e g = rw (g, p.on_string v e) refl
  serve-failure r p m (r_set_ex k x n) t v e g = rw (g, p.on_int v e) refl
  serve-failure r p m (r_hincr_by k f n) t v e g = rw (g, p.on_int v e) refl
  serve-failure r p m (r_smembers k) t v e g = rw (g, p.on_strings v e) refl
  serve-failure r p m (r_hget_all_string_map k) t v e g = rw (g, p.on_string_map v e) refl
  serve-failure r p m (r_get k) t v e g = rw (g, p.on_string v e) (if_nil (r.is_nil e) [] e)
  serve-failure r p m (r_hget_all k f) t v e g = rw (g, p.on_values v e) refl
  serve-failure r p m (r_dels ks) t v e g = rw (g, p.on_int v e) refl
  serve-failure r p m q t v e g = ap (λ x. x.1) g
