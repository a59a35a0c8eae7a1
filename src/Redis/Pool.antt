-- ===== src/Redis/Pool.antt =====
-- redis/pool.go: the operations of a pool, as the calls that they make on a connection of redigo and
-- what they answer. The replies of the server and redigo's conversions of them are parameters; V, E
-- and S stand for its values, errors and scripts.
pub mod Calls
pub mod Scan
use go_toolkits.Base.{
  ℕ, zero, suc, Bool, true, false, Option, none, some, List, [], ◌∷◌, ◌++◌, map, if◌then◌else◌,
}
use go_toolkits.Base.Bytes.{Bytes, codes}
use go_toolkits.Base.Assoc.{Assoc, bytes_eq, lookup}
use go_toolkits.Redis.{ℤ, pos}

-- An argument of a command.
pub data Arg : Type 0 where
  text : Bytes → Arg
  int : ℤ → Arg

-- The calls on a pool and its connections: Get, Do, Script.Do, Send, Script.SendHash, Flush, Receive
-- and Close.
pub data Call (S : Type 0) : Type 0 where
  opens flushes receives closes : Call S
  does sends : Bytes → List Arg → Call S
  runs sends_hash : S → List Arg → Call S

-- A Go pair of a value and an error.
abbrev pub Result : Type 0 → Type 0 → Type 0
Result E X = X × Option E

-- What is outside: the reply to the last of some calls, redigo's conversions, and the test for ErrNil.
pub record Redigo (V E S : Type 0) : Type 0 where
  pub reply : List (Call S) → Result E V
  pub string : Result E V → Result E Bytes
  pub int_ : Result E V → Result E ℤ
  pub strings : Result E V → Result E (List Bytes)
  pub values : Result E V → Result E (List V)
  pub string_map : Result E V → Result E (Assoc Bytes Bytes)
  pub is_nil : E → Bool
  pub script_not_found : E

-- An operation takes the calls so far and gives those after it, and its answer.
abbrev pub Op : Type 0 → Type 0 → Type 0
Op S X = List (Call S) → List (Call S) × X

module _ {S X : Type 0} where
  -- conn := p.Conn(), defer conn.Close() and what stands between.
  pub with_conn : Op S X → Op S X
  with_conn body t = let (t', x) = body (t ++ opens ∷ []) in (t' ++ closes ∷ [], x)

module _ {S : Type 0} where
  -- The loop of BulkHMSet, in the order in which the map is ranged over.
  pub send_hmsets : List (Bytes × List Arg) → List (Call S) → List (Call S)
  send_hmsets [] t = t
  send_hmsets ((key, fields) ∷ kvs) t =
      send_hmsets kvs (t ++ sends (codes "HMSET") (text key ∷ fields) ∷ [])

  -- The loop of BulkScript.
  pub send_hashes : S → List (List Arg) → List (Call S) → List (Call S)
  send_hashes s [] t = t
  send_hashes s (args ∷ argss) t = send_hashes s argss (t ++ sends_hash s args ∷ [])

module _ {V E S : Type 0} (r : Redigo V E S) where
  pub ask : Call S → Op S (Result E V)
  ask c t = let t' = t ++ c ∷ [] in (t', r.reply t')

  -- One Do, on a connection of its own, and what becomes of the reply.
  pub with_do : {X : Type 0} → Bytes → List Arg → (Result E V → X) → Op S X
  with_do name args k = with_conn (λ t. let (t', v) = ask (does name args) t in (t', k v))

  -- Set
  pub set : Bytes → Bytes → Op S (Option E)
  set key value = with_do (codes "SET") (text key ∷ text value ∷ []) (λ v. v.1)

  -- GetSet
  pub get_set : Bytes → Bytes → Op S (Result E Bytes)
  get_set key value =
      with_do (codes "GETSET") (text key ∷ text value ∷ [])
        (λ v. let (s, err) = r.string v in elim err [ none ↦ (s, none) | some e ↦ ([], some e) ])

  -- SetNX
  pub set_nx : Bytes → Bytes → Op S (Result E ℤ)
  set_nx key value = with_do (codes "SETNX") (text key ∷ text value ∷ []) r.int_

  -- SetEX
  pub set_ex : Bytes → Bytes → ℤ → Op S (Result E ℤ)
  set_ex key value seconds =
      with_do (codes "SETEX") (text key ∷ int seconds ∷ text value ∷ []) r.int_

  -- HSet
  pub hset : Bytes → Bytes → Bytes → Op S (Option E)
  hset key field value = with_do (codes "HSET") (text key ∷ text field ∷ text value ∷ []) (λ v. v.1)

  -- HIncrBy
  pub hincr_by : Bytes → Bytes → ℤ → Op S (Result E ℤ)
  hincr_by key field value =
      with_do (codes "HINCRBY") (text key ∷ text field ∷ int value ∷ []) r.int_

  -- HMSet, of the fields that AddFlat makes of the value.
  pub hmset : Bytes → List Arg → Op S (Option E)
  hmset key fields = with_do (codes "HMSET") (text key ∷ fields) (λ v. v.1)

  -- BulkHMSet
  pub bulk_hmset : List (Bytes × List Arg) → Op S (Option E)
  bulk_hmset kvs =
      with_conn (λ t.
        let (t', v) = ask (does (codes "EXEC") []) (send_hmsets kvs t) in (t', (r.values v).1))

  -- SAdd
  pub sadd : Bytes → Bytes → Op S (Option E)
  sadd key member = with_do (codes "SADD") (text key ∷ text member ∷ []) (λ v. v.1)

  -- SRem
  pub srem : Bytes → Bytes → Op S (Option E)
  srem key member = with_do (codes "SREM") (text key ∷ text member ∷ []) (λ v. v.1)

  -- Smembers
  pub smembers : Bytes → Op S (Result E (List Bytes))
  smembers key = with_do (codes "SMEMBERS") (text key ∷ []) r.strings

  -- HGet
  pub hget : Bytes → Bytes → Op S (Result E Bytes)
  hget key field = with_do (codes "HGET") (text key ∷ text field ∷ []) r.string

  -- HGetAll, with the ScanStruct into the value that is given.
  pub hget_all : Bytes → (List V → Option E) → Op S (Option E)
  hget_all key scan_struct =
      with_do (codes "HGETALL") (text key ∷ [])
        (λ v. let (vs, err) = r.values v in elim err [ none ↦ scan_struct vs | some e ↦ some e ])

  -- HGetAllStringMap
  pub hget_all_string_map : Bytes → Op S (Result E (Assoc Bytes Bytes))
  hget_all_string_map key =
      with_do (codes "HGETALL") (text key ∷ []) (λ v.
        let (m, err) = r.string_map v in elim err [ none ↦ (m, none) | some e ↦ ([], some e) ])

  -- Get
  pub get : Bytes → Op S (Result E Bytes)
  get key = with_do (codes "GET") (text key ∷ []) (λ v.
      let (s, err) = r.string v in
      elim err [ none ↦ (s, none) | some e ↦ if r.is_nil e then ([], none) else ([], some e) ])

  -- Dels
  pub dels : List Arg → Op S (Option E)
  dels keys = with_do (codes "DEL") keys (λ v. (r.int_ v).1)

  -- Do
  pub do_ : Bytes → List Arg → Op S (Result E V)
  do_ name args = with_do name args (λ v. v)

  pub send_with : Option S → Option (V → Option E → Option E) → List Arg → Op S (Option E)
  send_with none f args t = (t, some r.script_not_found)
  send_with (some s) f args t =
      with_conn
        (λ t.
          let (t', (v, err)) = ask (runs s args) t in
          (t', elim f [ none ↦ err | some g ↦ g v err ]))
        t

  -- SendScript
  pub send_script :
      Assoc Bytes S → Bytes → Option (V → Option E → Option E) → List Arg → Op S (Option E)
  send_script scripts name f args = send_with (lookup name scripts) f args

  pub bulk_with : Option S → List (List Arg) → Op S (Option E)
  bulk_with none argss t = (t, some r.script_not_found)
  bulk_with (some s) argss t =
      with_conn
        (λ t.
          let (t', (_, err)) = ask receives (send_hashes s argss t ++ flushes ∷ []) in (t', err))
        t

  -- BulkScript
  pub bulk_script : Assoc Bytes S → Bytes → List (List Arg) → Op S (Option E)
  bulk_script scripts name argss = bulk_with (lookup name scripts) argss
