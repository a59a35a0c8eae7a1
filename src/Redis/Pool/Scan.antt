-- ===== src/Redis/Pool/Scan.antt =====
-- redis/pool.go: ScanHGets and ScanDels. The rounds of SCAN, which end when the server answers the
-- cursor 0, run on fuel.
use go_toolkits.Base.{
  ℕ, zero, suc, ◌≤◌, ◌≡◌, refl, sym, ◌∙◌, ap, Bool, true, false, Option, none, some, List, [], ◌∷◌,
  ◌++◌, append_assoc, append-nil, arith, length, if◌then◌else◌,
}
use go_toolkits.Base.Bytes.{Bytes, codes}
use go_toolkits.Redis.{ℤ, pos}
use go_toolkits.Redis.Pool.{text, int, Call, opens, closes, does, sends, Result, Redigo, Op, ask}

-- How a run ends, if the fuel is enough.
pub data Ended (X : Type 0) : Type 0 where
  unfinished panicked : Ended X
  returned : X → Ended X

-- What the rounds come to: the keys, or the error of a reply. A reply with less than two values panics.
pub data Scanned (E : Type 0) : Type 0 where
  out_of_fuel too_short : Scanned E
  failed : E → Scanned E
  found : List Bytes → Scanned E

-- A reply to SCAN, as it is read: the end of the loop, or a cursor and keys.
pub data Page (E V : Type 0) : Type 0 where
  stop : Scanned E → Page E V
  page : V → V → Page E V

pub read_page : {E V : Type 0} → Result E (List V) → Page E V
read_page (arr, some e) = stop (failed e)
read_page ([], none) = stop too_short
read_page (a ∷ [], none) = stop too_short
read_page (a ∷ b ∷ arr, none) = page a b

read_page-two :
    {E V : Type 0} {x : Result E (List V)} {a b : V}
    → x ≡ (a ∷ b ∷ [], none)
    → read_page x ≡ page a b
unfolding read_page
read_page-two e = ap read_page e

abbrev pub is_zero : ℤ → Bool
is_zero (ℤ.pos zero) = true
is_zero (ℤ.pos (suc n)) = false
is_zero (ℤ.negsuc n) = false

module _ {S : Type 0} where
  -- conn.Do("SCAN", iter, "MATCH", key)
  abbrev pub scan_call : Bytes → ℤ → Call S
  scan_call pattern_ iter =
      does (codes "SCAN") (int iter ∷ text (codes "MATCH") ∷ text pattern_ ∷ [])

  -- The loop over the keys between MULTI and EXEC.
  pub send_keys : Bytes → List Bytes → List (Call S) → List (Call S)
  send_keys name [] t = t
  send_keys name (k ∷ ks) t = send_keys name ks (t ++ sends name (text k ∷ []) ∷ [])

module _ {V E S : Type 0} (r : Redigo V E S) where
  abbrev pub cursor : V → ℤ
  cursor a = (r.int_ (a, none)).0

  abbrev pub page_keys : V → List Bytes
  page_keys b = (r.strings (b, none)).0

  -- The rounds of SCAN from iter, with the keys so far.
  pub scan : ℕ → Bytes → ℤ → List Bytes → Op S (Scanned E)
  scan zero pattern_ iter keys t = (t, out_of_fuel)
  scan (suc n) pattern_ iter keys t =
      let (t', v) = ask r (scan_call pattern_ iter) t in
      elim (read_page (r.values v)) [
        | stop x ↦ (t', x)
        | page a b ↦ elim (is_zero (cursor a)) [
          | true ↦ (t', found (keys ++ page_keys b))
          | false ↦ scan n pattern_ (cursor a) (keys ++ page_keys b) t'
        ]
      ]

  -- What follows the rounds, up to the deferred Close, which a panic runs as well.
  pub after_scan :
      (List Bytes → Op S (Option E)) → List (Call S) × Scanned E → List (Call S) × Ended (Option E)
  after_scan body (t, out_of_fuel) = (t, unfinished)
  after_scan body (t, too_short) = (t ++ closes ∷ [], panicked)
  after_scan body (t, failed e) = (t ++ closes ∷ [], returned (some e))
  after_scan body (t, found keys) = let (t', x) = body keys t in (t' ++ closes ∷ [], returned x)

  -- MULTI, a command for every key, and EXEC; what f makes of the values if there is no error.
  pub exec_keys : Bytes → (List V → Option E) → List Bytes → Op S (Option E)
  exec_keys name f keys t =
      let (t', v) =
        ask r (does (codes "EXEC") []) (send_keys name keys (t ++ sends (codes "MULTI") [] ∷ [])) in
      let (vs, err) = r.values v in
      (t', elim err [ none ↦ f vs | some e ↦ if r.is_nil e then none else some e ])

  -- ScanHGets
  pub scan_hgets : ℕ → Bytes → Option (List V → Option E) → Op S (Ended (Option E))
  scan_hgets n pattern_ f t =
      after_scan (exec_keys (codes "HGETALL") (elim f [ none ↦ λ _. none | some g ↦ g ]))
        (scan n pattern_ (pos 0) [] (t ++ opens ∷ []))

  -- ScanDels
  pub scan_dels : ℕ → Bytes → Op S (Ended (Option E))
  scan_dels n pattern_ t =
      after_scan (exec_keys (codes "DEL") (λ _. none))
        (scan n pattern_ (pos 0) [] (t ++ opens ∷ []))

  -- The server answers the rounds from iter with the pages, in this order, each a cursor and some
  -- keys, and only the last cursor is 0.
  abbrev pub Pages : Bytes → ℤ → List (V × V) → List (Call S) → Type 0
  Pages pattern_ iter [] t = ⊥
  Pages pattern_ iter ((a, b) ∷ []) t =
      let t' = t ++ scan_call pattern_ iter ∷ [] in
      (r.values (r.reply t') ≡ (a ∷ b ∷ [], none)) × (is_zero (cursor a) ≡ true)
  Pages pattern_ iter ((a, b) ∷ p ∷ ps) t =
      let t' = t ++ scan_call pattern_ iter ∷ [] in
      (r.values (r.reply t') ≡ (a ∷ b ∷ [], none))
      × (is_zero (cursor a) ≡ false)
      × Pages pattern_ (cursor a) (p ∷ ps) t'

  abbrev pub all_keys : List (V × V) → List Bytes
  all_keys [] = []
  all_keys ((a, b) ∷ ps) = page_keys b ++ all_keys ps

  abbrev pub rounds : Bytes → ℤ → List (V × V) → List (Call S)
  rounds pattern_ iter [] = []
  rounds pattern_ iter ((a, b) ∷ ps) = scan_call pattern_ iter ∷ rounds pattern_ (cursor a) ps

  scan-Pages :
      (ps : List (V × V)) (n : ℕ) (pattern_ : Bytes) (iter : ℤ) (keys : List Bytes)
      (t : List (Call S))
      → Pages pattern_ iter ps t
      → length ps ≤ n
      → scan n pattern_ iter keys t ≡ (t ++ rounds pattern_ iter ps, found (keys ++ all_keys ps))
  unfolding scan ask
  scan-Pages [] n pattern_ iter keys t g l = elim g [ ]
  scan-Pages ((a, b) ∷ []) (suc n) pattern_ iter keys t (e, z) l =
      rw (read_page-two e, z, scan)
        (ap (λ ks. (t ++ scan_call pattern_ iter ∷ [], found (keys ++ ks)))
          (sym (append-nil (page_keys b))))
  scan-Pages ((a, b) ∷ p ∷ ps) (suc n) pattern_ iter keys t (e, z, g) l =
      rw (read_page-two e, z, scan)
        (scan-Pages (p ∷ ps) n pattern_ (cursor a) (keys ++ page_keys b) _ g (omega (arith, l))
          ∙ simp append_assoc refl)
  scan-Pages ((a, b) ∷ ps) zero pattern_ iter keys t g l = absurd (omega (arith, l))

  -- The calls for the keys, in their order.
  abbrev pub key_calls : Bytes → List Bytes → List (Call S)
  key_calls name [] = does (codes "EXEC") [] ∷ []
  key_calls name (k ∷ ks) = sends name (text k ∷ []) ∷ key_calls name ks

  send_keys_lem :
      (name : Bytes) (ks : List Bytes) (t : List (Call S))
      → send_keys name ks t ++ does (codes "EXEC") [] ∷ [] ≡ t ++ key_calls name ks
  unfolding send_keys
  send_keys_lem name [] t = refl
  send_keys_lem name (k ∷ ks) t = send_keys_lem name ks _ ∙ append_assoc t _ _

  -- ScanDels
  abbrev pub deletion : Bytes → List (V × V) → List (Call S) → List (Call S)
  deletion pattern_ ps t =
      ((t ++ opens ∷ []) ++ rounds pattern_ (pos 0) ps)
      ++ sends (codes "MULTI") [] ∷ key_calls (codes "DEL") (all_keys ps)

  -- What is made of the reply to EXEC
  abbrev pub verdict : Option E → Option E
  verdict none = none
  verdict (some e) = if r.is_nil e then none else some e

  -- If the server answers the rounds of SCAN with some pages, the last of them and no other with the
  -- cursor 0, and the fuel allows for as many rounds, ScanDels ends: it asks for the pages, each with
  -- the cursor of the one before, sends MULTI, a DEL for each of their keys in the order in which they
  -- came, and EXEC, closes the connection, and answers the error of EXEC unless that is ErrNil.
  pub scan_dels-Pages :
      (pattern_ : Bytes) (ps : List (V × V)) (n : ℕ) (t : List (Call S))
      → Pages pattern_ (pos 0) ps (t ++ opens ∷ [])
      → length ps ≤ n
      → scan_dels n pattern_ t ≡ (
        deletion pattern_ ps t ++ closes ∷ [],
        returned (verdict (r.values (r.reply (deletion pattern_ ps t))).1),
      )
  unfolding scan_dels after_scan exec_keys ask
  scan_dels-Pages pattern_ ps n t g l =
      rw (scan-Pages ps n pattern_ (pos 0) [] (t ++ opens ∷ []) g l) (
        ap (λ us. (us ++ closes ∷ [], returned (verdict (r.values (r.reply us)).1)))
          (send_keys_lem (codes "DEL") (all_keys ps) _
            ∙ append_assoc ((t ++ opens ∷ []) ++ rounds pattern_ (pos 0) ps) _ _))
