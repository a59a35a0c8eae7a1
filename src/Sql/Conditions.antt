-- ===== src/Sql/Conditions.antt =====
-- sql/sql.go: which conditions a sequence of calls of ArgsFilter leaves.
use go_toolkits.Base.{
  ◌≡◌, refl, ◌∙◌, ap, ◌≢◌, ◌↔◌, Option, none, some, List, [], ◌∷◌, ◌++◌, arith, if◌then◌else◌,
}
use go_toolkits.Base.Bytes.{Bytes, same}
use go_toolkits.Base.Assoc.{Assoc, bytes_eq, lookup, insert, lookup-insert}
use go_toolkits.Sql.{
  QueryOp, eq, neq, between, in_, not_in, gt, gte, lt, lte, like, i_like, not_like, is, not_between,
  unknown, Value, nil, slice, one, Entry, plain, ArgsFilter, exec_op, range_op, list_op, like_op,
  requested, update, set, put_where, put_or, add_where, add_or, add_with,
}

abbrev pub or_else : {A : Type 0} → Option A → Option A → Option A
or_else none o = o
or_else (some a) o = some a

-- The calls on an ArgsFilter: the field of the query and the field of the request.
pub data Call (V B : Type 0) : Type 0 where
  wheres ors : Bytes → QueryOp → Bytes → Call V B
  withs : (Value V → B) → Bytes → Call V B
  updates : Bytes → Bytes → Call V B
  sets : Bytes → Value V → Call V B

or_else_assoc : {A : Type 0} (a b c : Option A) → or_else a (or_else b c) ≡ or_else (or_else a b) c
or_else_assoc none b c = refl
or_else_assoc (some x) b c = refl

abbrev pub plainly : {V : Type 0} → Option (Value V) → Option (Entry V)
plainly none = none
plainly (some v) = some (plain v)

-- A slice of two values, and a slice that is not empty.
abbrev pub IsPair : {V : Type 0} → Value V → Type 0
IsPair (slice (a ∷ b ∷ [])) = Unit
IsPair _ = ⊥

abbrev pub IsFilled : {V : Type 0} → Value V → Type 0
IsFilled (slice (a ∷ vs)) = Unit
IsFilled _ = ⊥

-- The operator is one that the code knows, and the value suits it: a pair for a range, a slice
-- that is not empty for a list, and any value for the others.
abbrev pub Suits : {V : Type 0} → QueryOp → Value V → Type 0
Suits between v = IsPair v
Suits not_between v = IsPair v
Suits in_ v = IsFilled v
Suits not_in v = IsFilled v
Suits (unknown o) v = ⊥
Suits _ v = Unit

module _ {V : Type 0} (print : Value V → Bytes) where
  abbrev pub operated : QueryOp → Option (Value V) → Option (Entry V)
  operated o none = none
  operated o (some v) = exec_op print o v

  range_op_iff : (o : QueryOp) (v : Value V) → (range_op print o v ≢ none) ↔ IsPair v
  unfolding range_op
  range_op_iff o nil = ((λ h. h refl), λ p. absurd p)
  range_op_iff o (one x) = ((λ h. h refl), λ p. absurd p)
  range_op_iff o (slice []) = ((λ h. h refl), λ p. absurd p)
  range_op_iff o (slice (a ∷ [])) = ((λ h. h refl), λ p. absurd p)
  range_op_iff o (slice (a ∷ b ∷ [])) = ((λ h. tt), λ p e. cc)
  range_op_iff o (slice (a ∷ b ∷ c ∷ vs)) = ((λ h. h refl), λ p. absurd p)

  list_op_iff : (o : QueryOp) (v : Value V) → (list_op print o v ≢ none) ↔ IsFilled v
  unfolding list_op
  list_op_iff o nil = ((λ h. h refl), λ p. absurd p)
  list_op_iff o (one x) = ((λ h. h refl), λ p. absurd p)
  list_op_iff o (slice []) = ((λ h. h refl), λ p. absurd p)
  list_op_iff o (slice (a ∷ vs)) = ((λ h. tt), λ p e. cc)

  -- execOp gives a condition exactly if the value suits the operator.
  pub exec_op_iff : (o : QueryOp) (v : Value V) → (exec_op print o v ≢ none) ↔ Suits o v
  unfolding exec_op like_op
  exec_op_iff between v = range_op_iff between v
  exec_op_iff not_between v = range_op_iff not_between v
  exec_op_iff in_ v = list_op_iff in_ v
  exec_op_iff not_in v = list_op_iff not_in v
  exec_op_iff (unknown o) v = ((λ h. h refl), λ p. absurd p)
  exec_op_iff eq v = ((λ h. tt), λ p e. cc)
  exec_op_iff neq v = ((λ h. tt), λ p e. cc)
  exec_op_iff gt v = ((λ h. tt), λ p e. cc)
  exec_op_iff gte v = ((λ h. tt), λ p e. cc)
  exec_op_iff lt v = ((λ h. tt), λ p e. cc)
  exec_op_iff lte v = ((λ h. tt), λ p e. cc)
  exec_op_iff like v = ((λ h. tt), λ p e. cc)
  exec_op_iff i_like v = ((λ h. tt), λ p e. cc)
  exec_op_iff not_like v = ((λ h. tt), λ p e. cc)
  exec_op_iff is v = ((λ h. tt), λ p e. cc)

module _ {V B : Type 0} (print : Value V → Bytes) where
  abbrev pub apply : Call V B → ArgsFilter V B → ArgsFilter V B
  apply (wheres k o field) f = add_where print k o field f
  apply (ors k o field) f = add_or print k o field f
  apply (withs b field) f = add_with b field f
  apply (updates k field) f = update k field f
  apply (sets k v) f = set k v f

  abbrev pub run : List (Call V B) → ArgsFilter V B → ArgsFilter V B
  run [] f = f
  run (c ∷ cs) f = run cs (apply c f)

  -- What a call asks of the field k, given the request.
  abbrev pub asks : Option (Assoc Bytes (Value V)) → Bytes → Call V B → Option (Entry V)
  asks m k (wheres j o field) = if same j k then operated print o (requested m field) else none
  asks m k (ors j o field) = none
  asks m k (withs b field) = none
  asks m k (updates j field) = if same j k then plainly (requested m field) else none
  asks m k (sets j v) = if same j k then some (plain v) else none

  abbrev pub last_asks : Option (Assoc Bytes (Value V)) → Bytes → List (Call V B) → Option (Entry V)
  last_asks m k [] = none
  last_asks m k (c ∷ cs) = or_else (last_asks m k cs) (asks m k c)

  -- The effect of a call: what it asks of each field is there, all else is as it was.
  record Effect (c : Call V B) (f f' : ArgsFilter V B) : Type 0 where
    conditions : (k : Bytes) → lookup k f'.ex ≡ or_else (asks f.filter_map k c) (lookup k f.ex)
    request : f'.filter_map ≡ f.filter_map

  put_where-Effect :
      (j : Bytes) (o : QueryOp) (field : Bytes) (f : ArgsFilter V B) (e : Option (Entry V))
      → operated print o (requested f.filter_map field) ≡ e
      → Effect (wheres j o field) f (put_where j e f)
  unfolding put_where
  put_where-Effect j o field f none h = record {
    conditions = λ k. ground (arith, h);
    request = refl;
  }
  put_where-Effect j o field f (some e) h = record {
    conditions = λ k. ground (arith, h, lookup-insert j k e f.ex);
    request = refl;
  }

  put_or-kept :
      (j : Bytes) (f : ArgsFilter V B) (e : Option (Entry V))
      → ((put_or j e f).ex ≡ f.ex) × ((put_or j e f).filter_map ≡ f.filter_map)
  unfolding put_or
  put_or-kept j f none = (refl, refl)
  put_or-kept j f (some e) = (refl, refl)

  wheres-Effect :
      (j : Bytes) (o : QueryOp) (field : Bytes) (f : ArgsFilter V B)
      → Effect (wheres j o field) f (add_where print j o field f)
  unfolding add_where
  wheres-Effect j o field f = go (requested f.filter_map field) refl
    where
      go :
          (v : Option (Value V))
          → requested f.filter_map field ≡ v
          → Effect
              (wheres j o field)
              f
              (elim v [ none ↦ f | some v ↦ put_where j (exec_op print o v) f ])
      go none h = record { conditions = λ k. ground (arith, h); request = refl }
      go (some v) h = put_where-Effect j o field f (exec_op print o v) (ap (operated print o) h)

  updates-Effect :
      (j field : Bytes) (f : ArgsFilter V B) → Effect (updates j field) f (update j field f)
  unfolding update
  updates-Effect j field f = go (requested f.filter_map field) refl
    where
      go :
          (v : Option (Value V))
          → requested f.filter_map field ≡ v
          → Effect
              (updates j field)
              f
              (elim v [ none ↦ f | some v ↦ record f { ex = insert j (plain v) f.ex } ])
      go none h = record { conditions = λ k. ground (arith, h); request = refl }
      go (some v) h = record {
        conditions = λ k. ground (arith, h, lookup-insert j k (plain v) f.ex);
        request = refl;
      }

  apply-Effect : (c : Call V B) (f : ArgsFilter V B) → Effect c f (apply c f)
  unfolding add_or add_with set
  apply-Effect (wheres j o field) f = wheres-Effect j o field f
  apply-Effect (updates j field) f = updates-Effect j field f
  apply-Effect (sets j v) f = record {
    conditions = λ k. ground (arith, lookup-insert j k (plain v) f.ex);
    request = refl;
  }
  apply-Effect (ors j o field) f = go (requested f.filter_map field)
    where
      go :
          (v : Option (Value V))
          → Effect (ors j o field) f (elim v [ none ↦ f | some v ↦ put_or j (exec_op print o v) f ])
      go none = record { conditions = λ k. refl; request = refl }
      go (some v) =
          let (kept, request) = put_or-kept j f (exec_op print o v) in
          record { conditions = λ k. ap (lookup k) kept; request = request }
  apply-Effect (withs b field) f = go (requested f.filter_map field)
    where
      go :
          (v : Option (Value V))
          → Effect
              (withs b field)
              f
              (elim v [ none ↦ f | some v ↦ record f { exps = f.exps ++ b v ∷ [] } ])
      go none = record { conditions = λ k. refl; request = refl }
      go (some v) = record { conditions = λ k. refl; request = refl }

  -- After any calls the condition on a field is what the last call that asks something of it asks:
  -- a call of Where whose field is requested with a value that suits the operator, of Update whose
  -- field is requested, or of Set. Without such a call it is the one of before.
  pub lookup-run :
      (k : Bytes) (cs : List (Call V B)) (f : ArgsFilter V B)
      → lookup k (run cs f).ex ≡ or_else (last_asks f.filter_map k cs) (lookup k f.ex)
  lookup-run k [] f = refl
  lookup-run k (c ∷ cs) f =
      let e = apply-Effect c f in
      lookup-run k cs (apply c f)
      ∙ ap (λ m. or_else (last_asks m k cs) (lookup k (apply c f).ex)) e.request
      ∙ ap (or_else (last_asks f.filter_map k cs)) (e.conditions k)
      ∙ or_else_assoc (last_asks f.filter_map k cs) (asks f.filter_map k c) (lookup k f.ex)
