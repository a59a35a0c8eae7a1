-- ===== src/Wsrpc/Server/Tasks.antt =====
-- The goroutines of a connection beside the table of its open requests.
use go_toolkits.Base.{
  ℕ, ◌≡◌, subst, false, none, some, List, [], ◌∷◌, map, arith, ◌==◌, ==_iff, Bool-cases,
  Option-cases, inl, inr,
}
use go_toolkits.Base.Assoc.{Assoc, number_eq, lookup, remove}
use go_toolkits.Wsrpc.Server.Table.{keys, Distinct, remove_missing}
use go_toolkits.Wsrpc.Server.{Task, take_task}

abbrev pub seqs : {M A : Type 0} → List (Task M A) → List ℕ
seqs = map λ t. t.request.seq

module _ {M A V : Type 0} where
  -- Where each open request has its goroutine, in the same order, the end of a goroutine takes both
  -- of its request out.
  pub record Taken (s : ℕ) (m : Assoc ℕ V) (t : Task M A) (us : List (Task M A)) : Type 0 where
    pub value : V
    pub own : t.request.seq ≡ s
    pub open_ : lookup s m ≡ some value
    pub left : keys (remove s m) ≡ seqs us

  take_head :
      (s j : ℕ) (w : V) (m : Assoc ℕ V) (t : Task M A) (ts : List (Task M A))
      → lookup j m ≡ none
      → j ≡ t.request.seq
      → keys m ≡ seqs ts
      → t.request.seq ≡ s
      → Taken s ((j, w) ∷ m) t ts
  unfolding lookup remove
  take_head s j w m t ts f e es hit = record {
    value = w;
    own = hit;
    open_ = ground (arith, ==_iff j s);
    left = ground (arith, ==_iff j s, remove_missing s m);
  }

  take_later :
      (s j : ℕ) (w : V) (m : Assoc ℕ V) (t' t : Task M A) (us : List (Task M A))
      → j ≡ t'.request.seq
      → (t'.request.seq == s) ≡ false
      → Taken s m t us
      → Taken s ((j, w) ∷ m) t (t' ∷ us)
  unfolding lookup remove
  take_later s j w m t' t us e miss k = record {
    value = k.value;
    own = k.own;
    open_ = ground (arith, k.open_);
    left = ground (arith, k.left);
  }

  pub take_task-Taken :
      (s : ℕ) (m : Assoc ℕ V) (ts : List (Task M A)) (t : Task M A) (us : List (Task M A))
      → Distinct m
      → keys m ≡ seqs ts
      → take_task s ts ≡ some (t, us)
      → Taken s m t us
  unfolding take_task
  take_task-Taken s [] [] t us d e h = cc
  take_task-Taken s [] (t' ∷ ts) t us d e h = cc
  take_task-Taken s (x ∷ m) [] t us d e h = cc
  take_task-Taken s ((j, w) ∷ m) (t' ∷ ts) t us (f, d) e h =
      elim (Bool-cases (t'.request.seq == s)) [
        | inl hit ↦
            let same : t' ≡ t = ground arith in
            let rest : ts ≡ us = ground arith in
            subst (λ x. Taken s ((j, w) ∷ m) x us) same
              (subst (Taken s ((j, w) ∷ m) t') rest (
                take_head s j w m t' ts f (ground arith) (ground arith)
                  ((==_iff t'.request.seq s).0 hit)))
        | inr miss ↦ elim (Option-cases (take_task s ts)) [
          | inl lost ↦ absurd (ground arith)
          | inr ((u, rest), found) ↦
              let same : u ≡ t = ground arith in
              let more : t' ∷ rest ≡ us = ground arith in
              subst (λ x. Taken s ((j, w) ∷ m) x us) same
                (subst (Taken s ((j, w) ∷ m) u) more (
                  take_later s j w m t' u rest (ground arith) miss
                    (take_task-Taken s m ts u rest d (ground arith) found)))
        ]
      ]
