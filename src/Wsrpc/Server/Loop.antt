-- ===== src/Wsrpc/Server/Loop.antt =====
-- wsrpc/server.go: no run of a connection loses a request, answers it twice or under another id.
use mathlib.Core.List.{Perm}
use mathlib.Core.List.Perm
use go_toolkits.Base.{
  ℕ, ◌+◌, ◌^◌, ◌<◌, ◌≡◌, refl, sym, ◌∙◌, ap, subst, ◌≢◌, true, false, Option, List, [], ◌∷◌, ◌++◌,
  append_assoc, append-nil, arith, length,
}
use go_toolkits.Base.Bytes.{Bytes}
use go_toolkits.Base.Assoc.{Assoc, number_eq}
use go_toolkits.Wsrpc.Codec.{new_codec, ServerResponse}
use go_toolkits.Wsrpc.Server.Table.{keys}
use go_toolkits.Wsrpc.Server.Tasks.{seqs}
use go_toolkits.Wsrpc.Server.Answers.{open_ids, sent_ids}
use go_toolkits.Wsrpc.Server.{panicked, Connection, Server, Event, new_connection, step, run}
use go_toolkits.Wsrpc.Server.Invariant.{taken_in, Inv}
use go_toolkits.Wsrpc.Server.Steps.{step-Inv}
use go_toolkits.Wsrpc.Server.Written.{written-sent}

no_keys : (m : Assoc ℕ (Option Bytes)) → keys m ≡ [] → open_ids m ≡ []
no_keys [] e = refl
no_keys (x ∷ m) e = cc

module _ {M A X : Type 0} where
  -- The requests that a connection receives over a run: those that are read before a read error or
  -- a panic, by number and id.
  abbrev pub received_by : Server M A X → Connection M A X → List (Event X) → List (ℕ × Bytes)
  received_by server c [] = []
  received_by server c (e ∷ es) =
      taken_in c.status c.codec e ++ received_by server (step server c e) es

  run-Inv :
      (server : Server M A X) (n : ℕ) (c : Connection M A X) (received : List (ℕ × Bytes))
      (es : List (Event X))
      → n + length es < 2 ^ 64
      → Inv n c received
      → Inv (n + length es) (run server c es) (received ++ received_by server c es)
  unfolding run step
  run-Inv server n c received [] few i =
      subst (λ k. Inv k c (received ++ [])) (omega arith)
        (subst (Inv n c) (sym (append-nil received)) i)
  run-Inv server n c received (e ∷ es) few i =
      let i' = step-Inv server n c received c.status e refl (omega arith) i in
      subst
        (λ k. Inv k (run server (step server c e) es) (received ++ received_by server c (e ∷ es)))
        (omega arith)
        (subst (Inv (n + 1 + length es) (run server (step server c e) es))
          (append_assoc received (taken_in c.status c.codec e) _)
          (run-Inv server (n + 1) (step server c e) _ es (omega arith) i'))

  new-Inv : Inv 0 (new_connection {M = M} {A = A} {X = X}) []
  unfolding new_connection new_codec
  new-Inv = record {
    books = record { distinct = tt; below = tt; account = Perm.nil; clean = refl };
    owned = λ _. refl;
    count = omega arith;
  }

  -- Over any run of a new connection with fewer than 2 ^ 64 events, in any order of reads and ends
  -- of goroutines: the requests that were received are, each once and under its own id, those that
  -- were answered and those that are still open; the codec refused no answer; and unless the loop
  -- has panicked the open requests are those of the goroutines that still run, in order.
  pub run_accounts :
      (server : Server M A X) (es : List (Event X))
      → length es < 2 ^ 64
      → let c = run server new_connection es in
        Perm (received_by server new_connection es) (sent_ids c.sent ++ open_ids c.codec.pending)
        × (c.refused ≡ 0)
        × (c.status ≢ panicked → keys c.codec.pending ≡ seqs c.tasks)
  run_accounts server es few =
      let i = run-Inv server 0 new_connection [] es (omega arith) new-Inv in
      (i.books.account, i.books.clean, i.owned)

  -- After a run of fewer than 2 ^ 64 events in which the loop has not panicked, if no goroutine runs
  -- any more, the codec is not closed yet and the encoder writes every response: every request that
  -- was received has been answered on the connection, exactly once and under its own id.
  pub run_answers :
      (server : Server M A X) (es : List (Event X))
      → length es < 2 ^ 64
      → ((r : ServerResponse X) → server.encodes r ≡ true)
      → (run server new_connection es).tasks ≡ []
      → (run server new_connection es).status ≢ panicked
      → (run server new_connection es).closed ≡ false
      → Perm
          (received_by server new_connection es)
          (sent_ids (run server new_connection es).written)
  run_answers server es few all done live open_ =
      let (account, _, owned) = run_accounts server es few in
      let c = run server new_connection es in
      let closed = no_keys c.codec.pending (owned live ∙ ap seqs done) in
      subst (Perm (received_by server new_connection es))
        (ap (λ o. sent_ids c.sent ++ o) closed
          ∙ append-nil (sent_ids c.sent)
          ∙ ap sent_ids (sym (written-sent server all es open_)))
        account
