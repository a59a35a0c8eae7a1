-- ===== src/Wsrpc/Server/Steps.antt =====
-- wsrpc/server.go: every event of a connection keeps its invariant.
use go_toolkits.Base.{
  ℕ, ◌+◌, ◌%◌, ◌^◌, ◌<◌, ◌≡◌, sym, ◌∙◌, ap, subst, Option, none, List, [], ◌∷◌, ◌++◌, append-nil,
  arith,
}
use go_toolkits.Base.Bytes.{Bytes}
use go_toolkits.Base.Assoc.{Assoc, number_eq, lookup, lookup-insert}
use go_toolkits.Wsrpc.Codec.{ServerRequest, message, unreadable, read_request_header}
use go_toolkits.Wsrpc.Server.Table.{lookup_above, insert-Distinct, insert-Below, remove-insert}
use go_toolkits.Wsrpc.Server.{
  Status, serving, ended, panicked, Connection, Server, Event, reads, ends, closes, serve_request,
  serve_next, step_in,
}
use go_toolkits.Wsrpc.Server.Invariant.{
  receipt, taken_in, account_read, keys_read, Inv, Ready, dispatch-Inv, finish-Inv,
}

module _ {M A X : Type 0} where
  -- The state after the header of a message was read.
  abbrev with_header : Connection M A X → ServerRequest → Connection M A X
  with_header c r = record c { codec = (read_request_header c.codec (message r)).0 }

  header-Ready :
      (n : ℕ) (c : Connection M A X) (received : List (ℕ × Bytes)) (r : ServerRequest)
      → Inv n c received
      → c.status ≡ serving
      → n + 1 < 2 ^ 64
      → Ready
          (n + 1)
          (with_header c r)
          (received ++ receipt c.codec r ∷ [])
          (record { service_method = r.method; seq = (c.codec.seq + 1) % 2 ^ 64 })
  unfolding read_request_header
  header-Ready n c received r i live few = record {
    books = record {
      distinct = insert-Distinct k r.id pending fresh i.books.distinct;
      below = insert-Below c.codec.seq k r.id pending i.books.below (omega (arith, i.count));
      account = account_read received _ pending k r.id i.books.account fresh;
      clean = i.books.clean;
    };
    id = r.id;
    is_open = ground (arith, lookup-insert k k r.id pending);
    last =
        keys_read pending k r.id fresh ∙ ap (λ ks. ks ++ k ∷ []) (i.owned (λ e. cc (sym live ∙ e)));
    before = rw (remove-insert k r.id pending fresh) (i.owned (λ e. cc (sym live ∙ e)));
    count = omega (arith, i.count);
  }
    where
      pending : Assoc ℕ (Option Bytes)
      pending = c.codec.pending

      k : ℕ
      k = (c.codec.seq + 1) % 2 ^ 64

      fresh : lookup k pending ≡ none
      fresh = lookup_above c.codec.seq k pending i.books.below (omega (arith, i.count))

  Inv-later :
      (n : ℕ) (c : Connection M A X) (received : List (ℕ × Bytes))
      → Inv n c received
      → Inv (n + 1) c (received ++ [])
  Inv-later n c received i =
      subst (Inv (n + 1) c) (sym (append-nil received))
        (record { books = i.books; owned = i.owned; count = omega (arith, i.count) })

  pub step-Inv :
      (server : Server M A X) (n : ℕ) (c : Connection M A X) (received : List (ℕ × Bytes))
      (s : Status) (e : Event X)
      → c.status ≡ s
      → n + 1 < 2 ^ 64
      → Inv n c received
      → Inv (n + 1) (step_in s server c e) (received ++ taken_in s c.codec e)
  unfolding step_in serve_next serve_request read_request_header
  step-Inv server n c received panicked (reads m) h few i = Inv-later n c received i
  step-Inv server n c received panicked (ends s reply x) h few i = Inv-later n c received i
  step-Inv server n c received ended (reads m) h few i = Inv-later n c received i
  step-Inv server n c received panicked closes h few i = Inv-later n c received i
  step-Inv server n c received serving closes h few i = Inv-later n c received i
  step-Inv server n c received ended closes h few i = Inv-later n _ received (record {
    books = record {
      distinct = i.books.distinct;
      below = i.books.below;
      account = i.books.account;
      clean = i.books.clean;
    };
    owned = i.owned;
    count = i.count;
  })
  step-Inv server n c received serving (reads (message r)) h few i =
      dispatch-Inv server (with_header c r) _ _ (header-Ready n c received r i h few)
  step-Inv server n c received serving (reads (unreadable x)) h few i =
      Inv-later n _ received (record {
        books = record {
          distinct = i.books.distinct;
          below = i.books.below;
          account = i.books.account;
          clean = i.books.clean;
        };
        owned = λ _. i.owned (λ e. cc (sym h ∙ e));
        count = i.count;
      })
  step-Inv server n c received serving (ends s reply x) h few i =
      Inv-later n _ received (finish-Inv server c s reply x (λ e. cc (sym h ∙ e)) i)
  step-Inv server n c received ended (ends s reply x) h few i =
      Inv-later n _ received (finish-Inv server c s reply x (λ e. cc (sym h ∙ e)) i)
