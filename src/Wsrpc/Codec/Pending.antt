-- ===== src/Wsrpc/Codec/Pending.antt =====
-- The table of open requests of wsrpc/codec.go: a response carries the id that its request came
-- with, whatever the connection reads and answers in between, and a request is answered once.
use go_toolkits.Base.{
  ℕ, suc, ◌+◌, ◌%◌, ◌^◌, ◌≤◌, ◌<◌, ◌≡◌, refl, ◌∙◌, ◌≢◌, Option, none, some, List, [], ◌∷◌, arith,
  All,
}
use go_toolkits.Base.Bytes.{Bytes}
use go_toolkits.Base.Assoc.{number_eq, lookup, remove, lookup-insert, lookup-remove}
use go_toolkits.Wsrpc.Codec.{
  ServerRequest, ServerCodec, Response, ok, err, message, invalid_sequence, read_request_header,
  write_response, or_null, body_of,
}

-- The calls that change the table.
pub data Call (X : Type 0) : Type 0 where
  reads : ServerRequest → Call X
  writes : Response → X → Call X

lookup-read :
    (c : ServerCodec) (s : ℕ) (r : ServerRequest)
    → s ≤ c.seq
    → c.seq + 1 < 2 ^ 64
    → lookup s (read_request_header c (message r)).0.pending ≡ lookup s c.pending
unfolding read_request_header
lookup-read c s r old few = ground (arith, lookup-insert ((c.seq + 1) % 2 ^ 64) s r.id c.pending)

lookup-read_new :
    (c : ServerCodec) (s : ℕ) (r : ServerRequest)
    → s ≡ c.seq + 1
    → c.seq + 1 < 2 ^ 64
    → lookup s (read_request_header c (message r)).0.pending ≡ some r.id
unfolding read_request_header
lookup-read_new c s r e few = ground (arith, lookup-insert ((c.seq + 1) % 2 ^ 64) s r.id c.pending)

seq-read :
    (c : ServerCodec) (r : ServerRequest)
    → c.seq + 1 < 2 ^ 64
    → (read_request_header c (message r)).0.seq ≡ c.seq + 1
unfolding read_request_header
seq-read c r few = omega arith

module _ {X : Type 0} where
  abbrev pub after : ServerCodec → Call X → ServerCodec
  after c (reads r) = (read_request_header c (message r)).0
  after c (writes r x) = (write_response c r x).0

  abbrev pub run : ServerCodec → List (Call X) → ServerCodec
  run c [] = c
  run c (call ∷ calls) = run (after c call) calls

  abbrev pub count_reads : List (Call X) → ℕ
  count_reads [] = 0
  count_reads (reads r ∷ calls) = suc (count_reads calls)
  count_reads (writes r x ∷ calls) = count_reads calls

  -- The call does not answer request s.
  abbrev pub Leaves : ℕ → Call X → Type 0
  Leaves s (reads r) = Unit
  Leaves s (writes r x) = r.seq ≢ s

  lookup-write :
      (c : ServerCodec) (s : ℕ) (r : Response) (x : X)
      → r.seq ≢ s
      → lookup s (after c (writes r x)).pending ≡ lookup s c.pending
  unfolding write_response
  lookup-write c s r x other = ground (arith, lookup-remove r.seq s c.pending)

  seq-write : (c : ServerCodec) (r : Response) (x : X) → (after c (writes r x)).seq ≡ c.seq
  unfolding write_response
  seq-write c r x = ground arith

  -- Later reads and the answers to other requests leave the entry of s as it is.
  lookup-run :
      (c : ServerCodec) (s : ℕ) (calls : List (Call X))
      → s ≤ c.seq
      → c.seq + count_reads calls < 2 ^ 64
      → All (Leaves s) calls
      → lookup s (run c calls).pending ≡ lookup s c.pending
  lookup-run c s [] old few a = refl
  lookup-run c s (reads r ∷ calls) old few a =
      lookup-run (after c (reads r)) s calls (omega (arith, seq-read c r))
        (omega (arith, seq-read c r)) a.1
      ∙ lookup-read c s r old (omega arith)
  lookup-run c s (writes r x ∷ calls) old few a =
      lookup-run (after c (writes r x)) s calls (omega (arith, seq-write c r x))
        (omega (arith, seq-write c r x)) a.1
      ∙ lookup-write c s r x a.0

  pub write_response_lem :
      (c : ServerCodec) (r : Response) (x : X) (b : Option Bytes)
      → lookup r.seq c.pending ≡ some b
      → write_response c r x ≡ (
        record c { pending = remove r.seq c.pending },
        ok (record { body = body_of r.error x; id = or_null b }),
      )
  unfolding write_response
  write_response_lem c r x b h = rw (h, write_response)

  write_found :
      (c : ServerCodec) (r : Response) (x : X) (b : Option Bytes)
      → lookup r.seq c.pending ≡ some b
      → (write_response c r x).1 ≡ ok (record { body = body_of r.error x; id = or_null b })
  unfolding write_response
  write_found c r x b h = rw (h, write_response)

  write_missing :
      (c : ServerCodec) (r : Response) (x : X)
      → lookup r.seq c.pending ≡ none
      → write_response c r x ≡ (c, err invalid_sequence)
  unfolding write_response
  write_missing c r x h = rw (h, write_response)

  gone :
      (c : ServerCodec) (r : Response) (x : X) → lookup r.seq (after c (writes r x)).pending ≡ none
  unfolding write_response
  gone c r x = ground (arith, lookup-remove r.seq r.seq c.pending)

  still :
      (c : ServerCodec) (s : ℕ) (r : Response) (x : X)
      → lookup s c.pending ≡ none
      → lookup s (after c (writes r x)).pending ≡ none
  unfolding write_response
  still c s r x h = ground (arith, lookup-remove r.seq s c.pending)

  -- Once closed, an entry is not opened again by later calls.
  lookup-run_gone :
      (c : ServerCodec) (s : ℕ) (calls : List (Call X))
      → s ≤ c.seq
      → c.seq + count_reads calls < 2 ^ 64
      → lookup s c.pending ≡ none
      → lookup s (run c calls).pending ≡ none
  lookup-run_gone c s [] old few h = h
  lookup-run_gone c s (reads r ∷ calls) old few h =
      lookup-run_gone (after c (reads r)) s calls (omega (arith, seq-read c r))
        (omega (arith, seq-read c r)) (lookup-read c s r old (omega arith) ∙ h)
  lookup-run_gone c s (writes r x ∷ calls) old few h =
      lookup-run_gone (after c (writes r x)) s calls (omega (arith, seq-write c r x))
        (omega (arith, seq-write c r x)) (still c s r x h)

  -- A request that was read with the id b is answered under that id ("null" if it had none), after
  -- any calls that do not answer it, as long as the sequence number has not wrapped round.
  pub write_response-read :
      (c : ServerCodec) (q : ServerRequest) (calls : List (Call X)) (r : Response) (x : X)
      → r.seq ≡ c.seq + 1
      → c.seq + 1 + count_reads calls < 2 ^ 64
      → All (Leaves r.seq) calls
      → (write_response (run (after c (reads q)) calls) r x).1
        ≡ ok (record { body = body_of r.error x; id = or_null q.id })
  write_response-read c q calls r x e few a = write_found (run (after c (reads q)) calls) r x q.id (
      lookup-run (after c (reads q)) r.seq calls (omega (arith, seq-read c q))
        (omega (arith, seq-read c q)) a
      ∙ lookup-read_new c r.seq q e (omega arith))

  -- After its answer every further answer to the request is refused, and changes nothing.
  pub write_response_twice :
      (c : ServerCodec) (r r' : Response) (x x' : X) (calls : List (Call X))
      → r'.seq ≡ r.seq
      → r.seq ≤ c.seq
      → c.seq + count_reads calls < 2 ^ 64
      → let c' = run (after c (writes r x)) calls in
        write_response c' r' x' ≡ (c', err invalid_sequence)
  write_response_twice c r r' x x' calls e old few =
      write_missing (run (after c (writes r x)) calls) r' x' (
        rw e (
          lookup-run_gone (after c (writes r x)) r.seq calls (omega (arith, seq-write c r x))
            (omega (arith, seq-write c r x)) (gone c r x)))
