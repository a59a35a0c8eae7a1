-- ===== src/Wsrpc/Codec/Tests.antt =====
-- The theorems on the codec of a connection, at a request that is answered after another one.
use go_toolkits.Base.{ℕ, ◌+◌, ◌^◌, ◌<◌, ◌≤◌, ◌≡◌, refl, ◌≢◌, none, some, List, [], ◌∷◌, arith, All}
use go_toolkits.Base.Bytes.{Bytes, codes}
use go_toolkits.Wsrpc.Codec.{
  ServerRequest, Response, ok, err, invalid_sequence, result, failure, new_codec, write_response,
  or_null, body_of,
}
use go_toolkits.Wsrpc.Codec.Pending.{
  count_reads, Call, reads, writes, run, after, Leaves, write_response-read, write_response_twice,
}

abbrev ping : Bytes → ServerRequest
ping id = record { params = none; id = some id; method = codes "Echo.Ping" }

abbrev answer : ℕ → Response
answer n = record { service_method = codes "Echo.Ping"; error = []; seq = n }

abbrev ten : ℕ
ten = 10

abbrev between : List (Call ℕ)
between = reads (ping (codes "b")) ∷ writes (answer 2) 20 ∷ []

first : (answer 1).seq ≡ new_codec.seq + 1
unfolding new_codec
first = refl

few : new_codec.seq + 1 + count_reads between < 2 ^ 64
unfolding new_codec
few = omega arith

others : All (Leaves 1) between
others = (tt, ((λ h. cc), tt))

write_response-read_example :
    (write_response
      (run (after {X = ℕ} new_codec (reads (ping (codes "a")))) between)
      (answer 1)
      ten).1
    ≡ ok (record { body = body_of [] ten; id = or_null (some (codes "a")) })
write_response-read_example =
    write_response-read new_codec (ping (codes "a")) between (answer 1) ten first few others

write_response_twice_example :
    let c' = run (after (run new_codec between) (writes (answer 1) ten)) between in
    write_response c' (answer 1) ten ≡ (c', err invalid_sequence)
unfolding write_response go_toolkits.Base.Assoc.lookup go_toolkits.Wsrpc.Codec.read_request_header
    go_toolkits.Base.Assoc.insert new_codec
write_response_twice_example =
    write_response_twice (run new_codec between) (answer 1) (answer 1) ten ten between refl
      (omega arith) (omega arith)
