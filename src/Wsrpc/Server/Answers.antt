-- ===== src/Wsrpc/Server/Answers.antt =====
-- wsrpc/server.go: the books of a connection, and what sending a response does to them.
use mathlib.Core.List.{Perm, map-append}
use mathlib.Core.List.Perm
use go_toolkits.Base.{ℕ, ◌≡◌, ap, Option, none, some, List, [], ◌∷◌, ◌++◌, map, append_assoc}
use go_toolkits.Base.Bytes.{Bytes}
use go_toolkits.Base.Assoc.{Assoc, number_eq, lookup, remove}
use go_toolkits.Wsrpc.Codec.{Request, ServerResponse, Body, or_null, body_of}
use go_toolkits.Wsrpc.Codec.Pending.{write_response_lem}
use go_toolkits.Wsrpc.Server.Table.{Distinct, Below, remove-Distinct, remove-Below, remove-perm}
use go_toolkits.Wsrpc.Server.{Connection, Server, response_to, encode, deliver, send_response}

-- Requests and responses as sequence numbers and ids.
abbrev pub open_ids : Assoc ℕ (Option Bytes) → List (ℕ × Bytes)
open_ids = map λ e. (e.0, or_null e.1)

abbrev pub sent_ids : {X : Type 0} → List (ℕ × ServerResponse X) → List (ℕ × Bytes)
sent_ids = map λ e. (e.0, e.1.id)

module _ {M A X : Type 0} where
  -- Every request that was received has been answered once, under its own id, or is open; no
  -- response was refused by the codec.
  pub record Books (c : Connection M A X) (received : List (ℕ × Bytes)) : Type 0 where
    pub distinct : Distinct c.codec.pending
    pub below : Below c.codec.seq c.codec.pending
    pub account : Perm received (sent_ids c.sent ++ open_ids c.codec.pending)
    pub clean : c.refused ≡ 0

  abbrev pub sent_state :
      Server M A X → Connection M A X → Request → Option Bytes → Body X → Connection M A X
  sent_state server c req b body = record c {
    codec = record c.codec { pending = remove req.seq c.codec.pending };
    sent = c.sent ++ (req.seq, record { body = body; id = or_null b }) ∷ [];
    written = encode server c (req.seq, record { body = body; id = or_null b });
  }

  pub send_response_lem :
      (server : Server M A X) (c : Connection M A X) (req : Request) (reply : X) (e : Option Bytes)
      (b : Option Bytes)
      → lookup req.seq c.codec.pending ≡ some b
      → (body : Body X) × (send_response server c req reply e ≡ sent_state server c req b body)
  unfolding send_response deliver
  send_response_lem server c req reply none b h = (
    body_of [] reply,
    ap (deliver server c req) (write_response_lem c.codec (response_to req []) reply b h),
  )
  send_response_lem server c req reply (some t) b h = (
    body_of t server.invalid_request,
    ap (deliver server c req)
        (write_response_lem c.codec (response_to req t) server.invalid_request b h),
  )

  -- Answering an open request moves it from the open ones to the answered ones.
  pub sent_state-Books :
      (server : Server M A X) (c : Connection M A X) (received : List (ℕ × Bytes)) (req : Request)
      (b : Option Bytes) (body : Body X)
      → Books c received
      → lookup req.seq c.codec.pending ≡ some b
      → Books (sent_state server c req b body) received
  sent_state-Books server c received req b body k h = record {
    distinct = remove-Distinct req.seq c.codec.pending k.distinct;
    below = remove-Below c.codec.seq req.seq c.codec.pending k.below;
    account = Perm.trans k.account (
        rw
          (
            map-append {B = ℕ × Bytes} (λ e. (e.0, e.1.id)) c.sent _,
            append_assoc (sent_ids c.sent) _ _,
          )
          (Perm.append_left (sent_ids c.sent)
            (Perm.map _ (remove-perm req.seq b c.codec.pending k.distinct h))));
    clean = k.clean;
  }
