-- ===== src/Wsrpc/Server/Invariant.antt =====
-- wsrpc/server.go: the invariant of a connection: its open requests, its goroutines and its answers
-- agree, whatever is done with a request.
use mathlib.Core.List.{Perm, map-append}
use mathlib.Core.List.Perm
use go_toolkits.Base.{
  ℕ, ◌+◌, ◌%◌, ◌^◌, ◌≤◌, ◌≡◌, refl, sym, ◌∙◌, ap, subst, ◌≢◌, ◌⊎◌, Option, none, some, List, [],
  ◌∷◌, ◌++◌, append_assoc, by_if, inl, inr,
}
use go_toolkits.Base.Bytes.{Bytes}
use go_toolkits.Base.Assoc.{Assoc, number_eq, lookup, insert, remove}
use go_toolkits.Wsrpc.Codec
use go_toolkits.Wsrpc.Codec.{
  ServerCodec, ServerRequest, Request, Response, ServerResponse, Incoming, message, unreadable, ok,
  err, read_request_header, read_request_body, get_params, get_method, or_null, new_codec,
}
use go_toolkits.Wsrpc.Service.{get_service, MethodType, Service}
use go_toolkits.Wsrpc.Service
use go_toolkits.Wsrpc.Server.Table.{keys, insert_new}
use go_toolkits.Wsrpc.Server.Tasks.{seqs, take_task-Taken}
use go_toolkits.Wsrpc.Server.Answers.{open_ids, Books, send_response_lem, sent_state-Books}
use go_toolkits.Wsrpc.Server.{
  Job, Task, Status, serving, panicked, Connection, Server, Event, reads, send_response, spawn,
  call_or_refuse, get_args, call_missing, dispatch, take_task, finish,
}

-- The request as it is received: its number and its id, "null" if it has none.
abbrev pub receipt : ServerCodec → ServerRequest → ℕ × Bytes
receipt codec r = ((codec.seq + 1) % 2 ^ 64, or_null r.id)

-- What an event brings in: a message that is read while the loop runs.
abbrev pub taken_in : {X : Type 0} → Status → ServerCodec → Event X → List (ℕ × Bytes)
taken_in serving codec (reads (message r)) = receipt codec r ∷ []
taken_in _ codec e = []

pub account_read :
    (received sent : List (ℕ × Bytes)) (pending : Assoc ℕ (Option Bytes)) (k : ℕ)
    (id : Option Bytes)
    → Perm received (sent ++ open_ids pending)
    → lookup k pending ≡ none
    → Perm (received ++ (k, or_null id) ∷ []) (sent ++ open_ids (insert k id pending))
account_read received sent pending k id h fresh =
    let receipts : List (ℕ × Bytes) = (k, or_null id) ∷ [] in
    let place : (sent ++ open_ids pending) ++ receipts ≡ sent ++ open_ids (insert k id pending) =
      append_assoc sent (open_ids pending) receipts
      ∙ ap (λ o. sent ++ o)
          (sym (map-append {B = ℕ × Bytes} (λ e. (e.0, or_null e.1)) pending ((k, id) ∷ []))
            ∙ ap open_ids (sym (insert_new k id pending fresh))) in
    subst (Perm (received ++ receipts)) place (Perm.append_right receipts h)

pub keys_read :
    (pending : Assoc ℕ (Option Bytes)) (k : ℕ) (id : Option Bytes)
    → lookup k pending ≡ none
    → keys (insert k id pending) ≡ keys pending ++ k ∷ []
keys_read pending k id fresh =
    ap keys (insert_new k id pending fresh) ∙ map-append {B = ℕ} (λ e. e.0) pending ((k, id) ∷ [])

module _ {M A X : Type 0} where
  -- The books are right, and unless the loop has panicked every open request has its goroutine.
  pub record Inv (n : ℕ) (c : Connection M A X) (received : List (ℕ × Bytes)) : Type 0 where
    pub books : Books c received
    pub owned : c.status ≢ panicked → keys c.codec.pending ≡ seqs c.tasks
    pub count : c.codec.seq ≤ n

  -- A request that was just read: open, and without a goroutine yet.
  pub record Ready (n : ℕ) (c : Connection M A X) (received : List (ℕ × Bytes)) (req : Request)
      : Type 0 where
    pub books : Books c received
    pub id : Option Bytes
    pub is_open : lookup req.seq c.codec.pending ≡ some id
    pub last : keys c.codec.pending ≡ seqs c.tasks ++ req.seq ∷ []
    pub before : keys (remove req.seq c.codec.pending) ≡ seqs c.tasks
    pub count : c.codec.seq ≤ n

  module _ (server : Server M A X) {n : ℕ} {received : List (ℕ × Bytes)} where
    answer-Inv :
        (c : Connection M A X) (req : Request) (reply : X) (e b : Option Bytes)
        → Books c received
        → lookup req.seq c.codec.pending ≡ some b
        → keys (remove req.seq c.codec.pending) ≡ seqs c.tasks
        → c.codec.seq ≤ n
        → Inv n (send_response server c req reply e) received
    answer-Inv c req reply e b k h o m =
        let (body, eq) = send_response_lem server c req reply e b h in
        subst (λ d. Inv n d received) (sym eq)
          (record {
            books = sent_state-Books server c received req b body k h;
            owned = λ _. o;
            count = m;
          })

    spawn-Inv :
        (c : Connection M A X) (req : Request) (job : Job M A)
        → Ready n c received req
        → Inv n (spawn c req job) received
    unfolding spawn
    spawn-Inv c req job r = record {
      books = record {
        distinct = r.books.distinct;
        below = r.books.below;
        account = r.books.account;
        clean = r.books.clean;
      };
      owned = λ _. r.last ∙ sym (map-append {B = ℕ} (λ t. t.request.seq) c.tasks _);
      count = r.count;
    }

    panic-Inv :
        (c : Connection M A X) (req : Request)
        → Ready n c received req
        → Inv n (record c { status = panicked }) received
    panic-Inv c req r = record {
      books = record {
        distinct = r.books.distinct;
        below = r.books.below;
        account = r.books.account;
        clean = r.books.clean;
      };
      owned = λ d. absurd (d refl);
      count = r.count;
    }

    call_or_refuse-Inv :
        (c : Connection M A X) (req : Request) (t : MethodType M) (raw : Bytes) (a : Codec.Result A)
        → Ready n c received req
        → Inv n (call_or_refuse server c req t raw a) received
    unfolding call_or_refuse
    call_or_refuse-Inv c req t raw (ok args) r = spawn-Inv c req _ r
    call_or_refuse-Inv c req t raw (err e) r =
        answer-Inv c req _ _ r.id r.books r.is_open r.before r.count

    get_args-Inv :
        (c : Connection M A X) (req : Request) (t : MethodType M) (params : Option Bytes)
        → Ready n c received req
        → Inv n (get_args server c req t params) received
    unfolding get_args
    get_args-Inv c req t none r = panic-Inv c req r
    get_args-Inv c req t (some raw) r = call_or_refuse-Inv c req t raw _ r

    call_missing-Inv :
        (c : Connection M A X) (req : Request) (params : Option Bytes)
        → Ready n c received req
        → Inv n (call_missing c req params) received
    unfolding call_missing
    call_missing-Inv c req none r = panic-Inv c req r
    call_missing-Inv c req (some raw) r = spawn-Inv c req _ r

    pub dispatch-Inv :
        (c : Connection M A X) (req : Request) (found : (Service M × MethodType M) ⊎ Service.Error)
        → Ready n c received req
        → Inv n (dispatch server c req found) received
    unfolding dispatch
    dispatch-Inv c req (inl (s, t)) r = get_args-Inv c req t _ r
    dispatch-Inv c req (inr e) r =
        by_if (λ d. Inv n d received) server.has_missing_handler (λ _. call_missing-Inv c req _ r)
          (λ _. answer-Inv c req _ _ r.id r.books r.is_open r.before r.count)

    pub finish-Inv :
        (c : Connection M A X) (s : ℕ) (reply : X) (e : Option Bytes)
        → c.status ≢ panicked
        → Inv n c received
        → Inv n (finish server c reply e (take_task s c.tasks)) received
    unfolding finish
    finish-Inv c s reply e live i = go (take_task s c.tasks) refl
      where
        go :
            (found : Option (Task M A × List (Task M A)))
            → take_task s c.tasks ≡ found
            → Inv n (finish server c reply e found) received
        go none h = i
        go (some (t, ts)) h =
            let k =
              take_task-Taken s c.codec.pending c.tasks t ts i.books.distinct (i.owned live) h in
            answer-Inv (record c { tasks = ts }) t.request reply e k.value
              (record {
                distinct = i.books.distinct;
                below = i.books.below;
                account = i.books.account;
                clean = i.books.clean;
              })
              (rw (k.own) k.open_) (rw (k.own) k.left) i.count
