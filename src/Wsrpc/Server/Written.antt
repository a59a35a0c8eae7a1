-- ===== src/Wsrpc/Server/Written.antt =====
-- wsrpc/server.go: which of the responses that go to the encoder are written.
use go_toolkits.Base.{
  ◌≡◌, refl, ap, ◌⊎◌, inl, inr, true, false, Option, none, some, List, [], ◌∷◌, ◌++◌, by_if,
}
use go_toolkits.Base.Bytes.{Bytes}
use go_toolkits.Wsrpc.Codec
use go_toolkits.Wsrpc.Codec.{
  ServerCodec, Request, ServerResponse, Incoming, ok, err, read_request_header, read_request_body,
  write_response, get_params,
}
use go_toolkits.Wsrpc.Service
use go_toolkits.Wsrpc.Service.{Service, MethodType, get_service}
use go_toolkits.Wsrpc.Server.{
  Task, Status, serving, ended, panicked, Connection, Server, Event, reads, ends, closes,
  new_connection, deliver, send_response, spawn, call_or_refuse, get_args, call_missing, dispatch,
  serve_request, serve_next, finish, step_in, step, run,
}

module _ {M A X : Type 0} (server : Server M A X)
    (all : (r : ServerResponse X) → server.encodes r ≡ true) where
  -- As long as the codec is open, all that went to the encoder was written.
  abbrev Wrote : Connection M A X → Type 0
  Wrote c = c.closed ≡ false → c.written ≡ c.sent

  deliver-Wrote :
      (c : Connection M A X) (req : Request) (p : ServerCodec × Codec.Result (ServerResponse X))
      → Wrote c
      → Wrote (deliver server c req p)
  unfolding deliver
  deliver-Wrote c req (codec, err e) w = w
  deliver-Wrote c req (codec, ok r) w =
      λ open_. rw (open_, all r) (ap (λ l. l ++ (req.seq, r) ∷ []) (w open_))

  send_response-Wrote :
      (c : Connection M A X) (req : Request) (reply : X) (e : Option Bytes)
      → Wrote c
      → Wrote (send_response server c req reply e)
  unfolding send_response
  send_response-Wrote c req reply none w = deliver-Wrote c req _ w
  send_response-Wrote c req reply (some t) w = deliver-Wrote c req _ w

  call_or_refuse-Wrote :
      (c : Connection M A X) (req : Request) (t : MethodType M) (raw : Bytes) (a : Codec.Result A)
      → Wrote c
      → Wrote (call_or_refuse server c req t raw a)
  unfolding call_or_refuse spawn
  call_or_refuse-Wrote c req t raw (ok args) w = w
  call_or_refuse-Wrote c req t raw (err e) w = send_response-Wrote c req _ _ w

  get_args-Wrote :
      (c : Connection M A X) (req : Request) (t : MethodType M) (params : Option Bytes)
      → Wrote c
      → Wrote (get_args server c req t params)
  unfolding get_args
  get_args-Wrote c req t none w = w
  get_args-Wrote c req t (some raw) w = call_or_refuse-Wrote c req t raw _ w

  call_missing-Wrote :
      (c : Connection M A X) (req : Request) (params : Option Bytes)
      → Wrote c
      → Wrote (call_missing c req params)
  unfolding call_missing spawn
  call_missing-Wrote c req none w = w
  call_missing-Wrote c req (some raw) w = w

  dispatch-Wrote :
      (c : Connection M A X) (req : Request) (found : (Service M × MethodType M) ⊎ Service.Error)
      → Wrote c
      → Wrote (dispatch server c req found)
  unfolding dispatch
  dispatch-Wrote c req (inl (s, t)) w = get_args-Wrote c req t _ w
  dispatch-Wrote c req (inr e) w =
      by_if Wrote server.has_missing_handler (λ _. call_missing-Wrote c req _ w)
        (λ _. send_response-Wrote c req _ _ w)

  serve_request-Wrote :
      (c : Connection M A X) (p : ServerCodec × Codec.Result Request)
      → Wrote c
      → Wrote (serve_request server c p)
  unfolding serve_request
  serve_request-Wrote c (codec, err e) w = w
  serve_request-Wrote c (codec, ok req) w = dispatch-Wrote (record c { codec = codec }) req _ w

  finish-Wrote :
      (c : Connection M A X) (reply : X) (e : Option Bytes)
      (o : Option (Task M A × List (Task M A)))
      → Wrote c
      → Wrote (finish server c reply e o)
  unfolding finish
  finish-Wrote c reply e none w = w
  finish-Wrote c reply e (some (t, ts)) w =
      send_response-Wrote (record c { tasks = ts }) t.request reply e w

  step_in-Wrote :
      (s : Status) (c : Connection M A X) (e : Event X) → Wrote c → Wrote (step_in s server c e)
  unfolding step_in serve_next
  step_in-Wrote panicked c (reads m) w = w
  step_in-Wrote panicked c closes w = w
  step_in-Wrote panicked c (ends s reply x) w = w
  step_in-Wrote serving c (reads m) w = serve_request-Wrote c _ w
  step_in-Wrote serving c closes w = w
  step_in-Wrote serving c (ends s reply x) w = finish-Wrote c reply x _ w
  step_in-Wrote ended c (reads m) w = w
  step_in-Wrote ended c closes w = λ h. cc
  step_in-Wrote ended c (ends s reply x) w = finish-Wrote c reply x _ w

  pub run-Wrote : (c : Connection M A X) (es : List (Event X)) → Wrote c → Wrote (run server c es)
  unfolding run step
  run-Wrote c [] w = w
  run-Wrote c (e ∷ es) w = run-Wrote (step server c e) es (step_in-Wrote c.status c e w)

  -- On a new connection, over any run that does not close the codec.
  pub written-sent :
      (es : List (Event X))
      → (run server new_connection es).closed ≡ false
      → (run server new_connection es).written ≡ (run server new_connection es).sent
  unfolding new_connection
  written-sent es = run-Wrote new_connection es (λ h. refl)
