-- ===== src/Wsrpc/Server/Panic.antt =====
-- wsrpc/server.go: when a message makes the loop of a connection panic.
use go_toolkits.Base.{◌≡◌, refl, sym, ◌∙◌, ◌⊎◌, inl, inr, true, Option, none, some, ◌≢◌, by_if, ◌↔◌}
use go_toolkits.Base.Bytes.{Bytes}
use go_toolkits.Wsrpc.Codec
use go_toolkits.Wsrpc.Codec.{
  ServerCodec, ServerRequest, Request, Response, ServerResponse, message, ok, err,
  read_request_header, get_params, get_method, write_response,
}
use go_toolkits.Wsrpc.Service.{Service, MethodType, get_service}
use go_toolkits.Wsrpc.Service
use go_toolkits.Wsrpc.Server.{
  serving, panicked, Connection, Server, deliver, send_response, spawn, call_or_refuse, get_args,
  call_missing, dispatch, serve_request, serve_next,
}

module _ {M A X : Type 0} where
  status_deliver :
      (server : Server M A X) (c : Connection M A X) (req : Request)
      (p : ServerCodec × Codec.Result (ServerResponse X))
      → (deliver server c req p).status ≡ c.status
  unfolding deliver
  status_deliver server c req (codec, ok r) = refl
  status_deliver server c req (codec, err e) = refl

  module _ (server : Server M A X) where
    status_send :
        (c : Connection M A X) (req : Request) (reply : X) (e : Option Bytes)
        → (send_response server c req reply e).status ≡ c.status
    unfolding send_response
    status_send c req reply none = status_deliver server c req _
    status_send c req reply (some e) = status_deliver server c req _

    send_lives :
        (c : Connection M A X) (req : Request) (reply : X) (e : Option Bytes)
        → c.status ≡ serving
        → (send_response server c req reply e).status ≢ panicked
    send_lives c req reply e live p = cc (sym live ∙ sym (status_send c req reply e) ∙ p)

    status_call :
        (c : Connection M A X) (req : Request) (t : MethodType M) (raw : Bytes) (a : Codec.Result A)
        → (call_or_refuse server c req t raw a).status ≡ c.status
    unfolding call_or_refuse spawn
    status_call c req t raw (ok args) = refl
    status_call c req t raw (err e) = status_send c req _ _

    get_args_panics :
        (c : Connection M A X) (req : Request) (t : MethodType M) (params : Option Bytes)
        → c.status ≡ serving
        → ((get_args server c req t params).status ≡ panicked) ↔ (params ≡ none)
    unfolding get_args
    get_args_panics c req t none live = ((λ _. refl), λ _. refl)
    get_args_panics c req t (some raw) live =
        ((λ h. cc (sym live ∙ sym (status_call c req t raw _) ∙ h)), λ h. cc)

    call_missing_panics :
        (c : Connection M A X) (req : Request) (params : Option Bytes)
        → c.status ≡ serving
        → ((call_missing c req params).status ≡ panicked) ↔ (params ≡ none)
    unfolding call_missing spawn
    call_missing_panics c req none live = ((λ _. refl), λ _. refl)
    call_missing_panics c req (some raw) live = ((λ h. cc (sym live ∙ h)), λ h. cc)

    -- Some handler takes the method: that of a service, or the one for missing methods.
    abbrev pub IsTaken : (Service M × MethodType M) ⊎ Service.Error → Type 0
    IsTaken (inl _) = Unit
    IsTaken (inr _) = server.has_missing_handler ≡ true

    dispatch_panics :
        (c : Connection M A X) (req : Request) (found : (Service M × MethodType M) ⊎ Service.Error)
        → c.status ≡ serving
        → ((dispatch server c req found).status ≡ panicked)
          ↔ ((get_params c.codec ≡ none) × IsTaken found)
    unfolding dispatch
    dispatch_panics c req (inl (s, t)) live =
        let (there, back) = get_args_panics c req t (get_params c.codec) live in
        ((λ h. (there h, tt)), λ q. back q.0)
    dispatch_panics c req (inr e) live =
        by_if
          (λ (d : Connection M A X).
            (d.status ≡ panicked)
            ↔ ((get_params c.codec ≡ none) × (server.has_missing_handler ≡ true)))
          server.has_missing_handler
          (λ h.
            let (there, back) = call_missing_panics c req (get_params c.codec) live in
            ((λ e. (there e, h)), λ q. back q.0))
          (λ h. ((λ p. absurd (send_lives c req _ _ live p)), λ q. cc (sym h ∙ q.1)))

    -- A connection that is being served panics on a message exactly if the message has no
    -- parameters and a registered method, or the handler for missing methods, takes it.
    pub serve_next_panics_iff :
        (c : Connection M A X) (r : ServerRequest)
        → c.status ≡ serving
        → ((serve_next server c (message r)).status ≡ panicked)
          ↔ ((r.params ≡ none) × IsTaken (get_service server.services r.method))
    unfolding serve_next serve_request read_request_header get_params
    serve_next_panics_iff c r live =
        dispatch_panics (record c { codec = (read_request_header c.codec (message r)).0 }) _
          (get_service server.services r.method) live
