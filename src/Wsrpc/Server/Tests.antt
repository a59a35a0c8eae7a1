-- ===== src/Wsrpc/Server/Tests.antt =====
-- A connection to a server with one service, and the theorems on wsrpc at inputs of its runs.
use mathlib.Core.List.{Perm}
use go_toolkits.Base.{
  ℕ, ◌+◌, ◌^◌, ◌<◌, ◌≡◌, refl, sym, ◌∙◌, ◌≢◌, ◌↔◌, Bool, true, false, Option, none, some, List, [],
  ◌∷◌, ◌++◌, arith, length, inl, inr, All,
}
use go_toolkits.Base.Bytes.{Bytes, codes, contains_byte}
use go_toolkits.Base.Assoc.{lookup}
use go_toolkits.Wsrpc.Codec
use go_toolkits.Wsrpc.Codec.{
  ServerRequest, ServerResponse, Response, Incoming, message, unreadable, ok, err, invalid_sequence,
  result, failure, new_codec, write_response, or_null, body_of,
}
use go_toolkits.Wsrpc.Service.{
  GoType, pointer, named, Method, Receiver, Services, MethodType, register, get_service,
}
use go_toolkits.Wsrpc.Server
use go_toolkits.Wsrpc.Server.{Server, Event, ends, panicked, serving, new_connection, serve_next}
use go_toolkits.Wsrpc.Server.Answers.{sent_ids, open_ids}
use go_toolkits.Wsrpc.Server.Table.{keys}
use go_toolkits.Wsrpc.Server.Tasks.{seqs}
use go_toolkits.Wsrpc.Server.Loop.{received_by, run_accounts, run_answers}
use go_toolkits.Wsrpc.Server.Panic.{IsTaken, serve_next_panics_iff}

abbrev echo_services : Services ℕ
echo_services =
    (
      codes "Echo",
      record {
        name = codes "Echo";
        methods =
            (
              codes "Say",
              record {
                arg_type = named [] (codes "string");
                reply_type = pointer (named [] (codes "string"));
                method = 7;
              },
            )
            ∷ [];
      },
    )
    ∷ []

abbrev server : Server ℕ Bytes Bytes
server = record {
  services = echo_services;
  has_missing_handler = false;
  unmarshal = λ t s. ok s;
  unmarshal_array = λ t s. ok s;
  service_error = λ e. codes "no method";
  codec_error = λ e. codes "bad arguments";
  invalid_request = [];
  encodes = λ r. true;
}

abbrev say_request : Option Bytes → Bytes → ServerRequest
say_request params id = record { params = params; id = some id; method = codes "Echo.Say" }

abbrev bad_request : ServerRequest
bad_request = record { params = none; id = some (codes "9"); method = codes "Echo.Shout" }

-- Two requests are served out of order, one has no method; when all have ended, the peer is gone.
abbrev session : List (Event Bytes)
session =
    Server.reads (message (say_request (some (codes "1")) (codes "5")))
    ∷ Server.reads (message (say_request (some (codes "2")) (codes "6")))
    ∷ Server.reads (message bad_request)
    ∷ ends 2 (codes "two") none
    ∷ ends 1 (codes "one") (some (codes "late"))
    ∷ Server.reads (unreadable (codes "EOF"))
    ∷ []

-- The codec is closed before the last goroutine ends: its answer is not written.
abbrev cut_off : List (Event Bytes)
cut_off =
    Server.reads (message (say_request (some (codes "1")) (codes "5")))
    ∷ Server.reads (unreadable (codes "EOF"))
    ∷ Server.closes
    ∷ ends 1 (codes "one") none
    ∷ []

all_ended : (Server.run server new_connection session).tasks ≡ []
unfolding Server.run Server.step Server.step_in new_connection serve_next Server.serve_request
    Codec.read_request_header Server.dispatch get_service Server.Service.cut_last_dot lookup
    go_toolkits.Base.Bytes.same Server.get_args Codec.get_params Server.call_or_refuse
    Codec.read_request_body Codec.decode_params go_toolkits.Base.Assoc.insert
    go_toolkits.Base.Assoc.remove Codec.get_method new_codec Codec.starts_array write_response
    Server.deliver Server.finish Server.send_response Server.spawn Server.take_task or_null body_of
all_ended = refl

over : (Server.run server new_connection session).status ≡ Server.ended
unfolding Server.run Server.step Server.step_in new_connection serve_next Server.serve_request
    Codec.read_request_header Server.dispatch get_service Server.Service.cut_last_dot lookup
    go_toolkits.Base.Bytes.same Server.get_args Codec.get_params Server.call_or_refuse
    Codec.read_request_body Codec.decode_params go_toolkits.Base.Assoc.insert
    go_toolkits.Base.Assoc.remove Codec.get_method new_codec Codec.starts_array write_response
    Server.deliver Server.finish Server.send_response Server.spawn Server.take_task or_null body_of
over = refl

still_open : (Server.run server new_connection session).closed ≡ false
unfolding Server.run Server.step Server.step_in new_connection serve_next Server.serve_request
    Codec.read_request_header Server.dispatch get_service Server.Service.cut_last_dot lookup
    go_toolkits.Base.Bytes.same Server.get_args Codec.get_params Server.call_or_refuse
    Codec.read_request_body Codec.decode_params go_toolkits.Base.Assoc.insert
    go_toolkits.Base.Assoc.remove Codec.get_method new_codec Codec.starts_array write_response
    Server.deliver Server.finish Server.send_response Server.spawn Server.take_task or_null body_of
still_open = refl

not_written : (Server.run server new_connection cut_off).written ≡ []
unfolding Server.run Server.step Server.step_in new_connection serve_next Server.serve_request
    Codec.read_request_header Server.dispatch get_service Server.Service.cut_last_dot lookup
    go_toolkits.Base.Bytes.same Server.get_args Codec.get_params Server.call_or_refuse
    Codec.read_request_body Codec.decode_params go_toolkits.Base.Assoc.insert
    go_toolkits.Base.Assoc.remove Codec.get_method new_codec Codec.starts_array write_response
    Server.deliver Server.finish Server.send_response Server.spawn Server.take_task or_null body_of
not_written = refl

alive : (Server.run server new_connection session).status ≢ panicked
alive h = cc (sym over ∙ h)

run_answers_example :
    Perm
      (received_by server new_connection session)
      (sent_ids (Server.run server new_connection session).written)
run_answers_example =
    run_answers server session (omega arith) (λ r. refl) all_ended alive still_open

run_accounts_example :
    let c = Server.run server new_connection session in
    Perm (received_by server new_connection session) (sent_ids c.sent ++ open_ids c.codec.pending)
    × (c.refused ≡ 0)
    × (c.status ≢ panicked → keys c.codec.pending ≡ seqs c.tasks)
run_accounts_example = run_accounts server session (omega arith)

starts : (new_connection {M = ℕ} {A = Bytes} {X = Bytes}).status ≡ serving
unfolding new_connection
starts = refl

serve_next_panics_iff_example :
    ((serve_next server new_connection (message (say_request none (codes "5")))).status ≡ panicked)
    ↔ (((say_request none (codes "5")).params ≡ none)
        × IsTaken server (get_service echo_services (codes "Echo.Say")))
serve_next_panics_iff_example =
    serve_next_panics_iff server new_connection (say_request none (codes "5")) starts
