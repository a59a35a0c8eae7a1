-- ===== src/Wsrpc/Server.antt =====
-- wsrpc/server.go: ServeCodec, the loop of one connection. A goroutine that serves a request is a
-- task; what the scheduler does next is an event: a message is read, or a task ends with the reply
-- and error of its handler. The free lists of Request and Response are in Wsrpc/Free.antt; a value
-- that they hand out is cleared, so requests and responses are values here. `sent` are the responses
-- that the codec hands to the encoder, and `written` those of them that the encoder writes: not where
-- Encode fails, and none behind codec.Close, which ServeCodec calls when its loop has ended.
pub mod Answers
mod Invariant
mod Steps
pub mod Loop
pub mod Panic
mod Table
mod Tasks
mod Tests
pub mod Written
use go_toolkits.Base.{
  ℕ, ◌+◌, ◌≡◌, ◌⊎◌, inl, inr, Bool, true, false, not, ◌&&◌, Option, none, some, List, [], ◌∷◌, ◌++◌,
  ◌==◌, if◌then◌else◌,
}
use go_toolkits.Base.Bytes.{Bytes}
use go_toolkits.Base.Assoc.{Assoc}
use go_toolkits.Wsrpc.Codec
use go_toolkits.Wsrpc.Codec.{
  ServerCodec, ServerRequest, Request, Response, ServerResponse, Incoming, message, unreadable, ok,
  err, read_request_header, read_request_body, get_method, get_params, write_response, new_codec,
}
use go_toolkits.Wsrpc.Service.{Service, Services, MethodType, get_service}
use go_toolkits.Wsrpc.Service

-- What a goroutine does: the handler for missing methods, or a method of a service.
pub data Job (M A : Type 0) : Type 0 where
  missing_method : Bytes → Bytes → Job M A
  call : MethodType M → Bytes → Bytes → A → Job M A

-- A goroutine with the request that it answers.
pub record Task (M A : Type 0) : Type 0 where
  pub request : Request
  pub job : Job M A

-- The loop reads on, has ended after a read error, or has panicked.
pub data Status : Type 0 where
  serving ended panicked : Status

pub record Connection (M A X : Type 0) : Type 0 where
  pub codec : ServerCodec
  pub tasks : List (Task M A)
  pub sent : List (ℕ × ServerResponse X)
  pub written : List (ℕ × ServerResponse X)
  pub closed : Bool
  pub refused : ℕ
  pub status : Status

-- The server as the loop sees it: its services, whether a handler for missing methods is set,
-- json.Unmarshal at the type of a method's argument, the texts of errors, invalidRequest, and which
-- responses Encode writes without an error.
pub record Server (M A X : Type 0) : Type 0 where
  pub services : Services M
  pub has_missing_handler : Bool
  pub unmarshal : MethodType M → Bytes → Codec.Result A
  pub unmarshal_array : MethodType M → Bytes → Codec.Result A
  pub service_error : Service.Error → Bytes
  pub codec_error : Codec.Error → Bytes
  pub invalid_request : X
  pub encodes : ServerResponse X → Bool

-- The task of a sequence number, with the tasks that are left.
pub take_task : {M A : Type 0} → ℕ → List (Task M A) → Option (Task M A × List (Task M A))
take_task s [] = none
take_task s (t ∷ ts) =
    if t.request.seq == s
    then some (t, ts)
    else elim (take_task s ts) [ none ↦ none | some (u, us) ↦ some (u, t ∷ us) ]

-- A message is read, a goroutine ends, or ServeCodec closes the codec behind its loop.
pub data Event (X : Type 0) : Type 0 where
  reads : Incoming → Event X
  closes : Event X
  ends : ℕ → X → Option Bytes → Event X

-- The header of the response.
abbrev pub response_to : Request → Bytes → Response
response_to req error = record { service_method = req.service_method; error = error; seq = req.seq }

module _ {M A X : Type 0} where
  pub new_connection : Connection M A X
  new_connection = record {
    codec = new_codec;
    tasks = [];
    sent = [];
    written = [];
    closed = false;
    refused = 0;
    status = serving;
  }

  -- Encode, on a connection that may be closed.
  abbrev pub encode :
      Server M A X → Connection M A X → ℕ × ServerResponse X → List (ℕ × ServerResponse X)
  encode server c (seq, r) =
      if not c.closed && server.encodes r then c.written ++ (seq, r) ∷ [] else c.written

  -- What became of the response: it went to the encoder, or was refused by the codec.
  pub deliver :
      Server M A X
      → Connection M A X
      → Request
      → ServerCodec × Codec.Result (ServerResponse X)
      → Connection M A X
  deliver server c req (codec, err e) = record c { codec = codec; refused = c.refused + 1 }
  deliver server c req (codec, ok r) = record c {
    codec = codec;
    sent = c.sent ++ (req.seq, r) ∷ [];
    written = encode server c (req.seq, r);
  }

  -- sendResponse: errMsg is none, or the text of the error.
  pub send_response :
      Server M A X → Connection M A X → Request → X → Option Bytes → Connection M A X
  send_response server c req reply none =
      deliver server c req (write_response c.codec (response_to req []) reply)
  send_response server c req reply (some e) =
      deliver server c req (write_response c.codec (response_to req e) server.invalid_request)

  pub spawn : Connection M A X → Request → Job M A → Connection M A X
  spawn c req job = record c { tasks = c.tasks ++ record { request = req; job = job } ∷ [] }

  -- The end of getArgs, and what follows it in the loop.
  pub call_or_refuse :
      Server M A X
      → Connection M A X
      → Request
      → MethodType M
      → Bytes
      → Codec.Result A
      → Connection M A X
  call_or_refuse server c req t raw (ok args) = spawn c req (call t (get_method c.codec) raw args)
  call_or_refuse server c req t raw (err e) =
      send_response server c req server.invalid_request (some (server.codec_error e))

  -- getArgs: the parameters are read through a pointer, before ReadRequestBody looks whether there
  -- are any.
  pub get_args :
      Server M A X → Connection M A X → Request → MethodType M → Option Bytes → Connection M A X
  get_args server c req t none = record c { status = panicked }
  get_args server c req t (some raw) =
      call_or_refuse server c req t raw
        (read_request_body (server.unmarshal t) (server.unmarshal_array t) c.codec)

  -- The goroutine of the handler for missing methods, whose parameters are read in the same way.
  pub call_missing : Connection M A X → Request → Option Bytes → Connection M A X
  call_missing c req none = record c { status = panicked }
  call_missing c req (some raw) = spawn c req (missing_method (get_method c.codec) raw)

  -- The loop from the answer of getService on.
  pub dispatch :
      Server M A X
      → Connection M A X
      → Request
      → (Service M × MethodType M) ⊎ Service.Error
      → Connection M A X
  dispatch server c req (inl (s, t)) = get_args server c req t (get_params c.codec)
  dispatch server c req (inr e) =
      if server.has_missing_handler
      then call_missing c req (get_params c.codec)
      else send_response server c req server.invalid_request (some (server.service_error e))

  -- The loop from the answer of read on.
  pub serve_request :
      Server M A X → Connection M A X → ServerCodec × Codec.Result Request → Connection M A X
  serve_request server c (codec, err e) = record c { codec = codec; status = ended }
  serve_request server c (codec, ok req) =
      dispatch server (record c { codec = codec }) req
        (get_service server.services req.service_method)

  -- One round of the loop.
  pub serve_next : Server M A X → Connection M A X → Incoming → Connection M A X
  serve_next server c m = serve_request server c (read_request_header c.codec m)

  -- The end of a goroutine: its reply and error are sent.
  pub finish :
      Server M A X
      → Connection M A X
      → X
      → Option Bytes
      → Option (Task M A × List (Task M A))
      → Connection M A X
  finish server c reply err_msg none = c
  finish server c reply err_msg (some (t, ts)) =
      send_response server (record c { tasks = ts }) t.request reply err_msg

  -- A connection that has panicked does nothing more; after a read error the goroutines that still
  -- run come to their ends.
  pub step_in : Status → Server M A X → Connection M A X → Event X → Connection M A X
  step_in panicked server c e = c
  step_in serving server c (reads m) = serve_next server c m
  step_in ended server c (reads m) = c
  step_in ended server c closes = record c { closed = true }
  step_in serving server c closes = c
  step_in _ server c (ends s reply err_msg) = finish server c reply err_msg (take_task s c.tasks)

  pub step : Server M A X → Connection M A X → Event X → Connection M A X
  step server c e = step_in c.status server c e

  pub run : Server M A X → Connection M A X → List (Event X) → Connection M A X
  run server c [] = c
  run server c (e ∷ es) = run server (step server c e) es
