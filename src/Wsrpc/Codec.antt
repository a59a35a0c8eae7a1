-- ===== src/Wsrpc/Codec.antt =====
-- wsrpc/codec.go: the codec of one connection. A JSON text is its bytes; decoding is encoding/json,
-- so a message is what Decode leaves in the struct, or its error.
pub mod Pending
mod Tests
use go_toolkits.Base.{
  ℕ, suc, ◌+◌, ◌%◌, ◌^◌, Bool, true, false, Option, none, some, List, [], ◌∷◌, ◌==◌, if◌then◌else◌,
}
use go_toolkits.Base.Bytes.{Bytes, codes, is_empty}
use go_toolkits.Base.Assoc.{Assoc, number_eq, lookup, insert, remove}

-- serverRequest without its version, which nothing reads; none is a nil pointer.
pub record ServerRequest : Type 0 where
  pub params : Option Bytes
  pub id : Option Bytes
  pub method : Bytes

-- serverCodec without the connection.
pub record ServerCodec : Type 0 where
  pub pending : Assoc ℕ (Option Bytes)
  pub req : ServerRequest
  pub seq : ℕ

-- Request and Response, without their links in the free lists.
pub record Request : Type 0 where
  pub service_method : Bytes
  pub seq : ℕ

pub record Response : Type 0 where
  pub service_method : Bytes
  pub error : Bytes
  pub seq : ℕ

-- serverResponse: the result, or the error's text. X is the type of replies.
pub data Body (X : Type 0) : Type 0 where
  result : X → Body X
  failure : Bytes → Body X

pub record ServerResponse (X : Type 0) : Type 0 where
  pub body : Body X
  pub id : Bytes

pub data Error : Type 0 where
  decode : Bytes → Error
  missing_params invalid_sequence : Error

pub data Result (A : Type 0) : Type 0 where
  ok : A → Result A
  err : Error → Result A

-- What the decoder reads next.
pub data Incoming : Type 0 where
  message : ServerRequest → Incoming
  unreadable : Bytes → Incoming

-- NewServerCodec
unfoldable pub new_codec : ServerCodec
new_codec = record { pending = []; req = record { params = none; id = none; method = [] }; seq = 0 }

-- reset
pub reset : ServerRequest → ServerRequest
reset r = record r { method = []; params = none; id = none }

-- ReadRequestHeader
unfoldable pub read_request_header : ServerCodec → Incoming → ServerCodec × Result Request
read_request_header c (unreadable e) = (record c { req = reset c.req }, err (decode e))
read_request_header c (message r) =
    let seq = (c.seq + 1) % 2 ^ 64 in
    (
      record { pending = insert seq r.id c.pending; req = record r { id = none }; seq = seq },
      ok (record { service_method = r.method; seq = seq }),
    )

-- GetMethod
unfoldable pub get_method : ServerCodec → Bytes
get_method c = c.req.method

-- GetParams: none is the panic of a nil pointer.
unfoldable pub get_params : ServerCodec → Option Bytes
get_params c = c.req.params

unfoldable pub starts_array : Bytes → Bool
starts_array [] = false
starts_array (b ∷ s) = b == b'['

-- ReadRequestBody, for a pointer that is not nil. `unmarshal` is json.Unmarshal into the
-- argument's type, `unmarshal_array` into an array of one argument.
module _ {A : Type 0} (unmarshal unmarshal_array : Bytes → Result A) where
  unfoldable pub decode_params : Option Bytes → Result A
  decode_params none = err missing_params
  decode_params (some params) =
      if starts_array params then unmarshal_array params else unmarshal params

  unfoldable pub read_request_body : ServerCodec → Result A
  read_request_body c = decode_params c.req.params

unfoldable pub or_null : Option Bytes → Bytes
or_null none = codes "null"
or_null (some b) = b

unfoldable pub body_of : {X : Type 0} → Bytes → X → Body X
body_of error x = if is_empty error then result x else failure error

-- WriteResponse up to the encoder: the response that is handed to it. Whether Encode, whose error
-- WriteResponse returns, writes it is in Wsrpc/Server.antt.
unfoldable pub write_response :
    {X : Type 0} → ServerCodec → Response → X → ServerCodec × Result (ServerResponse X)
write_response c r x = elim (lookup r.seq c.pending) [
  | none ↦ (c, err invalid_sequence)
  | some b ↦ (
    record c { pending = remove r.seq c.pending },
    ok (record { body = body_of r.error x; id = or_null b }),
  )
]
