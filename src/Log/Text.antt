-- ===== src/Log/Text.antt =====
-- log/encoder/text_encoder.go: EncodeEntry. The time, the level and the values that are no strings
-- are given as the text that zap and fmt print of them, and the header function as what it writes.
pub mod RoundTrip
mod Tests
use go_toolkits.Base.{Bool, true, false, Option, none, some, List, [], ◌∷◌, ◌++◌, if◌then◌else◌}
use go_toolkits.Base.Bytes.{Bytes, is_empty}
use go_toolkits.Base.Assoc.{Assoc, bytes_eq, insert}

-- zapcore.Field: its key, its String, and what %v prints of its Interface.
pub record Field : Type 0 where
  pub key : Bytes
  pub string : Bytes
  pub interface : Bytes

-- zapcore.Entry: the time in TextTimeLayout, what EncodeLevel writes, and the message.
pub record Entry : Type 0 where
  pub time : Bytes
  pub level : Bytes
  pub message : Bytes

-- textEncoder, as far as EncodeEntry reads it.
pub record TextEncoder : Type 0 where
  pub message_key : Bytes
  pub header_func : Option (Entry → Assoc Bytes Field → Bytes)

-- SPLIT
abbrev pub split_byte : Bytes
split_byte = 9 ∷ []

-- The map of the fields by key.
pub fields_map : List Field → Assoc Bytes Field → Assoc Bytes Field
fields_map [] m = m
fields_map (f ∷ fs) m = fields_map fs (insert f.key f m)

-- formatHeader
pub format_header : TextEncoder → Entry → Assoc Bytes Field → Bytes
format_header enc ent fields =
    ent.time
    ++ split_byte
    ++ ent.level
    ++ split_byte
    ++ elim enc.header_func [ none ↦ [] | some f ↦ f ent fields ]

pub encode_field : Field → Bytes
encode_field f =
    f.key ++ split_byte ++ (if is_empty f.string then f.interface else f.string) ++ split_byte

pub encode_fields : Assoc Bytes Field → Bytes
encode_fields [] = []
encode_fields ((k, f) ∷ m) = encode_field f ++ encode_fields m

pub encode_message : TextEncoder → Entry → Bytes
encode_message enc ent = if is_empty enc.message_key then [] else ent.message ++ split_byte

-- EncodeEntry
pub encode_entry : TextEncoder → Entry → List Field → Bytes
encode_entry enc ent fields =
    let m = fields_map fields [] in
    format_header enc ent m ++ (encode_message enc ent ++ (encode_fields m ++ 10 ∷ []))
