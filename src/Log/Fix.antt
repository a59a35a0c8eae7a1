-- ===== src/Log/Fix.antt =====
-- log/encoder/fix_encoder.go: the encoder of fields without quotes and separators. The printing of
-- numbers, floats, base64 and Go values, and what EncodeTime and EncodeDuration append, are parameters.
pub mod Context
mod Tests
use go_toolkits.Base.{
  ℕ, Bool, true, false, ◌==◌, Option, none, some, List, [], ◌∷◌, ◌++◌, if◌then◌else◌, length,
}
use go_toolkits.Base.Bytes.{Bytes, codes, is_empty}

-- The printers, of a type X of floats and a type V of Go values. int64 and uint64 are their
-- representatives below 2 ^ 64.
pub record Printer (X V : Type 0) : Type 0 where
  pub int : ℕ → Bytes
  pub uint : ℕ → Bytes
  pub float : X → ℕ → Bytes
  pub is_nan : X → Bool
  pub is_inf : X → Bool
  pub is_neg_inf : X → Bool
  pub base64 : Bytes → Bytes
  pub sprintf : V → Bytes
  pub encode_duration : ℕ → Bytes
  pub encode_time : ℕ → Bytes

-- What the Append methods are given; the smaller integers are int64 and uint64 first. A time is the
-- nanoseconds of its UnixNano. Of an array and an object, what MarshalLogArray and MarshalLogObject
-- make of the buffer; their error, which is passed on, is left out.
pub data Value (X V : Type 0) : Type 0 where
  bool : Bool → Value X V
  string byte_string binary : Bytes → Value X V
  int uint duration time : ℕ → Value X V
  float64 float32 : X → Value X V
  complex : X → X → Value X V
  reflected : V → Value X V
  array object : (Bytes → Bytes) → Value X V

-- fixEncoder, with the keys of its EncoderConfig; its buffer is nil at first.
pub record FixEncoder : Type 0 where
  pub time_key : Bytes
  pub message_key : Bytes
  pub buf : Option Bytes

-- NewFixEncoder
pub new_fix_encoder : Bytes → Bytes → FixEncoder
new_fix_encoder time_key message_key = record {
  time_key = time_key;
  message_key = message_key;
  buf = none;
}

-- clone
pub clone : FixEncoder → FixEncoder
clone enc = record enc { buf = some [] }

abbrev copied : Option Bytes → FixEncoder → Option FixEncoder
copied none enc = none
copied (some bs) enc = some (record enc { buf = some bs })

-- Clone, none where it panics: the Bytes of a nil buffer.
pub clone_all : FixEncoder → Option FixEncoder
clone_all enc = copied enc.buf enc

module _ {X V : Type 0} (printer : Printer X V) where
  -- appendFloat
  pub append_float : X → ℕ → Bytes → Bytes
  append_float val bit_size buf =
      if printer.is_nan val
      then buf ++ codes "NaN"
      else if printer.is_inf val
      then buf ++ codes "+Inf"
      else if printer.is_neg_inf val
      then buf ++ codes "-Inf"
      else buf ++ printer.float val bit_size

  -- AppendDuration and AppendTime: the nanoseconds where nothing was appended.
  abbrev or_nanos : Bytes → ℕ → Bytes → Bytes
  or_nanos encoded nanos buf = if is_empty encoded then buf ++ printer.int nanos else buf ++ encoded

  -- The Append methods.
  pub append : Value X V → Bytes → Bytes
  append (bool true) buf = buf ++ codes "true"
  append (bool false) buf = buf ++ codes "false"
  append (string val) buf = buf ++ val
  append (byte_string val) buf = buf ++ val
  append (binary val) buf = buf ++ printer.base64 val
  append (int val) buf = buf ++ printer.int val
  append (uint val) buf = buf ++ printer.uint val
  append (duration val) buf = or_nanos (printer.encode_duration val) val buf
  append (time val) buf = or_nanos (printer.encode_time val) val buf
  append (float64 val) buf = append_float val 64 buf
  append (float32 val) buf = append_float val 32 buf
  append (complex r i) buf =
      buf ++ b'"' ∷ printer.float r 64 ++ b'+' ∷ printer.float i 64 ++ b'i' ∷ b'"' ∷ []
  append (reflected v) buf = buf ++ printer.sprintf v
  append (array marshal) buf = marshal (buf ++ b'[' ∷ []) ++ b']' ∷ []
  append (object marshal) buf = marshal buf

  -- The Add methods: the key, and the value behind it.
  pub add : Bytes → Value X V → Bytes → Bytes
  add k v buf = append v (buf ++ k)

  -- The loop over the fields.
  pub add_fields : List (Bytes × Value X V) → Bytes → Bytes
  add_fields [] buf = buf
  add_fields ((k, v) ∷ fields) buf = add_fields fields (add k v buf)

  -- EncodeEntry: the line of an entry with a time and a message.
  pub encode_entry : ℕ → Bytes → List (Bytes × Value X V) → FixEncoder → Bytes
  encode_entry at message fields enc =
      let stamped = if is_empty enc.time_key then [] else append (time at) [] ++ b'\t' ∷ [] in
      let said = if is_empty enc.message_key then stamped else stamped ++ message in
      add_fields fields said ++ b'\n' ∷ []

  abbrev added : Bytes → Value X V → Option Bytes → FixEncoder → Option FixEncoder
  added k v none enc = none
  added k v (some bs) enc = some (record enc { buf = some (add k v bs) })

  -- An Add method on an encoder, none where it panics: to append to a nil buffer.
  pub add_to : Bytes → Value X V → FixEncoder → Option FixEncoder
  add_to k v enc = added k v enc.buf enc
