-- ===== src/Log/Fix/Tests.antt =====
-- Runs of the encoder, and the theorem at one. Floats are numbers, and are printed as a digit.
use go_toolkits.Base.{ℕ, ◌≡◌, refl, ◌==◌, ◌+◌, none, some, [], ◌∷◌}
use go_toolkits.Base.Bytes.{Bytes, codes}
use go_toolkits.Log.Fix.{
  Printer, Value, bool, string, uint, time, float64, complex, array, FixEncoder, new_fix_encoder,
  clone, clone_all, append, encode_entry, add_to,
}

abbrev digit : ℕ → Bytes
digit n = (n + 48) ∷ []

abbrev printer : Printer ℕ ℕ
printer = record {
  int = digit;
  uint = digit;
  float = λ x w. digit x;
  is_nan = λ x. x == 9;
  is_inf = λ x. x == 8;
  is_neg_inf = λ x. x == 7;
  base64 = λ s. s;
  sprintf = digit;
  encode_duration = λ d. [];
  encode_time = λ d. codes "now";
}

abbrev with_buffer : FixEncoder
with_buffer = record { time_key = codes "ts"; message_key = codes "msg"; buf = some [] }

abbrev with_user : FixEncoder
with_user = record {
  time_key = codes "ts";
  message_key = codes "msg";
  buf = some (codes "userann");
}

line :
    encode_entry printer 5
      (codes "hi")
      ((codes "n", float64 9) ∷ (codes "z", complex 1 2) ∷ [])
      with_buffer
    ≡ codes "now\thinNaNz\"1+2i\"\n"
unfolding encode_entry go_toolkits.Log.Fix.add_fields go_toolkits.Log.Fix.add append
    go_toolkits.Log.Fix.append_float
line = refl

-- The encoder that NewFixEncoder gives cannot be cloned, as With of a logger does.
new_cannot_be_cloned : clone_all (new_fix_encoder (codes "ts") (codes "msg")) ≡ none
unfolding clone_all new_fix_encoder
new_cannot_be_cloned = refl

cloned : clone with_user ≡ with_buffer
unfolding clone
cloned = refl
