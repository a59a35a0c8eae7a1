-- ===== src/Log/Fix/Context.antt =====
-- log/encoder/fix_encoder.go: fields that are added to an encoder before it writes an entry.
use go_toolkits.Base.{
  ℕ, ◌≡◌, refl, sym, ◌∙◌, ap, Option, none, some, List, [], ◌∷◌, ◌++◌, append_assoc, append-nil,
  subst,
}
use go_toolkits.Base.Bytes.{Bytes}
use go_toolkits.Log.Fix.{
  Printer, Value, string, FixEncoder, clone_all, append, add, add_fields, encode_entry, add_to,
}

-- Fields of strings, and their keys and values one behind the other.
abbrev pub strings : {X V : Type 0} → List (Bytes × Bytes) → List (Bytes × Value X V)
strings [] = []
strings ((k, s) ∷ fields) = (k, string s) ∷ strings fields

abbrev pub run_together : List (Bytes × Bytes) → Bytes
run_together [] = []
run_together ((k, s) ∷ fields) = k ++ (s ++ run_together fields)

abbrev cleared : FixEncoder → FixEncoder
cleared enc = record enc { buf = none }

-- An encoder, if there is one, that differs in its buffer at most.
abbrev Alike : FixEncoder → Option FixEncoder → Type 0
Alike enc none = Unit
Alike enc (some d) = cleared d ≡ cleared enc

module _ {X V : Type 0} (printer : Printer X V) where
  clone_all-Alike :
      (o : Option Bytes) (enc : FixEncoder) → Alike enc (go_toolkits.Log.Fix.copied o enc)
  clone_all-Alike none enc = tt
  clone_all-Alike (some bs) enc = refl

  add_to-Alike :
      (k : Bytes) (v : Value X V) (o : Option Bytes) (enc : FixEncoder)
      → Alike enc (go_toolkits.Log.Fix.added printer k v o enc)
  add_to-Alike k v none enc = tt
  add_to-Alike k v (some bs) enc = refl

  encode_entry-cleared :
      (at : ℕ) (message : Bytes) (fields : List (Bytes × Value X V)) (enc : FixEncoder)
      → encode_entry printer at message fields (cleared enc)
        ≡ encode_entry printer at message fields enc
  unfolding encode_entry
  encode_entry-cleared at message fields enc = refl

  -- A field that is added to a clone of an encoder is in no entry that the clone writes: it writes what
  -- the encoder writes.
  pub encode_entry-add_to :
      (k : Bytes) (v : Value X V) (enc c d : FixEncoder) (at : ℕ) (message : Bytes)
      (fields : List (Bytes × Value X V))
      → clone_all enc ≡ some c
      → add_to printer k v c ≡ some d
      → encode_entry printer at message fields d ≡ encode_entry printer at message fields enc
  unfolding clone_all add_to
  encode_entry-add_to k v enc c d at message fields hc hd =
      let same_c : cleared c ≡ cleared enc = subst (Alike enc) hc (clone_all-Alike enc.buf enc) in
      let same_d : cleared d ≡ cleared c = subst (Alike c) hd (add_to-Alike k v c.buf c) in
      sym (encode_entry-cleared at message fields d)
      ∙ ap (encode_entry printer at message fields) (same_d ∙ same_c)
      ∙ encode_entry-cleared at message fields enc

  add_fields-strings :
      (fields : List (Bytes × Bytes)) (buf : Bytes)
      → add_fields printer (strings fields) buf ≡ buf ++ run_together fields
  unfolding add_fields add append
  add_fields-strings [] buf = sym (append-nil buf)
  add_fields-strings ((k, s) ∷ fields) buf =
      add_fields-strings fields ((buf ++ k) ++ s)
      ∙ append_assoc (buf ++ k) s (run_together fields)
      ∙ append_assoc buf k (s ++ run_together fields)

  -- The line of fields of strings, without time and message: the keys and values one behind the other,
  -- with nothing between them, and an end of line.
  pub encode_entry-strings :
      (at : ℕ) (message : Bytes) (fields : List (Bytes × Bytes)) (enc : FixEncoder)
      → enc.time_key ≡ []
      → enc.message_key ≡ []
      → encode_entry printer at message (strings fields) enc ≡ run_together fields ++ b'\n' ∷ []
  unfolding encode_entry
  encode_entry-strings at message fields enc t m =
      rw (t, m) (ap (λ line. line ++ b'\n' ∷ []) (add_fields-strings fields []))
