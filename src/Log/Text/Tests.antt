-- ===== src/Log/Text/Tests.antt =====
-- A written entry, and the theorems on what is read of it.
use go_toolkits.Base.{ℕ, ◌≡◌, refl, Option, none, some, List, [], ◌∷◌, All}
use go_toolkits.Base.Bytes.{Bytes, codes}
use go_toolkits.Log.Query.{ListLogReq, Manager, tab}
use go_toolkits.Log.Query.Chunks.{lines}
use go_toolkits.Log.Query.Scan.Lines.{found_all}
use go_toolkits.Log.Text.{Entry, Field, TextEncoder, encode_entry}
use go_toolkits.Log.Text.RoundTrip.{IsPlain, encode_all, rows, found_all-encode_all}

abbrev five : Bytes → Option ℕ
five b = some 5

abbrev encoder : TextEncoder
encoder = record { message_key = codes "msg"; header_func = none }

abbrev entries : List (Entry × List Field)
entries =
    (
      record { time = codes "t"; level = codes "I"; message = codes "up" },
      record { key = codes "k"; string = codes "v"; interface = [] } ∷ [],
    )
    ∷ []

abbrev request : ListLogReq
request = record {
  from = codes "t";
  to = codes "t";
  level = none;
  message = none;
  separator = none;
  field_names = codes "time" ∷ codes "level" ∷ codes "message" ∷ [];
  filters = [];
}

abbrev manager : Manager
manager = record {
  msg_pattern = none;
  limit = 10;
  separator = tab;
  field_names = codes "time" ∷ codes "level" ∷ codes "message" ∷ [];
}

plain : All IsPlain entries
plain = (
  (
    (((λ h. cc), tt), ((λ h. cc), tt)),
    (((λ h. cc), tt), ((λ h. cc), tt)),
    (((λ h. cc), ((λ h. cc), tt)), ((λ h. cc), ((λ h. cc), tt))),
    ((((λ h. cc), tt), ((λ h. cc), tt), tt), tt),
  ),
  tt,
)

writes :
    encode_entry encoder (record { time = codes "t"; level = codes "I"; message = codes "up" }) []
    ≡ codes "t\tI\tup\t\n"
unfolding encode_entry go_toolkits.Log.Text.format_header go_toolkits.Log.Text.encode_message
    go_toolkits.Log.Text.encode_fields go_toolkits.Log.Text.fields_map
writes = refl

found_all-encode_all_example :
    found_all five manager request (lines (encode_all encoder entries))
    ≡ rows encoder five manager request entries
found_all-encode_all_example =
    found_all-encode_all encoder five manager request entries refl refl refl refl plain
