-- ===== src/Log/Text/RoundTrip.antt =====
-- log/encoder: what the text encoder writes, QueryLogs reads.
use go_toolkits.Base.{
  ℕ, ◌≡◌, refl, ◌∙◌, ap, subst, ◌≢◌, false, Option, none, List, [], ◌∷◌, ◌++◌, append_assoc,
  if◌then◌else◌, by_if, All, All-append,
}
use go_toolkits.Base.Bytes.{Bytes, is_empty, same}
use go_toolkits.Base.Assoc.{Assoc, bytes_eq, insert}
use go_toolkits.Log.Query.{
  Fields, ListLogReq, Manager, newline, tab, parse_log_line, split_data_to_chunks,
}
use go_toolkits.Log.Query.Chunks.{lines}
use go_toolkits.Log.Query.Parse.{header_names, header_fields, parse_log_line-header, lines-line}
use go_toolkits.Log.Query.Scan.{accepts, chunk_count, process_log_file}
use go_toolkits.Log.Query.Scan.File.{IsFair, Given, process_log_file-Given}
use go_toolkits.Log.Query.Scan.Lines.{found_all, found_in_parsed}
use go_toolkits.Log.Text.{
  Field, Entry, TextEncoder, split_byte, fields_map, format_header, encode_field, encode_fields,
  encode_message, encode_entry,
}

-- Neither a tab nor a newline; and no newline.
abbrev pub IsWord : Bytes → Type 0
IsWord s = All (λ c. c ≢ 9) s × All (λ c. c ≢ 10) s

abbrev pub IsLine : Bytes → Type 0
IsLine s = All (λ c. c ≢ 10) s

abbrev pub IsLineField : Field → Type 0
IsLineField f = IsLine f.key × IsLine f.string × IsLine f.interface

-- An entry whose time, level and message are words, and whose fields hold no newline.
abbrev pub IsPlain : Entry × List Field → Type 0
IsPlain (ent, fields) =
    IsWord ent.time × IsWord ent.level × IsWord ent.message × All IsLineField fields

abbrev Stored : Bytes × Field → Type 0
Stored (k, f) = IsLineField f

insert-Stored :
    (k : Bytes) (f : Field) (m : Assoc Bytes Field)
    → IsLineField f
    → All Stored m
    → All Stored (insert k f m)
unfolding insert
insert-Stored k f [] a b = (a, tt)
insert-Stored k f ((j, g) ∷ m) a b =
    by_if (All Stored) (same j k) (λ _. (a, b.1)) (λ _. (b.0, insert-Stored k f m a b.1))

fields_map-Stored :
    (fs : List Field) (m : Assoc Bytes Field)
    → All IsLineField fs
    → All Stored m
    → All Stored (fields_map fs m)
unfolding fields_map
fields_map-Stored [] m a b = b
fields_map-Stored (f ∷ fs) m a b =
    fields_map-Stored fs (insert f.key f m) a.1 (insert-Stored f.key f m a.0 b)

abbrev NotNewline : ℕ → Type 0
NotNewline c = c ≢ 10

split_IsLine : IsLine split_byte
split_IsLine = ((λ h. cc), tt)

encode_field-IsLine : (f : Field) → IsLineField f → IsLine (encode_field f)
unfolding encode_field
encode_field-IsLine f a =
    let value = by_if IsLine (is_empty f.string) (λ _. a.2) (λ _. a.1) in
    All-append NotNewline _ split_byte
      (All-append NotNewline _ _ (All-append NotNewline f.key split_byte a.0 split_IsLine) value)
      split_IsLine

encode_fields-IsLine : (m : Assoc Bytes Field) → All Stored m → IsLine (encode_fields m)
unfolding encode_fields
encode_fields-IsLine [] a = tt
encode_fields-IsLine ((k, f) ∷ m) a =
    All-append NotNewline (encode_field f) _ (encode_field-IsLine f a.0)
      (encode_fields-IsLine m a.1)

-- The line of an entry, without its newline.
abbrev line_of : Entry → List Field → Bytes
line_of ent fields =
    ent.time ++ 9 ∷ (ent.level ++ 9 ∷ (ent.message ++ 9 ∷ encode_fields (fields_map fields [])))

line_of-IsLine :
    (ent : Entry) (fields : List Field) → IsPlain (ent, fields) → IsLine (line_of ent fields)
line_of-IsLine ent fields (t, l, m, fs) = All-append NotNewline ent.time _ t.1 (
  (λ h. cc),
  All-append NotNewline ent.level _ l.1 (
    (λ h. cc),
    All-append NotNewline ent.message _ m.1 (
      (λ h. cc),
      encode_fields-IsLine (fields_map fields []) (fields_map-Stored fields [] fs tt),
    ),
  ),
)

-- The entries one after the other, as they come into the file.
abbrev pub encode_all : TextEncoder → List (Entry × List Field) → Bytes
encode_all enc [] = []
encode_all enc ((ent, fields) ∷ es) = encode_entry enc ent fields ++ encode_all enc es

module _ (enc : TextEncoder) where
  encode_entry_lem :
      (ent : Entry) (fields : List Field) (rest : Bytes)
      → enc.header_func ≡ none
      → is_empty enc.message_key ≡ false
      → encode_entry enc ent fields ++ rest ≡ line_of ent fields ++ newline ∷ rest
  unfolding encode_entry format_header encode_message
  encode_entry_lem ent fields rest plain key =
      rw (plain, key, encode_entry, format_header, encode_message) (simp append_assoc refl)

  -- What the filters leave of an entry.
  abbrev pub row : (Bytes → Option ℕ) → Manager → ListLogReq → Entry → List Fields
  row parse_time mgr req ent =
      let entry = header_fields ent.time ent.level ent.message in
      if accepts parse_time mgr req entry then entry ∷ [] else []

  abbrev pub rows :
      (Bytes → Option ℕ) → Manager → ListLogReq → List (Entry × List Field) → List Fields
  rows parse_time mgr req [] = []
  rows parse_time mgr req ((ent, fields) ∷ es) =
      row parse_time mgr req ent ++ rows parse_time mgr req es

  -- The encoder has no header function and a message key; the query separates by a tab, and its field
  -- names are time, level and message; and no entry has a tab or a newline in its time, its level or
  -- its message, or a newline in a key or a value of its fields. Then of the lines of the file that the
  -- encoder writes of the entries, each is read back as the time, the level and the message of its
  -- entry, and those that pass the filters are found in the order in which they were written.
  pub found_all-encode_all :
      (parse_time : Bytes → Option ℕ) (mgr : Manager) (req : ListLogReq)
      (es : List (Entry × List Field))
      → enc.header_func ≡ none
      → is_empty enc.message_key ≡ false
      → mgr.separator ≡ tab
      → mgr.field_names ≡ header_names
      → All IsPlain es
      → found_all parse_time mgr req (lines (encode_all enc es)) ≡ rows parse_time mgr req es
  found_all-encode_all parse_time mgr req [] plain key sep names a = refl
  found_all-encode_all parse_time mgr req ((ent, fields) ∷ es) plain key sep names a =
      let line = line_of ent fields in
      let (t, l, m, _) = a.0 in
      let read =
        ap (λ sep. parse_log_line line sep mgr.field_names) sep
        ∙ ap (parse_log_line line tab) names
        ∙ parse_log_line-header ent.time ent.level ent.message _ t.0 l.0 m.0 in
      ap (λ b. found_all parse_time mgr req (lines b))
        (encode_entry_lem ent fields (encode_all enc es) plain key)
      ∙ ap (found_all parse_time mgr req)
          (lines-line line (encode_all enc es) (line_of-IsLine ent fields a.0))
      ∙ ap (λ fs. fs ++ found_all parse_time mgr req (lines (encode_all enc es)))
          (found_in_parsed parse_time mgr req line _ read)
      ∙ ap (λ fs. row parse_time mgr req ent ++ fs)
          (found_all-encode_all parse_time mgr req es plain key sep names a.1)

  -- Searching such a file gives the entries that pass the filters, in their order, as far as the
  -- limit leaves room; on the conditions on its chunks under which a file gives the logs of its
  -- lines.
  pub process_log_file-encode_all :
      (parse_time : Bytes → Option ℕ) (mgr : Manager) (req : ListLogReq)
      (es : List (Entry × List Field)) (total : ℕ)
      → enc.header_func ≡ none
      → is_empty enc.message_key ≡ false
      → mgr.separator ≡ tab
      → mgr.field_names ≡ header_names
      → mgr.msg_pattern ≡ none
      → All IsPlain es
      → All
          (IsFair parse_time mgr req (encode_all enc es))
          (split_data_to_chunks (encode_all enc es) (chunk_count (encode_all enc es)))
      → Given parse_time mgr req
          (rows parse_time mgr req es)
          total
          (process_log_file parse_time mgr req (encode_all enc es) total)
  process_log_file-encode_all parse_time mgr req es total plain key sep names no_pattern a fair =
      subst
        (λ all.
          Given parse_time mgr req all total
            (process_log_file parse_time mgr req (encode_all enc es) total))
        (found_all-encode_all parse_time mgr req es plain key sep names a)
        (process_log_file-Given parse_time mgr req (encode_all enc es) total no_pattern fair)
