-- ===== src/Log/Query.antt =====
-- log/encoder/text_query.go: QueryLogs. A file is its bytes; times are numbers, and `parse_time` is
-- time.Parse with TextTimeLayout on text of the right length. An index or a slice out of bounds is a
-- panic, which processChunk recovers from; the capacity of a slice is taken to be its length.
pub mod Scan
pub mod Parse
pub mod Chunks
use go_toolkits.Base.{
  ℕ, zero, suc, ◌+◌, ◌-◌, ◌*◌, ◌/◌, Bool, true, false, not, ◌&&◌, ◌||◌, Option, none, some, List,
  [], ◌∷◌, ◌++◌, ◌==◌, leb, ltb, if◌then◌else◌, length, get_elem?, take, drop,
}
use go_toolkits.Base.Bytes.{Bytes, codes, same, is_empty, contains, has_prefix}
use go_toolkits.Base.Assoc.{Assoc, bytes_eq, lookup, insert}

-- ListLogReq
pub record ListLogReq : Type 0 where
  pub from : Bytes
  pub to : Bytes
  pub level : Option Bytes
  pub message : Option Bytes
  pub separator : Option Bytes
  pub field_names : List Bytes
  pub filters : Assoc Bytes (Option Bytes)

-- Log
abbrev pub Fields : Type 0
Fields = Assoc Bytes Bytes

-- chunkRange
pub record ChunkRange : Type 0 where
  pub start : ℕ
  pub end : ℕ

-- Manager, without its buffer and its directory. `msg_pattern` is none if needMsgMatch is false.
pub record Manager : Type 0 where
  pub msg_pattern : Option Bytes
  pub limit : ℕ
  pub separator : Bytes
  pub field_names : List Bytes

abbrev pub newline : ℕ
newline = 10

-- logLimit, dataSize, and SPLIT.
abbrev pub log_limit : ℕ
log_limit = 10000

abbrev pub data_size : ℕ
data_size = 209715200

abbrev pub tab : Bytes
tab = 9 ∷ []

-- newManager, but for the directory and the prefix of the files.
pub new_manager : ListLogReq → ℕ → Manager
new_manager req limit = record {
  msg_pattern = req.message;
  limit = if ltb 0 limit then limit else log_limit;
  separator = elim req.separator [ none ↦ tab | some sep ↦ sep ];
  field_names = req.field_names;
}

-- The loop that looks for the next newline, over what stands at the index and behind it.
pub next_newline : Bytes → ℕ → ℕ
next_newline [] end = end
next_newline (c ∷ s) end = elim (c == newline) [ true ↦ end | false ↦ next_newline s (end + 1) ]

-- The end of a chunk that is not the last one.
pub chunk_end : Bytes → ℕ → ℕ
chunk_end bytes at =
    let end = next_newline (drop at bytes) at in if ltb end (length bytes) then end + 1 else end

-- The loop of splitDataToChunks with the number of chunks that are left.
pub chunks_from : Bytes → ℕ → ℕ → ℕ → List ChunkRange
chunks_from bytes size zero start = []
chunks_from bytes size (suc zero) start = record { start = start; end = length bytes } ∷ []
chunks_from bytes size (suc (suc n)) start =
    let end = chunk_end bytes (start + size) in
    record { start = start; end = end } ∷ chunks_from bytes size (suc n) end

-- splitDataToChunks, for at least one chunk.
pub split_data_to_chunks : Bytes → ℕ → List ChunkRange
split_data_to_chunks bytes n = chunks_from bytes (length bytes / n) n 0

-- data[start:end]
pub slice : Bytes → ℕ → ℕ → Option Bytes
slice bytes start end =
    if leb start end && leb end (length bytes)
    then some (take (end - start) (drop start bytes))
    else none

-- strings.Split for a separator that is not empty: `skip` bytes of a separator are still to pass.
pub split_on_from : Bytes → Bytes → ℕ → Bytes → List Bytes
split_on_from sep piece skip [] = piece ∷ []
split_on_from sep piece (suc skip) (c ∷ s) = split_on_from sep piece skip s
split_on_from sep piece zero (c ∷ s) = elim (has_prefix (c ∷ s) sep) [
  | true ↦ piece ∷ split_on_from sep [] (length sep - 1) s
  | false ↦ split_on_from sep (piece ++ c ∷ []) zero s
]

pub split_on : Bytes → Bytes → List Bytes
split_on sep s = split_on_from sep [] zero s

-- The loop of parseLogLine over the names: a later field of the same name wins, and the empty name
-- is left out.
pub name_fields : List Bytes → List Bytes → Fields → Option Fields
name_fields [] parts fields = some fields
name_fields (name ∷ names) [] fields = none
name_fields (name ∷ names) (val ∷ parts) fields =
    name_fields names parts (if is_empty name then fields else insert name val fields)

-- parseLogLine: too few parts are an error, as are no names.
pub parse_log_line : Bytes → Bytes → List Bytes → Option Fields
parse_log_line line sep [] = none
parse_log_line line sep (name ∷ names) = name_fields (name ∷ names) (split_on sep line) []

-- The field, or the empty text.
pub field : Bytes → Fields → Bytes
field name fields = elim (lookup name fields) [ none ↦ [] | some val ↦ val ]

-- The index of a text in another one, strings.Index.
pub index_of : Bytes → Bytes → Option ℕ
index_of t [] = if has_prefix [] t then some 0 else none
index_of t (c ∷ s) =
    let rest = index_of t s in
    if has_prefix (c ∷ s) t then some 0 else elim rest [ none ↦ none | some i ↦ some (i + 1) ]

-- strings.TrimSpace, for ASCII.
is_space : ℕ → Bool
is_space c = c == 32 || (leb 9 c && leb c 13)

trim_left : Bytes → Bytes
trim_left [] = []
trim_left (c ∷ s) = if is_space c then trim_left s else c ∷ s

trim_right : Bytes → Bytes
trim_right [] = []
trim_right (c ∷ s) = let rest = trim_right s in if is_space c && is_empty rest then [] else c ∷ rest

pub trim_space : Bytes → Bytes
trim_space s = trim_right (trim_left s)
