-- ===== src/Log/Query/Scan.antt =====
-- log/encoder/text_query.go: the lines of a chunk, and the chunks of a file.
pub mod Lines
pub mod File
pub mod Panic
mod Tests
use go_toolkits.Base.{
  ℕ, zero, suc, ◌+◌, ◌-◌, ◌/◌, Bool, true, false, not, ◌&&◌, ◌||◌, Option, none, some, List, [],
  ◌∷◌, ◌++◌, ◌==◌, leb, ltb, if◌then◌else◌, length, get_elem?, take, drop,
}
use go_toolkits.Base.Bytes.{Bytes, codes, same, is_empty, contains}
use go_toolkits.Base.Assoc.{Assoc}
use go_toolkits.Log.Query.{
  ListLogReq, Fields, ChunkRange, Manager, newline, data_size, log_limit, new_manager,
  split_data_to_chunks, slice, parse_log_line, field, index_of, trim_space,
}

-- What became of a chunk or of a part of it: the logs that were found, the count `total` of all logs
-- found so far, and whether the code panicked on the way.
pub record Found : Type 0 where
  pub logs : List Fields
  pub total : ℕ
  pub panicked : Bool

-- The number of chunks that processLogFile makes.
abbrev pub chunk_count : Bytes → ℕ
chunk_count bytes = if ltb data_size (length bytes) then length bytes / data_size else 1

-- `parse_time` is time.Parse on the 24 bytes of a time.
module _ (parse_time : Bytes → Option ℕ) where
  -- timeParser.Parse
  pub parse : Bytes → Option ℕ
  parse b = if ltb (length b) 24 then none else parse_time (take 24 b)

  pub matches_all : Assoc Bytes (Option Bytes) → Fields → Bool
  matches_all [] entry = true
  matches_all ((k, none) ∷ filters) entry = matches_all filters entry
  matches_all ((k, some v) ∷ filters) entry = same (field k entry) v && matches_all filters entry

  -- The test of the time field of matchFilters.
  pub in_time : Bytes → ℕ → ℕ → Bool
  in_time [] req_from req_to = true
  in_time (c ∷ tf) req_from req_to = elim (parse (c ∷ tf)) [
    | none ↦ false
    | some t ↦ leb req_from t && leb t req_to
  ]

  -- matchFilters
  pub match_filters : Fields → ListLogReq → ℕ → ℕ → Bool
  match_filters entry req req_from req_to =
      in_time (field (codes "time") entry) req_from req_to
      && (elim req.level [ none ↦ true | some level ↦ same level (field (codes "level") entry) ])
      && (elim req.message [ none ↦ true | some m ↦ contains (field (codes "message") entry) m ])
      && matches_all req.filters entry

  -- The zero time for a text that is no time.
  pub time_or_zero : Bytes → ℕ
  time_or_zero s = elim (parse (trim_space s)) [ none ↦ 0 | some t ↦ t ]

  -- The second loop of getChunkTimeRange, with n indices left from `start` on: the time before the
  -- last tab behind a Z, or `some none` if there is none; none is a panic.
  pub last_time : Bytes → ℕ → ℕ → Option (Option ℕ)
  last_time bytes start zero = some none
  last_time bytes start (suc n) =
      let rest = last_time bytes start n in
      let i = start + n in
      if ltb i 2 then none else elim (slice bytes (i - 2) i) [
        | none ↦ none
        | some b ↦
            if same b (b'Z' ∷ 9 ∷ []) && leb (start + 25) i
            then (elim (slice bytes (i - 25) (i - 1)) [ none ↦ none | some t ↦ some (parse t) ])
            else rest
      ]

  -- The first half of getChunkTimeRange: `some none` if valid stays false.
  pub first_time : Bytes → ChunkRange → Option (Option ℕ)
  first_time bytes cr =
      if ltb (cr.start + 24) cr.end
      then (elim (slice bytes cr.start (length bytes)) [ none ↦ none | some b ↦ some (parse b) ])
      else some none

  pub both : Option ℕ → Option ℕ → Option (ℕ × ℕ)
  both (some from) (some to) = some (from, to)
  both _ _ = none

  -- getChunkTimeRange: the range if it is valid.
  pub get_chunk_time_range : Bytes → ChunkRange → Option (Option (ℕ × ℕ))
  get_chunk_time_range bytes cr = elim (first_time bytes cr) [
    | none ↦ none
    | some from ↦ elim (last_time bytes cr.start (cr.end - cr.start)) [
      | none ↦ none
      | some to ↦ some (both from to)
    ]
  ]

  -- The test of processChunk for a chunk that stands outside the time asked for.
  pub outside : Option (ℕ × ℕ) → ℕ → ℕ → Bool
  outside none req_from req_to = false
  outside (some (from, to)) req_from req_to = ltb req_to from || ltb to req_from

  module _ (mgr : Manager) (req : ListLogReq) where
    -- What the end of the loop of processChunk makes of a line.
    pub accepts : Fields → Bool
    accepts entry = match_filters entry req (time_or_zero req.from) (time_or_zero req.to)

    pub found_in : Bytes → List Fields
    found_in line = elim (parse_log_line line mgr.separator mgr.field_names) [
      | none ↦ []
      | some entry ↦ if accepts entry then entry ∷ [] else []
    ]

    abbrev pub add : List Fields → Found → Found
    add logs f = record f { logs = logs ++ f.logs }

    -- The loop without a pattern, over the bytes of the chunk; `line` is what was read of the line.
    pub scan_lines : Bytes → Bytes → ℕ → Found
    scan_lines [] [] total = record { logs = []; total = total; panicked = false }
    scan_lines (b ∷ line) [] total =
        if ltb total mgr.limit
        then record {
          logs = found_in (b ∷ line);
          total = total + length (found_in (b ∷ line));
          panicked = false;
        }
        else record { logs = []; total = total; panicked = false }
    scan_lines line (c ∷ s) total =
        let on = scan_lines (line ++ c ∷ []) s total in
        let next = scan_lines [] s (total + length (found_in line)) in
        if ltb total mgr.limit
        then (if c == newline then add (found_in line) next else on)
        else record { logs = []; total = total; panicked = false }

    -- The bytes of the line that ends at the end of a text, and those up to the first newline, with
    -- what stands behind the newline.
    pub line_start : Bytes → Bytes → Bytes
    line_start line [] = line
    line_start line (c ∷ s) =
        if c == newline then line_start [] s else line_start (line ++ c ∷ []) s

    pub line_end : Bytes → Bytes × Option Bytes
    line_end [] = ([], none)
    line_end (c ∷ s) =
        let (line, rest) = line_end s in if c == newline then ([], some s) else (c ∷ line, rest)

    -- The loop with a pattern, over what is left of the chunk; none if searchStart stands behind its
    -- end, where the slice panics. A round takes at least one byte, or is the last one.
    pub scan_pattern : ℕ → Bytes → Option Bytes → ℕ → Found
    scan_pattern zero pattern left total = record { logs = []; total = total; panicked = false }
    scan_pattern (suc fuel) pattern none total = record {
      logs = [];
      total = total;
      panicked = ltb total mgr.limit;
    }
    scan_pattern (suc fuel) pattern (some s) total = elim (ltb total mgr.limit) [
      | false ↦ record { logs = []; total = total; panicked = false }
      | true ↦ elim (index_of pattern s) [
        | none ↦ record { logs = []; total = total; panicked = false }
        | some i ↦
            let (tail, rest) = line_end (drop i s) in
            let logs = found_in (line_start [] (take i s) ++ tail) in
            add logs (scan_pattern fuel pattern rest (total + length logs))
      ]
    ]

    -- The loop at the start of a chunk that is not the first: on to the next line, if the byte
    -- before the chunk is no newline.
    pub skip_partial : Option ℕ → Bytes → Bytes
    skip_partial none s = s
    skip_partial (some b) [] = []
    skip_partial (some b) (c ∷ s) = if b == newline then c ∷ s else skip_partial (some c) s

    -- The byte before a chunk that is not the first one.
    pub byte_before : Bytes → ℕ → Option ℕ
    byte_before bytes zero = none
    byte_before bytes (suc i) = get_elem? bytes i

    pub scan_with : Option Bytes → Bytes → ℕ → Found
    scan_with none s total = scan_lines [] s total
    scan_with (some pattern) s total = scan_pattern (length s + 2) pattern (some s) total

    pub recovered : Found → Found
    recovered f = if f.panicked then record f { logs = [] } else f

    pub scan_chunk : Bytes → ChunkRange → ℕ → Found
    scan_chunk bytes cr total = elim (slice bytes cr.start cr.end) [
      | none ↦ record { logs = []; total = total; panicked = true }
      | some s ↦ scan_with mgr.msg_pattern (skip_partial (byte_before bytes cr.start) s) total
    ]

    -- processChunk: after a panic the chunk gives no logs, but they stay counted.
    pub process_chunk : Bytes → ChunkRange → ℕ → Found
    process_chunk bytes cr total = elim (get_chunk_time_range bytes cr) [
      | none ↦ record { logs = []; total = total; panicked = true }
      | some range ↦
          if outside range (time_or_zero req.from) (time_or_zero req.to)
          then record { logs = []; total = total; panicked = false }
          else recovered (scan_chunk bytes cr total)
    ]

    pub process_chunks : Bytes → List ChunkRange → ℕ → List Fields × ℕ
    process_chunks bytes [] total = ([], total)
    process_chunks bytes (cr ∷ crs) total =
        let f = process_chunk bytes cr total in
        let (logs, total') = process_chunks bytes crs f.total in
        if ltb total mgr.limit then (f.logs ++ logs, total') else ([], total)

    -- processLogFile, once the file is read.
    pub process_log_file : Bytes → ℕ → List Fields × ℕ
    process_log_file bytes total =
        process_chunks bytes (split_data_to_chunks bytes (chunk_count bytes)) total

    -- processFiles: a file that cannot be read is none, and ends the query with an error.
    pub process_files : List (Option Bytes) → ℕ → Option (List Fields)
    process_files [] total = some []
    process_files (none ∷ files) total = if ltb total mgr.limit then none else some []
    process_files (some bytes ∷ files) total =
        let (logs, total') = process_log_file bytes total in
        let rest = process_files files total' in
        if ltb total mgr.limit
        then (elim rest [ none ↦ none | some more ↦ some (logs ++ more) ])
        else some []

-- parseTimeRange as far as its error goes, and the contents of the daily files from one day to the
-- other that are there, which the operating system gives.
pub record Files : Type 0 where
  pub parse_time : Bytes → Option ℕ
  pub read_days : ℕ → ℕ → List (Option Bytes)

pub data QueryError : Type 0 where
  first_field_not_time invalid_time_range unreadable_file : QueryError

pub data Reply : Type 0 where
  logs : List Fields → Reply
  failed : QueryError → Reply

reply_of : Option (List Fields) → Reply
reply_of none = failed unreadable_file
reply_of (some ls) = logs ls

in_range : Files → Manager → ListLogReq → Option ℕ → Option ℕ → Reply
in_range files mgr req (some from) (some to) =
    reply_of (process_files files.parse_time mgr req (files.read_days from to) 0)
in_range files mgr req _ _ = failed invalid_time_range

-- The test of the first name of QueryLogs.
starts_with_time : List Bytes → Bool
starts_with_time [] = false
starts_with_time (name ∷ names) = same name (codes "time")

-- QueryLogs
pub query_logs : Files → ListLogReq → Reply
query_logs files req =
    let mgr = new_manager req log_limit in
    if starts_with_time req.field_names
    then in_range files mgr req (files.parse_time (trim_space req.from))
        (files.parse_time (trim_space req.to))
    else failed first_field_not_time
