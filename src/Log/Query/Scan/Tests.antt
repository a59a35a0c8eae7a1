-- ===== src/Log/Query/Scan/Tests.antt =====
-- A small log file, and the theorems on the search at it.
use go_toolkits.Base.{
  ℕ, ◌-◌, ◌+◌, ◌/◌, ◌≤◌, ◌<◌, ◌≡◌, refl, ◌≢◌, ◌⊎◌, inl, inr, true, false, Option, none, some, List,
  [], ◌∷◌, ◌++◌, arith, length, take, All, ◌↔◌,
}
use go_toolkits.Base.Bytes.{Bytes, codes}
use go_toolkits.Log.Query.{
  Fields, ListLogReq, ChunkRange, Manager, tab, slice, split_data_to_chunks,
}
use go_toolkits.Log.Query.Chunks.{lines, lines_read, last_start, lines-split_data_to_chunks}
use go_toolkits.Log.Query.Scan.{chunk_count, process_log_file, get_chunk_time_range, outside}
use go_toolkits.Log.Query.Scan.File.{IsFair, Given, process_log_file-Given}
use go_toolkits.Log.Query.Scan.Lines.{found_all}
use go_toolkits.Log.Query.Scan.Panic.{NoTab}

-- Every text is the time 5.
abbrev five : Bytes → Option ℕ
five b = some 5

abbrev moment : Bytes
moment = codes "2024-01-02T03:04:05.000Z"

abbrev file : Bytes
file = moment ++ (9 ∷ codes "INFO") ++ (9 ∷ codes "up") ++ 9 ∷ 10 ∷ []

abbrev request : ListLogReq
request = record {
  from = moment;
  to = moment;
  level = none;
  message = none;
  separator = none;
  field_names = codes "time" ∷ codes "level" ∷ codes "message" ∷ [];
  filters = [];
}

abbrev manager : Manager
manager = record {
  msg_pattern = none;
  limit = 10;
  separator = tab;
  field_names = codes "time" ∷ codes "level" ∷ codes "message" ∷ [];
}

lines-split_data_to_chunks_example :
    let crs = split_data_to_chunks (codes "ab\nc\n") 2 in
    ((lines_read (codes "ab\nc\n") crs ≡ some (lines (codes "ab\nc\n"))) ↔ (last_start crs ≤ 5))
    × ((lines_read (codes "ab\nc\n") crs ≡ none) ↔ (5 < last_start crs))
lines-split_data_to_chunks_example = lines-split_data_to_chunks (codes "ab\nc\n") 2 (omega arith)

-- A line that is longer than a chunk: the last line is lost by a panic.
long_line : lines_read (codes "aaaaaaa\nbb") (split_data_to_chunks (codes "aaaaaaa\nbb") 3) ≡ none
unfolding split_data_to_chunks go_toolkits.Log.Query.chunks_from slice
    go_toolkits.Log.Query.chunk_end go_toolkits.Log.Query.next_newline
long_line = refl

four_chunks :
    split_data_to_chunks (codes "aaaaaaa\n") 4
    ≡ record { start = 0; end = 8 }
      ∷ record { start = 8; end = 10 }
      ∷ record { start = 10; end = 12 }
      ∷ record { start = 12; end = 8 }
      ∷ []
unfolding split_data_to_chunks go_toolkits.Log.Query.chunks_from go_toolkits.Log.Query.chunk_end
    go_toolkits.Log.Query.next_newline
four_chunks = refl

range :
    get_chunk_time_range five file (record { start = 0; end = length file }) ≡ some (some (5, 5))
unfolding get_chunk_time_range go_toolkits.Log.Query.Scan.first_time slice
    go_toolkits.Log.Query.Scan.last_time go_toolkits.Base.Bytes.same go_toolkits.Log.Query.Scan.both
    go_toolkits.Log.Query.Scan.parse
range = refl

inside :
    outside five
      (some (5, 5))
      (go_toolkits.Log.Query.Scan.time_or_zero five moment)
      (go_toolkits.Log.Query.Scan.time_or_zero five moment)
    ≡ false
unfolding outside go_toolkits.Log.Query.Scan.time_or_zero go_toolkits.Log.Query.Scan.parse
    go_toolkits.Log.Query.trim_space go_toolkits.Log.Query.trim_right
    go_toolkits.Log.Query.trim_left go_toolkits.Log.Query.is_space
inside = refl

fair : All (IsFair five manager request file) (split_data_to_chunks file (chunk_count file))
unfolding split_data_to_chunks go_toolkits.Log.Query.chunks_from
fair = ((some (5, 5), range, inl (inside, omega arith, omega arith)), tt)

process_log_file-Given_example :
    Given five manager request
      (found_all five manager request (lines file))
      0
      (process_log_file five manager request file 0)
process_log_file-Given_example = process_log_file-Given five manager request file 0 refl fair

abbrev bars : Bytes
bars = codes "t|x\n"

no_tabs : All NoTab bars
no_tabs = ((λ h. cc), ((λ h. cc), ((λ h. cc), ((λ h. cc), tt))))
