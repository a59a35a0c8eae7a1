-- ===== src/Log/Query/Scan/Panic.antt =====
-- log/encoder/text_query.go: a file of another separator than the tab.
use go_toolkits.Base.{
  ℕ, zero, suc, ◌+◌, ◌-◌, ◌≤◌, ◌≡◌, refl, ◌∙◌, ap, ◌≢◌, Bool, true, false, ◌&&◌, Option, none, some,
  List, [], ◌∷◌, ◌++◌, arith, leb, ltb, ltb-false, if◌then◌else◌, by_if, length, take, drop, All,
  All-drop, All-take,
}
use go_toolkits.Base.Bytes.{Bytes, same}
use go_toolkits.Log.Query.{
  Fields, ListLogReq, ChunkRange, Manager, data_size, slice, chunks_from, split_data_to_chunks,
}
use go_toolkits.Log.Query.Scan.{
  last_time, first_time, get_chunk_time_range, both, chunk_count, process_chunk, process_chunks,
  process_log_file,
}

-- The byte is no tab.
abbrev pub NoTab : ℕ → Type 0
NoTab c = c ≢ 9

same-NoTab : (b : Bytes) → All NoTab b → same b (b'Z' ∷ 9 ∷ []) ≡ false
unfolding same
same-NoTab [] a = refl
same-NoTab (x ∷ []) a = ground arith
same-NoTab (x ∷ y ∷ b) a = ground (arith, a.1.0)

-- The last time of a chunk at the start of a file is looked for down to the index 1.
last_time-NoTab :
    (parse_time : Bytes → Option ℕ) (bytes : Bytes) (n : ℕ)
    → All NoTab bytes
    → last_time parse_time bytes 0 (suc n) ≡ none
unfolding last_time slice
last_time-NoTab parse_time bytes zero a = refl
last_time-NoTab parse_time bytes (suc n) a =
    by_if (λ o. o ≡ none) (ltb (0 + suc n) 2) (λ _. refl)
      λ _.
        go (last_time-NoTab parse_time bytes n a)
          (leb (0 + suc n - 2) (0 + suc n) && leb (0 + suc n) (length bytes))
  where
    piece : Bytes
    piece = take (0 + suc n - (0 + suc n - 2)) (drop (0 + suc n - 2) bytes)

    clean : same piece (b'Z' ∷ 9 ∷ []) ≡ false
    clean = same-NoTab piece (
        All-take NoTab (0 + suc n - (0 + suc n - 2)) (drop (0 + suc n - 2) bytes)
          (All-drop NoTab (0 + suc n - 2) bytes a))

    go :
        last_time parse_time bytes 0 (suc n) ≡ none
        → (inside : Bool)
        → elim (if inside then some piece else none) [
          | none ↦ none
          | some b ↦
              if same b (b'Z' ∷ 9 ∷ []) && leb (0 + 25) (0 + suc n)
              then (elim (slice bytes (0 + suc n - 25) (0 + suc n - 1)) [
                | none ↦ none
                | some t ↦ some (go_toolkits.Log.Query.Scan.parse parse_time t)
              ])
              else last_time parse_time bytes 0 (suc n)
        ]
          ≡ none
    go before false = refl
    go before true = rw (clean) before

module _ (parse_time : Bytes → Option ℕ) (mgr : Manager) (req : ListLogReq) where
  get_chunk_time_range-NoTab :
      (bytes : Bytes) (n : ℕ)
      → All NoTab bytes
      → get_chunk_time_range parse_time bytes (record { start = 0; end = suc n }) ≡ none
  unfolding get_chunk_time_range
  get_chunk_time_range-NoTab bytes n a =
      go (first_time parse_time bytes (record { start = 0; end = suc n }))
    where
      panics : last_time parse_time bytes 0 (suc n - 0) ≡ none
      panics =
          ap (last_time parse_time bytes 0) (omega arith) ∙ last_time-NoTab parse_time bytes n a

      go :
          (from : Option (Option ℕ))
          → elim from [
            | none ↦ none
            | some from ↦ elim (last_time parse_time bytes 0 (suc n - 0)) [
              | none ↦ none
              | some to ↦ some (both parse_time from to)
            ]
          ]
            ≡ none
      go none = refl
      go (some from) = rw panics refl

  process_chunk-NoTab :
      (bytes : Bytes) (n total : ℕ)
      → All NoTab bytes
      → (process_chunk parse_time mgr req bytes (record { start = 0; end = suc n }) total).logs ≡ []
  unfolding process_chunk
  process_chunk-NoTab bytes n total a =
      rw (get_chunk_time_range-NoTab bytes n a, process_chunk) refl

  chunk_count_one : (bytes : Bytes) → length bytes ≤ data_size → chunk_count bytes ≡ 1
  chunk_count_one bytes h = rw (ltb-false data_size (length bytes) h) refl

  one_chunk :
      (bytes : Bytes) → split_data_to_chunks bytes 1 ≡ record { start = 0; end = length bytes } ∷ []
  unfolding split_data_to_chunks chunks_from
  one_chunk bytes = refl

  process_chunks_one :
      (bytes : Bytes) (cr : ChunkRange) (total : ℕ)
      → (process_chunk parse_time mgr req bytes cr total).logs ≡ []
      → (process_chunks parse_time mgr req bytes (cr ∷ []) total).0 ≡ []
  unfolding process_chunks
  process_chunks_one bytes cr total e =
      by_if (λ (p : List Fields × ℕ). p.0 ≡ []) (ltb total mgr.limit) (λ _. ap (λ ls. ls ++ []) e)
        (λ _. refl)

  -- In a file that is not empty, is small enough to be one chunk and has no tab, nothing is found,
  -- whatever the separator and the lines: looking for the last time, the code reads before the
  -- start of the file, panics, and recovers without a log.
  pub process_log_file-NoTab :
      (bytes : Bytes) (total : ℕ)
      → bytes ≢ []
      → length bytes ≤ data_size
      → All NoTab bytes
      → (process_log_file parse_time mgr req bytes total).0 ≡ []
  unfolding process_log_file
  process_log_file-NoTab [] total some_bytes small a = absurd (some_bytes refl)
  process_log_file-NoTab (c ∷ bytes) total some_bytes small a =
      ap (λ crs. (process_chunks parse_time mgr req (c ∷ bytes) crs total).0)
        (ap (split_data_to_chunks (c ∷ bytes)) (chunk_count_one (c ∷ bytes) small)
          ∙ one_chunk (c ∷ bytes))
      ∙ process_chunks_one (c ∷ bytes) _ total
          (process_chunk-NoTab (c ∷ bytes) (length bytes) total a)
