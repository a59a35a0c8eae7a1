-- ===== src/Log/Query/Scan/File.antt =====
-- log/encoder/text_query.go: a file that is searched chunk by chunk gives the logs of its lines.
use go_toolkits.Base.{
  ℕ, zero, suc, ◌+◌, ◌-◌, ◌≤◌, ◌<◌, ◌≡◌, refl, sym, ◌∙◌, ap, subst, ◌⊎◌, inl, inr, true, false,
  Option, none, some, List, [], ◌∷◌, ◌++◌, arith, leb, ltb, if◌then◌else◌, by_if, length,
  length-append, get_elem?, take, drop, All, take-append_both, take-nil,
}
use go_toolkits.Base.Bytes.{Bytes}
use go_toolkits.Log.Query.{
  ListLogReq, Fields, ChunkRange, Manager, newline, slice, split_data_to_chunks,
}
use go_toolkits.Log.Query.Chunks.{
  lines, piece, lines_of_all, StartsLine, lines_of_all-split, split_data_to_chunks-StartsLine,
}
use go_toolkits.Log.Query.Scan.{
  Found, get_chunk_time_range, outside, time_or_zero, skip_partial, byte_before, scan_with,
  recovered, scan_chunk, scan_lines, chunk_count, process_chunk, process_chunks, process_log_file,
}
use go_toolkits.Log.Query.Scan.Lines.{found_all, found_all-append, IsTaken, scan_lines-IsTaken}

skip_partial-newline :
    (parse_time : Bytes → Option ℕ) (mgr : Manager) (req : ListLogReq) (s : Bytes)
    → skip_partial parse_time mgr req (some newline) s ≡ s
unfolding skip_partial
skip_partial-newline parse_time mgr req [] = refl
skip_partial-newline parse_time mgr req (c ∷ s) = refl

skip_partial-nil :
    (parse_time : Bytes → Option ℕ) (mgr : Manager) (req : ListLogReq) (o : Option ℕ)
    → skip_partial parse_time mgr req o [] ≡ []
unfolding skip_partial
skip_partial-nil parse_time mgr req none = refl
skip_partial-nil parse_time mgr req (some b) = refl

module _ (parse_time : Bytes → Option ℕ) (mgr : Manager) (req : ListLogReq) where
  starts_kept :
      (bytes s : Bytes) (start : ℕ)
      → (start ≡ 0) ⊎ ((get_elem? bytes (start - 1) ≡ some newline) ⊎ (s ≡ []))
      → skip_partial parse_time mgr req (byte_before parse_time mgr req bytes start) s ≡ s
  unfolding byte_before skip_partial
  starts_kept bytes s zero h = refl
  starts_kept bytes s (suc i) (inl e) = absurd (omega (arith, e))
  starts_kept bytes s (suc i) (inr (inr e)) =
      ap (skip_partial parse_time mgr req (get_elem? bytes i)) e
      ∙ skip_partial-nil parse_time mgr req (get_elem? bytes i)
      ∙ sym e
  starts_kept bytes s (suc i) (inr (inl e)) =
      ap (λ o. skip_partial parse_time mgr req o s) (ap (get_elem? bytes) (omega arith) ∙ e)
      ∙ skip_partial-newline parse_time mgr req s

  -- The times of a chunk were read without a panic, and either it is searched, and its ends are in
  -- the file, or it is passed over and holds no log that was asked for.
  abbrev pub IsFair : Bytes → ChunkRange → Type 0
  IsFair bytes cr =
      (range : Option (ℕ × ℕ)) × (get_chunk_time_range parse_time bytes cr ≡ some range)
      × (((outside parse_time range (time_or_zero parse_time req.from)
                (time_or_zero parse_time req.to)
              ≡ false)
            × (cr.start ≤ cr.end)
            × (cr.end ≤ length bytes))
          ⊎ ((outside parse_time range (time_or_zero parse_time req.from)
                  (time_or_zero parse_time req.to)
                ≡ true)
              × (found_all parse_time mgr req (lines (piece bytes cr)) ≡ [])))

  slice_lem :
      (bytes : Bytes) (start end : ℕ)
      → start ≤ end
      → end ≤ length bytes
      → slice bytes start end ≡ some (take (end - start) (drop start bytes))
  unfolding slice
  slice_lem bytes start end a b = rw (leb_true start end a, leb_true end (length bytes) b) refl
    where
      leb_true : (a b : ℕ) → a ≤ b → leb a b ≡ true
      leb_true a b h = ground arith

  recovered_calm : (f : Found) → f.panicked ≡ false → recovered parse_time mgr req f ≡ f
  unfolding recovered
  recovered_calm f h = ap (λ b. if b then record f { logs = [] } else f) h

  emptied :
      (bytes : Bytes) (cr : ChunkRange)
      → StartsLine bytes cr
      → (cr.start ≡ 0) ⊎ ((get_elem? bytes (cr.start - 1) ≡ some newline) ⊎ (piece bytes cr ≡ []))
  emptied bytes cr (inl e) = inl e
  emptied bytes cr (inr (inl e)) = inr (inl e)
  emptied bytes cr (inr (inr e)) =
      inr (inr (ap (take (cr.end - cr.start)) e ∙ take-nil (cr.end - cr.start)))

  scan_chunk_plain :
      (bytes : Bytes) (cr : ChunkRange) (total : ℕ)
      → mgr.msg_pattern ≡ none
      → StartsLine bytes cr
      → cr.start ≤ cr.end
      → cr.end ≤ length bytes
      → scan_chunk parse_time mgr req bytes cr total
        ≡ scan_lines parse_time mgr req [] (piece bytes cr) total
  unfolding scan_chunk scan_with
  scan_chunk_plain bytes cr total plain st a b =
      rw (slice_lem bytes cr.start cr.end a b, scan_chunk)
        (ap (λ s. scan_with parse_time mgr req mgr.msg_pattern s total)
            (starts_kept bytes (piece bytes cr) cr.start (emptied bytes cr st))
          ∙ ap (λ p. scan_with parse_time mgr req p (piece bytes cr) total) plain)

  abbrev Chunk : Bytes → ChunkRange → ℕ → Found → Type 0
  Chunk bytes cr total f =
      IsTaken parse_time mgr req (found_all parse_time mgr req (lines (piece bytes cr))) total f

  process_chunk-IsTaken :
      (bytes : Bytes) (cr : ChunkRange) (total : ℕ)
      → mgr.msg_pattern ≡ none
      → StartsLine bytes cr
      → IsFair bytes cr
      → Chunk bytes cr total (process_chunk parse_time mgr req bytes cr total)
  unfolding process_chunk
  process_chunk-IsTaken bytes cr total plain st (range, e, inl (inside, a, b)) =
      let t = scan_lines-IsTaken parse_time mgr req [] (piece bytes cr) total in
      let s = scan_chunk_plain bytes cr total plain st a b in
      rw (e, inside, process_chunk)
        (subst (Chunk bytes cr total)
          (sym (ap (recovered parse_time mgr req) s ∙ recovered_calm _ (t.calm))) t)
  process_chunk-IsTaken bytes cr total plain st (range, e, inr (gone, empty)) =
      rw (e, gone, process_chunk)
        (record {
          logs = sym (ap (take (mgr.limit - total)) empty ∙ take-nil (mgr.limit - total));
          total_is = omega arith;
          calm = refl;
        })

  -- What some chunks or a file gave: the first logs for which there is room, and their count.
  abbrev pub Given : List Fields → ℕ → List Fields × ℕ → Type 0
  Given all total p = (p.0 ≡ take (mgr.limit - total) all) × (p.1 ≡ total + length p.0)

  nothing_Given : (all : List Fields) (total : ℕ) → mgr.limit ≤ total → Given all total ([], total)
  nothing_Given all total h = (sym (ap (λ k. take k all) no_room), omega arith)
    where
      no_room : mgr.limit - total ≡ 0
      no_room = omega (arith, h)

  more_Given :
      (first others : List Fields) (total : ℕ) (f : Found) (later : List Fields × ℕ)
      → IsTaken parse_time mgr req first total f
      → Given others f.total later
      → Given (first ++ others) total (f.logs ++ later.0, later.1)
  more_Given first others total f (logs, total') t (l, n) = (
    sym (
        take-append_both (mgr.limit - total) first others
        ∙ ap (λ g. g ++ take (mgr.limit - total - length g) others) (sym t.logs)
        ∙ ap (λ k. f.logs ++ take k others) (omega (arith, t.total_is))
        ∙ ap (λ g. f.logs ++ g) (sym l)),
    omega (arith, n, t.total_is, length-append f.logs logs),
  )

  process_chunks-Given :
      (bytes : Bytes) (crs : List ChunkRange) (total : ℕ)
      → mgr.msg_pattern ≡ none
      → All (StartsLine bytes) crs
      → All (IsFair bytes) crs
      → Given
          (found_all parse_time mgr req (lines_of_all bytes crs))
          total
          (process_chunks parse_time mgr req bytes crs total)
  unfolding process_chunks
  process_chunks-Given bytes [] total plain st fair =
      (sym (take-nil (mgr.limit - total)), omega arith)
  process_chunks-Given bytes (cr ∷ crs) total plain st fair =
      let f = process_chunk parse_time mgr req bytes cr total in
      let t = process_chunk-IsTaken bytes cr total plain st.0 fair.0 in
      let later = process_chunks-Given bytes crs f.total plain st.1 fair.1 in
      let both =
        subst
          (λ all. Given all total (
            f.logs ++ (process_chunks parse_time mgr req bytes crs f.total).0,
            (process_chunks parse_time mgr req bytes crs f.total).1,
          ))
          (sym
            (found_all-append parse_time mgr req (lines (piece bytes cr)) (lines_of_all bytes crs)))
          (more_Given _ _ total f (process_chunks parse_time mgr req bytes crs f.total) t later) in
      by_if
        (λ (p : List Fields × ℕ).
          Given (found_all parse_time mgr req (lines_of_all bytes (cr ∷ crs))) total p)
        (ltb total mgr.limit) (λ _. both) (λ h. nothing_Given _ total (over h))
    where
      over : ltb total mgr.limit ≡ false → mgr.limit ≤ total
      over h = ground arith

  -- Without a message to look for, a file that is searched chunk by chunk gives the logs of its
  -- lines, in their order, as far as the limit leaves room, and counts them; provided that reading
  -- the times of a chunk does not panic, that its ends are in the file, and that no chunk that is
  -- passed over for its times holds a log that was asked for.
  pub process_log_file-Given :
      (bytes : Bytes) (total : ℕ)
      → mgr.msg_pattern ≡ none
      → All (IsFair bytes) (split_data_to_chunks bytes (chunk_count bytes))
      → Given
          (found_all parse_time mgr req (lines bytes))
          total
          (process_log_file parse_time mgr req bytes total)
  unfolding process_log_file
  process_log_file-Given bytes total plain fair =
      subst
        (λ ls.
          Given (found_all parse_time mgr req ls) total
            (process_log_file parse_time mgr req bytes total))
        (lines_of_all-split bytes (chunk_count bytes) (some_chunk bytes))
        (process_chunks-Given bytes (split_data_to_chunks bytes (chunk_count bytes)) total plain
          (split_data_to_chunks-StartsLine bytes (chunk_count bytes)) fair)
    where
      some_chunk : (bytes : Bytes) → 0 < chunk_count bytes
      some_chunk bytes = ground arith
