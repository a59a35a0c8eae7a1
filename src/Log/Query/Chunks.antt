-- ===== src/Log/Query/Chunks.antt =====
-- log/encoder/text_query.go: splitDataToChunks cuts a file between its lines.
use go_toolkits.Base.{
  ℕ, zero, suc, ◌+◌, ◌-◌, ◌/◌, ◌≤◌, ◌<◌, ◌≡◌, refl, sym, ◌∙◌, ap, ◌⊎◌, inl, inr, List, [], ◌∷◌,
  ◌++◌, append_assoc, append-nil, arith, ◌==◌, ==_iff, ltb, if◌then◌else◌, by_test, ltb-true,
  ltb-false, length, length-append, length-drop, take, drop, take-append, get_elem?,
  get_elem?-append, All, some, take_all, take-drop, drop_past, drop-drop, ◌↔◌, Option, none, true,
  false, ◌&&◌, leb, Bool-cases,
}
use go_toolkits.Base.Bytes.{Bytes}
use go_toolkits.Log.Query.{
  ChunkRange, newline, next_newline, chunk_end, chunks_from, slice, split_data_to_chunks,
}

add_line : Bytes → List Bytes → List Bytes
add_line [] ls = ls
add_line (b ∷ line) ls = (b ∷ line) ∷ ls

-- The lines of a text whose first line goes on from `line`: what stands between its newlines, and
-- behind the last one if that is not empty.
abbrev pub lines_from : Bytes → Bytes → List Bytes
lines_from [] [] = []
lines_from (b ∷ line) [] = (b ∷ line) ∷ []
lines_from line (c ∷ s) =
    let next = lines_from [] s in
    let on = lines_from (line ++ c ∷ []) s in if c == newline then line ∷ next else on

abbrev pub lines : Bytes → List Bytes
lines s = lines_from [] s

lines_from-append :
    (line x y : Bytes)
    → lines_from line (x ++ newline ∷ y) ≡ lines_from line (x ++ newline ∷ []) ++ lines y
lines_from-append [] [] y = refl
lines_from-append (b ∷ line) [] y = refl
lines_from-append [] (c ∷ x) y =
    ground (arith, lines_from-append [] x y, lines_from-append (c ∷ []) x y)
lines_from-append (b ∷ line) (c ∷ x) y =
    ground (arith, lines_from-append [] x y, lines_from-append ((b ∷ line) ++ c ∷ []) x y)

-- Where the search for a newline from `at` on ends.
abbrev Next : Bytes → ℕ → ℕ → Type 0
Next s at end =
    ((u : Bytes) × (v : Bytes) × (s ≡ u ++ newline ∷ v) × (end ≡ at + length u))
    ⊎ (end ≡ at + length s)

next_newline-Next : (s : Bytes) (at : ℕ) → Next s at (next_newline s at)
unfolding next_newline
next_newline-Next [] at = inr (omega arith)
next_newline-Next (c ∷ s) at =
    by_test (Next (c ∷ s) at) (c == newline)
      (λ hit. inl ([], s, ap (λ b. b ∷ s) ((==_iff c newline).0 hit), omega arith))
      (λ miss. later (next_newline-Next s (at + 1)))
  where
    later : Next s (at + 1) (next_newline s (at + 1)) → Next (c ∷ s) at (next_newline s (at + 1))
    later (inl (u, v, e, l)) = inl (c ∷ u, v, ap (λ t. c ∷ t) e, omega (arith, l))
    later (inr l) = inr (omega (arith, l))

-- A cut at m does not go through a line: nothing stands behind it, or a newline before it.
abbrev Between : ℕ → Bytes → Type 0
Between m r = (drop m r ≡ []) ⊎ ((p : Bytes) × (take m r ≡ p ++ newline ∷ []))

lines-cut : (m : ℕ) (r : Bytes) → Between m r → lines r ≡ lines (take m r) ++ lines (drop m r)
lines-cut m r (inl none_left) =
    ap lines (sym (take-drop m r) ∙ ap (λ y. take m r ++ y) none_left ∙ append-nil (take m r))
    ∙ sym (append-nil (lines (take m r)))
    ∙ ap (λ y. lines (take m r) ++ lines y) (sym none_left)
lines-cut m r (inr (p, behind)) =
    ap lines (
      sym (take-drop m r)
      ∙ ap (λ x. x ++ drop m r) behind
      ∙ append_assoc p (newline ∷ []) (drop m r))
    ∙ lines_from-append [] p (drop m r)
    ∙ ap (λ x. lines x ++ lines (drop m r)) (sym behind)

length-take : (m : ℕ) (r : Bytes) → m < length r → length (take m r) ≡ m
length-take m r h =
    let whole = ap length (take-drop m r) in
    omega (arith, length-append (take m r) (drop m r), length-drop m r, whole, h)

-- The end of a chunk of at least `size` bytes.
record Ends (bytes : Bytes) (start size end : ℕ) : Type 0 where
  after : start + size ≤ end
  between : Between (end - start) (drop start bytes)
  behind : (drop end bytes ≡ []) ⊎ (get_elem? bytes (end - 1) ≡ some newline)

found_newline :
    (bytes u v : Bytes) (start size : ℕ)
    → drop (start + size) bytes ≡ u ++ newline ∷ v
    → (take (size + length u + 1) (drop start bytes)
        ≡ (take size (drop start bytes) ++ u) ++ newline ∷ [])
      × (start + size + length u + 1 ≤ length bytes)
      × (get_elem? bytes (start + size + length u) ≡ some newline)
found_newline bytes u v start size e =
    let r = drop start bytes in
    let q = (take size r ++ u) ++ newline ∷ [] in
    let rest : drop size r ≡ u ++ newline ∷ v =
      drop-drop start size (start + size) bytes refl ∙ e in
    let many : length bytes - (start + size) ≡ length u + 1 + length v =
      omega (arith, length-drop (start + size) bytes, ap length e, length-append u (newline ∷ v)) in
    let first : length (take size r) ≡ size =
      length-take size r (omega (arith, length-drop start bytes, many)) in
    let whole : q ++ v ≡ r =
      append_assoc (take size r ++ u) (newline ∷ []) v
      ∙ append_assoc (take size r) u (newline ∷ v)
      ∙ ap (λ y. take size r ++ y) (sym rest)
      ∙ take-drop size r in
    let early : length (take (start + size) bytes) ≡ start + size =
      length-take (start + size) bytes (omega (arith, many)) in
    let count : size + length u + 1 ≡ length q = omega (
      arith,
      first,
      length-append (take size r ++ u) (newline ∷ []),
      length-append (take size r) u,
    ) in
    (
      ap (λ y. take (size + length u + 1) y) (sym whole)
          ∙ ap (λ k. take k (q ++ v)) count
          ∙ take-append q v,
      omega (arith, many),
      ap (λ b. get_elem? b (start + size + length u))
            (sym (take-drop (start + size) bytes) ∙ ap (λ y. take (start + size) bytes ++ y) e)
          ∙ get_elem?-append (take (start + size) bytes) (u ++ newline ∷ v) (length u)
              (start + size + length u) (omega (arith, early))
          ∙ get_elem?-append u (newline ∷ v) 0 (length u) (omega arith),
    )

chunk_end-Ends :
    (bytes : Bytes) (start size : ℕ) → Ends bytes start size (chunk_end bytes (start + size))
unfolding chunk_end
chunk_end-Ends bytes start size =
    go (next_newline (drop (start + size) bytes) (start + size))
      (next_newline-Next (drop (start + size) bytes) (start + size))
  where
    go :
        (end : ℕ)
        → Next (drop (start + size) bytes) (start + size) end
        → Ends bytes start size (if ltb end (length bytes) then end + 1 else end)
    go end (inl (u, v, e, l)) =
        let (cut, inside, before) = found_newline bytes u v start size e in
        rw (ltb-true end (length bytes) (omega (arith, l, inside))) (record {
          after = omega (arith, l);
          between = inr (
            take size (drop start bytes) ++ u,
            ap (λ k. take k (drop start bytes)) (omega (arith, l)) ∙ cut,
          );
          behind = inr (ap (get_elem? bytes) (omega (arith, l)) ∙ before);
        })
    go end (inr l) =
        let past : length bytes ≤ end = omega (arith, l, length-drop (start + size) bytes) in
        rw (ltb-false end (length bytes) past) (record {
          after = omega (arith, l);
          between = inl (
              drop-drop start (end - start) end bytes (omega (arith, l))
              ∙ drop_past end bytes past);
          behind = inl (drop_past end bytes past);
        })

-- The bytes of a chunk, as far as there are any.
abbrev pub piece : Bytes → ChunkRange → Bytes
piece bytes cr = take (cr.end - cr.start) (drop cr.start bytes)

abbrev pub lines_of_all : Bytes → List ChunkRange → List Bytes
lines_of_all bytes [] = []
lines_of_all bytes (cr ∷ crs) = lines (piece bytes cr) ++ lines_of_all bytes crs

lines-chunks_from :
    (bytes : Bytes) (size n start : ℕ)
    → lines_of_all bytes (chunks_from bytes size (suc n) start) ≡ lines (drop start bytes)
unfolding chunks_from
lines-chunks_from bytes size zero start =
    append-nil (lines (take (length bytes - start) (drop start bytes))) ∙ ap lines all
  where
    all : take (length bytes - start) (drop start bytes) ≡ drop start bytes
    all =
        ap (λ k. take k (drop start bytes)) (sym (length-drop start bytes))
        ∙ take_all (drop start bytes)
lines-chunks_from bytes size (suc n) start =
    let end = chunk_end bytes (start + size) in
    let e = chunk_end-Ends bytes start size in
    let m = end - start in
    ap (λ ls. lines (take m (drop start bytes)) ++ ls) (lines-chunks_from bytes size n end)
    ∙ ap (λ r. lines (take m (drop start bytes)) ++ lines r)
        (sym (drop-drop start m end bytes (omega (arith, e.after))))
    ∙ sym (lines-cut m (drop start bytes) e.between)

-- Cut off at the end of the file, the chunks together have its lines.
pub lines_of_all-split :
    (bytes : Bytes) (n : ℕ)
    → 0 < n
    → lines_of_all bytes (split_data_to_chunks bytes n) ≡ lines bytes
unfolding split_data_to_chunks
lines_of_all-split bytes zero h = absurd (omega (arith, h))
lines_of_all-split bytes (suc n) h = lines-chunks_from bytes (length bytes / suc n) n 0

-- The chunk starts at the start of the file, or behind a newline, or it is empty.
abbrev pub StartsLine : Bytes → ChunkRange → Type 0
StartsLine bytes cr =
    (cr.start ≡ 0) ⊎ ((get_elem? bytes (cr.start - 1) ≡ some newline) ⊎ (drop cr.start bytes ≡ []))

chunks_from-StartsLine :
    (bytes : Bytes) (size n start : ℕ)
    → (start ≡ 0) ⊎ ((get_elem? bytes (start - 1) ≡ some newline) ⊎ (drop start bytes ≡ []))
    → All (StartsLine bytes) (chunks_from bytes size n start)
unfolding chunks_from
chunks_from-StartsLine bytes size zero start h = tt
chunks_from-StartsLine bytes size (suc zero) start h = (h, tt)
chunks_from-StartsLine bytes size (suc (suc n)) start h =
    let end = chunk_end bytes (start + size) in
    (
      h,
      chunks_from-StartsLine bytes size (suc n) end
          (later (chunk_end-Ends bytes start size).behind),
    )
  where
    later :
        {end : ℕ}
        → (drop end bytes ≡ []) ⊎ (get_elem? bytes (end - 1) ≡ some newline)
        → (end ≡ 0) ⊎ ((get_elem? bytes (end - 1) ≡ some newline) ⊎ (drop end bytes ≡ []))
    later (inl gone) = inr (inr gone)
    later (inr hit) = inr (inl hit)

pub split_data_to_chunks-StartsLine :
    (bytes : Bytes) (n : ℕ) → All (StartsLine bytes) (split_data_to_chunks bytes n)
unfolding split_data_to_chunks
split_data_to_chunks-StartsLine bytes n =
    chunks_from-StartsLine bytes (length bytes / n) n 0 (inl refl)

-- The lines of the chunks as data[cr.Start:cr.End] gives them, none where the slice panics.
abbrev pub then_lines : Option Bytes → Option (List Bytes) → Option (List Bytes)
then_lines none rest = none
then_lines (some s) none = none
then_lines (some s) (some ls) = some (lines s ++ ls)

abbrev pub lines_read : Bytes → List ChunkRange → Option (List Bytes)
lines_read bytes [] = some []
lines_read bytes (cr ∷ crs) = then_lines (slice bytes cr.start cr.end) (lines_read bytes crs)

-- Where the last chunk starts.
abbrev pub last_start : List ChunkRange → ℕ
last_start [] = 0
last_start (cr ∷ []) = cr.start
last_start (cr ∷ next ∷ crs) = last_start (next ∷ crs)

last_start-chunks_from :
    (bytes : Bytes) (size n start : ℕ)
    → last_start (chunks_from bytes size (suc (suc n)) start)
      ≡ last_start (chunks_from bytes size (suc n) (chunk_end bytes (start + size)))
unfolding chunks_from
last_start-chunks_from bytes size zero start = refl
last_start-chunks_from bytes size (suc n) start = refl

start_before_last :
    (bytes : Bytes) (size n start : ℕ) → start ≤ last_start (chunks_from bytes size (suc n) start)
unfolding chunks_from
start_before_last bytes size zero start = omega arith
start_before_last bytes size (suc n) start = omega (
  arith,
  last_start-chunks_from bytes size n start,
  start_before_last bytes size n (chunk_end bytes (start + size)),
  (chunk_end-Ends bytes start size).after,
)

slice_inside :
    (bytes : Bytes) (start end : ℕ)
    → start ≤ end
    → end ≤ length bytes
    → slice bytes start end ≡ some (take (end - start) (drop start bytes))
unfolding slice
slice_inside bytes start end h k =
    let inside : (leb start end && leb end (length bytes)) ≡ true = ground (arith, h, k) in
    rw inside refl

slice_outside :
    (bytes : Bytes) (start : ℕ) → length bytes < start → slice bytes start (length bytes) ≡ none
unfolding slice
slice_outside bytes start h =
    let outside : (leb start (length bytes) && leb (length bytes) (length bytes)) ≡ false =
      ground (arith, h) in
    rw outside refl

lines_read-inside :
    (bytes : Bytes) (size n start : ℕ)
    → last_start (chunks_from bytes size (suc n) start) ≤ length bytes
    → lines_read bytes (chunks_from bytes size (suc n) start)
      ≡ some (lines_of_all bytes (chunks_from bytes size (suc n) start))
unfolding chunks_from
lines_read-inside bytes size zero start h =
    ap (λ s. then_lines s (some [])) (slice_inside bytes start (length bytes) h (omega arith))
lines_read-inside bytes size (suc n) start h =
    let end = chunk_end bytes (start + size) in
    let last : last_start (chunks_from bytes size (suc n) end) ≤ length bytes =
      omega (arith, h, last_start-chunks_from bytes size n start) in
    let e = chunk_end-Ends bytes start size in
    ap (λ s. then_lines s (lines_read bytes (chunks_from bytes size (suc n) end)))
      (slice_inside bytes start end (omega (arith, e.after))
        (omega (arith, last, start_before_last bytes size n end)))
    ∙ ap (then_lines (some (take (end - start) (drop start bytes))))
        (lines_read-inside bytes size n end last)

then_lines-none : (s : Option Bytes) → then_lines s none ≡ none
then_lines-none none = refl
then_lines-none (some s) = refl

lines_read-outside :
    (bytes : Bytes) (size n start : ℕ)
    → length bytes < last_start (chunks_from bytes size (suc n) start)
    → lines_read bytes (chunks_from bytes size (suc n) start) ≡ none
unfolding chunks_from
lines_read-outside bytes size zero start h =
    ap (λ s. then_lines s (some [])) (slice_outside bytes start h)
lines_read-outside bytes size (suc n) start h =
    let end = chunk_end bytes (start + size) in
    ap (then_lines (slice bytes start end)) (
      lines_read-outside bytes size n end
        (omega (arith, h, last_start-chunks_from bytes size n start)))
    ∙ then_lines-none (slice bytes start end)

-- If splitDataToChunks makes at least one chunk of a file: the slices of the chunks are all within the
-- file, and their lines are together, in their order, the lines of the file, none cut or lost, exactly
-- if the last chunk does not start behind the end of the file; and some slice panics exactly if it does.
pub lines-split_data_to_chunks :
    (bytes : Bytes) (n : ℕ)
    → 0 < n
    → let crs = split_data_to_chunks bytes n in
      ((lines_read bytes crs ≡ some (lines bytes)) ↔ (last_start crs ≤ length bytes))
      × ((lines_read bytes crs ≡ none) ↔ (length bytes < last_start crs))
unfolding split_data_to_chunks
lines-split_data_to_chunks bytes zero h = absurd (omega (arith, h))
lines-split_data_to_chunks bytes (suc n) h =
    let size = length bytes / suc n in
    let crs = chunks_from bytes size (suc n) 0 in
    let whole = lines-chunks_from bytes size n 0 in
    elim (Bool-cases (leb (last_start crs) (length bytes))) [
      | inl in_ ↦
          let inside : last_start crs ≤ length bytes = ground (arith, in_) in
          let reads = lines_read-inside bytes size n 0 inside ∙ ap some whole in
          ((λ e. inside, λ k. reads), (λ e. cc, λ k. absurd (omega (arith, inside, k))))
      | inr out ↦
          let outside : length bytes < last_start crs = ground (arith, out) in
          let panics = lines_read-outside bytes size n 0 outside in
          ((λ e. cc, λ k. absurd (omega (arith, outside, k))), (λ e. outside, λ k. panics))
    ]
