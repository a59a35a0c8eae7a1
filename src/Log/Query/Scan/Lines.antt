-- ===== src/Log/Query/Scan/Lines.antt =====
-- log/encoder/text_query.go: the loop of processChunk without a pattern, against the lines.
use go_toolkits.Base.{
  take-nil, ℕ, ◌+◌, ◌-◌, ◌≤◌, ◌<◌, ◌≡◌, refl, sym, ◌∙◌, ap, Bool, true, false, Option, none, some,
  List, [], ◌∷◌, ◌++◌, append_assoc, append-nil, arith, ◌==◌, ltb, if◌then◌else◌, by_if, length,
  length-append, take, take-append_over,
}
use go_toolkits.Base.Bytes.{Bytes}
use go_toolkits.Log.Query.{ListLogReq, Fields, Manager, newline, parse_log_line}
use go_toolkits.Log.Query.Chunks.{lines_from}
use go_toolkits.Log.Query.Scan.{Found, found_in, accepts, add, scan_lines}

module _ (parse_time : Bytes → Option ℕ) (mgr : Manager) (req : ListLogReq) where
  -- The logs of some lines: of those that can be parsed and pass the filters, in their order.
  abbrev pub found_all : List Bytes → List Fields
  found_all [] = []
  found_all (line ∷ ls) = found_in parse_time mgr req line ++ found_all ls

  pub found_all-append : (xs ys : List Bytes) → found_all (xs ++ ys) ≡ found_all xs ++ found_all ys
  found_all-append [] ys = refl
  found_all-append (x ∷ xs) ys =
      ap (λ fs. found_in parse_time mgr req x ++ fs) (found_all-append xs ys)
      ∙ sym (append_assoc (found_in parse_time mgr req x) (found_all xs) (found_all ys))

  -- The logs are the first of `all` for which there is room, and they are counted.
  pub record IsTaken (all : List Fields) (total : ℕ) (f : Found) : Type 0 where
    pub logs : f.logs ≡ take (mgr.limit - total) all
    pub total_is : f.total ≡ total + length f.logs
    pub calm : f.panicked ≡ false

  length-found_in : (line : Bytes) → length (found_in parse_time mgr req line) ≤ 1
  unfolding found_in
  length-found_in line = go (parse_log_line line mgr.separator mgr.field_names)
    where
      go :
          (o : Option Fields)
          → length (elim o [
            | none ↦ []
            | some entry ↦ if accepts parse_time mgr req entry then entry ∷ [] else []
          ])
            ≤ 1
      go none = omega arith
      go (some entry) =
          by_if (λ (fs : List Fields). length fs ≤ 1) (accepts parse_time mgr req entry)
            (λ _. omega arith) (λ _. omega arith)

  full_IsTaken :
      (all : List Fields) (total : ℕ)
      → mgr.limit ≤ total
      → IsTaken all total (record { logs = []; total = total; panicked = false })
  full_IsTaken all total h = record {
    logs = sym (ap (λ k. take k all) (no_room h));
    total_is = omega arith;
    calm = refl;
  }
    where
      no_room : mgr.limit ≤ total → mgr.limit - total ≡ 0
      no_room h = omega (arith, h)

  add-IsTaken :
      (line : Bytes) (all : List Fields) (total : ℕ) (f : Found)
      → total < mgr.limit
      → IsTaken all (total + length (found_in parse_time mgr req line)) f
      → IsTaken
          (found_in parse_time mgr req line ++ all)
          total
          (add parse_time mgr req (found_in parse_time mgr req line) f)
  add-IsTaken line all total f h t =
      let fs = found_in parse_time mgr req line in
      let one = length-found_in line in
      record {
        logs =
            ap (λ gs. fs ++ gs) (t.logs ∙ ap (λ k. take k all) (omega (arith, h)))
            ∙ sym (take-append_over (mgr.limit - total) fs all (omega (arith, h, one)));
        total_is = omega (arith, t.total_is, length-append fs f.logs);
        calm = t.calm;
      }

  last-IsTaken :
      (line : Bytes) (total : ℕ)
      → total < mgr.limit
      → IsTaken (found_in parse_time mgr req line ++ []) total (record {
        logs = found_in parse_time mgr req line;
        total = total + length (found_in parse_time mgr req line);
        panicked = false;
      })
  last-IsTaken line total h =
      let fs = found_in parse_time mgr req line in
      record {
        logs = sym (
            take-append_over (mgr.limit - total) fs [] (omega (arith, h, length-found_in line))
            ∙ ap (λ gs. fs ++ gs) (take-nil {A = Fields} (mgr.limit - total - length fs))
            ∙ append-nil fs);
        total_is = refl;
        calm = refl;
      }

  over : (total : ℕ) → ltb total mgr.limit ≡ false → mgr.limit ≤ total
  over total h = ground arith

  under : (total : ℕ) → ltb total mgr.limit ≡ true → total < mgr.limit
  under total h = ground arith

  -- One byte, which ends a line or goes on with it.
  byte-IsTaken :
      (line : Bytes) (total : ℕ) (ends : Bool) (next on : List Bytes) (f g : Found)
      → IsTaken (found_all next) (total + length (found_in parse_time mgr req line)) f
      → IsTaken (found_all on) total g
      → IsTaken (found_all (if ends then line ∷ next else on)) total (
          if ltb total mgr.limit
          then (if ends then add parse_time mgr req (found_in parse_time mgr req line) f else g)
          else record { logs = []; total = total; panicked = false })
  byte-IsTaken line total ends next on f g t u =
      by_if (λ (r : Found). IsTaken (found_all (if ends then line ∷ next else on)) total r)
        (ltb total mgr.limit) (λ h. go ends (under total h))
        (λ h. full_IsTaken (found_all (if ends then line ∷ next else on)) total (over total h))
    where
      go :
          (ends : Bool)
          → total < mgr.limit
          → IsTaken
              (found_all (if ends then line ∷ next else on))
              total
              (if ends then add parse_time mgr req (found_in parse_time mgr req line) f else g)
      go true h = add-IsTaken line (found_all next) total f h t
      go false h = u

  -- The loop finds the logs of the lines of its text, up to the limit.
  pub scan_lines-IsTaken :
      (line s : Bytes) (total : ℕ)
      → IsTaken (found_all (lines_from line s)) total (scan_lines parse_time mgr req line s total)
  unfolding scan_lines
  scan_lines-IsTaken [] [] total = record {
    logs = sym (take-nil {A = Fields} (mgr.limit - total));
    total_is = omega arith;
    calm = refl;
  }
  scan_lines-IsTaken (b ∷ line) [] total =
      by_if (λ (r : Found). IsTaken (found_all ((b ∷ line) ∷ [])) total r) (ltb total mgr.limit)
        (λ h. last-IsTaken (b ∷ line) total (under total h))
        (λ h. full_IsTaken (found_all ((b ∷ line) ∷ [])) total (over total h))
  scan_lines-IsTaken [] (c ∷ s) total =
      byte-IsTaken [] total (c == newline) (lines_from [] s) (lines_from (c ∷ []) s) _ _
        (scan_lines-IsTaken [] s _) (scan_lines-IsTaken (c ∷ []) s total)
  scan_lines-IsTaken (b ∷ line) (c ∷ s) total =
      byte-IsTaken (b ∷ line) total (c == newline) (lines_from [] s)
        (lines_from ((b ∷ line) ++ c ∷ []) s) _ _ (scan_lines-IsTaken [] s _)
        (scan_lines-IsTaken ((b ∷ line) ++ c ∷ []) s total)

  pub found_in_parsed :
      (line : Bytes) (entry : Fields)
      → parse_log_line line mgr.separator mgr.field_names ≡ some entry
      → found_in parse_time mgr req line
        ≡ (if accepts parse_time mgr req entry then entry ∷ [] else [])
  unfolding found_in
  found_in_parsed line entry e = rw (e, found_in) refl
