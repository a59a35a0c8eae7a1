-- ===== src/Log/Query/Parse.antt =====
-- log/encoder/text_query.go: what parseLogLine and the loop over the lines read of written lines.
use go_toolkits.Base.{
  zero, ◌≡◌, refl, sym, ◌∙◌, ap, ◌≢◌, some, List, [], ◌∷◌, ◌++◌, append_assoc, append-nil, arith,
  ◌==◌, by_if, by_test, All,
}
use go_toolkits.Base.Bytes.{Bytes, codes, has_prefix, same}
use go_toolkits.Base.Assoc.{bytes_eq, insert}
use go_toolkits.Log.Query.{
  Fields, newline, tab, split_on_from, split_on, name_fields, parse_log_line,
}
use go_toolkits.Log.Query.Chunks.{lines_from, lines}

split_on_from-tab :
    (piece x y : Bytes)
    → All (λ c. c ≢ 9) x
    → split_on_from tab piece zero (x ++ 9 ∷ y) ≡ (piece ++ x) ∷ split_on_from tab [] zero y
unfolding split_on_from has_prefix
split_on_from-tab piece [] y a = ap (λ p. p ∷ split_on_from tab [] zero y) (sym (append-nil piece))
split_on_from-tab piece (c ∷ x) y a =
    by_test (λ (ps : List Bytes). ps ≡ (piece ++ c ∷ x) ∷ split_on_from tab [] zero y)
      (has_prefix (c ∷ (x ++ 9 ∷ y)) tab) (λ h. absurd (a.0 (ground arith)))
      (λ _.
        split_on_from-tab (piece ++ c ∷ []) x y a.1
        ∙ ap (λ p. p ∷ split_on_from tab [] zero y) (append_assoc piece (c ∷ []) x))

-- The names that the text encoder's lines start with.
abbrev pub header_names : List Bytes
header_names = codes "time" ∷ codes "level" ∷ codes "message" ∷ []

abbrev pub header_fields : Bytes → Bytes → Bytes → Fields
header_fields t l m = (codes "time", t) ∷ (codes "level", l) ∷ (codes "message", m) ∷ []

name_fields-header :
    (t l m : Bytes) (parts : List Bytes)
    → name_fields header_names (t ∷ l ∷ m ∷ parts) [] ≡ some (header_fields t l m)
unfolding name_fields insert same
name_fields-header t l m parts = refl

split_on-header :
    (t l m y : Bytes)
    → All (λ c. c ≢ 9) t
    → All (λ c. c ≢ 9) l
    → All (λ c. c ≢ 9) m
    → split_on tab (t ++ 9 ∷ (l ++ 9 ∷ (m ++ 9 ∷ y))) ≡ t ∷ l ∷ m ∷ split_on tab y
unfolding split_on
split_on-header t l m y a b c =
    split_on_from-tab [] t (l ++ 9 ∷ (m ++ 9 ∷ y)) a
    ∙ ap (λ ps. t ∷ ps)
        (split_on_from-tab [] l (m ++ 9 ∷ y) b ∙ ap (λ ps. l ∷ ps) (split_on_from-tab [] m y c))

pub parse_log_line-header :
    (t l m y : Bytes)
    → All (λ c. c ≢ 9) t
    → All (λ c. c ≢ 9) l
    → All (λ c. c ≢ 9) m
    → parse_log_line (t ++ 9 ∷ (l ++ 9 ∷ (m ++ 9 ∷ y))) tab header_names
      ≡ some (header_fields t l m)
unfolding parse_log_line
parse_log_line-header t l m y a b c =
    ap (λ ps. name_fields header_names ps []) (split_on-header t l m y a b c)
    ∙ name_fields-header t l m (split_on tab y)

lines_from-line :
    (line x y : Bytes)
    → All (λ c. c ≢ 10) x
    → lines_from line (x ++ newline ∷ y) ≡ (line ++ x) ∷ lines y
lines_from-line line [] y a = ap (λ l. l ∷ lines y) (sym (append-nil line))
lines_from-line line (c ∷ x) y a =
    by_if (λ (ls : List Bytes). ls ≡ (line ++ c ∷ x) ∷ lines y) (c == newline)
      (λ h. absurd (a.0 (ground arith)))
      (λ _.
        lines_from-line (line ++ c ∷ []) x y a.1
        ∙ ap (λ l. l ∷ lines y) (append_assoc line (c ∷ []) x))

pub lines-line : (x y : Bytes) → All (λ c. c ≢ 10) x → lines (x ++ newline ∷ y) ≡ x ∷ lines y
lines-line x y a = lines_from-line [] x y a
