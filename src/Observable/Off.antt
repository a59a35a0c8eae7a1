-- ===== src/Observable/Off.antt =====
-- observable/helpers.go: what remove leaves of the callbacks of an event.
use go_toolkits.Base.{
  length-drop, All-drop, get_elem?-append, take-append, ℕ, zero, suc, ◌+◌, ◌-◌, ◌≤◌, ◌<◌, ◌≡◌, refl,
  sym, ◌∙◌, ap, subst, none, some, List, [], ◌∷◌, ◌++◌, arith, All, All-append, length,
  length-append, get_elem?, take, drop, append_assoc,
}
use go_toolkits.Observable.{Callback, Slice, remove_from, remove_all}
use go_toolkits.Observable.Rounds.{
  Other, Passed, closed_up, get_elem?-All, remove_at_lem, remove_from_end, remove_from_hit,
  remove_from_out, remove_from_pass,
}

-- The slice that remove starts with.
abbrev whole : List Callback → Slice
whole cbs = record { array = cbs; len = length cbs }

none_below : (j : ℕ) → ¬ (j < 0)
none_below j h = omega (arith, h)

-- The loop up to its first hit.
remove_from_first :
    (fn : ℕ) (pre : List Callback) (cb : Callback) (post : List Callback)
    → All (Other fn) pre
    → cb.fn ≡ fn
    → remove_from (length (pre ++ cb ∷ post)) fn 0 (whole (pre ++ cb ∷ post))
      ≡ remove_from (length post) fn (length pre + 1) (closed_up pre cb post)
remove_from_first fn pre cb post a f =
    let s = whole (pre ++ cb ∷ post) in
    ap (λ m. remove_from m fn 0 s) (length-append pre (cb ∷ post))
    ∙ remove_from_pass fn (length pre) (suc (length post)) 0 s
        (λ j l h. passed j (omega (arith, h)))
    ∙ ap (λ k. remove_from (suc (length post)) fn k s) (omega arith)
    ∙ remove_from_hit fn (length post) (length pre) s (closed_up pre cb post) cb
        (get_elem?-append pre (cb ∷ post) 0 (length pre) (omega arith)) f
        (remove_at_lem pre cb post)
  where
    before :
        (xs ys : List Callback) (j : ℕ)
        → All (Other fn) xs
        → j < length xs
        → Passed fn (get_elem? (xs ++ ys) j)
    before [] ys j a h = absurd (none_below j h)
    before (x ∷ xs) ys zero a h = a.0
    before (x ∷ xs) ys (suc j) a h = before xs ys j a.1 (omega (arith, h))

    passed : (j : ℕ) → j < length pre → Passed fn (get_elem? (pre ++ cb ∷ post) j)
    passed j h = before pre (cb ∷ post) j a h

-- What the loop sees behind the place of the first hit: the callbacks that moved down, and the last
-- one once more.
abbrev seen : Callback → List Callback → List Callback
seen cb post = post ++ drop (length post) (cb ∷ post)

length_last : (cb : Callback) (post : List Callback) → length (drop (length post) (cb ∷ post)) ≡ 1
length_last cb [] = refl
length_last cb (x ∷ post) = length_last x post

get_elem?-drop :
    (xs : List Callback) (j k : ℕ) → j ≡ k + 1 → get_elem? xs j ≡ get_elem? (drop 1 xs) k
get_elem?-drop [] j k e = refl
get_elem?-drop (x ∷ xs) j k e = ap (get_elem? (x ∷ xs)) (e ∙ plus_one)
  where
    plus_one : k + 1 ≡ suc k
    plus_one = omega arith

-- If no other callback after the first is seen to be fn, only that one goes.
remove_all-first :
    (fn : ℕ) (pre : List Callback) (cb : Callback) (post : List Callback)
    → All (Other fn) pre
    → cb.fn ≡ fn
    → All (Other fn) (drop 1 (seen cb post))
    → remove_all fn (pre ++ cb ∷ post) ≡ some (pre ++ post)
unfolding remove_all
remove_all-first fn pre cb post a f b = rw (ends, remove_all) (ap some taken)
  where
    many : length (seen cb post) ≡ length post + 1
    many = omega (arith, length-append post (drop (length post) (cb ∷ post)), length_last cb post)

    passed :
        (j : ℕ)
        → length pre + 1 ≤ j
        → j < length pre + 1 + length post
        → Passed fn (get_elem? (closed_up pre cb post).array j)
    passed j l h =
        subst (Passed fn)
          (sym (
            get_elem?-append pre (seen cb post) (j - length pre) j (omega (arith, l))
            ∙ get_elem?-drop (seen cb post) (j - length pre) (j - length pre - 1)
                (omega (arith, l))))
          (get_elem?-All fn (drop 1 (seen cb post)) (j - length pre - 1) b
            (omega (arith, l, h, many, length-drop 1 (seen cb post))))

    ends :
        remove_from (length (pre ++ cb ∷ post)) fn 0 (whole (pre ++ cb ∷ post))
        ≡ some (closed_up pre cb post)
    ends =
        remove_from_first fn pre cb post a f
        ∙ ap (λ m. remove_from m fn (length pre + 1) (closed_up pre cb post)) (omega arith)
        ∙ remove_from_pass fn (length post) 0 (length pre + 1) (closed_up pre cb post) passed
        ∙ remove_from_end fn (length pre + 1 + length post) (closed_up pre cb post)

    taken :
        take (length pre + length post) (pre ++ (post ++ drop (length post) (cb ∷ post)))
        ≡ pre ++ post
    taken =
        ap (λ xs. take (length pre + length post) xs) (sym (append_assoc pre post _))
        ∙ ap (λ k. take k ((pre ++ post) ++ drop (length post) (cb ∷ post)))
            (sym (length-append pre post))
        ∙ take-append (pre ++ post) _

drop_last-All :
    (fn : ℕ) (cb : Callback) (post : List Callback)
    → All (Other fn) post
    → All (Other fn) (drop 1 (seen cb post))
drop_last-All fn cb [] a = tt
drop_last-All fn cb (x ∷ post) a =
    All-append (Other fn) post _ a.1 (All-drop (Other fn) (length post) (x ∷ post) a)

-- A callback that is registered once for the event is taken off, and the others stay as they are,
-- in their order.
pub remove_all_once :
    (fn : ℕ) (pre : List Callback) (cb : Callback) (post : List Callback)
    → All (Other fn) pre
    → cb.fn ≡ fn
    → All (Other fn) post
    → remove_all fn (pre ++ cb ∷ post) ≡ some (pre ++ post)
remove_all_once fn pre cb post a f b =
    remove_all-first fn pre cb post a f (drop_last-All fn cb post b)

-- Of a callback that was registered twice in a row, with others behind it, the second stays.
pub remove_all_twice :
    (fn : ℕ) (pre : List Callback) (cb cb' x : Callback) (post : List Callback)
    → All (Other fn) pre
    → cb.fn ≡ fn
    → cb'.fn ≡ fn
    → All (Other fn) (x ∷ post)
    → remove_all fn (pre ++ cb ∷ cb' ∷ x ∷ post) ≡ some (pre ++ cb' ∷ x ∷ post)
remove_all_twice fn pre cb cb' x post a f g b =
    remove_all-first fn pre cb (cb' ∷ x ∷ post) a f
      (b.0, All-append (Other fn) post _ b.1 (All-drop (Other fn) (length post) (x ∷ post) b))

-- If a callback that was registered twice in a row stands last, taking it off panics.
pub remove_all_last :
    (fn : ℕ) (pre : List Callback) (cb cb' : Callback)
    → All (Other fn) pre
    → cb.fn ≡ fn
    → cb'.fn ≡ fn
    → remove_all fn (pre ++ cb ∷ cb' ∷ []) ≡ none
unfolding remove_all
remove_all_last fn pre cb cb' a f g = rw (out, remove_all) refl
  where
    out : remove_from (length (pre ++ cb ∷ cb' ∷ [])) fn 0 (whole (pre ++ cb ∷ cb' ∷ [])) ≡ none
    out =
        remove_from_first fn pre cb (cb' ∷ []) a f
        ∙ remove_from_out fn 0 (length pre + 1) (closed_up pre cb (cb' ∷ [])) cb'
            (get_elem?-append pre (cb' ∷ cb' ∷ []) 1 (length pre + 1) refl) g (omega arith)
