-- ===== src/Observable/Once.antt =====
-- observable/helpers.go: a callback of Once is handed out once.
use go_toolkits.Base.{
  ◌≡◌, refl, sym, ◌∙◌, ap, none, some, List, [], ◌∷◌, map, arith, if◌then◌else◌, Option-cases, inl,
  inr,
}
use go_toolkits.Base.Bytes.{Bytes, same_refl}
use go_toolkits.Base.Assoc.{bytes_eq, lookup, insert, lookup-insert}
use go_toolkits.Observable.{Callback, Observable, callbacks_at, mark, ready, get_callbacks}

-- The callbacks that On registered.
abbrev pub lasting : List Callback → List Callback
lasting [] = []
lasting (cb ∷ cbs) = if cb.is_unique then lasting cbs else cb ∷ lasting cbs

ready-map : (cbs : List Callback) → ready (map mark cbs) ≡ lasting cbs
unfolding ready mark
ready-map [] = refl
ready-map (cb ∷ cbs) = ground (arith, ready-map cbs)

get_callbacks_found :
    (s : Bytes) (o : Observable) (cbs : List Callback)
    → lookup s o ≡ some cbs
    → get_callbacks s o ≡ (insert s (map mark cbs) o, ready cbs)
unfolding get_callbacks
get_callbacks_found s o cbs e = rw (e, get_callbacks) refl

get_callbacks_missing :
    (s : Bytes) (o : Observable) → lookup s o ≡ none → get_callbacks s o ≡ (o, [])
unfolding get_callbacks
get_callbacks_missing s o e = rw (e, get_callbacks) refl

callbacks_at_found :
    (s : Bytes) (o : Observable) (cbs : List Callback)
    → lookup s o ≡ some cbs
    → callbacks_at s o ≡ cbs
unfolding callbacks_at
callbacks_at_found s o cbs e = rw (e, callbacks_at) refl

callbacks_at_missing : (s : Bytes) (o : Observable) → lookup s o ≡ none → callbacks_at s o ≡ []
unfolding callbacks_at
callbacks_at_missing s o e = rw (e, callbacks_at) refl

-- Between two calls of getCallbacks nothing else need happen: whatever the first one hands out, the
-- second one hands out the callbacks of On, all of them in their order, and none of Once.
pub get_callbacks_twice :
    (s : Bytes) (o : Observable)
    → (get_callbacks s (get_callbacks s o).0).1 ≡ lasting (callbacks_at s o)
get_callbacks_twice s o = elim (Option-cases (lookup s o)) [
  | inl e ↦
      ap (λ p. (get_callbacks s p.0).1) (get_callbacks_missing s o e)
      ∙ ap (λ p. p.1) (get_callbacks_missing s o e)
      ∙ ap lasting (sym (callbacks_at_missing s o e))
  | inr (cbs, e) ↦
      ap (λ p. (get_callbacks s p.0).1) (get_callbacks_found s o cbs e)
      ∙ ap (λ p. p.1) (get_callbacks_found s (insert s (map mark cbs) o) (map mark cbs) (found cbs))
      ∙ ready-map cbs
      ∙ ap lasting (sym (callbacks_at_found s o cbs e))
]
  where
    found : (cbs : List Callback) → lookup s (insert s (map mark cbs) o) ≡ some (map mark cbs)
    found cbs =
        lookup-insert s s (map mark cbs) o
        ∙ ap (λ b. if b then some (map mark cbs) else lookup s o) (same_refl s)
