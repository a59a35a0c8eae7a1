-- ===== src/Observable/Tests.antt =====
-- Runs of the observable, and the theorems at inputs of theirs.
use go_toolkits.Base.{
  ℕ, ◌≡◌, refl, ◌≢◌, ◌⊎◌, Bool, true, false, Option, none, some, List, [], ◌∷◌, ◌++◌, All, inl, inr,
}
use go_toolkits.Base.Bytes.{Bytes, codes}
use go_toolkits.Observable.{
  Callback, Observable, Arg, name, param, Calls, on, once, trigger, get_callbacks, callbacks_at,
  remove_all, dispatch_loop,
}
use go_toolkits.Observable.Rounds.{Other}

abbrev start : Bytes
start = codes "start"

abbrev typed : ℕ → Callback
typed n = record { event = start; fn = n; is_unique = false; is_typed = true; was_called = false }

abbrev plain : ℕ → Callback
plain n = record { event = start; fn = n; is_unique = false; is_typed = false; was_called = false }

-- The second typed callback gets the name twice, and so does the callback of one event behind it.
abbrev names_twice : Calls ℕ
names_twice =
    (1, name start ∷ param 5 ∷ [])
    ∷ (2, name start ∷ name start ∷ param 5 ∷ [])
    ∷ (3, name start ∷ name start ∷ param 5 ∷ [])
    ∷ []

another : All (Other 2) (plain 1 ∷ [])
another = ((λ h. cc), tt)

abbrev two : Observable
two = once start 1 (on start 2 [])

triggers :
    trigger {A = ℕ} start (5 ∷ []) two
    ≡ some (on start 2 [], (2, param 5 ∷ []) ∷ (1, param 5 ∷ []) ∷ [])
unfolding trigger go_toolkits.Observable.trigger_each go_toolkits.Observable.fields
    go_toolkits.Observable.fields_from go_toolkits.Observable.is_space
    go_toolkits.Observable.add_field go_toolkits.Observable.dispatch_events
    go_toolkits.Observable.add_callback go_toolkits.Observable.add_each go_toolkits.Observable.ready
    go_toolkits.Observable.mark go_toolkits.Observable.remove_at
    go_toolkits.Observable.remove_callback go_toolkits.Observable.remove_from dispatch_loop
    get_callbacks go_toolkits.Base.Assoc.lookup once go_toolkits.Base.Assoc.insert on
    go_toolkits.Base.Bytes.same go_toolkits.Base.Assoc.remove callbacks_at remove_all
triggers = refl
