-- ===== src/Observable/Order.antt =====
-- observable/helpers.go: which callbacks an event calls, in which order and with which arguments.
use go_toolkits.Base.{◌≡◌, false, List, [], ◌∷◌, if◌then◌else◌}
use go_toolkits.Base.Bytes.{Bytes}
use go_toolkits.Observable.{Callback, Observable, Arg, name, Calls}

-- A callback of the event s that was registered by On.
abbrev pub IsPlain : Bytes → Callback → Type 0
IsPlain s cb = (cb.event ≡ s) × (cb.is_unique ≡ false)

module _ {A : Type 0} where
  -- The arguments with a name in front as many times as callbacks are typed.
  abbrev pub with_names : Bytes → List Callback → List (Arg A) → List (Arg A)
  with_names s [] args = args
  with_names s (cb ∷ cbs) args =
      if cb.is_typed then name s ∷ with_names s cbs args else with_names s cbs args

  -- The calls of a list of callbacks: each gets the names of its own and of all before it.
  abbrev pub expected : Bytes → List Callback → List Callback → List (Arg A) → Calls A
  expected s done [] args = []
  expected s done (cb ∷ cbs) args =
      (cb.fn, with_names s (cb ∷ done) args) ∷ expected s (cb ∷ done) cbs args
