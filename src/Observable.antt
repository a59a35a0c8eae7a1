-- ===== src/Observable.antt =====
-- observable/: callbacks by event. A callback is known by a number, as fn == cb.fn compares the
-- values of functions; A stands for parameters. Callbacks do not use the observable themselves. A
-- panic is none. Event names are ASCII, where strings.Fields cuts at six bytes.
pub mod Off
pub mod Once
pub mod Order
mod Rounds
mod Tests
use go_toolkits.Base.{
  ℕ, zero, suc, ◌+◌, ◌-◌, Bool, true, false, not, ◌&&◌, ◌||◌, Option, none, some, List, [], ◌∷◌,
  ◌++◌, map, ◌==◌, leb, ltb, if◌then◌else◌, length, get_elem?, take, drop,
}
use go_toolkits.Base.Bytes.{Bytes, codes, same, is_empty}
use go_toolkits.Base.Assoc.{Assoc, bytes_eq, lookup, insert, remove}

-- callback
pub record Callback : Type 0 where
  pub event : Bytes
  pub fn : ℕ
  pub is_unique : Bool
  pub is_typed : Bool
  pub was_called : Bool

-- An argument of a call: the name of an event, or a parameter of Trigger.
pub data Arg (A : Type 0) : Type 0 where
  name : Bytes → Arg A
  param : A → Arg A

-- Observable, without its mutex.
abbrev pub Observable : Type 0
Observable = Assoc Bytes (List Callback)

abbrev pub Calls : Type 0 → Type 0
Calls A = List (ℕ × List (Arg A))

-- ALL_EVENTS_NAMESPACE
abbrev pub all_events : Bytes
all_events = codes "*"

is_space : ℕ → Bool
is_space c = c == 32 || (leb 9 c && leb c 13)

add_field : Bytes → List Bytes → List Bytes
add_field [] fs = fs
add_field (c ∷ s) fs = (c ∷ s) ∷ fs

fields_from : Bytes → Bytes → List Bytes
fields_from word [] = add_field word []
fields_from word (c ∷ s) =
    let here = add_field word (fields_from [] s) in
    let on = fields_from (word ++ c ∷ []) s in if is_space c then here else on

-- strings.Fields
pub fields : Bytes → List Bytes
fields s = fields_from [] s

pub callbacks_at : Bytes → Observable → List Callback
callbacks_at s o = elim (lookup s o) [ none ↦ [] | some cbs ↦ cbs ]

add_each : List Bytes → ℕ → Bool → Bool → Observable → Observable
add_each [] fn is_unique is_typed o = o
add_each (s ∷ ss) fn is_unique is_typed o =
    let cb : Callback = record {
      event = s;
      fn = fn;
      is_unique = is_unique;
      is_typed = is_typed;
      was_called = false;
    } in
    add_each ss fn is_unique is_typed (insert s (callbacks_at s o ++ cb ∷ []) o)

-- addCallback
pub add_callback : Bytes → ℕ → Bool → Observable → Observable
add_callback event fn is_unique o =
    add_each (fields event) fn is_unique (ltb 1 (length (fields event))) o

-- On, and Once.
pub on : Bytes → ℕ → Observable → Observable
on event fn o = add_callback event fn false o

pub once : Bytes → ℕ → Observable → Observable
once event fn o = add_callback event fn true o

-- A slice that starts at its array.
pub record Slice : Type 0 where
  pub array : List Callback
  pub len : ℕ

-- append(s[:i], s[i+1:]...), which moves the end down in the array itself; out of bounds if i + 1
-- is above the length.
pub remove_at : ℕ → Slice → Option Slice
remove_at i s =
    if leb (i + 1) s.len
    then some (record {
      array = take i s.array ++ (drop (i + 1) (take s.len s.array) ++ drop (s.len - 1) s.array);
      len = s.len - 1;
    })
    else none

-- The loop of remove from i on, with n rounds left. It ranges over the slice as it was at first, and
-- so over the array that the rounds change.
pub remove_from : ℕ → ℕ → ℕ → Slice → Option Slice
remove_from zero fn i s = some s
remove_from (suc n) fn i s = elim (get_elem? s.array i) [
  | none ↦ none
  | some cb ↦ elim (cb.fn == fn) [
    | true ↦ elim (remove_at i s) [ none ↦ none | some s' ↦ remove_from n fn (i + 1) s' ]
    | false ↦ remove_from n fn (i + 1) s
  ]
]

-- The callbacks that remove leaves.
pub remove_all : ℕ → List Callback → Option (List Callback)
remove_all fn cbs =
    elim (remove_from (length cbs) fn 0 (record { array = cbs; len = length cbs })) [
      | none ↦ none
      | some s ↦ some (take s.len s.array)
    ]

-- remove
pub remove_callback : Bytes → ℕ → Observable → Option Observable
remove_callback s fn o = elim (remove_all fn (callbacks_at s o)) [
  | none ↦ none
  | some [] ↦ some (remove s o)
  | some (cb ∷ cbs) ↦ some (insert s (cb ∷ cbs) o)
]

-- cleanEvent
pub clean_event : Bytes → Observable → Observable
clean_event s o = if same s all_events then [] else remove s o

remove_each : List Bytes → ℕ → Observable → Option Observable
remove_each [] fn o = some o
remove_each (s ∷ ss) fn o = elim (remove_callback s fn o) [
  | none ↦ none
  | some o' ↦ remove_each ss fn o'
]

clean_each : List Bytes → Observable → Observable
clean_each [] o = o
clean_each (s ∷ ss) o = clean_each ss (clean_event s o)

-- Off, with the callback if one is given.
pub off : Bytes → Option ℕ → Observable → Option Observable
off event fn o = if same event all_events then some (clean_event event o) else elim fn [
  | none ↦ some (clean_each (fields event) o)
  | some f ↦ remove_each (fields event) f o
]

pub mark : Callback → Callback
mark cb = if cb.is_unique then record cb { was_called = true } else cb

pub ready : List Callback → List Callback
ready [] = []
ready (cb ∷ cbs) =
    let rest = ready cbs in if cb.is_unique && cb.was_called then rest else mark cb ∷ rest

-- getCallbacks: the observable with its callbacks marked, and those to call.
pub get_callbacks : Bytes → Observable → Observable × List Callback
get_callbacks s o = elim (lookup s o) [
  | none ↦ (o, [])
  | some cbs ↦ (insert s (map mark cbs) o, ready cbs)
]

module _ {A : Type 0} where
  -- The loop of dispatchEvents. `args` is the variable outside the loop.
  pub dispatch_loop :
      List Callback → List (Arg A) → Observable → Calls A → Option (Observable × Calls A)
  dispatch_loop [] args o calls = some (o, calls)
  dispatch_loop (cb ∷ cbs) args o calls =
      let args' = if cb.is_typed then name cb.event ∷ args else args in
      let calls' = calls ++ (cb.fn, args') ∷ [] in
      elim (cb.is_unique && cb.was_called) [
        | true ↦ elim (remove_callback cb.event cb.fn o) [
          | none ↦ none
          | some o' ↦ dispatch_loop cbs args' o' calls'
        ]
        | false ↦ dispatch_loop cbs args' o calls'
      ]

  -- dispatchEvents: the calls that are made are added to those before.
  pub dispatch_events : Bytes → List (Arg A) → Observable → Calls A → Option (Observable × Calls A)
  dispatch_events s args o calls =
      let (o', cbs) = get_callbacks s o in dispatch_loop cbs args o' calls

  trigger_each : List Bytes → List (Arg A) → Observable → Calls A → Option (Observable × Calls A)
  trigger_each [] args o calls = some (o, calls)
  trigger_each (s ∷ ss) args o calls = elim (dispatch_events s args o calls) [
    | none ↦ none
    | some (o', calls') ↦ trigger_each ss args o' calls'
  ]

  -- Trigger: the observable afterwards, and the calls in their order.
  pub trigger : Bytes → List A → Observable → Option (Observable × Calls A)
  trigger event params o =
      let args = map (λ p. param p) params in
      elim (trigger_each (fields event) args o []) [
        | none ↦ none
        | some (o', calls) ↦
            if same event all_events
            then some (o', calls)
            else dispatch_events all_events (name event ∷ args) o' calls
      ]
