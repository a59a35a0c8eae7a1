-- ===== src/Metric/Gauge.antt =====
-- metric/otel_gauge.go: the gauge of OpenTelemetry, on a counter that goes up and down and a sync.Map
-- of the last values. A value is an X, of which the float arithmetic and the test of equality are
-- parameters. key_of stands for the MD5 and its printing as hexadecimal digits.
pub mod Stuck
mod Tests
use go_toolkits.Base.{
  ℕ, zero, suc, ◌+◌, ◌≡◌, refl, ap, sym, ◌∙◌, Bool, true, false, Option, none, some, List, [], ◌∷◌,
  ◌++◌, if◌then◌else◌, by_if,
}
use go_toolkits.Base.Bytes.{Bytes, codes, less, is_empty}
use go_toolkits.Base.Assoc.{Assoc, bytes_eq, lookup, insert, remove}
use go_toolkits.Metric.Labels.{Attrs}

-- float64
pub record Float (X : Type 0) : Type 0 where
  pub plus : X → X → X
  pub minus : X → X → X
  pub neg : X → X
  pub equal : X → X → Bool

-- The values and what was given to the counter, with its attributes: a gauge and all that With makes
-- of it share these.
pub record Gauge (X : Type 0) : Type 0 where
  pub values : Assoc Bytes X
  pub sent : List (X × Attrs)

abbrev pub new_otel_gauge : {X : Type 0} → Gauge X
new_otel_gauge = record { values = []; sent = [] }

-- One pair as makeAttrKey prints it.
abbrev printed : Bytes × Bytes → Bytes
printed (k, v) = k ++ b'=' ∷ v

-- sort.Strings
pub put_sorted : Bytes → List Bytes → List Bytes
put_sorted s [] = s ∷ []
put_sorted s (t ∷ ts) = let rest = put_sorted s ts in if less t s then t ∷ rest else s ∷ t ∷ ts

pub sorted : Attrs → List Bytes
sorted [] = []
sorted (a ∷ attrs) = put_sorted (printed a) (sorted attrs)

-- The elements as fmt prints a slice between its brackets.
pub spaced : List Bytes → Bytes
spaced [] = []
spaced (s ∷ []) = s
spaced (s ∷ t ∷ ts) = s ++ b' ' ∷ spaced (t ∷ ts)

-- The text that makeAttrKey hashes.
pub key_text : Attrs → Bytes
key_text attrs = b'[' ∷ spaced (sorted attrs) ++ b']' ∷ []

-- makeAttrKey
pub make_attr_key : (Bytes → Bytes) → Attrs → Bytes
make_attr_key hash [] = codes "_default_"
make_attr_key hash (a ∷ attrs) = hash (key_text (a ∷ attrs))

module _ {X : Type 0} (float : Float X) (hash : Bytes → Bytes) where
  -- Whether the any old, nil or a float64, is the stored value.
  abbrev is_stored : Option X → X → Bool
  is_stored none v = false
  is_stored (some w) v = float.equal w v

  -- CompareAndSwap of sync.Map, for the value that the key has: without one, nothing is swapped.
  pub compare_and_swap : Bytes → Option X → X → Assoc Bytes X → Bool
  compare_and_swap key old new values = elim (lookup key values) [
    | none ↦ false
    | some v ↦ is_stored old v
  ]

  -- The delta and the new value of Set and of Add, from the old value.
  abbrev pub set_delta : X → Option X → X
  set_delta value none = value
  set_delta value (some old) = float.minus value old

  abbrev pub new_value : X → Option X → X
  new_value delta none = delta
  new_value delta (some old) = float.plus old delta

  -- One round of the loop of Set, with the old value that it has loaded; whether it is the last one.
  pub set_attempt : Attrs → X → Option X → Gauge X → Gauge X × Bool
  set_attempt attrs value old g =
      let key = make_attr_key hash attrs in
      if compare_and_swap key old value g.values
      then (
        record g {
          values = insert key value g.values;
          sent = g.sent ++ (set_delta value old, attrs) ∷ [];
        },
        true,
      )
      else (g, false)

  -- And of the loop of Add, with the Add behind it.
  pub add_attempt : Attrs → X → Option X → Gauge X → Gauge X × Bool
  add_attempt attrs delta old g =
      let key = make_attr_key hash attrs in
      let value = new_value delta old in
      if compare_and_swap key old value g.values
      then (
        record g { values = insert key value g.values; sent = g.sent ++ (delta, attrs) ∷ [] },
        true,
      )
      else (g, false)

  -- Delete, which does not read the label values that it is given.
  pub delete : Attrs → Gauge X → Gauge X
  delete attrs g = record g { values = remove (make_attr_key hash attrs) g.values }

  -- Sub
  pub sub_attempt : Attrs → X → Option X → Gauge X → Gauge X × Bool
  sub_attempt attrs delta old g = add_attempt attrs (float.neg delta) old g

  -- The loop of Set where no other goroutine uses the gauge, on fuel.
  pub set : ℕ → Attrs → X → Gauge X → Option (Gauge X)
  set zero attrs value g = none
  set (suc n) attrs value g =
      let (h, done) = set_attempt attrs value (lookup (make_attr_key hash attrs) g.values) g in
      let later = set n attrs value h in if done then some h else later
