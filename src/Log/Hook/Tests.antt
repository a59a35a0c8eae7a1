-- ===== src/Log/Hook/Tests.antt =====
-- A core with three fields in an array of four, and the theorems at it. The values are numbers.
use go_toolkits.Base.{ℕ, ◌+◌, ◌≡◌, refl, true, false, [], ◌∷◌, ◌++◌, arith}
use go_toolkits.Base.Bytes.{Bytes, codes}
use go_toolkits.Base.Assoc.{bytes_eq}
use go_toolkits.Log.Hook.{Field, Array, Heap, BaseCore, read, with_fields}
use go_toolkits.Log.Hook.Siblings.{Held, with_fields_twice}

abbrev field : Bytes → ℕ → Field ℕ
field k n = record { key = k; value = n }

abbrev three : Array ℕ
three = record {
  cells = field (codes "a") 1 ∷ field (codes "b") 2 ∷ field (codes "c") 3 ∷ [];
  capacity = 4;
}

abbrev heap : Heap ℕ
heap = three ∷ []

abbrev core : BaseCore
core = record {
  filters = codes "b" ∷ [];
  fields = (codes "a", codes "x") ∷ [];
  withfields = record { array = 0; len = 3 };
  off = false;
  has_core = true;
}

abbrev double : ℕ → ℕ
double n = n + n

core-Held : Held heap core.withfields
core-Held = record { arr = three; at = refl; fits = omega arith }

with_fields_twice_example :
    let (first, heap1) = with_fields double (field (codes "d") 4 ∷ []) core heap in
    let (second, heap2) = with_fields double (field (codes "e") 5 ∷ []) core heap1 in
    read heap2 first.withfields ≡ read heap core.withfields ++ field (codes "e") 5 ∷ []
with_fields_twice_example =
    with_fields_twice double (field (codes "d") 4) (field (codes "e") 5) core heap three refl
      (omega arith) (omega arith)
