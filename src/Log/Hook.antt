-- ===== src/Log/Hook.antt =====
-- log/hook/core.go: BaseCore, which queues log entries with their fields. V stands for the values of
-- fields, T for entries. A slice is an array, a place in a list of them, and a length, since cores that
-- With makes share the arrays of their fields; how far append grows an array is a parameter.
pub mod Fields
pub mod Siblings
mod Tests
use go_toolkits.Base.{
  ℕ, suc, Bool, true, false, Option, none, some, List, [], ◌∷◌, ◌++◌, ltb, if◌then◌else◌, length,
  take, drop, get_elem?,
}
use go_toolkits.Base.Bytes.{Bytes}
use go_toolkits.Base.Assoc.{Assoc, bytes_eq, insert, remove}

-- zapcore.Field: its key, and what makes its value.
pub record Field (V : Type 0) : Type 0 where
  pub key : Bytes
  pub value : V

-- An array: the cells that were written, and how many there are.
pub record Array (V : Type 0) : Type 0 where
  pub cells : List (Field V)
  pub capacity : ℕ

abbrev pub Heap : Type 0 → Type 0
Heap V = List (Array V)

pub record Slice : Type 0 where
  pub array : ℕ
  pub len : ℕ

-- BaseCore, the encoder aside; the queue is a channel that the clones of a core share.
pub record BaseCore : Type 0 where
  pub filters : List Bytes
  pub fields : Assoc Bytes Bytes
  pub withfields : Slice
  pub off : Bool
  pub has_core : Bool

-- CoreData
pub record CoreData (V T : Type 0) : Type 0 where
  pub entry : T
  pub fields : List (Field V)

-- The channel: its capacity, what waits in it, and how often the output was synced.
pub record Queue (V T : Type 0) : Type 0 where
  pub capacity : ℕ
  pub waiting : List (CoreData V T)
  pub syncs : ℕ

module _ {V : Type 0} where
  -- The cells of a slice.
  abbrev pub cells_of : Option (Array V) → List (Field V)
  cells_of none = []
  cells_of (some a) = a.cells

  pub read : Heap V → Slice → List (Field V)
  read heap s = take s.len (cells_of (get_elem? heap s.array))

  -- cells[i] = x
  abbrev pub put_cell : ℕ → Field V → List (Field V) → List (Field V)
  put_cell i x cells = take i cells ++ x ∷ drop (suc i) cells

  pub set_array : ℕ → Array V → Heap V → Heap V
  set_array i a heap = take i heap ++ a ∷ drop (suc i) heap

  abbrev pub capacity_of : Option (Array V) → ℕ
  capacity_of none = 0
  capacity_of (some a) = a.capacity

  -- append(s, x): in place if there is room, else in a new array.
  pub append_field : (ℕ → ℕ) → Slice → Field V → Heap V → Slice × Heap V
  append_field grow s x heap =
      let a = get_elem? heap s.array in
      if ltb s.len (capacity_of a)
      then (
        record s { len = suc s.len },
        set_array s.array
            (record { cells = put_cell s.len x (cells_of a); capacity = capacity_of a }) heap,
      )
      else (
        record { array = length heap; len = suc s.len },
        heap ++ record { cells = read heap s ++ x ∷ []; capacity = grow (suc s.len) } ∷ [],
      )

  -- addFields
  pub add_fields : (ℕ → ℕ) → List (Field V) → Slice → Heap V → Slice × Heap V
  add_fields grow [] s heap = (s, heap)
  add_fields grow (x ∷ xs) s heap =
      let (s', heap') = append_field grow s x heap in add_fields grow xs s' heap'

  -- With: the clone has the slice of the core.
  pub with_fields : (ℕ → ℕ) → List (Field V) → BaseCore → Heap V → BaseCore × Heap V
  with_fields grow xs c heap =
      let (s, heap') = add_fields grow xs c.withfields heap in (record c { withfields = s }, heap')

  -- Fields into a map, as the loops of SliceFieldToMap and Write put them.
  pub put_fields : List (Field V) → Assoc Bytes (Field V) → Assoc Bytes (Field V)
  put_fields [] fs = fs
  put_fields (x ∷ xs) fs = put_fields xs (insert x.key x fs)

  -- SliceFieldToMap
  pub slice_field_to_map : List (Field V) → Assoc Bytes (Field V)
  slice_field_to_map xs = put_fields xs []

  -- MapFieldToSlice
  pub map_field_to_slice : Assoc Bytes (Field V) → List (Field V)
  map_field_to_slice [] = []
  map_field_to_slice ((k, x) ∷ fs) = x ∷ map_field_to_slice fs

  pub remove_keys : List Bytes → Assoc Bytes (Field V) → Assoc Bytes (Field V)
  remove_keys [] fs = fs
  remove_keys (k ∷ ks) fs = remove_keys ks (remove k fs)

  -- The fields of the configuration, as fields of type string.
  abbrev pub string_fields : (Bytes → V) → Assoc Bytes Bytes → List (Field V)
  string_fields string [] = []
  string_fields string ((k, v) ∷ kvs) =
      record { key = k; value = string v } ∷ string_fields string kvs

  -- filterFields
  pub filter_fields : (Bytes → V) → BaseCore → Assoc Bytes (Field V) → Assoc Bytes (Field V)
  filter_fields string c fs = remove_keys c.filters (put_fields (string_fields string c.fields) fs)

  -- The fields that Write hands on, by key.
  pub write_fields : (Bytes → V) → BaseCore → Heap V → List (Field V) → Assoc Bytes (Field V)
  write_fields string c heap xs =
      filter_fields string c (put_fields (read heap c.withfields) (slice_field_to_map xs))

module _ {V T : Type 0} where
  -- write: a channel that is full is emptied, and the entry is lost with what waited.
  pub write_queue : T → List (Field V) → Queue V T → Queue V T
  write_queue ent xs q =
      if ltb (length q.waiting) q.capacity
      then record q { waiting = q.waiting ++ record { entry = ent; fields = xs } ∷ [] }
      else record q { waiting = [] }

  -- Write; enabled tells of the entry's level.
  pub write :
      (Bytes → V) → (T → Bool) → BaseCore → Heap V → T → List (Field V) → Queue V T → Queue V T
  write string enabled c heap ent xs q =
      let q' =
        (if c.has_core
          then write_queue ent (map_field_to_slice (write_fields string c heap xs)) q
          else q) in
      if enabled ent then record q' { syncs = suc q'.syncs } else q'

-- Check: whether the core is added to the entry.
pub check : {T : Type 0} → (T → Bool) → BaseCore → T → Bool
check enabled c ent = if c.off then false else enabled ent
