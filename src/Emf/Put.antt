-- ===== src/Emf/Put.antt =====
-- What `ValueWriter` of metrique-writer-format-emf/src/emf.rs pushes into the buffers of the `State`.
-- The validations of the same calls are those of Emf/Entry.
pub mod Grown
pub mod Filled
pub mod Format
mod Tests
use metrique.Prelude.{
  Bool, true, false, ◌||◌, ℕ, Option, none, some, List, [], ◌∷◌, ◌++◌, map, String, codes,
  if◌then◌else◌,
}
use metrique.Histogram.{Float, Observation}
use metrique.Emf.Output.{Bytes}
use metrique.Emf.Buf.{PrefixedStringBuf, push_raw_str}
use metrique.Emf.Metric.{Printer, StorageMode, write_metric}
use metrique.Emf.Array.{Element, write_values}
use metrique.Emf.Entry.{Dimensions, equivalent, dimension_set_key, is_none}
use metrique.Emf.Line.{Encoder, MetricsForDimensionSet, State, extend_with_strings, new_set, reset}

-- What a value does with its `ValueWriter`, when it writes anything.
pub data Put (float : Float) : Type 0 where
  put_string : String → String → Put float
  put_values : String → List (Element float) → Put float
  put_metric :
      String
      → List (Observation float)
      → Option String
      → Dimensions
      → Option StorageMode
      → Put float

-- The `State` with its `counts_buf`. None when an assertion fails.
abbrev pub Buffers : Type 0
Buffers = State × PrefixedStringBuf

-- `namespaces[0]`, which panics when there is none.
abbrev pub first_of : List Bytes → Option Bytes
first_of [] = none
first_of (first ∷ more) = some first

-- The entry of the map for a key, which is new if there is none, changed together with `counts_buf`.
-- The list stands for a hash map: `finish` walks it in any order.
unfoldable pub update_set :
    (MetricsForDimensionSet → Option (MetricsForDimensionSet × PrefixedStringBuf))
    → Dimensions
    → MetricsForDimensionSet
    → List (Dimensions × MetricsForDimensionSet)
    → Option (List (Dimensions × MetricsForDimensionSet) × PrefixedStringBuf)
update_set change key new [] = elim (change new) [
  | none ↦ none
  | some (set, counts) ↦ some ((key, set) ∷ [], counts)
]
update_set change key new ((other, old) ∷ sets) =
    let rest = update_set change key new sets in
    elim (equivalent key other) [
      | true ↦ elim (change old) [
        | none ↦ none
        | some (set, counts) ↦ some ((other, set) ∷ sets, counts)
      ]
      | false ↦ elim rest [
        | none ↦ none
        | some (sets', counts) ↦ some ((other, old) ∷ sets', counts)
      ]
    ]

-- The dimensions that an entry configures, added to each of the builder's.
unfoldable pub entry_arrays : Encoder → List (List String) → List Bytes → List Bytes
entry_arrays encoder dim_sets [] = []
entry_arrays encoder dim_sets (d ∷ each_dimensions_str) =
    map (λ names. extend_with_strings encoder names d) dim_sets
    ++ entry_arrays encoder dim_sets each_dimensions_str

abbrev pub entry_dimensions_of :
    Encoder → Option (List (List String)) → List Bytes → Option (List Bytes)
entry_dimensions_of encoder none each_dimensions_str = none
entry_dimensions_of encoder (some dim_sets) each_dimensions_str =
    some (entry_arrays encoder dim_sets each_dimensions_str)

module _ (float : Float) (printer : Printer float) (encoder : Encoder) where
  unfoldable pub write_set :
      String
      → List (Observation float)
      → Option String
      → Option StorageMode
      → Option ℕ
      → PrefixedStringBuf
      → MetricsForDimensionSet
      → Option (MetricsForDimensionSet × PrefixedStringBuf)
  write_set name distribution unit flags multiplicity counts set =
      elim (write_metric float printer name distribution unit flags multiplicity set.fields_buf
        set.metrics_buf counts) [
          | none ↦ none
          | some (fields, metrics, counts') ↦
              some (record set { fields_buf = fields; metrics_buf = metrics }, counts')
        ]

  -- `arrays` is the dimensions of the entry, or those of the builder.
  unfoldable pub put_in_set :
      List Bytes
      → Dimensions
      → (MetricsForDimensionSet → Option (MetricsForDimensionSet × PrefixedStringBuf))
      → State
      → Option Buffers
  unfolding update_set
  put_in_set arrays key change s = elim (first_of s.namespaces) [
    | none ↦ none
    | some first ↦
        elim (update_set change key (new_set encoder first arrays key) s.dimension_set_map) [
          | none ↦ none
          | some (sets, counts) ↦ some (record s { dimension_set_map = sets }, counts)
        ]
  ]

  unfoldable pub put_globally :
      String
      → List (Observation float)
      → Option String
      → Option StorageMode
      → Option ℕ
      → Buffers
      → Option Buffers
  put_globally name distribution unit flags multiplicity (s, counts) =
      elim (write_metric float printer name distribution unit flags multiplicity s.fields_buf
        s.metrics_buf counts) [
          | none ↦ none
          | some (fields, metrics, counts') ↦
              some (record s { fields_buf = fields; metrics_buf = metrics }, counts')
        ]

  module _ (allow_ignored_dimensions : Bool) (multiplicity : Option ℕ) (arrays : List Bytes) where
    unfoldable pub put : Put float → Buffers → Option Buffers
    unfolding put_globally put_in_set write_set
    put (put_string name value) (s, counts) = some (
      record s {
        string_fields_buf = push_raw_str (printer.json value) (
            push_raw_str (codes ":")
              (push_raw_str (printer.json name) (push_raw_str (codes ",") s.string_fields_buf)));
      },
      counts,
    )
    put (put_values name values) (s, counts) =
        elim (write_values float printer name values s.string_fields_buf) [
          | none ↦ none
          | some strings ↦ some (record s { string_fields_buf = strings }, counts)
        ]
    put (put_metric name distribution unit dimensions flags) (s, counts) =
        elim (allow_ignored_dimensions || is_none dimensions) [
          | true ↦ put_globally name distribution unit flags multiplicity (s, counts)
          | false ↦
              put_in_set arrays (dimension_set_key dimensions)
                (write_set name distribution unit flags multiplicity counts) s
        ]

    unfoldable pub put_all : List (Put float) → Buffers → Option Buffers
    unfolding put
    put_all [] buffers = some buffers
    put_all (x ∷ xs) buffers = elim (put x buffers) [
      | none ↦ none
      | some buffers' ↦ put_all xs buffers'
    ]
