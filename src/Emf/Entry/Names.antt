-- ===== src/Emf/Entry/Names.antt =====
-- Looking up a name among the lines.
use text.Mathlib.Text.{◌==◌ as str_eq}
use text.Mathlib.TextEquality.{eq_iff}
use metrique.Prelude.{
  ◌≡◌, refl, ap, some, List, [], ◌∷◌, ◌++◌, String, arith, Bool-cases, inl, inr, if◌then◌else◌,
}
use metrique.Emf.Entry.{
  LineKind, metric, string, unfound_dimension, missing_dimension, ValidationError, LineMap, lookup,
  set_kind,
}
use metrique.Emf.Entry.Calls.{missing, base_map}

pub lookup-set_kind :
    (name other : String) (kind : LineKind) (lines : LineMap)
    → lookup name (set_kind other kind lines)
      ≡ (if str_eq other name then some kind else lookup name lines)
unfolding lookup set_kind
lookup-set_kind name other kind [] = refl
lookup-set_kind name other kind ((i, old) ∷ lines) =
    ground (
      arith,
      eq_iff other name,
      eq_iff i other,
      eq_iff i name,
      lookup-set_kind name other kind lines,
    )

-- A dimension that is not found is reported.
pub missing-lookup :
    (dim : String) (lines : LineMap)
    → lookup dim lines ≡ some unfound_dimension
    → (before after : List ValidationError) × (missing lines
        ≡ before ++ (some dim, missing_dimension) ∷ after)
unfolding lookup missing
missing-lookup dim [] h = absurd (ground (arith, h))
missing-lookup dim ((other, unfound_dimension) ∷ lines) h = elim (Bool-cases (str_eq other dim)) [
  | inl e ↦ (
    [],
    missing lines,
    ap (λ o. (some o, missing_dimension) ∷ missing lines) ((eq_iff other dim).0 e),
  )
  | inr e ↦
      let (before, after, at) = missing-lookup dim lines (ground (arith, h, e)) in
      (
        (some other, missing_dimension) ∷ before,
        after,
        ap (λ es. (some other, missing_dimension) ∷ es) at,
      )
]
missing-lookup dim ((other, string) ∷ lines) h = missing-lookup dim lines (ground (arith, h))
missing-lookup dim ((other, metric indexes) ∷ lines) h =
    missing-lookup dim lines (ground (arith, h))

pub lookup-base_map_kept :
    (dim : String) (dims : List String) (lines : LineMap)
    → lookup dim lines ≡ some unfound_dimension
    → lookup dim (base_map dims lines) ≡ some unfound_dimension
unfolding base_map
lookup-base_map_kept dim [] lines h = h
lookup-base_map_kept dim (other ∷ dims) lines h =
    lookup-base_map_kept dim dims (set_kind other unfound_dimension lines)
      (ground (arith, h, lookup-set_kind dim other unfound_dimension lines))

-- A default dimension is not found at first.
pub lookup-base_map :
    (before after : List String) (dim : String) (lines : LineMap)
    → lookup dim (base_map (before ++ dim ∷ after) lines) ≡ some unfound_dimension
unfolding base_map
lookup-base_map [] after dim lines =
    lookup-base_map_kept dim after (set_kind dim unfound_dimension lines)
      (ground (arith, eq_iff dim dim, lookup-set_kind dim dim unfound_dimension lines))
lookup-base_map (other ∷ before) after dim lines =
    lookup-base_map before after dim (set_kind other unfound_dimension lines)
