-- ===== src/Emf/Entry/Missing.antt =====
-- When an entry is refused because a default dimension is missing.
use metrique.Prelude.{
  zero, suc, ◌≤◌, ◌≡◌, refl, true, false, none, some, List, ◌∷◌, ◌++◌, concat, All, total, String,
  inl, inr, arith,
}
use metrique.Emf.Entry.{missing_dimension, ValidationError}
use metrique.Emf.Entry.Calls.{Call, EmfBuilder, builder, allow_dimensions_with_no_data, format}
use metrique.Emf.Entry.Sought.{IsRoutable, text_of, format_unfound}

-- In a build without debug assertions, a formatter whose builder was told not to allow dimensions
-- without data refuses every entry when it has a default dimension, whatever the entry writes, that
-- dimension included, but for an entry that may be unroutable.
pub format-builder :
    (dim : String) (dim_sets : List (List String)) (before after : List String) (entry : List Call)
    → concat dim_sets ≡ before ++ dim ∷ after
    → All IsRoutable entry
    → (errors more : List ValidationError) × (format
          (allow_dimensions_with_no_data false (builder false dim_sets))
          entry
        ≡ some (errors ++ (some dim, missing_dimension) ∷ more))
unfolding builder allow_dimensions_with_no_data
format-builder dim dim_sets before after entry at r =
    format_unfound dim true (allow_dimensions_with_no_data false (builder false dim_sets)) before
      after entry at refl refl r (inr refl)

-- Where dimensions are looked for, an entry that is accepted, and that may not be unroutable, has
-- written each default dimension as a string or a list.
pub format-none :
    (dim : String) (b : EmfBuilder) (before after : List String) (entry : List Call)
    → concat b.default_dimensions ≡ before ++ dim ∷ after
    → b.validation.skip_validate_dimensions_exist ≡ false
    → All IsRoutable entry
    → format b entry ≡ none
    → 1 ≤ total (text_of dim) entry
format-none dim b before after entry at exist r e =
    elim (total (text_of dim) entry) as (λ n. total (text_of dim) entry ≡ n → 1 ≤ n) [
      | zero ↦ λ z.
          let (errors, more, refused) =
            format_unfound dim b.validation.skip_validate_unique b before after entry at refl exist
              r (inl z) in
          absurd (ground (arith, e, refused))
      | suc n ↦ λ z. omega arith
    ]
      refl
