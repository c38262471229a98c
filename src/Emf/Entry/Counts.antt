-- ===== src/Emf/Entry/Counts.antt =====
-- How a string counts towards a name's line, where duplicates are looked for.
use text.Mathlib.Text.{◌==◌ as str_eq}
use text.Mathlib.TextEquality.{eq_iff}
use metrique.Prelude.{
  ℕ, ◌+◌, ◌≤◌, ◌≡◌, ◌≢◌, refl, sym, ◌∙◌, ◌&&◌, Option, none, some, List, [], ◌∷◌, ◌++◌, String,
  Bool-cases, inl, inr, arith, if◌then◌else◌,
}
use metrique.Emf.Entry.{
  LineKind, metric, string, unfound_dimension, duplicate_field, Reason, ValidationError,
  EntryWriter, lookup, invalid, set_line, validate_string, is_none, holds,
}
use metrique.Emf.Entry.Calls.{measurement, Call, value}
use metrique.Emf.Entry.Names.{lookup-set_kind}

-- How often a call writes a name as a metric without dimensions.
abbrev pub plain_of : String → Call → ℕ
plain_of name (value other (measurement dimensions)) =
    if is_none dimensions && str_eq other name then 1 else 0
plain_of name c = 0

-- How often the line of a name says that it was written, metrics with dimensions aside.
abbrev pub used : Option LineKind → ℕ
used none = 0
used (some (metric indexes)) = if holds 0 indexes then 1 else 0
used (some string) = 1
used (some unfound_dimension) = 0

pub used_one : (kind : Option LineKind) → used kind ≤ 1
used_one kind = ground arith

-- What a call does to a writer that looks for duplicates, when there is no error after it: there was
-- none before, and the name was written `k` times.
pub record Counts (name : String) (k : ℕ) (w w' : EntryWriter) : Type 0 where
  pub clean : w'.error ≡ [] → w.error ≡ []
  pub counted :
      w'.error ≡ [] → used (lookup name w.validation_map) + k ≤ used (lookup name w'.validation_map)
  pub unique : w'.validations.skip_validate_unique ≡ w.validations.skip_validate_unique
  pub routable : w'.is_allow_unroutable_entries ≡ w.is_allow_unroutable_entries

append-cons-ne-nil : (es : List ValidationError) (e : ValidationError) → es ++ e ∷ [] ≢ []
append-cons-ne-nil [] e h = ground (arith, h)
append-cons-ne-nil (d ∷ es) e h = ground (arith, h)

module _ (n : String) where
  pub Counts-same : (w : EntryWriter) → Counts n 0 w w
  Counts-same w = record {
    clean = λ h. h;
    counted = λ h. omega arith;
    unique = refl;
    routable = refl;
  }

  pub Counts-trans :
      (j k : ℕ) (w v u : EntryWriter) → Counts n j w v → Counts n k v u → Counts n (j + k) w u
  Counts-trans j k w v u a b = record {
    clean = λ h. a.clean (b.clean h);
    counted = λ h. omega (arith, b.counted h, a.counted (b.clean h));
    unique = b.unique ∙ a.unique;
    routable = b.routable ∙ a.routable;
  }

  pub invalid-Counts :
      (k : ℕ) (field : Option String) (reason : Reason) (w : EntryWriter)
      → Counts n k w (invalid field reason w)
  unfolding invalid
  invalid-Counts k field reason w = record {
    clean = λ h. absurd (append-cons-ne-nil w.error (field, reason) h);
    counted = λ h. absurd (append-cons-ne-nil w.error (field, reason) h);
    unique = refl;
    routable = refl;
  }

  -- A line of a name is changed to one that says as much and `k` more.
  pub set_line-Counts :
      (name : String) (kind : LineKind) (k : ℕ) (w : EntryWriter)
      → used (lookup name w.validation_map) + k ≤ used (some kind)
      → Counts n (if str_eq name n then k else 0) w (set_line name kind w)
  unfolding set_line
  set_line-Counts name kind k w h = record {
    clean = λ e. e;
    counted = λ e. elim (Bool-cases (str_eq name n)) [
      | inl t ↦ rw (lookup-set_kind n name kind w.validation_map, t, sym ((eq_iff name n).0 t)) h
      | inr f ↦ rw (lookup-set_kind n name kind w.validation_map, f) (omega arith)
    ];
    unique = refl;
    routable = refl;
  }

  pub Counts-weaken : (j k : ℕ) (w v : EntryWriter) → j ≤ k → Counts n k w v → Counts n j w v
  Counts-weaken j k w v le a = record {
    clean = a.clean;
    counted = λ h. omega (arith, a.counted h);
    unique = a.unique;
    routable = a.routable;
  }

  -- Of a name's line as it is found.
  string-Counts :
      (name : String) (w : EntryWriter) (o : Option LineKind)
      → lookup name w.validation_map ≡ o
      → Counts n (if str_eq name n then 1 else 0) w (elim o [
        | none ↦ set_line name string w
        | some (metric indexes) ↦ invalid (some name) duplicate_field w
        | some string ↦ invalid (some name) duplicate_field w
        | some unfound_dimension ↦ set_line name string w
      ])
  string-Counts name w none e = set_line-Counts name string 1 w (rw e (omega arith))
  string-Counts name w (some (metric indexes)) e =
      invalid-Counts (if str_eq name n then 1 else 0) (some name) duplicate_field w
  string-Counts name w (some string) e =
      invalid-Counts (if str_eq name n then 1 else 0) (some name) duplicate_field w
  string-Counts name w (some unfound_dimension) e =
      set_line-Counts name string 1 w (rw e (omega arith))

  pub validate_string-Counts :
      (name : String) (w : EntryWriter)
      → Counts n (if str_eq name n then 1 else 0) w (validate_string name w)
  unfolding validate_string
  validate_string-Counts name w = string-Counts name w (lookup name w.validation_map) refl
