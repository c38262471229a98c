-- ===== src/Prelude/Lists.antt =====
-- Lists measured by native numbers, and predicates on all of a list's items.
use Prim.Native.Nat.{ℕ, zero, suc, ◌+◌, ◌-◌, ◌≤◌}
use mathlib.Core.Path.{◌≡◌, refl, ap, ◌∙◌}
use mathlib.Core.Option
use mathlib.Core.Option.{Option, none, some}
use mathlib.Core.List.{List, [], ◌∷◌, ◌++◌, tail, map}
use native.Mathlib.Omega.{arith}

module _ {ℓ} {A : Type ℓ} where
  -- The first item of a list, if it has one.
  abbrev pub front : List A → Option A
  front [] = none
  front (x ∷ xs) = some x

  abbrev pub length : List A → ℕ
  length [] = 0
  length (x ∷ xs) = suc (length xs)

  pub length-append : (xs ys : List A) → length (xs ++ ys) ≡ length xs + length ys
  length-append [] ys = omega arith
  length-append (x ∷ xs) ys = omega (arith, length-append xs ys)

  abbrev pub get_elem? : List A → ℕ → Option A
  get_elem? [] i = none
  get_elem? (x ∷ xs) zero = some x
  get_elem? (x ∷ xs) (suc i) = get_elem? xs i

  -- A write out of bounds changes nothing.
  abbrev pub set : List A → ℕ → A → List A
  set [] i v = []
  set (x ∷ xs) zero v = v ∷ xs
  set (x ∷ xs) (suc i) v = x ∷ set xs i v

  -- The sum of a function over a list.
  abbrev pub total : (A → ℕ) → List A → ℕ
  total f [] = 0
  total f (x ∷ xs) = f x + total f xs

  pub total-append : (f : A → ℕ) (xs ys : List A) → total f (xs ++ ys) ≡ total f xs + total f ys
  total-append f [] ys = omega arith
  total-append f (x ∷ xs) ys = omega (arith, total-append f xs ys)

  pub total-set :
      (f : A → ℕ) (xs : List A) (i : ℕ) (x v : A)
      → get_elem? xs i ≡ some x
      → total f (set xs i v) + f x ≡ total f xs + f v
  total-set f [] i x v h = absurd (ground arith)
  total-set f (y ∷ ys) zero x v h = ground arith
  total-set f (y ∷ ys) (suc i) x v h = omega (arith, total-set f ys i x v h)

  pub get_elem-total :
      (f : A → ℕ) (xs : List A) (i : ℕ) (x : A) → get_elem? xs i ≡ some x → f x ≤ total f xs
  get_elem-total f [] i x h = absurd (ground arith)
  get_elem-total f (y ∷ ys) zero x h = ground arith
  get_elem-total f (y ∷ ys) (suc i) x h = omega (arith, get_elem-total f ys i x h)

  pub length-set : (xs : List A) (i : ℕ) (v : A) → length (set xs i v) ≡ length xs
  length-set [] i v = refl
  length-set (x ∷ xs) zero v = refl
  length-set (x ∷ xs) (suc i) v = omega (arith, length-set xs i v)

  abbrev pub replicate : ℕ → A → List A
  replicate zero a = []
  replicate (suc n) a = a ∷ replicate n a

  pub length-replicate : (n : ℕ) (a : A) → length (replicate n a) ≡ n
  length-replicate zero a = refl
  length-replicate (suc n) a = omega (arith, length-replicate n a)

  pub append-replicate : (m n : ℕ) (a : A) → replicate m a ++ replicate n a ≡ replicate (m + n) a
  append-replicate zero n a = ap (λ k. replicate k a) (omega arith)
  append-replicate (suc m) n a =
      let e : suc m + n ≡ suc (m + n) = omega arith in
      rw e (ap (λ xs. a ∷ xs) (append-replicate m n a))

  -- Of two ways to cut a list, the longer first part extends the other.
  pub prefix_of_append :
      (xs ys us vs : List A)
      → xs ++ ys ≡ us ++ vs
      → length us ≤ length xs
      → (ws : List A) × (xs ≡ us ++ ws)
  prefix_of_append xs ys [] vs e h = (xs, refl)
  prefix_of_append [] ys (u ∷ us) vs e h = absurd (omega arith)
  prefix_of_append (x ∷ xs) ys (u ∷ us) vs e h =
      let (ws, p) = prefix_of_append xs ys us vs (ap tail e) (omega arith) in (ws, cc p)

  abbrev pub take : ℕ → List A → List A
  take zero xs = []
  take (suc n) [] = []
  take (suc n) (x ∷ xs) = x ∷ take n xs

  abbrev pub drop : ℕ → List A → List A
  drop zero xs = xs
  drop (suc n) [] = []
  drop (suc n) (x ∷ xs) = drop n xs

  pub drop-append : (xs ys : List A) → drop (length xs) (xs ++ ys) ≡ ys
  drop-append [] ys = refl
  drop-append (x ∷ xs) ys = drop-append xs ys

  pub take-append : (xs ys : List A) → take (length xs) (xs ++ ys) ≡ xs
  take-append [] ys = refl
  take-append (x ∷ xs) ys = ap (λ zs. x ∷ zs) (take-append xs ys)

  pub take-drop : (n : ℕ) (xs : List A) → take n xs ++ drop n xs ≡ xs
  take-drop zero xs = refl
  take-drop (suc n) [] = refl
  take-drop (suc n) (x ∷ xs) = ap (λ ys. x ∷ ys) (take-drop n xs)

  pub length-drop : (n : ℕ) (xs : List A) → n ≤ length xs → length (drop n xs) + n ≡ length xs
  length-drop zero xs h = omega arith
  length-drop (suc n) [] h = absurd (omega arith)
  length-drop (suc n) (x ∷ xs) h = omega (arith, length-drop n xs (omega arith))

  pub take_nil : (n : ℕ) → take n [] ≡ []
  take_nil zero = refl
  take_nil (suc n) = refl

  -- A cut past the first of two lists, and one within it.
  pub drop-append_past :
      (n : ℕ) (xs ys : List A) → length xs ≤ n → drop n (xs ++ ys) ≡ drop (n - length xs) ys
  drop-append_past n [] ys h = ap (λ m. drop m ys) (omega arith)
  drop-append_past zero (x ∷ xs) ys h = absurd (omega arith)
  drop-append_past (suc n) (x ∷ xs) ys h =
      drop-append_past n xs ys (omega arith) ∙ ap (λ m. drop m ys) (omega arith)

  pub drop-append_within :
      (n : ℕ) (xs ys : List A) → n ≤ length xs → drop n (xs ++ ys) ≡ drop n xs ++ ys
  drop-append_within zero xs ys h = refl
  drop-append_within (suc n) [] ys h = absurd (omega arith)
  drop-append_within (suc n) (x ∷ xs) ys h = drop-append_within n xs ys (omega arith)

  pub take-append_within : (n : ℕ) (xs ys : List A) → n ≤ length xs → take n (xs ++ ys) ≡ take n xs
  take-append_within zero xs ys h = refl
  take-append_within (suc n) [] ys h = absurd (omega arith)
  take-append_within (suc n) (x ∷ xs) ys h =
      ap (λ zs. x ∷ zs) (take-append_within n xs ys (omega arith))

  -- The first items of a list, taken in two parts.
  pub take_add : (m n : ℕ) (xs : List A) → take (m + n) xs ≡ take m xs ++ take n (drop m xs)
  take_add zero n xs = ap (λ m. take m xs) (omega arith)
  take_add (suc m) n [] = let e : suc m + n ≡ suc (m + n) = omega arith in rw (e, take_nil n) refl
  take_add (suc m) n (x ∷ xs) =
      let e : suc m + n ≡ suc (m + n) = omega arith in rw e (ap (λ ys. x ∷ ys) (take_add m n xs))

  abbrev pub concat : List (List A) → List A
  concat [] = []
  concat (xs ∷ xss) = xs ++ concat xss

module _ {ℓ κ} {A : Type ℓ} {B : Type κ} (f : A → B) where
  pub get_elem-map : (xs : List A) (i : ℕ) → get_elem? (map f xs) i ≡ Option.map f (get_elem? xs i)
  get_elem-map [] i = refl
  get_elem-map (x ∷ xs) zero = refl
  get_elem-map (x ∷ xs) (suc i) = get_elem-map xs i

  pub set-map : (xs : List A) (i : ℕ) (v : A) → set (map f xs) i (f v) ≡ map f (set xs i v)
  set-map [] i v = refl
  set-map (x ∷ xs) zero v = refl
  set-map (x ∷ xs) (suc i) v = ap (λ ys. f x ∷ ys) (set-map xs i v)

module _ {ℓ κ} {A : Type ℓ} (P : A → Type κ) where
  abbrev pub All : List A → Type κ
  All [] = Unit
  All (x ∷ xs) = P x × All xs

  pub All-append : (xs ys : List A) → All xs → All ys → All (xs ++ ys)
  All-append [] ys hx hy = hy
  All-append (x ∷ xs) ys hx hy = (hx.0, All-append xs ys hx.1 hy)

pub All-imp {ℓ κ μ} :
    {A : Type ℓ} (P : A → Type κ) (Q : A → Type μ) (xs : List A)
    → ((a : A) → P a → Q a)
    → All P xs
    → All Q xs
All-imp P Q [] f h = tt
All-imp P Q (x ∷ xs) f h = (f x h.0, All-imp P Q xs f h.1)
