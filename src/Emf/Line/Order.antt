-- ===== src/Emf/Line/Order.antt =====
-- The order in which `finish` of metrique-writer-format-emf/src/emf.rs walks `dimension_set_map`, a
-- hash map.
use mathlib.Core.List as Lists
use mathlib.Core.List.{Perm}
use mathlib.Core.Logic.{∥∥₁_prop, ∥∥₁_map}
use metrique.Prelude.{ℕ, zero, suc, ◌≡◌, refl, sym, ap, ◌∙◌, List, [], ◌∷◌, ◌++◌, map}

-- The map is a list of what it holds, and it is walked in no fixed order. An order is a list of
-- numbers: each element of the map stands behind as many of those after it.
unfoldable pub insert_at {ℓ} : {A : Type ℓ} → ℕ → A → List A → List A
insert_at zero x ys = x ∷ ys
insert_at (suc n) x [] = x ∷ []
insert_at (suc n) x (y ∷ ys) = y ∷ insert_at n x ys

unfoldable pub arrange {ℓ} : {A : Type ℓ} → List ℕ → List A → List A
unfolding insert_at
arrange order [] = []
arrange [] (x ∷ xs) = x ∷ arrange [] xs
arrange (n ∷ order) (x ∷ xs) = insert_at n x (arrange order xs)

module _ {ℓ ℓ'} {A : Type ℓ} {B : Type ℓ'} (f : A → B) where
  map-insert_at :
      (n : ℕ) (x : A) (ys : List A) → map f (insert_at n x ys) ≡ insert_at n (f x) (map f ys)
  unfolding insert_at
  map-insert_at zero x ys = refl
  map-insert_at (suc n) x [] = refl
  map-insert_at (suc n) x (y ∷ ys) = ap (λ zs. f y ∷ zs) (map-insert_at n x ys)

  pub map-arrange :
      (order : List ℕ) (xs : List A) → map f (arrange order xs) ≡ arrange order (map f xs)
  unfolding arrange
  map-arrange order [] = refl
  map-arrange [] (x ∷ xs) = ap (λ zs. f x ∷ zs) (map-arrange [] xs)
  map-arrange (n ∷ order) (x ∷ xs) =
      map-insert_at n x (arrange order xs) ∙ ap (insert_at n (f x)) (map-arrange order xs)

module _ {ℓ} {A : Type ℓ} where
  insert_at-Perm : (n : ℕ) (x : A) (ys : List A) → Perm (insert_at n x ys) (x ∷ ys)
  unfolding insert_at
  insert_at-Perm zero x ys = Lists.Perm.rfl
  insert_at-Perm (suc n) x [] = Lists.Perm.rfl
  insert_at-Perm (suc n) x (y ∷ ys) =
      Lists.Perm.trans (Lists.Perm.cons y (insert_at-Perm n x ys)) (Lists.Perm.swap x y ys)

  -- Nothing is lost in an order, and nothing walked twice.
  arrange-Perm : (order : List ℕ) (xs : List A) → Perm (arrange order xs) xs
  unfolding arrange
  arrange-Perm order [] = Lists.Perm.nil
  arrange-Perm [] (x ∷ xs) = Lists.Perm.cons x (arrange-Perm [] xs)
  arrange-Perm (n ∷ order) (x ∷ xs) =
      Lists.Perm.trans (insert_at-Perm n x (arrange order xs))
        (Lists.Perm.cons x (arrange-Perm order xs))

  insert_behind : (s t : List A) (x : A) → (n : ℕ) × (insert_at n x (s ++ t) ≡ s ++ x ∷ t)
  unfolding insert_at
  insert_behind [] t x = (0, refl)
  insert_behind (y ∷ s) t x = let (n, e) = insert_behind s t x in (suc n, ap (λ zs. y ∷ zs) e)

  -- Any way to walk the map is an order.
  arranged : (xs ys : List A) → Perm ys xs → ∥ ((order : List ℕ) × (arrange order xs ≡ ys)) ∥₁
  unfolding arrange
  arranged [] ys p = ∣ ([], sym (Lists.Perm.eq-nil p)) ∣₁
  arranged (x ∷ xs) ys p =
      ∥∥₁_rec ∥∥₁_prop
        (λ (s, t, at).
          ∥∥₁_map
            (arranged xs (s ++ t) (
              (Lists.perm-cons x).0
                (Lists.Perm.trans (Lists.Perm.symm (Lists.perm_middle s t)) (rw at at p))))
            (λ (order, e).
              let (n, k) = insert_behind s t x in (n ∷ order, ap (insert_at n x) e ∙ k ∙ sym at)))
        (Lists.append_of_mem ((Lists.Perm.mem_iff p).1 Lists.mem-cons_self))
