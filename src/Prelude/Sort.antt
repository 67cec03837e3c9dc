-- ===== src/Prelude/Sort.antt =====
-- `Array.prototype.sort` with a comparison: stable, so equal elements keep their order.
use mathlib.Core.Bool.{Bool}
use mathlib.Core.List.{List, [], ◌∷◌, Perm, Memᴰ}
use mathlib.Core.Path.{◌≡◌, refl, sym, subst, ap, ◌∙◌}
use mayday_dispatch.Prelude.Lists.{All, length}
use Prim.Native.Nat.{suc}
use mathlib.Core.List.Perm
use mathlib.Core.Logic.{inl, inr}
use mayday_dispatch.Prelude.Tests.{if◌then◌else◌, Bool-cases}

-- `le x y` is `compare(x, y) <= 0`.
module _ {ℓ} {A : Type ℓ} (le : A → A → Bool) where
  insert : A → List A → List A
  insert x [] = x ∷ []
  insert x (y ∷ ys) = if le x y then x ∷ y ∷ ys else y ∷ insert x ys

  unfoldable pub sort : List A → List A
  unfolding insert
  sort [] = []
  sort (x ∷ xs) = insert x (sort xs)

  insert-perm : (x : A) (xs : List A) → Perm (insert x xs) (x ∷ xs)
  unfolding insert
  insert-perm x [] = Perm.rfl
  insert-perm x (y ∷ ys) = elim (Bool-cases (le x y)) [
    | inl e ↦ rw e Perm.rfl
    | inr e ↦ rw e (Perm.trans (Perm.cons y (insert-perm x ys)) (Perm.swap x y ys))
  ]

  pub sort-perm : (xs : List A) → Perm (sort xs) xs
  unfolding sort
  sort-perm [] = Perm.nil
  sort-perm (x ∷ xs) = Perm.trans (insert-perm x (sort xs)) (Perm.cons x (sort-perm xs))

  insert-mem_new : (x : A) (xs : List A) → Memᴰ x (insert x xs)
  unfolding insert
  insert-mem_new x [] = Memᴰ.head refl
  insert-mem_new x (y ∷ ys) = elim (Bool-cases (le x y)) [
    | inl e ↦ rw (insert, e) (Memᴰ.head refl)
    | inr e ↦ rw (insert, e) (Memᴰ.tail (insert-mem_new x ys))
  ]

  insert-mem_old : (x z : A) (xs : List A) → Memᴰ z xs → Memᴰ z (insert x xs)
  unfolding insert
  insert-mem_old x z [] m = elim m [ ]
  insert-mem_old x z (y ∷ ys) (Memᴰ.head h) = elim (Bool-cases (le x y)) [
    | inl e ↦ rw (insert, e) (Memᴰ.tail (Memᴰ.head h))
    | inr e ↦ rw (insert, e) (Memᴰ.head h)
  ]
  insert-mem_old x z (y ∷ ys) (Memᴰ.tail m) = elim (Bool-cases (le x y)) [
    | inl e ↦ rw (insert, e) (Memᴰ.tail (Memᴰ.tail m))
    | inr e ↦ rw (insert, e) (Memᴰ.tail (insert-mem_old x z ys m))
  ]

  -- What stands in a list stands in it when it is sorted.
  pub sort-mem : (z : A) (xs : List A) → Memᴰ z xs → Memᴰ z (sort xs)
  unfolding sort
  sort-mem z [] m = elim m [ ]
  sort-mem z (x ∷ xs) (Memᴰ.head h) =
      subst (λ t. Memᴰ t (insert x (sort xs))) (sym h) (insert-mem_new x (sort xs))
  sort-mem z (x ∷ xs) (Memᴰ.tail m) = insert-mem_old x z (sort xs) (sort-mem z xs m)

  insert-All {κ} : (P : A → Type κ) (x : A) (xs : List A) → P x → All P xs → All P (insert x xs)
  unfolding insert
  insert-All P x [] h hs = (h, tt)
  insert-All P x (y ∷ ys) h (hy, hs) = elim (Bool-cases (le x y)) [
    | inl e ↦ rw (insert, e) (h, (hy, hs))
    | inr e ↦ rw (insert, e) (hy, insert-All P x ys h hs)
  ]

  -- What holds of all elements still does.
  pub sort-All {κ} : (P : A → Type κ) (xs : List A) → All P xs → All P (sort xs)
  unfolding sort
  sort-All P [] h = tt
  sort-All P (x ∷ xs) (h, hs) = insert-All P x (sort xs) h (sort-All P xs hs)

  length-insert : (x : A) (xs : List A) → length (insert x xs) ≡ suc (length xs)
  unfolding insert
  length-insert x [] = refl
  length-insert x (y ∷ ys) = elim (Bool-cases (le x y)) [
    | inl e ↦ rw (insert, e) refl
    | inr e ↦ rw (insert, e) (ap suc (length-insert x ys))
  ]

  pub length-sort : (xs : List A) → length (sort xs) ≡ length xs
  unfolding sort
  length-sort [] = refl
  length-sort (x ∷ xs) = length-insert x (sort xs) ∙ ap suc (length-sort xs)
