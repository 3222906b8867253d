-- ===== src/Base/Sort.antt =====
-- `xs.sort(compare)`, which is stable: a sort by insertion over the test `compare(a, b) <= 0`.
use Prim.Native.Nat.{suc}
use mathlib.Core.Path.{◌≡◌, refl, ap, ◌∙◌}
use mathlib.Core.Logic.{◌↔◌, inl, inr}
use mathlib.Core.Bool.{Bool, true, false}
use mathlib.Core.List.{List, [], ◌∷◌, Memᴰ, Perm}
use mathlib.Core.List.Memᴰ.{cases_cons}
use mathlib.Core.List.Perm
use native.Mathlib.Omega.{arith}
use mooring_line_management.Base.Tests.{if◌then◌else◌, Bool-cases}
use mooring_line_management.Base.Lists.{length, All, All-imp}

module _ {ℓ} {A : Type ℓ} where
  -- `x` came before the elements of the list.
  abbrev pub insert_by : (A → A → Bool) → A → List A → List A
  insert_by le x [] = x ∷ []
  insert_by le x (y ∷ ys) = if le x y then x ∷ y ∷ ys else y ∷ insert_by le x ys

  abbrev pub sort_by : (A → A → Bool) → List A → List A
  sort_by le [] = []
  sort_by le (x ∷ xs) = insert_by le x (sort_by le xs)

  length-insert_by :
      (le : A → A → Bool) (x : A) (ys : List A) → length (insert_by le x ys) ≡ suc (length ys)
  length-insert_by le x [] = refl
  length-insert_by le x (y ∷ ys) = ground (arith, length-insert_by le x ys)

  pub length-sort_by : (le : A → A → Bool) (xs : List A) → length (sort_by le xs) ≡ length xs
  length-sort_by le [] = refl
  length-sort_by le (x ∷ xs) = length-insert_by le x (sort_by le xs) ∙ ap suc (length-sort_by le xs)

  mem_of_mem-insert_by :
      (le : A → A → Bool) (a x : A) (ys : List A) → Memᴰ a (insert_by le x ys) → Memᴰ a (x ∷ ys)
  mem_of_mem-insert_by le a x [] m = m
  mem_of_mem-insert_by le a x (y ∷ ys) m = elim (Bool-cases (le x y)) [
    | inl e ↦ rw e at m
    | inr e ↦ elim (cases_cons (rw e at m)) [
      | inl h ↦ Memᴰ.tail (Memᴰ.head h)
      | inr t ↦ elim (cases_cons (mem_of_mem-insert_by le a x ys t)) [
        | inl h ↦ Memᴰ.head h
        | inr u ↦ Memᴰ.tail (Memᴰ.tail u)
      ]
    ]
  ]

  mem-insert_by_of_mem :
      (le : A → A → Bool) (a x : A) (ys : List A) → Memᴰ a (x ∷ ys) → Memᴰ a (insert_by le x ys)
  mem-insert_by_of_mem le a x [] m = m
  mem-insert_by_of_mem le a x (y ∷ ys) m = elim (Bool-cases (le x y)) [
    | inl e ↦ rw e m
    | inr e ↦ elim (cases_cons m) [
      | inl h ↦ rw e (Memᴰ.tail (mem-insert_by_of_mem le a x ys (Memᴰ.head h)))
      | inr t ↦ elim (cases_cons t) [
        | inl h ↦ rw e (Memᴰ.head h)
        | inr u ↦ rw e (Memᴰ.tail (mem-insert_by_of_mem le a x ys (Memᴰ.tail u)))
      ]
    ]
  ]

  mem_of_mem-sort_by :
      (le : A → A → Bool) (a : A) (xs : List A) → Memᴰ a (sort_by le xs) → Memᴰ a xs
  mem_of_mem-sort_by le a [] m = m
  mem_of_mem-sort_by le a (x ∷ xs) m =
      elim (cases_cons (mem_of_mem-insert_by le a x (sort_by le xs) m)) [
        | inl h ↦ Memᴰ.head h
        | inr t ↦ Memᴰ.tail (mem_of_mem-sort_by le a xs t)
      ]

  mem-sort_by_of_mem :
      (le : A → A → Bool) (a : A) (xs : List A) → Memᴰ a xs → Memᴰ a (sort_by le xs)
  mem-sort_by_of_mem le a [] m = m
  mem-sort_by_of_mem le a (x ∷ xs) m = elim (cases_cons m) [
    | inl h ↦ mem-insert_by_of_mem le a x (sort_by le xs) (Memᴰ.head h)
    | inr t ↦ mem-insert_by_of_mem le a x (sort_by le xs) (Memᴰ.tail (mem-sort_by_of_mem le a xs t))
  ]

  pub mem-sort_by_iff :
      (le : A → A → Bool) (a : A) (xs : List A) → Memᴰ a (sort_by le xs) ↔ Memᴰ a xs
  mem-sort_by_iff le a xs = (mem_of_mem-sort_by le a xs, mem-sort_by_of_mem le a xs)

  -- Every element is at most each later one.
  abbrev pub Sorted : (A → A → Bool) → List A → Type ℓ
  Sorted le [] = Unit
  Sorted le (x ∷ xs) = All (λ y. le x y ≡ true) xs × Sorted le xs

  module _ (le : A → A → Bool) (total : (a b : A) → le a b ≡ false → le b a ≡ true)
      (trans : (a b c : A) → le a b ≡ true → le b c ≡ true → le a c ≡ true) where
    All-insert_by :
        (z x : A) (ys : List A)
        → le z x ≡ true
        → All (λ y. le z y ≡ true) ys
        → All (λ y. le z y ≡ true) (insert_by le x ys)
    All-insert_by z x [] h k = (h, tt)
    All-insert_by z x (y ∷ ys) h k =
        elim (le x y)
          as (λ b. All (λ w. le z w ≡ true) (if b then x ∷ y ∷ ys else y ∷ insert_by le x ys)) [
            | true ↦ (h, k)
            | false ↦ (k.0, All-insert_by z x ys h k.1)
          ]

    insert_by-Sorted : (x : A) (ys : List A) → Sorted le ys → Sorted le (insert_by le x ys)
    insert_by-Sorted x [] h = (tt, tt)
    insert_by-Sorted x (y ∷ ys) h = elim (Bool-cases (le x y)) [
      | inl e ↦ rw e ((e, All-imp _ _ ys (λ z k. trans x y z e k) h.0), h)
      | inr e ↦ rw e (All-insert_by y x ys (total x y e) h.0, insert_by-Sorted x ys h.1)
    ]

    pub sort_by-Sorted : (xs : List A) → Sorted le (sort_by le xs)
    sort_by-Sorted [] = tt
    sort_by-Sorted (x ∷ xs) = insert_by-Sorted x (sort_by le xs) (sort_by-Sorted xs)

module _ {ℓ} {A : Type ℓ} (le : A → A → Bool) where
  insert_by-perm : (x : A) (ys : List A) → Perm (insert_by le x ys) (x ∷ ys)
  insert_by-perm x [] = Perm.rfl
  insert_by-perm x (y ∷ ys) = elim (Bool-cases (le x y)) [
    | inl e ↦ rw e Perm.rfl
    | inr e ↦ rw e (Perm.trans (Perm.cons y (insert_by-perm x ys)) (Perm.swap _ _ _))
  ]

  -- A sorted list has the items of the list, each as often.
  pub sort_by-perm : (xs : List A) → Perm (sort_by le xs) xs
  sort_by-perm [] = Perm.rfl
  sort_by-perm (x ∷ xs) =
      Perm.trans (insert_by-perm x (sort_by le xs)) (Perm.cons x (sort_by-perm xs))

module _ {ℓ κ} {A : Type ℓ} (R : A → A → Type κ) where
  -- Each item is related to all that follow it.
  abbrev pub Ordered : List A → Type κ
  Ordered [] = Unit
  Ordered (x ∷ xs) = All (R x) xs × Ordered xs

  pub Ordered-Sorted :
      (le : A → A → Bool) (xs : List A)
      → ((a b : A) → le a b ≡ true → R a b)
      → Sorted le xs
      → Ordered xs
  Ordered-Sorted le [] f h = tt
  Ordered-Sorted le (x ∷ xs) f h = (All-imp _ _ xs (λ y k. f x y k) h.0, Ordered-Sorted le xs f h.1)
