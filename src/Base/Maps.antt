-- ===== src/Base/Maps.antt =====
-- A function over a list before or after filter, find and a write to the found item.
use Prim.Native.Nat.{ℕ, zero, suc}
use mathlib.Core.Path.{◌≡◌, refl, ap, ◌∙◌}
use mathlib.Core.Logic.{◌≢◌, inl, inr}
use mathlib.Core.Bool.{Bool, true, false}
use mathlib.Core.Option.{Option, none, some}
use mathlib.Core.List.{List, [], ◌∷◌, ◌++◌, map}
use mooring_line_management.Base.Tests.{if◌then◌else◌, if_false, Bool-cases, is_some}
use mooring_line_management.Base.Lists.{filter, find, update_first, get_elem?}

abbrev pub option_map {ℓ κ} : {A : Type ℓ} {B : Type κ} → (A → B) → Option A → Option B
option_map f none = none
option_map f (some a) = some (f a)

module _ {A B : Type 0} (f : A → B) where
  pub map-append : (xs ys : List A) → map f (xs ++ ys) ≡ map f xs ++ map f ys
  map-append [] ys = refl
  map-append (x ∷ xs) ys = ap (λ l. f x ∷ l) (map-append xs ys)

  -- The tests agree on an item and its image.
  pub map-filter :
      (p : A → Bool) (q : B → Bool) (xs : List A)
      → ((x : A) → q (f x) ≡ p x)
      → map f (filter p xs) ≡ filter q (map f xs)
  map-filter p q [] h = refl
  map-filter p q (x ∷ xs) h =
      rw (h x, ← (map-filter p q xs h))
        (elim (p x)
          as (λ b.
            map f (if b then x ∷ filter p xs else filter p xs)
            ≡ (if b then f x ∷ map f (filter p xs) else map f (filter p xs))) [
              | true ↦ refl
              | false ↦ refl
            ])

  pub map-update_first :
      (p : A → Bool) (q : B → Bool) (g : A → A) (k : B → B) (xs : List A)
      → ((x : A) → q (f x) ≡ p x)
      → ((x : A) → f (g x) ≡ k (f x))
      → map f (update_first p g xs) ≡ update_first q k (map f xs)
  map-update_first p q g k [] h e = refl
  map-update_first p q g k (x ∷ xs) h e =
      rw (h x, ← (map-update_first p q g k xs h e), ← (e x))
        (elim (p x)
          as (λ b.
            map f (if b then g x ∷ xs else x ∷ update_first p g xs)
            ≡ (if b then f (g x) ∷ map f xs else f x ∷ map f (update_first p g xs))) [
              | true ↦ refl
              | false ↦ refl
            ])

  pub find-map :
      (p : A → Bool) (q : B → Bool) (xs : List A)
      → ((x : A) → q (f x) ≡ p x)
      → find q (map f xs) ≡ option_map f (find p xs)
  find-map p q [] h = refl
  find-map p q (x ∷ xs) h =
      rw (h x, find-map p q xs h)
        (elim (p x)
          as (λ b.
            (if b then some (f x) else option_map f (find p xs))
            ≡ option_map f (if b then some x else find p xs)) [ true ↦ refl | false ↦ refl ])

module _ {A : Type 0} where
  -- Nothing is written where nothing is found.
  pub update_first_none :
      (p : A → Bool) (g : A → A) (xs : List A)
      → is_some (find p xs) ≡ false
      → update_first p g xs ≡ xs
  update_first_none p g [] h = refl
  update_first_none p g (x ∷ xs) h = elim (Bool-cases (p x)) [
    | inl e ↦ absurd (true-ne-false (rw e at h))
    | inr e ↦ if_false _ _ e ∙ ap (λ l. x ∷ l) (update_first_none p g xs (rw e at h))
  ]
    where
      true-ne-false : true ≢ false
      true-ne-false q = cc

module _ {A B : Type 0} (f : A → B) where
  pub get_elem?-map : (xs : List A) (i : ℕ) → get_elem? (map f xs) i ≡ option_map f (get_elem? xs i)
  get_elem?-map [] i = refl
  get_elem?-map (x ∷ xs) zero = refl
  get_elem?-map (x ∷ xs) (suc i) = get_elem?-map xs i
