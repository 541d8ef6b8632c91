-- ===== src/Prelude/Members.antt =====
-- Membership in lists, and properties that hold of all members.
use mathlib.Core.Path.{◌≡◌, refl, sym, subst}
use mathlib.Core.Logic.{◌⊎◌, inl, inr}
use mathlib.Core.Bool.{Bool, true, false}
use mathlib.Core.List.{List, [], ◌∷◌, ◌++◌, Memᴰ}
use locate_anything_setup.Prelude.Lists.{All, any}
use locate_anything_setup.Prelude.Tests.{Bool-cases}

module _ {A : Type 0} where
  pub All-map : {P Q : A → Type 0} (xs : List A) → ((x : A) → P x → Q x) → All P xs → All Q xs
  All-map [] f h = tt
  All-map (x ∷ xs) f (h, hs) = (f x h, All-map xs f hs)

  pub All-Memᴰ : (P : A → Type 0) (a : A) (xs : List A) → All P xs → Memᴰ a xs → P a
  All-Memᴰ P a [] h m = elim m [ ]
  All-Memᴰ P a (x ∷ xs) (h, hs) (Memᴰ.head e) = subst P (sym e) h
  All-Memᴰ P a (x ∷ xs) (h, hs) (Memᴰ.tail m) = All-Memᴰ P a xs hs m

  pub All-self : (xs : List A) → All (λ a. Memᴰ a xs) xs
  All-self [] = tt
  All-self (x ∷ xs) = (Memᴰ.head refl, All-map xs (λ a m. Memᴰ.tail m) (All-self xs))

  pub All-init : (P : A → Type 0) (xs ys : List A) → All P (xs ++ ys) → All P xs
  All-init P [] ys h = tt
  All-init P (x ∷ xs) ys (h, hs) = (h, All-init P xs ys hs)

  -- A test that fails of every element, or holds of one.
  pub any-cases :
      (p : A → Bool) (xs : List A)
      → ((any p xs ≡ true) × ((a : A) × Memᴰ a xs × (p a ≡ true)))
        ⊎ ((any p xs ≡ false) × All (λ a. p a ≡ false) xs)
  any-cases p [] = inr (refl, tt)
  any-cases p (x ∷ xs) = elim (Bool-cases (p x)) [
    | inl e ↦ inl (rw e refl, (x, Memᴰ.head refl, e))
    | inr e ↦ elim (any-cases p xs) [
      | inl (h, (a, m, q)) ↦ inl (rw e h, (a, Memᴰ.tail m, q))
      | inr (h, k) ↦ inr (rw e h, (e, k))
    ]
  ]

  pub Memᴰ-append-left : (a : A) (xs ys : List A) → Memᴰ a xs → Memᴰ a (xs ++ ys)
  Memᴰ-append-left a [] ys m = elim m [ ]
  Memᴰ-append-left a (x ∷ xs) ys (Memᴰ.head e) = Memᴰ.head e
  Memᴰ-append-left a (x ∷ xs) ys (Memᴰ.tail m) = Memᴰ.tail (Memᴰ-append-left a xs ys m)

  pub Memᴰ-append-right : (a : A) (xs ys : List A) → Memᴰ a ys → Memᴰ a (xs ++ ys)
  Memᴰ-append-right a [] ys m = m
  Memᴰ-append-right a (x ∷ xs) ys m = Memᴰ.tail (Memᴰ-append-right a xs ys m)
