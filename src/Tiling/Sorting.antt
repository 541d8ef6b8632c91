-- ===== src/Tiling/Sorting.antt =====
-- The sort by area: a permutation as far as members go, in descending order.
use locate_anything_setup.Prelude.{
  ◌≡◌, refl, false, List, [], ◌∷◌, All, inl, inr, Bool-cases, sym, subst,
}
use locate_anything_setup.Prelude.Members.{All-map}
use locate_anything_setup.Float.{Float, IsOrder, ◌≼◌}
use locate_anything_setup.Tiling.{Box, area, insert, sorted}

module _ {F : Type 0} ⦃fl : Float F⦄ where
  pub insert-front :
      (b k : Box F) (ks : List (Box F)) → area k ≼ area b → insert b (k ∷ ks) ≡ b ∷ (k ∷ ks)
  unfolding insert
  insert-front b k ks h = rw (h, insert) refl

  pub insert-behind :
      (b k : Box F) (ks : List (Box F))
      → fl.le (area k) (area b) ≡ false
      → insert b (k ∷ ks) ≡ k ∷ insert b ks
  unfolding insert
  insert-behind b k ks h = rw (h, insert) refl

  pub insert-All :
      (P : Box F → Type 0) (b : Box F) (ks : List (Box F)) → P b → All P ks → All P (insert b ks)
  unfolding insert
  insert-All P b [] h hs = (h, tt)
  insert-All P b (k ∷ ks) h (p, ps) = elim (Bool-cases (fl.le (area k) (area b))) [
    | inl e ↦ subst (All P) (sym (insert-front b k ks e)) (h, (p, ps))
    | inr e ↦ subst (All P) (sym (insert-behind b k ks e)) (p, insert-All P b ks h ps)
  ]

  pub All-insert :
      (P : Box F → Type 0) (b : Box F) (ks : List (Box F)) → All P (insert b ks) → P b × All P ks
  unfolding insert
  All-insert P b [] (h, hs) = (h, tt)
  All-insert P b (k ∷ ks) h = elim (Bool-cases (fl.le (area k) (area b))) [
    | inl e ↦ subst (All P) (insert-front b k ks e) h
    | inr e ↦
        let (p, ps) = subst (All P) (insert-behind b k ks e) h in
        let (x, y) = All-insert P b ks ps in (x, (p, y))
  ]

  pub sorted-All : (P : Box F → Type 0) (bs : List (Box F)) → All P bs → All P (sorted bs)
  unfolding sorted
  sorted-All P [] h = tt
  sorted-All P (b ∷ bs) (h, hs) = insert-All P b (sorted bs) h (sorted-All P bs hs)

  pub All-sorted : (P : Box F → Type 0) (bs : List (Box F)) → All P (sorted bs) → All P bs
  unfolding sorted
  All-sorted P [] h = tt
  All-sorted P (b ∷ bs) h = let (x, y) = All-insert P b (sorted bs) h in (x, All-sorted P bs y)

  pub order-other : IsOrder F → (b k : Box F) → fl.le (area k) (area b) ≡ false → area b ≼ area k
  order-other order b k e = elim (order.le_total (area k) (area b)) [ inl h ↦ cc | inr h ↦ h ]

  -- No box is larger than one in front of it.
  abbrev pub Descends : List (Box F) → Type 0
  Descends [] = Unit
  Descends (k ∷ ks) = All (λ b. area b ≼ area k) ks × Descends ks

  module _ (order : IsOrder F) where
    pub insert-Descends : (b : Box F) (ks : List (Box F)) → Descends ks → Descends (insert b ks)
    unfolding insert
    insert-Descends b [] h = (tt, tt)
    insert-Descends b (k ∷ ks) (h, hs) = elim (Bool-cases (fl.le (area k) (area b))) [
      | inl e ↦
          subst Descends (sym (insert-front b k ks e))
            ((e, All-map ks (λ c m. order.le_trans (area c) (area k) (area b) m e) h), (h, hs))
      | inr e ↦ subst Descends (sym (insert-behind b k ks e)) (
        insert-All (λ c. area c ≼ area k) b ks (order-other order b k e) h,
        insert-Descends b ks hs,
      )
    ]

    pub sorted-Descends : (bs : List (Box F)) → Descends (sorted bs)
    unfolding sorted
    sorted-Descends [] = tt
    sorted-Descends (b ∷ bs) = insert-Descends b (sorted bs) (sorted-Descends bs)
