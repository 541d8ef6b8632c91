-- ===== src/Tiling/Suppress.antt =====
-- Non-maximum suppression: what is kept, and why the rest is not.
use locate_anything_setup.Prelude.{
  ◌≡◌, refl, Bool, true, false, List, [], ◌∷◌, ◌++◌, All, ◌⊎◌, inl, inr, sym, subst, All-append,
}
use mathlib.Core.List.{Memᴰ}
use locate_anything_setup.Float.{Float, IsOrder, ◌≼◌}
use locate_anything_setup.Tiling.{Box, area, sorted, is_dup, suppress, nms}
use locate_anything_setup.Prelude.Members.{
  All-map, All-Memᴰ, All-self, any-cases, All-init, Memᴰ-append-right,
}
use locate_anything_setup.Tiling.Sorting.{Descends, sorted-All, All-sorted, sorted-Descends}

module _ {F : Type 0} ⦃fl : Float F⦄ where
  -- No box is a duplicate of one in front of it.
  abbrev pub Apart : Bool → F → List (Box F) → Type 0
  Apart aware thr [] = Unit
  Apart aware thr (k ∷ ks) = All (λ b. is_dup aware thr b k ≡ false) ks × Apart aware thr ks

  -- A box is kept, or is a duplicate of a box that is kept and is not smaller.
  abbrev pub Kept : Bool → F → List (Box F) → Box F → Type 0
  Kept aware thr keep b =
      Memᴰ b keep ⊎ ((k : Box F) × Memᴰ k keep × (is_dup aware thr b k ≡ true) × (area b ≼ area k))

  module _ (aware : Bool) (thr : F) where
    Apart-snoc :
        (b : Box F) (ks : List (Box F))
        → All (λ k. is_dup aware thr b k ≡ false) ks
        → Apart aware thr ks
        → Apart aware thr (ks ++ b ∷ [])
    Apart-snoc b [] h a = (tt, tt)
    Apart-snoc b (k ∷ ks) (h, hs) (a, as_) = (
      All-append (λ c. is_dup aware thr c k ≡ false) ks (b ∷ []) a (h, tt),
      Apart-snoc b ks hs as_,
    )

    -- One turn of the outer loop: the box is dropped for one that is kept, or is put behind.
    pub suppress-cons :
        (keep : List (Box F)) (b : Box F) (bs : List (Box F))
        → ((suppress aware thr keep (b ∷ bs) ≡ suppress aware thr keep bs)
            × ((k : Box F) × Memᴰ k keep × (is_dup aware thr b k ≡ true)))
          ⊎ ((suppress aware thr keep (b ∷ bs) ≡ suppress aware thr (keep ++ b ∷ []) bs)
              × All (λ k. is_dup aware thr b k ≡ false) keep)
    unfolding suppress
    suppress-cons keep b bs = elim (any-cases (is_dup aware thr b) keep) [
      | inl (h, w) ↦ inl (rw (h, suppress) refl, w)
      | inr (h, w) ↦ inr (rw (h, suppress) refl, w)
    ]

    pub suppress-Apart :
        (keep bs : List (Box F))
        → Apart aware thr keep
        → Apart aware thr (suppress aware thr keep bs)
    suppress-Apart keep [] a = unfold suppress in a
    suppress-Apart keep (b ∷ bs) a = elim (suppress-cons keep b bs) [
      | inl (e, w) ↦ subst (Apart aware thr) (sym e) (suppress-Apart keep bs a)
      | inr (e, w) ↦
          subst (Apart aware thr) (sym e)
            (suppress-Apart (keep ++ b ∷ []) bs (Apart-snoc b keep w a))
    ]

    suppress-All :
        (P : Box F → Type 0) (keep bs : List (Box F))
        → All P keep
        → All P bs
        → All P (suppress aware thr keep bs)
    suppress-All P keep [] h k = unfold suppress in h
    suppress-All P keep (b ∷ bs) h (k, ks) = elim (suppress-cons keep b bs) [
      | inl (e, w) ↦ subst (All P) (sym e) (suppress-All P keep bs h ks)
      | inr (e, w) ↦
          subst (All P) (sym e)
            (suppress-All P (keep ++ b ∷ []) bs (All-append P keep (b ∷ []) h (k, tt)) ks)
    ]

    -- What is kept stays.
    All-suppress :
        (P : Box F → Type 0) (keep bs : List (Box F))
        → All P (suppress aware thr keep bs)
        → All P keep
    unfolding suppress
    All-suppress P keep [] h = h
    All-suppress P keep (b ∷ bs) h = elim (suppress-cons keep b bs) [
      | inl (e, w) ↦ All-suppress P keep bs (subst (All P) e h)
      | inr (e, w) ↦
          All-init P keep (b ∷ []) (All-suppress P (keep ++ b ∷ []) bs (subst (All P) e h))
    ]

    stays : (keep bs : List (Box F)) (k : Box F) → Memᴰ k keep → Memᴰ k (suppress aware thr keep bs)
    stays keep bs k m =
        All-Memᴰ (λ c. Memᴰ c (suppress aware thr keep bs)) k keep
          (All-suppress _ keep bs (All-self (suppress aware thr keep bs))) m

    suppress-Kept :
        (keep bs : List (Box F))
        → All (λ k. All (λ b. area b ≼ area k) bs) keep
        → Descends bs
        → All (Kept aware thr (suppress aware thr keep bs)) bs
    suppress-Kept keep [] h d = tt
    suppress-Kept keep (b ∷ bs) h (hb, d) = elim (suppress-cons keep b bs) [
      | inl (e, (k, m, q)) ↦
          subst (λ r. All (Kept aware thr r) (b ∷ bs)) (sym e)
            (
              inr (k, stays keep bs k m, q, (All-Memᴰ _ k keep h m).0),
              suppress-Kept keep bs (All-map keep (λ c w. w.1) h) d,
            )
      | inr (e, w) ↦
          subst (λ r. All (Kept aware thr r) (b ∷ bs)) (sym e)
            (
              inl (stays (keep ++ b ∷ []) bs b (Memᴰ-append-right b keep _ (Memᴰ.head refl))),
              suppress-Kept (keep ++ b ∷ []) bs
                  (All-append _ keep (b ∷ []) (All-map keep (λ c w. w.1) h) (hb, tt)) d,
            )
    ]

  -- What one suppression keeps.
  pub nms-Kept :
      (order : IsOrder F) (boxes : List (Box F)) (thr : F) (aware : Bool)
      → Apart aware thr (nms boxes thr aware)
        × All (λ k. Memᴰ k boxes) (nms boxes thr aware)
        × All (Kept aware thr (nms boxes thr aware)) boxes
  unfolding nms
  nms-Kept order boxes thr aware = (
    suppress-Apart aware thr [] (sorted boxes) tt,
    suppress-All aware thr (λ k. Memᴰ k boxes) [] (sorted boxes) tt
        (sorted-All _ boxes (All-self boxes)),
    All-sorted _ boxes (suppress-Kept aware thr [] (sorted boxes) tt (sorted-Descends order boxes)),
  )
