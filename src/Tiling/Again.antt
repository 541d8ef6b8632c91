-- ===== src/Tiling/Again.antt =====
-- Non-maximum suppression of what it has left.
use mathlib.Core.List.{Memᴰ}
use locate_anything_setup.Prelude.{
  ◌≡◌, refl, sym, ap, subst, ◌∙◌, Bool, true, false, List, [], ◌∷◌, ◌++◌, append_assoc, All,
  All-append, inl, inr, append-nil,
}
use locate_anything_setup.Prelude.Members.{All-map, All-Memᴰ, Memᴰ-append-right}
use locate_anything_setup.Float.{Float, IsOrder, ◌≼◌}
use locate_anything_setup.Tiling.{Box, area, sorted, is_dup, suppress, nms}
use locate_anything_setup.Tiling.Sorting.{Descends, insert-front, sorted-Descends}
use locate_anything_setup.Tiling.Suppress.{Apart, suppress-cons, suppress-Apart, Kept, nms-Kept}

module _ {F : Type 0} ⦃fl : Float F⦄ where
  sorted-again : (ks : List (Box F)) → Descends ks → sorted ks ≡ ks
  unfolding sorted
  sorted-again [] d = refl
  sorted-again (k ∷ []) d = unfold locate_anything_setup.Tiling.insert in refl
  sorted-again (k ∷ l ∷ ls) (h, d) = rw (sorted-again (l ∷ ls) d) (insert-front k l ls h.0)

  Descends-snoc :
      (b : Box F) (ks : List (Box F))
      → All (λ k. area b ≼ area k) ks
      → Descends ks
      → Descends (ks ++ b ∷ [])
  Descends-snoc b [] h d = (tt, tt)
  Descends-snoc b (k ∷ ks) (h, hs) (d, ds) =
      (All-append (λ c. area c ≼ area k) ks (b ∷ []) d (h, tt), Descends-snoc b ks hs ds)

  module _ (aware : Bool) (thr : F) where
    suppress-Descends :
        (keep bs : List (Box F))
        → All (λ k. All (λ b. area b ≼ area k) bs) keep
        → Descends keep
        → Descends bs
        → Descends (suppress aware thr keep bs)
    suppress-Descends keep [] h k d = unfold suppress in k
    suppress-Descends keep (b ∷ bs) h k (hb, d) =
        let later = All-map keep (λ c w. w.1) h in
        elim (suppress-cons aware thr keep b bs) [
          | inl (e, w) ↦ subst Descends (sym e) (suppress-Descends keep bs later k d)
          | inr (e, w) ↦ subst Descends (sym e) (
              suppress-Descends (keep ++ b ∷ []) bs (All-append _ keep (b ∷ []) later (hb, tt))
                (Descends-snoc b keep (All-map keep (λ c w. w.0) h) k) d)
        ]

    Apart-middle :
        (keep : List (Box F)) (b : Box F) (bs : List (Box F))
        → Apart aware thr (keep ++ b ∷ bs)
        → All (λ k. is_dup aware thr b k ≡ false) keep
    Apart-middle [] b bs a = tt
    Apart-middle (k ∷ keep) b bs (a, as_) = (
      All-Memᴰ _ b (keep ++ b ∷ bs) a (Memᴰ-append-right b keep (b ∷ bs) (Memᴰ.head refl)),
      Apart-middle keep b bs as_,
    )

    suppress-again :
        (keep bs : List (Box F))
        → Apart aware thr (keep ++ bs)
        → suppress aware thr keep bs ≡ keep ++ bs
    suppress-again keep [] a = unfold suppress in sym (append-nil keep)
    suppress-again keep (b ∷ bs) a = elim (suppress-cons aware thr keep b bs) [
      | inl (e, (k, m, q)) ↦
          let other : is_dup aware thr b k ≡ false =
            All-Memᴰ (λ c. is_dup aware thr b c ≡ false) k keep (Apart-middle keep b bs a) m in
          (let no_way : true ≡ false = sym q ∙ other in cc)
      | inr (e, w) ↦
          let shift : (keep ++ b ∷ []) ++ bs ≡ keep ++ b ∷ bs = append_assoc keep (b ∷ []) bs in
          e ∙ suppress-again (keep ++ b ∷ []) bs (subst (Apart aware thr) (sym shift) a) ∙ shift
    ]

  nms-again :
      (order : IsOrder F) (boxes : List (Box F)) (thr : F) (aware : Bool)
      → nms (nms boxes thr aware) thr aware ≡ nms boxes thr aware
  unfolding nms
  nms-again order boxes thr aware =
      let left = suppress aware thr [] (sorted boxes) in
      let d : Descends left =
        suppress-Descends aware thr [] (sorted boxes) tt tt (sorted-Descends order boxes) in
      ap (suppress aware thr []) (sorted-again left d)
      ∙ suppress-again aware thr [] left (suppress-Apart aware thr [] (sorted boxes) tt)

  -- Where areas are ordered totally: of the boxes that `nms` returns none is a duplicate of one in
  -- front of it, each is one of the boxes given, and each box given is returned or is a duplicate
  -- of a box that is returned and is not smaller, and `nms` of what it returns leaves it as it is.
  pub nms-Kept_again :
      (order : IsOrder F) (boxes : List (Box F)) (thr : F) (aware : Bool)
      → Apart aware thr (nms boxes thr aware)
        × All (λ k. Memᴰ k boxes) (nms boxes thr aware)
        × All (Kept aware thr (nms boxes thr aware)) boxes
        × (nms (nms boxes thr aware) thr aware ≡ nms boxes thr aware)
  nms-Kept_again order boxes thr aware =
      let (apart, given, kept) = nms-Kept order boxes thr aware in
      (apart, given, kept, nms-again order boxes thr aware)
