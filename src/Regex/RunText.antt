-- ===== src/Regex/RunText.antt =====
-- The text of a labelled run: a label without tags, and blocks that a scan for boxes walks through.
use locate_anything_setup.Prelude.{
  ℕ, zero, suc, ◌-◌, ◌≡◌, refl, sym, ap, subst, ◌∙◌, some, [], ◌∷◌, ◌++◌, append_assoc, arith,
  Option-cases, inl, inr, true, false, Bool-cases, ◌==◌, ==_iff, length, length-append, take,
}
use locate_anything_setup.Prelude.Options.{>>=-eq-some}
use locate_anything_setup.Text.{Text, after, codes, is_space, lstrip}
use locate_anything_setup.Text.Strip.{after-eq-some}
use locate_anything_setup.Regex.{
  Run, box_open, ref_open, ref_close, after_close, span, block, blocks, label_span, ref_run_re,
}
use locate_anything_setup.Regex.Untagged.{
  Untagged, untagged_nil, Untagged-append, Untagged-other, Untagged-second, after_close-Untagged,
}
use locate_anything_setup.Regex.Walk.{Walk, walk_end, Walk-append, Walk-Untagged, after_close-Walk}

-- The text that is taken off the front.
abbrev pub Takes : Text → Text → Type 0
Takes t r = (u : Text) × (t ≡ u ++ r) × Walk u

Untagged-box_open : Untagged b'/' box_open
Untagged-box_open = Untagged-second b'/' b'b' _ refl (
    Untagged-other b'/' b'b' _ refl (
      Untagged-other b'/' b'o' _ refl
        (Untagged-other b'/' b'x' _ refl (Untagged-other b'/' b'>' _ refl untagged_nil))))

span-Walk : (t r : Text) → span t ≡ some r → Takes t r
unfolding span
span-Walk t r e =
    let (s, e1, e2) = >>=-eq-some (after box_open t) after_close r e in
    let closes : after_close t ≡ some r =
      ap after_close (after-eq-some box_open t s e1)
      ∙ after_close-Untagged box_open s Untagged-box_open
      ∙ e2 in
    let (u, su, long, ends, w) = after_close-Walk t r closes in (u, su, w)

tag_no_space : is_space b'<' ≡ false
unfolding is_space
tag_no_space = refl

space_no_tag : (c : ℕ) → is_space c ≡ true → (b'<' == c) ≡ false
space_no_tag c h = elim (Bool-cases (b'<' == c)) [
  | inl e ↦
      let same : b'<' ≡ c = (==_iff b'<' c).0 e in
      (let no : false ≡ true = sym tag_no_space ∙ subst (λ x. is_space x ≡ true) (sym same) h in cc)
  | inr e ↦ e
]

block-Walk : (t r : Text) → block t ≡ some r → Takes t r
unfolding block lstrip
block-Walk [] r e = span-Walk [] r e
block-Walk (c ∷ t) r e = elim (Bool-cases (is_space c)) [
  | inl h ↦
      let q : block t ≡ some r = rw (h, lstrip) at e in
      let (u, su, w) = block-Walk t r q in
      (
        c ∷ u,
        ap (◌∷◌ c) su,
        Walk-append (c ∷ []) u
            (Walk-Untagged (c ∷ []) (Untagged-other b'b' c [] (space_no_tag c h) untagged_nil)) w,
      )
  | inr h ↦ span-Walk (c ∷ t) r (rw (h, lstrip) at e)
]

Takes-trans : (t s r : Text) → Takes t s → Takes s r → Takes t r
Takes-trans t s r (u, su, w) (v, sv, k) =
    (u ++ v, su ∙ ap (◌++◌ u) sv ∙ sym (append_assoc u v r), Walk-append u v w k)

blocks-Walk : (fuel : ℕ) (t : Text) → Takes t (blocks fuel t)
unfolding blocks
blocks-Walk zero t = ([], refl, walk_end)
blocks-Walk (suc fuel) t = elim (Option-cases (block t)) [
  | inl e ↦ rw (e, blocks) ([], refl, walk_end)
  | inr (s, e) ↦
      rw (e, blocks) (Takes-trans t s (blocks fuel s) (block-Walk t s e) (blocks-Walk fuel s))
]

-- A label holds no `<`, and what it leaves stands behind it.
label_span-Untagged :
    (t : Text) → (t ≡ (label_span t).0 ++ (label_span t).1) × Untagged b'b' (label_span t).0
unfolding label_span
label_span-Untagged [] = (refl, untagged_nil)
label_span-Untagged (c ∷ t) = elim (Bool-cases (c == b'<')) [
  | inl h ↦ rw (h, label_span) (refl, untagged_nil)
  | inr h ↦
      let (s, u) = label_span-Untagged t in
      rw (h, label_span) (ap (◌∷◌ c) s, Untagged-other b'b' c _ (ground arith) u)
]

take_front : (u r : Text) → take (length u) (u ++ r) ≡ u
take_front [] r = refl
take_front (c ∷ u) r = ap (◌∷◌ c) (take_front u r)

take-append : (u r : Text) → take (length (u ++ r) - length r) (u ++ r) ≡ u
take-append u r =
    let n : length (u ++ r) - length r ≡ length u = omega (arith, length-append u r) in
    ap (λ k. take k (u ++ r)) n ∙ take_front u r

some-injective : {A : Type 0} (a b : A) → some a ≡ some b → a ≡ b
some-injective a b e = cc

Untagged-ref :
    (label : Text) → Untagged b'b' label → Untagged b'b' (ref_open ++ (label ++ ref_close))
Untagged-ref label u = Untagged-second b'b' b'r' _ refl (
    Untagged-other b'b' b'r' _ refl (
      Untagged-other b'b' b'e' _ refl (
        Untagged-other b'b' b'f' _ refl (
          Untagged-other b'b' b'>' _ refl (
            Untagged-append b'b' label ref_close u (
              Untagged-second b'b' b'/' _ refl (
                Untagged-other b'b' b'/' _ refl (
                  Untagged-other b'b' b'r' _ refl (
                    Untagged-other b'b' b'e' _ refl (
                      Untagged-other b'b' b'f' _ refl
                        (Untagged-other b'b' b'>' _ refl untagged_nil)))))))))))

-- A run is a prefix in which no box opens, and its blocks, which are the group `boxes`.
pub ref_run_re-Walk :
    (t rest : Text) (run : Run)
    → ref_run_re t ≡ some (run, rest)
    → (c : ℕ) × (pre : Text) × (t ≡ c ∷ (pre ++ (run.boxes ++ rest)))
      × Untagged b'b' (c ∷ pre)
      × Walk run.boxes
unfolding ref_run_re
ref_run_re-Walk t rest run e =
    let (t0, e0, h0) = >>=-eq-some (after ref_open t) _ (run, rest) e in
    let (t1, e1, h1) = >>=-eq-some (after ref_close (label_span t0).1) _ (run, rest) h0 in
    let (t2, e2, h2) = >>=-eq-some (block t1) _ (run, rest) h1 in
    let (u, su, w) =
      Takes-trans t1 t2 (blocks (length t2) t2) (block-Walk t1 t2 e2)
        (blocks-Walk (length t2) t2) in
    let (sl, ul) = label_span-Untagged t0 in
    let label = (label_span t0).0 in
    let behind = blocks (length t2) t2 in
    let pair = some-injective _ (run, rest) h2 in
    let end : behind ≡ rest = ap (λ (q : Run × Text). q.1) pair in
    let group : u ≡ run.boxes =
      sym (take-append u behind)
      ∙ ap (λ (x : Text). take (length x - length behind) x) (sym su)
      ∙ ap (λ (q : Run × Text). q.0.boxes) pair in
    let tail : t1 ≡ run.boxes ++ rest =
      su ∙ ap (λ (x : Text). x ++ behind) group ∙ ap (◌++◌ run.boxes) end in
    let close : (label_span t0).1 ≡ ref_close ++ (run.boxes ++ rest) =
      after-eq-some ref_close (label_span t0).1 t1 e1 ∙ ap (◌++◌ ref_close) tail in
    let inner : t0 ≡ (label ++ ref_close) ++ (run.boxes ++ rest) =
      sl ∙ ap (◌++◌ label) close ∙ sym (append_assoc label ref_close (run.boxes ++ rest)) in
    (
      b'<',
      codes "ref>" ++ (label ++ ref_close),
      after-eq-some ref_open t t0 e0 ∙ ap (◌++◌ ref_open) inner,
      Untagged-ref label ul,
      subst Walk group w,
    )
