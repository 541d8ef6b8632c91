-- ===== src/Inference/Image.antt =====
-- worker/inference.py, `run`: decoding the JPEG, and the gates on its size. PIL is a parameter: a
-- record of the calls that are made, each of which may raise.
pub mod Laws
use locate_anything_setup.Prelude.{
  ℕ, ◌+◌, ◌-◌, ◌*◌, ◌/◌, Bool, true, false, not, ◌||◌, Option, none, some, List, [], ◌∷◌, map, ltb,
  leb, if◌then◌else◌,
}
use locate_anything_setup.Text.{Text, codes, is_empty, starts_with, strip}
use locate_anything_setup.Outcome.{
  Outcome, ok, raise, value_error, other_error, foreign, not_decoded, too_many_patches,
  grid_too_large,
}

abbrev pub Bytes : Type 0
Bytes = List ℕ

-- What PIL may raise, as far as the two handlers tell it apart.
pub data PilError : Type 0 where
  os_error syntax_error value_err unidentified bomb_error bomb_warning cms_error other : PilError

pub data Raised (A : Type 0) : Type 0 where
  returned : A → Raised A
  raised : PilError → Raised A

infixl 5 ◌>>=◌
abbrev pub ◌>>=◌ : {A B : Type 0} → Raised A → (A → Raised B) → Raised B
returned a >>= f = f a
raised e >>= f = raised e

pub record Pil (Img Profile : Type 0) : Type 0 where
  pub open_image : Bytes → Raised Img
  pub is_cmyk : Img → Bool
  pub exif_transpose : Img → Raised Img
  pub icc_profile : Img → Option Bytes
  pub load_profile : Bytes → Raised Profile
  pub description : Profile → Raised Text
  pub profile_to_srgb : Img → Profile → Raised Img
  pub convert_rgb : Img → Raised Img
  pub width : Img → ℕ
  pub height : Img → ℕ

-- `str.lower`, as far as `"srgb" in` can tell: no other letter is lowered to one of these.
unfoldable pub lower : ℕ → ℕ
lower c = if leb b'A' c then (if leb c b'Z' then c + 32 else c) else c

-- `part in text`
unfoldable pub contains : Text → Text → Bool
contains part [] = is_empty part
contains part (c ∷ t) = starts_with part (c ∷ t) || contains part t

-- `except (ValueError, OSError, PyCMSError)` of the ICC conversion, which raises a ValueError.
unfoldable pub icc_error : PilError → PilError
icc_error os_error = value_err
icc_error unidentified = value_err
icc_error value_err = value_err
icc_error cms_error = value_err
icc_error e = e

-- `_PIL_DECODE_EXCEPTIONS`
unfoldable pub is_decode_error : PilError → Bool
is_decode_error cms_error = false
is_decode_error other = false
is_decode_error _ = true

abbrev pub caught : {A : Type 0} → Raised A → Raised A
caught (returned a) = returned a
caught (raised e) = raised (icc_error e)

-- The end of the `try`: what the handler catches becomes a ValueError.
unfoldable pub decoded : {A : Type 0} → Raised A → Outcome A
unfolding is_decode_error
decoded (returned a) = ok a
decoded (raised e) =
    if is_decode_error e then raise (value_error not_decoded) else raise (other_error foreign)

module _ {Img Profile : Type 0} (pil : Pil Img Profile) where
  -- A profile that names sRGB needs no transform.
  abbrev pub profile_branch : Img → Profile → Bool → Raised Img
  profile_branch raw profile true = returned raw
  profile_branch raw profile false = pil.profile_to_srgb raw profile

  -- The conversion of an image that carries a profile, unless the profile is sRGB.
  unfoldable pub convert_profile : Img → Bytes → Raised Img
  unfolding contains lower strip
  convert_profile raw icc = do
    profile ← pil.load_profile icc
    described ← pil.description profile
    profile_branch raw profile (contains (codes "srgb") (map lower (strip described)))

  unfoldable pub to_srgb : Img → Raised Img
  unfolding convert_profile icc_error
  to_srgb raw = elim (pil.icc_profile raw) [
    | none ↦ returned raw
    | some icc ↦ if is_empty icc then returned raw else caught (convert_profile raw icc)
  ]

  -- The body of the `try`.
  unfoldable pub open_rgb : Bytes → Raised Img
  unfolding to_srgb
  open_rgb jpeg = do
    opened ← pil.open_image jpeg
    raw ← if pil.is_cmyk opened then raised value_err else returned opened
    upright ← pil.exif_transpose raw
    managed ← to_srgb upright
    pil.convert_rgb managed

  unfoldable pub decode_image : Bytes → Outcome Img
  unfolding open_rgb decoded
  decode_image jpeg = decoded (open_rgb jpeg)

-- `((d + GRID_PX - 1) // GRID_PX) * GRID_PX // PATCH_PX`
unfoldable pub grid_patches : ℕ → ℕ
grid_patches d = ((d + 28 - 1) / 28) * 28 / 14

-- The two gates on the size of the decoded image.
unfoldable pub size_gates : ℕ → ℕ → Outcome (Unit {0})
unfolding grid_patches
size_gates w h =
    if ltb 25600 ((w / 14) * (h / 14))
    then raise (value_error too_many_patches)
    else if leb 512 (grid_patches w) || leb 512 (grid_patches h)
    then raise (value_error grid_too_large)
    else ok tt
