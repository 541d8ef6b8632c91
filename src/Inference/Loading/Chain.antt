-- ===== src/Inference/Loading/Chain.antt =====
-- worker/inference.py: the steps of a load that is done.
use mathlib.Core.List.{Memᴰ}
use locate_anything_setup.Prelude.{
  not, ◌≡◌, refl, ap, ◌∙◌, Bool, true, false, ◌&&◌, Option, none, some, List, [], ◌∷◌, All,
}
use locate_anything_setup.Text.{is_empty}
use locate_anything_setup.Outcome.{Outcome, ok, raise}
use locate_anything_setup.Startup.{Validation, passed}
use locate_anything_setup.Startup.Checks.{and_true}
use locate_anything_setup.Inference.Loading.{
  Refusal, Load, done, refused, exited, raised, ◌>>=◌, ◌>>◌, check, from_option, from_outcome,
  from_validation, for_each, all,
}

pub >>=-done :
    {A B : Type 0} (m : Load A) (f : A → Load B) (b : B)
    → (m >>= f) ≡ done b
    → (a : A) × (m ≡ done a) × (f a ≡ done b)
>>=-done (done a) f b h = (a, refl, h)
>>=-done (refused r) f b h = cc
>>=-done (exited v) f b h = cc
>>=-done (raised e) f b h = cc

pub check-done :
    {B : Type 0} (c : Bool) (r : Refusal) (k : Load B) (b : B)
    → (check c r >> k) ≡ done b
    → (c ≡ true) × (k ≡ done b)
check-done true r k b h = (refl, h)
check-done false r k b h = cc

pub from_option-done :
    {A B : Type 0} (o : Option A) (r : Refusal) (f : A → Load B) (b : B)
    → (from_option o r >>= f) ≡ done b
    → (a : A) × (o ≡ some a) × (f a ≡ done b)
from_option-done (some a) r f b h = (a, refl, h)
from_option-done none r f b h = cc

pub from_outcome-done :
    {A B : Type 0} (m : Outcome A) (f : A → Load B) (b : B)
    → (from_outcome m >>= f) ≡ done b
    → (a : A) × (m ≡ ok a) × (f a ≡ done b)
from_outcome-done (ok a) f b h = (a, refl, h)
from_outcome-done (raise e) f b h = cc

pub for_each-done :
    {A : Type 0} (f : A → Load (Unit {0})) (xs : List A)
    → for_each f xs ≡ done tt
    → All (λ x. f x ≡ done tt) xs
for_each-done f [] h = tt
for_each-done f (x ∷ xs) h =
    let (u, e, rest) = >>=-done (f x) (λ _. for_each f xs) tt h in (e, for_each-done f xs rest)

pub all-All : {A : Type 0} (p : A → Bool) (xs : List A) → all p xs ≡ true → All (λ x. p x ≡ true) xs
all-All p [] h = tt
all-All p (x ∷ xs) h = let (e, es) = and_true (p x) (all p xs) h in (e, all-All p xs es)

pub check-true : (c : Bool) (r : Refusal) → check c r ≡ done tt → c ≡ true
check-true true r h = refl
check-true false r h = cc

pub from_validation-done :
    {B : Type 0} (v : Validation) (k : Load B) (b : B)
    → (from_validation v >> k) ≡ done b
    → (v ≡ passed) × (k ≡ done b)
from_validation-done passed k b h = (refl, h)
from_validation-done v k b h = cc

pub for_each-All :
    {A : Type 0} (f : A → Load (Unit {0})) (xs : List A)
    → All (λ x. f x ≡ done tt) xs
    → for_each f xs ≡ done tt
for_each-All f [] h = refl
for_each-All f (x ∷ xs) (e, es) = ap (λ m. m >> for_each f xs) e ∙ for_each-All f xs es

pub All-all : {A : Type 0} (p : A → Bool) (xs : List A) → All (λ x. p x ≡ true) xs → all p xs ≡ true
All-all p [] h = refl
All-all p (x ∷ xs) (e, es) = ap (λ b. b && all p xs) e ∙ All-all p xs es

pub not_empty : {A : Type 0} (a : A) (xs : List A) → Memᴰ a xs → not (is_empty xs) ≡ true
not_empty a [] m = elim m [ ]
not_empty a (x ∷ xs) m = refl
