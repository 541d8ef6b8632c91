-- ===== src/Clients/Request/Agree.antt =====
-- The categories of the command line, and the typed request of worker/prompts.py.
use locate_anything_setup.Prelude.{
  ◌≡◌, refl, ap, ◌∙◌, false, Option, none, some, List, [], ◌∷◌, ◌++◌, ◌==◌, if◌then◌else◌, All,
}
use locate_anything_setup.Text.{Text, codes, is_empty, equal, strip}
use locate_anything_setup.Prompts.{Result, ok, value_error, join, clean, no_category}
use locate_anything_setup.Prompts.Requests.{Request, detection_req, req_detection}
use locate_anything_setup.Clients.Request.{
  Args, Built, built, usage, split_on, build_detection, build_request, empty_categories,
}

abbrev pub made : Built → Option Request
made (built r) = some r
made (usage u) = none

abbrev pub accepted : Result Request → Option Request
accepted (ok r) = some r
accepted (value_error x) = none

abbrev pub NoComma : Text → Type 0
NoComma t = All (λ c. (c == b',') ≡ false) t

split_on-word : (w : Text) → NoComma w → split_on b',' w ≡ w ∷ []
unfolding split_on
split_on-word [] h = refl
split_on-word (c ∷ w) (h, hs) = rw h (rw (split_on-word w hs) refl)

split_on-append : (w t : Text) → NoComma w → split_on b',' (w ++ b',' ∷ t) ≡ w ∷ split_on b',' t
unfolding split_on
split_on-append [] t h = refl
split_on-append (c ∷ w) t (h, hs) = rw h (rw (split_on-append w t hs) refl)

split_on-join :
    (x : Text) (xs : List Text)
    → All NoComma (x ∷ xs)
    → split_on b',' (join (b',' ∷ []) (x ∷ xs)) ≡ x ∷ xs
unfolding join
split_on-join x [] (h, hs) = split_on-word x h
split_on-join x (y ∷ xs) (h, hs) =
    split_on-append x (join (b',' ∷ []) (y ∷ xs)) h ∙ ap (λ l. x ∷ l) (split_on-join y xs hs)

guarded :
    (cats : List Text)
    → made (if is_empty cats then usage empty_categories else built (detection_req cats))
      ≡ accepted (if is_empty cats then value_error no_category else ok (detection_req cats))
guarded [] = refl
guarded (c ∷ cats) = refl

-- The guard on the empty text changes nothing.
build_detection-clean :
    (t : Text) → made (build_detection (some t)) ≡ accepted (req_detection (split_on b',' t))
unfolding build_detection req_detection strip
build_detection-clean [] = refl
build_detection-clean (c ∷ t) = guarded (clean (split_on b',' (c ∷ t)))

-- For the task `detection` and categories without commas, joined by commas on the command line,
-- `build_request` makes the request that `req_detection` makes of the categories, and none where it
-- raises.
pub build_request-join :
    (args : Args) (cats : List Text)
    → args.task ≡ codes "detection"
    → args.categories ≡ some (join (codes ",") cats)
    → All NoComma cats
    → made (build_request args) ≡ accepted (req_detection cats)
unfolding build_request equal req_detection join
build_request-join args [] t c h = rw (t, c) refl
build_request-join args (x ∷ xs) t c h =
    rw (t, c)
      (build_detection-clean (join (codes ",") (x ∷ xs))
        ∙ ap (λ l. accepted (req_detection l)) (split_on-join x xs h))
