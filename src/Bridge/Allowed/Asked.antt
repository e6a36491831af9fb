-- ===== src/Bridge/Allowed/Asked.antt =====
-- Every question whether a device is allowed is answered once, or waits for the load of its origin.
use ff_web_hid.Prelude.{
  ℕ, ◌+◌, String, List, [], ◌∷◌, ◌++◌, Bool, true, not, ◌&&◌, ◌||◌, ◌==◌, nat_eq, string_eq,
  if◌then◌else◌, ◌≡◌, refl, arith,
}
use ff_web_hid.Prelude.Maps.{contains}
use ff_web_hid.Bridge.Allowed.{
  Question, Effect, resolved, load_begun, flush_answers, flush_rest, add_origin, drop_origin,
}

-- How often a question is asked, resolved and waits.
unfoldable pub questions : ℕ → List Question → ℕ
questions n [] = 0
questions n (q ∷ queue) = (if q.number == n then 1 else 0) + questions n queue

unfoldable pub resolutions : ℕ → List Effect → ℕ
resolutions n [] = 0
resolutions n (resolved m answer ∷ effects) = (if m == n then 1 else 0) + resolutions n effects
resolutions n (load_begun origin ∷ effects) = resolutions n effects

pub resolutions-append :
    (n : ℕ) (xs ys : List Effect) → resolutions n (xs ++ ys) ≡ resolutions n xs + resolutions n ys
unfolding resolutions
resolutions-append n [] ys = omega arith
resolutions-append n (resolved m answer ∷ xs) ys = omega (arith, resolutions-append n xs ys)
resolutions-append n (load_begun origin ∷ xs) ys = resolutions-append n xs ys

pub questions-append :
    (n : ℕ) (xs ys : List Question) → questions n (xs ++ ys) ≡ questions n xs + questions n ys
unfolding questions
questions-append n [] ys = omega arith
questions-append n (q ∷ xs) ys = omega (arith, questions-append n xs ys)

pub flush-questions :
    (n : ℕ) (origin : String) (devices : List String) (queue : List Question)
    → resolutions n (flush_answers origin devices queue) + questions n (flush_rest origin queue)
      ≡ questions n queue
unfolding flush_answers flush_rest resolutions questions
flush-questions n origin devices [] = omega arith
flush-questions n origin devices (q ∷ queue) = ground (
  arith,
  flush-questions n origin devices queue,
  resolutions-append n (flush_answers origin devices queue)
      (resolved q.number (contains q.device devices) ∷ []),
)

-- Every question that waits is for an origin that is being loaded and is not loaded yet.
unfoldable pub are_loading : List String → List String → List Question → Bool
are_loading loads loaded [] = true
are_loading loads loaded (q ∷ queue) =
    (contains q.origin loads && not (contains q.origin loaded)) && are_loading loads loaded queue

contains-add_origin :
    (o x : String) (origins : List String)
    → contains x (add_origin o origins) ≡ (o == x || contains x origins)
unfolding contains
contains-add_origin o x origins = ground (arith, string_eq.beq_iff o x, contains o origins)

contains-drop_origin :
    (o x : String) (origins : List String)
    → contains x (drop_origin o origins) ≡ (not (o == x) && contains x origins)
unfolding contains
contains-drop_origin o x [] = ground arith
contains-drop_origin o x (p ∷ origins) = ground (
  arith,
  contains-drop_origin o x origins,
  string_eq.beq_iff p o,
  string_eq.beq_iff p x,
  string_eq.beq_iff o x,
)

-- Once an origin is loaded and its questions are flushed, the others still wait for their loads.
pub are_loading-flush_rest :
    (o : String) (loads loaded : List String) (queue : List Question)
    → are_loading loads loaded queue ≡ true
    → (are_loading loads (add_origin o loaded) (flush_rest o queue) ≡ true)
      × (are_loading (drop_origin o loads) (add_origin o loaded) (flush_rest o queue) ≡ true)
unfolding are_loading flush_rest
are_loading-flush_rest o loads loaded [] h = (refl, refl)
are_loading-flush_rest o loads loaded (q ∷ queue) h =
    let (a, b) = are_loading-flush_rest o loads loaded queue (ground (arith, h)) in
    (
      ground (
        arith,
        h,
        a,
        string_eq.beq_iff q.origin o,
        string_eq.beq_iff o q.origin,
        contains-add_origin o q.origin loaded,
      ),
      ground (
        arith,
        h,
        b,
        string_eq.beq_iff q.origin o,
        string_eq.beq_iff o q.origin,
        contains-add_origin o q.origin loaded,
        contains-drop_origin o q.origin loads,
      ),
    )

pub are_loading-append :
    (loads loaded : List String) (queue : List Question) (q : Question)
    → are_loading loads loaded (queue ++ (q ∷ [])) ≡ (
        are_loading loads loaded queue
        && (contains q.origin loads && not (contains q.origin loaded)))
unfolding are_loading
are_loading-append loads loaded [] q = ground arith
are_loading-append loads loaded (p ∷ queue) q =
    ground (arith, are_loading-append loads loaded queue q)

pub are_loading-more :
    (o : String) (loads loaded : List String) (queue : List Question)
    → are_loading loads loaded queue ≡ true
    → are_loading (o ∷ loads) loaded queue ≡ true
unfolding are_loading contains
are_loading-more o loads loaded [] h = refl
are_loading-more o loads loaded (q ∷ queue) h =
    ground (arith, h, are_loading-more o loads loaded queue)
