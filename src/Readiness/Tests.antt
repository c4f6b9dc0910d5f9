-- ===== src/Readiness/Tests.antt =====
-- Runs of readiness.py, and its theorems at them.
use oc_slimapi.Prelude.{◌≡◌, refl, true, false, none, List, [], ◌∷◌, Text, text, text_dec}
use oc_slimapi.Selector.Paths.{member}
use oc_slimapi.Readiness.{
  required_features, text_lt, place, normalize, within, breaks_dependency, ready, Payload,
  readiness_payload,
}
use oc_slimapi.Readiness.Emit.{Announced, readiness_payload-Announced}

program : Unit {0}
unfolding member required_features text_lt place normalize within breaks_dependency ready
    readiness_payload text_dec
program = tt

abbrev two : List Text
two = text "selector.v4" ∷ text "method.boundary.v4" ∷ text "selector.v4" ∷ []

sorted : normalize two ≡ text "method.boundary.v4" ∷ text "selector.v4" ∷ []
unfolding program
sorted = refl

unknown : readiness_payload (text "selector.v5" ∷ []) ≡ none
unfolding program
unknown = refl

post_alone : readiness_payload (text "session.post-actions.v4" ∷ []) ≡ none
unfolding program
post_alone = refl

all_ready : ready required_features required_features ≡ true
unfolding program
all_ready = refl

abbrev partial_payload : Payload
partial_payload = record {
  is_ready = false;
  required = normalize required_features;
  satisfied = text "method.boundary.v4" ∷ text "selector.v4" ∷ [];
}

readiness_payload-Announced_example : Announced two partial_payload
readiness_payload-Announced_example =
    readiness_payload-Announced two partial_payload (unfold program in refl)
