-- ===== src/Readiness.antt =====
-- readiness.py: the features that the server announces.
pub mod Normal
pub mod Emit
mod Tests
use oc_slimapi.Prelude.{
  ℕ, Bool, true, false, ◌&&◌, ◌||◌, not, Option, none, some, List, [], ◌∷◌, Text, text, text_dec,
  is_text, ltb, ◌==◌, if◌then◌else◌,
}
use oc_slimapi.Selector.Paths.{member}

-- `REQUIRED`.
unfoldable pub required_features : List Text
required_features =
    text "selector.v4"
    ∷ text "session.list.global.v4"
    ∷ text "session.single.projection.v4"
    ∷ text "messages.expand.v4"
    ∷ text "providers.redacted.v4"
    ∷ text "events.global.replay.v4"
    ∷ text "events.token.replay.v4"
    ∷ text "representation.vary.v4"
    ∷ text "method.boundary.v4"
    ∷ text "session.post-actions.v4"
    ∷ text "sessions.details.v4"
    ∷ []

-- The order of the UTF-8 bytes, which is the order of the code points.
unfoldable pub text_lt : Text → Text → Bool
text_lt [] [] = false
text_lt [] (d ∷ t) = true
text_lt (c ∷ s) [] = false
text_lt (c ∷ s) (d ∷ t) = ltb c d || ((c == d) && text_lt s t)

-- Into an ascending list, unless it is there.
unfoldable pub place : Text → List Text → List Text
place x [] = x ∷ []
place x (y ∷ ys) =
    let rest = place x ys in
    if is_text x y then y ∷ ys else if text_lt x y then x ∷ y ∷ ys else y ∷ rest

-- `normalize`: `sorted(set(ids))`.
unfoldable pub normalize : List Text → List Text
normalize [] = []
normalize (x ∷ xs) = place x (normalize xs)

-- Every text of the first list is in the second.
unfoldable pub within : List Text → List Text → Bool
within [] ys = true
within (x ∷ xs) ys = member x ys && within xs ys

-- `validate_dependencies` raises.
unfoldable pub breaks_dependency : List Text → Bool
breaks_dependency satisfied =
    member (text "session.post-actions.v4") satisfied
    && not (member (text "method.boundary.v4") satisfied)

-- `ready`.
unfoldable pub ready : List Text → List Text → Bool
ready required satisfied = within (normalize required) (normalize satisfied)

-- The wire object.
pub record Payload : Type 0 where
  pub is_ready : Bool
  pub required : List Text
  pub satisfied : List Text

-- `readiness_payload`, with `validate`; `none` is the RuntimeError.
unfoldable pub readiness_payload : List Text → Option Payload
readiness_payload satisfied =
    if not (within satisfied required_features)
    then none
    else if breaks_dependency satisfied
    then none
    else some (record {
      is_ready = ready required_features satisfied;
      required = normalize required_features;
      satisfied = normalize satisfied;
    })
