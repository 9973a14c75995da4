-- ===== src/Profile/Tests.antt =====
-- Runs of the badge's life on small inputs.
use colab.Prelude.{true, List, [], ◌∷◌, ◌≡◌, refl, any, none, some}
use colab.Profile.Badge.{
  badge_granted, user_email_verified, identity_inquiry_started, identity_verified, transition,
  score_to_event, identity_approved,
}
use colab.Profile.Badge.Lifecycle.{Profile, Input, event, review, shell, step, run}
use colab.Profile.Badge.Trace.{
  IsConsistent, verifies_email, verifies_identity, run-shell-IsConsistent, badge_needs_verification,
}

-- The way to a badge.
abbrev inputs : List Input
inputs =
    event 1 user_email_verified
    ∷ event 2 identity_inquiry_started
    ∷ event 3 identity_verified
    ∷ review 4 100_000
    ∷ []

abbrev approved_profile : Profile
approved_profile = record {
  badge_state = identity_approved;
  badge_held_reason = none;
  badge_granted_at = none;
}

abbrev granted_profile : Profile
granted_profile = record {
  badge_state = badge_granted;
  badge_held_reason = none;
  badge_granted_at = some 1;
}

run-shell-IsConsistent_example : IsConsistent (run inputs shell)
run-shell-IsConsistent_example = run-shell-IsConsistent inputs

badge_needs_verification_example :
    (any verifies_email inputs ≡ true) × (any verifies_identity inputs ≡ true)
unfolding run step transition score_to_event
badge_needs_verification_example = badge_needs_verification inputs refl
