-- ===== src/Profile/Badge.antt =====
-- services/profile-svc/app/services/badge_fsm.py: the state machine of the Valid Profile Badge.
pub mod Lifecycle
pub mod Trace
use colab.Prelude.{
  ℕ, String, Bool, true, false, Option, none, some, List, [], ◌∷◌, ltb, if◌then◌else◌,
}

pub data BadgeState : Type 0 where
  unverified email_verified identity_pending identity_approved : BadgeState
  ai_review_pending badge_granted badge_held badge_revoked : BadgeState

pub data BadgeEvent : Type 0 where
  user_email_verified identity_inquiry_started identity_verified identity_declined : BadgeEvent
  identity_needs_review moderation_cleared moderation_upheld : BadgeEvent
  moderation_appeal_upheld user_deleted ai_review_started : BadgeEvent
  profile_review_completed_pass profile_review_completed_soft_warn : BadgeEvent
  profile_review_completed_hide profile_review_completed_severe : BadgeEvent
  profile_updated_material badge_recheck_requested : BadgeEvent

pub record TransitionResult : Type 0 where
  pub new_state : BadgeState
  pub side_effects : List String
  pub badge_held_reason : Option String
  pub terminal : Bool

abbrev moves_to : BadgeState → List String → TransitionResult
moves_to s effects = record {
  new_state = s;
  side_effects = effects;
  badge_held_reason = none;
  terminal = false;
}

abbrev held : List String → String → TransitionResult
held effects reason = record {
  new_state = badge_held;
  side_effects = effects;
  badge_held_reason = some reason;
  terminal = false;
}

abbrev removal : BadgeState → TransitionResult
removal s = record { new_state = s; side_effects = []; badge_held_reason = none; terminal = true }

-- `_TRANSITIONS` and the lookup of `transition`; `none` is `_NoTransition`.
unfoldable pub transition : BadgeState → BadgeEvent → Option TransitionResult
transition unverified user_email_verified =
    some (moves_to email_verified ("profile.email_verified" ∷ []))
transition unverified user_deleted = some (removal unverified)
transition email_verified identity_inquiry_started = some (moves_to identity_pending ([]))
transition email_verified user_deleted = some (removal email_verified)
transition identity_pending identity_verified =
    some (moves_to identity_approved ("ai.review.fire" ∷ []))
transition identity_pending identity_declined = some (moves_to email_verified ([]))
transition identity_pending identity_needs_review =
    some (moves_to identity_pending ("moderation.queue.identity" ∷ []))
transition identity_pending user_deleted = some (removal identity_pending)
transition identity_approved ai_review_started = some (moves_to ai_review_pending ([]))
transition identity_approved user_deleted = some (removal identity_approved)
transition ai_review_pending profile_review_completed_pass =
    some (moves_to badge_granted ("profile.badge_granted" ∷ []))
transition ai_review_pending profile_review_completed_soft_warn =
    some (held ("profile.badge_held" ∷ []) "soft_flag")
transition ai_review_pending profile_review_completed_hide =
    some (held ("profile.badge_held" ∷ []) "content_hidden")
transition ai_review_pending profile_review_completed_severe =
    some (held ("profile.badge_held" ∷ "user.temp_mute_requested" ∷ []) "severe_flag")
transition ai_review_pending user_deleted = some (removal ai_review_pending)
transition badge_granted moderation_upheld =
    some (moves_to badge_revoked ("profile.badge_revoked" ∷ []))
transition badge_granted profile_updated_material =
    some (moves_to ai_review_pending ("ai.review.fire" ∷ []))
transition badge_granted badge_recheck_requested =
    some (moves_to ai_review_pending ("ai.review.fire" ∷ []))
transition badge_granted user_deleted = some (removal badge_granted)
transition badge_held moderation_cleared =
    some (moves_to badge_granted ("profile.badge_granted" ∷ []))
transition badge_held moderation_upheld =
    some (moves_to badge_revoked ("profile.badge_revoked" ∷ []))
transition badge_held user_deleted = some (removal badge_held)
transition badge_revoked moderation_appeal_upheld =
    some (moves_to badge_granted ("profile.badge_granted" ∷ []))
transition badge_revoked user_deleted = some (removal badge_revoked)
transition _ _ = none

-- `score_to_event`; a score is a number of millionths.
unfoldable pub score_to_event : ℕ → BadgeEvent
score_to_event score =
    if ltb score 400_000
    then profile_review_completed_pass
    else if ltb score 700_000
    then profile_review_completed_soft_warn
    else if ltb score 900_000
    then profile_review_completed_hide
    else profile_review_completed_severe

unfoldable pub next_action : BadgeState → Option String
next_action unverified = some "verify_email"
next_action email_verified = some "verify_identity"
next_action identity_pending = some "verify_identity"
next_action identity_approved = some "awaiting_ai_review"
next_action ai_review_pending = some "awaiting_ai_review"
next_action badge_granted = none
next_action badge_held = some "mod_review"
next_action badge_revoked = none
