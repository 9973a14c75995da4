-- ===== src/Profile/Badge/Lifecycle.antt =====
-- How the services move a profile's badge: the event consumer of app/routers/events.py, the
-- review worker of app/workers/ai_review_tasks.py, the recheck endpoint of app/routers/badge.py
-- and the material update of app/routers/profile.py.
use colab.Prelude.{
  ℕ, String, Bool, true, false, Option, none, some, List, [], ◌∷◌, str_eq, any, if◌then◌else◌,
}
use colab.Profile.Badge.{
  BadgeState, BadgeEvent, TransitionResult, unverified, identity_approved, ai_review_pending,
  badge_granted, user_email_verified, identity_inquiry_started, identity_verified,
  identity_declined, identity_needs_review, moderation_cleared, moderation_upheld,
  moderation_appeal_upheld, user_deleted, ai_review_started, profile_updated_material,
  badge_recheck_requested, transition, score_to_event,
}

-- The badge columns of app/models/profile.py.
pub record Profile : Type 0 where
  pub badge_state : BadgeState
  pub badge_held_reason : Option String
  pub badge_granted_at : Option ℕ

-- `Profile(user_id=user_id, badge_state="unverified")`
abbrev pub shell : Profile
shell = record { badge_state = unverified; badge_held_reason = none; badge_granted_at = none }

-- The events of `event_map` that move the machine.
abbrev pub is_consumed : BadgeEvent → Bool
is_consumed user_email_verified = true
is_consumed identity_inquiry_started = true
is_consumed identity_verified = true
is_consumed identity_declined = true
is_consumed identity_needs_review = true
is_consumed moderation_cleared = true
is_consumed moderation_upheld = true
is_consumed moderation_appeal_upheld = true
is_consumed user_deleted = true
is_consumed _ = false

abbrev or_old : Option String → Option String → Option String
or_old none old = old
or_old (some r) old = some r

-- The three assignments that the consumer and the worker make from a result.
abbrev record_result : ℕ → Profile → TransitionResult → Profile
record_result now p r = elim r.new_state [
  | badge_granted ↦ record {
    badge_state = badge_granted;
    badge_held_reason = none;
    badge_granted_at = some now;
  }
  | other ↦ record p {
    badge_state = other;
    badge_held_reason = or_old r.badge_held_reason p.badge_held_reason;
  }
]

-- A profile, and whether an AI review is queued for it.
abbrev consumed : ℕ → Profile → Option TransitionResult → Profile × Bool
consumed now p none = (p, false)
consumed now p (some r) =
    (record_result now p r, any (λ effect. str_eq effect "ai.review.fire") r.side_effects)

-- `_handle_event`, for a profile that is there.
unfoldable pub handle_event : ℕ → BadgeEvent → Profile → Profile × Bool
unfolding transition
handle_event now e p =
    if is_consumed e then consumed now p (transition p.badge_state e) else (p, false)

-- A transition of which only the new state is stored.
abbrev stored : Profile → Option TransitionResult → Profile
stored p none = p
stored p (some r) = record p { badge_state = r.new_state }

abbrev is_approved : BadgeState → Bool
is_approved identity_approved = true
is_approved _ = false

abbrev is_pending : BadgeState → Bool
is_pending ai_review_pending = true
is_pending _ = false

abbrev is_granted : BadgeState → Bool
is_granted badge_granted = true
is_granted _ = false

abbrev start_review : Profile → Profile
start_review p =
    if is_approved p.badge_state then stored p (transition p.badge_state ai_review_started) else p

abbrev finish_review : ℕ → ℕ → Profile → Profile
finish_review now score p =
    if is_pending p.badge_state
    then (consumed now p (transition p.badge_state (score_to_event score))).0
    else p

-- The badge part of `_async_orchestrate`, with the aggregate score that the review came to.
unfoldable pub orchestrate_profile_review : ℕ → ℕ → Profile → Profile
unfolding transition score_to_event
orchestrate_profile_review now score p = finish_review now score (start_review p)

-- `recheck_badge` once the cooldown is over: the profile, and whether a review is queued (400 if not).
unfoldable pub recheck_badge : Profile → Profile × Bool
unfolding transition
recheck_badge p = elim (transition p.badge_state badge_recheck_requested) [
  | none ↦ (p, false)
  | some r ↦ (record p { badge_state = r.new_state }, true)
]

-- The end of `update_my_profile`: a material change to a profile whose badge was granted.
unfoldable pub material_update : Profile → Profile × Bool
unfolding transition
material_update p =
    if is_granted p.badge_state
    then (stored p (transition p.badge_state profile_updated_material), true)
    else (p, false)

pub data Input : Type 0 where
  event : ℕ → BadgeEvent → Input
  review : ℕ → ℕ → Input
  recheck material : Input

unfoldable pub step : Input → Profile → Profile
unfolding handle_event orchestrate_profile_review recheck_badge material_update
step (event now e) p = (handle_event now e p).0
step (review now score) p = orchestrate_profile_review now score p
step recheck p = (recheck_badge p).0
step material p = (material_update p).0

unfoldable pub run : List Input → Profile → Profile
run [] p = p
run (i ∷ is) p = run is (step i p)
