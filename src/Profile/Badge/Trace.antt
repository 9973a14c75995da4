-- ===== src/Profile/Badge/Trace.antt =====
-- What a badge rests on, over every sequence of events, reviews, rechecks and updates.
use colab.Prelude.{
  ℕ, ◌≤◌, true, false, Bool, ◌≡◌, ◌≢◌, refl, ◌⊎◌, inr, none, List, [], ◌∷◌, any, arith,
}
use colab.Profile.Badge.{
  BadgeState, unverified, email_verified, identity_pending, badge_granted, badge_held,
  user_email_verified, identity_verified,
}
use colab.Profile.Badge.Lifecycle.{
  Profile, shell, Input, event, review, recheck, material, step, run,
}

-- A granted badge has its time and no reason against it, a held one has its reason.
abbrev pub IsConsistent : Profile → Type 0
IsConsistent p = elim p.badge_state [
  | badge_granted ↦ (p.badge_held_reason ≡ none) × (p.badge_granted_at ≢ none)
  | badge_held ↦ p.badge_held_reason ≢ none
  | _ ↦ Unit
]

step-IsConsistent : (i : Input) (p : Profile) → IsConsistent p → IsConsistent (step i p)
unfolding step
step-IsConsistent (event now e) p h = ground arith
step-IsConsistent (review now score) p h = ground arith
step-IsConsistent recheck p h = ground arith
step-IsConsistent material p h = ground arith

run-IsConsistent : (is : List Input) (p : Profile) → IsConsistent p → IsConsistent (run is p)
unfolding run
run-IsConsistent [] p h = h
run-IsConsistent (i ∷ is) p h = run-IsConsistent is (step i p) (step-IsConsistent i p h)

-- From a new profile on, a granted badge has its time and no reason against it, and a held badge
-- has a reason.
pub run-shell-IsConsistent : (is : List Input) → IsConsistent (run is shell)
run-shell-IsConsistent is = run-IsConsistent is shell (ground arith)

abbrev pub verifies_email : Input → Bool
verifies_email (event _ user_email_verified) = true
verifies_email _ = false

abbrev pub verifies_identity : Input → Bool
verifies_identity (event _ identity_verified) = true
verifies_identity _ = false

-- How far the verification of a profile has come.
abbrev pub stage : BadgeState → ℕ
stage unverified = 0
stage email_verified = 1
stage identity_pending = 1
stage _ = 2

-- One input passes a stage only if it is the one that verifies it, and approval is never lost.
step-stage :
    (i : Input) (p : Profile)
    → ((verifies_email i ≡ true)
        ⊎ ((stage p.badge_state ≡ 0) × (stage (step i p).badge_state ≡ 0))
        ⊎ (1 ≤ stage p.badge_state))
      × ((verifies_identity i ≡ true)
          ⊎ (stage (step i p).badge_state ≤ 1)
          ⊎ (stage p.badge_state ≡ 2))
unfolding step
step-stage (event now e) p = ground arith
step-stage (review now score) p = ground arith
step-stage recheck p = ground arith
step-stage material p = ground arith

email_seen :
    (is : List Input) (p : Profile)
    → stage p.badge_state ≡ 0
    → (any verifies_email is ≡ true) ⊎ (stage (run is p).badge_state ≡ 0)
unfolding run
email_seen [] p h = inr h
email_seen (i ∷ is) p h = ground (arith, step-stage i p, email_seen is (step i p))

identity_seen :
    (is : List Input) (p : Profile)
    → stage p.badge_state ≤ 1
    → (any verifies_identity is ≡ true) ⊎ (stage (run is p).badge_state ≤ 1)
unfolding run
identity_seen [] p h = inr h
identity_seen (i ∷ is) p h = ground (arith, step-stage i p, identity_seen is (step i p))

-- A new profile's badge is granted only after the user's e-mail and identity were verified,
-- whatever else happened in whatever order.
pub badge_needs_verification :
    (is : List Input)
    → (run is shell).badge_state ≡ badge_granted
    → (any verifies_email is ≡ true) × (any verifies_identity is ≡ true)
badge_needs_verification is h = ground (arith, email_seen is shell refl, identity_seen is shell)

-- A review with a score of 0.40 or more grants no badge that was not granted before.
review-not_granted :
    (now score : ℕ) (p : Profile)
    → 400_000 ≤ score
    → (step (review now score) p).badge_state ≡ badge_granted
    → p.badge_state ≡ badge_granted
unfolding step
review-not_granted now score p h = ground arith

step-approved :
    (i : Input) (p : Profile) → 2 ≤ stage p.badge_state → 2 ≤ stage (step i p).badge_state
unfolding step
step-approved (event now e) p h = ground arith
step-approved (review now score) p h = ground arith
step-approved recheck p h = ground arith
step-approved material p h = ground arith

-- Once an identity was approved, the profile never falls back behind the approval.
run-approved :
    (is : List Input) (p : Profile) → 2 ≤ stage p.badge_state → 2 ≤ stage (run is p).badge_state
unfolding run
run-approved [] p h = h
run-approved (i ∷ is) p h = run-approved is (step i p) (step-approved i p h)
