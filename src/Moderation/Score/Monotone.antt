-- ===== src/Moderation/Score/Monotone.antt =====
-- More evidence never lowers the tier.
use colab.Prelude.{
  ℕ, ◌≤◌, ◌+◌, ◌*◌, max, min, String, Bool, true, false, Bool-cases, Option, some, none, List, [],
  ◌∷◌, ◌≡◌, refl, inl, inr, arith, if◌then◌else◌,
}
use colab.Moderation.Score.{
  OpenAiModResult, Label, DupResult, any_match, ModerationSettings, one, max_of, text_weighted,
  combined_score, Tier, tier_0_allow, tier_1_24h, tier_2_6h, tier_3_1h, mem, forced_by,
  by_threshold, at_least_tier_1, route, Routed, image_weighted, parent_scores, full,
}

abbrev pub rank : Tier → ℕ
rank tier_0_allow = 0
rank tier_1_24h = 1
rank tier_2_6h = 2
rank tier_3_1h = 3

by_threshold-rank :
    (settings : ModerationSettings) {low high : ℕ}
    → low ≤ high
    → rank (by_threshold settings low).tier ≤ rank (by_threshold settings high).tier
by_threshold-rank settings h = ground arith

forced-rank :
    (settings : ModerationSettings) (reason : String) (r : Routed)
    → rank (at_least_tier_1 settings (some reason) r).tier ≡ max 1 (rank r.tier)
forced-rank settings reason r = branch r.tier refl
  where
    branch :
        (t : Tier)
        → r.tier ≡ t
        → rank (at_least_tier_1 settings (some reason) r).tier ≡ max 1 (rank r.tier)
    branch tier_0_allow e = rw e refl
    branch tier_1_24h e = rw e refl
    branch tier_2_6h e = rw e refl
    branch tier_3_1h e = rw e refl

at_least-rank :
    (settings : ModerationSettings) (reason : Option String) (r s : Routed)
    → rank r.tier ≤ rank s.tier
    → rank (at_least_tier_1 settings reason r).tier ≤ rank (at_least_tier_1 settings reason s).tier
at_least-rank settings none r s h = h
at_least-rank settings (some reason) r s h =
    rw (forced-rank settings reason r, forced-rank settings reason s) (ground arith)

-- A higher score never gets a lower tier, whatever the scans say beside it.
route-monotone :
    (settings : ModerationSettings) (openai : OpenAiModResult) (labels : List Label) (ip : Bool)
    {low high : ℕ}
    → low ≤ high
    → rank (route settings low openai labels ip).tier
      ≤ rank (route settings high openai labels ip).tier
unfolding route
route-monotone settings openai labels ip {low} {high} h =
    elim (Bool-cases (mem "sexual/minors" openai.flagged_categories)) [
      | inl csam ↦ rw csam (ground arith)
      | inr other ↦ rw other (
          at_least-rank settings (forced_by openai labels ip) (by_threshold settings low)
            (by_threshold settings high) (by_threshold-rank settings h))
    ]

text_weighted-grows :
    (weights : List (String × ℕ)) (d : List (String × ℕ)) {acc more : ℕ}
    → acc ≤ more
    → text_weighted weights acc d ≤ text_weighted weights more d
text_weighted-grows weights [] h = h
text_weighted-grows weights (e ∷ d) h = text_weighted-grows weights d (ground arith)

max_of-grows : (d : List (String × ℕ)) {acc more : ℕ} → acc ≤ more → max_of acc d ≤ max_of more d
max_of-grows [] h = h
max_of-grows (e ∷ d) h = max_of-grows d (ground arith)

capped-grows :
    (top i : ℕ) {t t' m m' b b' : ℕ}
    → t ≤ t'
    → m ≤ m'
    → b ≤ b'
    → min top (max (max t (one * m)) i + b) ≤ min top (max (max t' (one * m')) i + b')
capped-grows top i ht hm hb = omega arith

bump-grows :
    (settings : ModerationSettings) (dup more : DupResult)
    → (any_match dup ≡ true → any_match more ≡ true)
    → (if any_match dup then settings.dup_bump else 0)
      ≤ (if any_match more then settings.dup_bump else 0)
bump-grows settings dup more h = elim (Bool-cases (any_match dup)) [
  | inl found ↦ rw (found, h found) (omega arith)
  | inr none_found ↦ rw none_found (omega arith)
]

-- With the same labels and weights, one more category score, and duplicate matches that only grow,
-- the combined score never falls, and it stays at most 1.
combined_score-grows :
    (settings : ModerationSettings) (weights : List (String × ℕ)) (openai : OpenAiModResult)
    (labels : List Label) (dup more : DupResult) (e : String × ℕ)
    → (any_match dup ≡ true → any_match more ≡ true)
    → combined_score settings weights openai labels dup
        ≤ combined_score settings weights
            (record openai { category_scores = e ∷ openai.category_scores })
            labels
            more
      × combined_score settings weights openai labels dup ≤ full
unfolding combined_score
combined_score-grows settings weights openai labels dup more e h = (
  capped-grows full (image_weighted weights 0 (parent_scores labels))
      (text_weighted-grows weights openai.category_scores (ground arith))
      (max_of-grows openai.category_scores (ground arith)) (bump-grows settings dup more h),
  omega arith,
)

-- One more category score, and duplicate matches that only grow, never lower the tier of the same
-- content: its flags and labels are the same, and the score is the combined score.
pub evidence-never-lowers :
    (settings : ModerationSettings) (weights : List (String × ℕ)) (openai : OpenAiModResult)
    (labels : List Label) (dup more : DupResult) (e : String × ℕ) (ip : Bool)
    → (any_match dup ≡ true → any_match more ≡ true)
    → let before = combined_score settings weights openai labels dup in
      let found = record openai { category_scores = e ∷ openai.category_scores } in
      let after = combined_score settings weights found labels more in
      rank (route settings before openai labels ip).tier
      ≤ rank (route settings after found labels ip).tier
unfolding route
evidence-never-lowers settings weights openai labels dup more e ip h =
    route-monotone settings openai labels ip
      (combined_score-grows settings weights openai labels dup more e h).0

abbrev pub is_some {ℓ} : {A : Type ℓ} → Option A → Bool
is_some none = false
is_some (some a) = true
