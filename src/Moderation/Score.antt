-- ===== src/Moderation/Score.antt =====
-- services/moderation-svc/app/score.py: the combined score of the scans and the routing of content,
-- with the thresholds and weights of app/config.py. Scores and weights are exact multiples of 10 ^ -6, and
-- their products of 10 ^ -12, where the source has floats; a confidence counts 10 ^ -4 percent.
pub mod Monotone
use colab.Prelude.{
  ℕ, ◌+◌, ◌*◌, max, min, String, Bool, true, false, ◌||◌, Option, none, some, List, [], ◌∷◌, str_eq,
  ltb, any, if◌then◌else◌,
}
use Prim.Native.String.{◌++◌ as str_append}

pub record OpenAiModResult : Type 0 where
  pub category_scores : List (String × ℕ)
  pub flagged_categories : List String

-- A label that Rekognition found.
pub record Label : Type 0 where
  pub name : Option String
  pub parent_name : Option String
  pub confidence : ℕ

pub record DupResult : Type 0 where
  pub phash_match : Bool
  pub chromaprint_match : Bool
  pub semdup_match : Bool

abbrev pub any_match : DupResult → Bool
any_match d = d.phash_match || d.chromaprint_match || d.semdup_match

pub record ModerationSettings : Type 0 where
  pub tier1_threshold : ℕ
  pub tier2_threshold : ℕ
  pub tier3_threshold : ℕ
  pub dup_bump : ℕ
  pub tier1_sla_hours : ℕ
  pub tier2_sla_hours : ℕ
  pub tier3_sla_hours : ℕ

-- 1.0 as a score, and as a combined score
abbrev pub one : ℕ
one = 1_000_000

abbrev pub full : ℕ
full = one * one

abbrev pub default_settings : ModerationSettings
default_settings = record {
  tier1_threshold = 400_000_000_000;
  tier2_threshold = 700_000_000_000;
  tier3_threshold = 900_000_000_000;
  dup_bump = 300_000_000_000;
  tier1_sla_hours = 24;
  tier2_sla_hours = 6;
  tier3_sla_hours = 1;
}

abbrev pub default_category_weights : List (String × ℕ)
default_category_weights =
    ("sexual/minors", 1_500_000)
    ∷ ("harassment/threatening", 1_300_000)
    ∷ ("hate/threatening", 1_300_000)
    ∷ ("violence/graphic", 1_200_000)
    ∷ ("self-harm/intent", 1_200_000)
    ∷ ("Rekognition:Explicit", 1_200_000)
    ∷ ("Rekognition:Hate Symbols", 1_300_000)
    ∷ ("illicit/violent", 1_200_000)
    ∷ ("sexual", 1_000_000)
    ∷ ("harassment", 1_000_000)
    ∷ ("violence", 1_000_000)
    ∷ []

-- `d.get(k, default)`
abbrev pub get : List (String × ℕ) → String → ℕ → ℕ
get [] k default = default
get (e ∷ d) k default = if str_eq e.0 k then e.1 else get d k default

abbrev pub max_of : ℕ → List (String × ℕ) → ℕ
max_of acc [] = acc
max_of acc (e ∷ d) = max_of (max acc e.1) d

-- `max(self.category_scores.values(), default=0.0)`
abbrev pub max_score : OpenAiModResult → ℕ
max_score r = max_of 0 r.category_scores

-- `label.get("ParentName") or label.get("Name", "")`
abbrev pub parent_of : Label → String
parent_of l = elim l.parent_name [
  | none ↦ named l.name
  | some p ↦ if str_eq p "" then named l.name else p
]
  where
    named : Option String → String
    named none = ""
    named (some n) = n

-- `scores[parent] = max(scores.get(parent, 0.0), conf)`
abbrev raise : String → ℕ → List (String × ℕ) → List (String × ℕ)
raise parent conf [] = (parent, conf) ∷ []
raise parent conf (e ∷ d) =
    if str_eq e.0 parent then (e.0, max e.1 conf) ∷ d else e ∷ raise parent conf d

abbrev pub parent_scores_from : List (String × ℕ) → List Label → List (String × ℕ)
parent_scores_from scores [] = scores
parent_scores_from scores (l ∷ ls) = parent_scores_from (raise (parent_of l) l.confidence scores) ls

abbrev pub parent_scores : List Label → List (String × ℕ)
parent_scores labels = parent_scores_from [] labels

-- The loop over `category_scores`.
abbrev pub text_weighted : List (String × ℕ) → ℕ → List (String × ℕ) → ℕ
text_weighted weights acc [] = acc
text_weighted weights acc (e ∷ d) = text_weighted weights (max acc (get weights e.0 one * e.1)) d

abbrev pub image_weight : List (String × ℕ) → String → ℕ
image_weight weights cat = get weights (str_append "Rekognition:" cat) (get weights cat one)

-- The loop over `parent_scores()`.
abbrev pub image_weighted : List (String × ℕ) → ℕ → List (String × ℕ) → ℕ
image_weighted weights acc [] = acc
image_weighted weights acc (e ∷ d) =
    image_weighted weights (max acc (image_weight weights e.0 * e.1)) d

-- The score; the breakdown, which is for the log, is left out.
unfoldable pub combined_score :
    ModerationSettings → List (String × ℕ) → OpenAiModResult → List Label → DupResult → ℕ
combined_score settings weights openai labels dup =
    let text = max (text_weighted weights 0 openai.category_scores) (one * max_score openai) in
    let image = image_weighted weights 0 (parent_scores labels) in
    let bump = if any_match dup then settings.dup_bump else 0 in min full (max text image + bump)

pub data Action : Type 0 where
  allow_log soft_warn_user_queue hide_content_queue auto_hide_temp_mute_queue : Action

pub data Tier : Type 0 where
  tier_0_allow tier_1_24h tier_2_6h tier_3_1h : Tier

pub record RoutingDecision : Type 0 where
  pub action : Action
  pub tier : Tier
  pub sla_hours : Option ℕ
  pub forced_human : Bool
  pub forced_reason : Option String
  pub is_csam : Bool
  pub score : ℕ

abbrev pub mem : String → List String → Bool
mem x xs = any (λ y. str_eq y x) xs

-- The reason for a human review, the first that applies.
abbrev pub forced_by : OpenAiModResult → List Label → Bool → Option String
forced_by openai labels has_ip_claim =
    if mem "harassment/threatening" openai.flagged_categories
    then some "harassment/threatening"
    else if mem "violence/graphic" openai.flagged_categories
    then some "violence/graphic"
    else if any (λ l. str_eq (parent_of l) "Hate Symbols") labels
    then some "rekognition:Hate Symbols"
    else if has_ip_claim
    then some "ip_claim"
    else none

-- Action, tier and hours of a score.
pub record Routed : Type 0 where
  pub action : Action
  pub tier : Tier
  pub sla_hours : Option ℕ

abbrev pub by_threshold : ModerationSettings → ℕ → Routed
by_threshold settings score =
    if ltb score settings.tier1_threshold
    then record { action = allow_log; tier = tier_0_allow; sla_hours = none }
    else if ltb score settings.tier2_threshold
    then record {
      action = soft_warn_user_queue;
      tier = tier_1_24h;
      sla_hours = some settings.tier1_sla_hours;
    }
    else if ltb score settings.tier3_threshold
    then record {
      action = hide_content_queue;
      tier = tier_2_6h;
      sla_hours = some settings.tier2_sla_hours;
    }
    else record {
      action = auto_hide_temp_mute_queue;
      tier = tier_3_1h;
      sla_hours = some settings.tier3_sla_hours;
    }

abbrev pub is_allow : Tier → Bool
is_allow tier_0_allow = true
is_allow _ = false

abbrev pub is_forced : Option String → Bool
is_forced none = false
is_forced (some reason) = true

-- A forced review of content that the score would allow gets the first tier.
abbrev pub at_least_tier_1 : ModerationSettings → Option String → Routed → Routed
at_least_tier_1 settings none r = r
at_least_tier_1 settings (some reason) r =
    if is_allow r.tier
    then record {
      action = soft_warn_user_queue;
      tier = tier_1_24h;
      sla_hours = some settings.tier1_sla_hours;
    }
    else r

unfoldable pub route :
    ModerationSettings → ℕ → OpenAiModResult → List Label → Bool → RoutingDecision
route settings score openai labels has_ip_claim =
    if mem "sexual/minors" openai.flagged_categories
    then record {
      action = auto_hide_temp_mute_queue;
      tier = tier_3_1h;
      sla_hours = some settings.tier3_sla_hours;
      forced_human = true;
      forced_reason = some "csam_path";
      is_csam = true;
      score = score;
    }
    else (let forced_reason = forced_by openai labels has_ip_claim in
        let r = at_least_tier_1 settings forced_reason (by_threshold settings score) in
        record {
          action = r.action;
          tier = r.tier;
          sla_hours = r.sla_hours;
          forced_human = is_forced forced_reason;
          forced_reason = forced_reason;
          is_csam = false;
          score = score;
        })
