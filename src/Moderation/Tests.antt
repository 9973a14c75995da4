-- ===== src/Moderation/Tests.antt =====
-- Runs of the moderation model on small inputs.
use colab.Prelude.{◌≤◌, true, false, some, List, [], ◌∷◌, ◌≡◌, refl}
use colab.Moderation.Score.{
  OpenAiModResult, Label, DupResult, default_settings, default_category_weights, combined_score,
  route,
}
use colab.Moderation.Score.Monotone.{rank, evidence-never-lowers}

abbrev threat : OpenAiModResult
threat = record {
  category_scores = ("harassment", 300_000) ∷ [];
  flagged_categories = "harassment/threatening" ∷ [];
}

abbrev nudity : List Label
nudity = record { name = some "Nudity"; parent_name = some "Explicit"; confidence = 500_000 } ∷ []

abbrev fresh_content : DupResult
fresh_content = record { phash_match = false; chromaprint_match = false; semdup_match = false }

abbrev reupload : DupResult
reupload = record { phash_match = true; chromaprint_match = false; semdup_match = false }

-- 0.5 is weighted by 1.2, and the duplicate adds 0.3.
reupload_score :
    combined_score default_settings default_category_weights threat nudity reupload
    ≡ 900_000_000_000
unfolding combined_score
reupload_score = refl

evidence-never-lowers_example :
    let before =
      combined_score default_settings default_category_weights threat nudity fresh_content in
    let found = record threat {
      category_scores = ("violence", 900_000) ∷ threat.category_scores;
    } in
    let after = combined_score default_settings default_category_weights found nudity reupload in
    rank (route default_settings before threat nudity false).tier
    ≤ rank (route default_settings after found nudity false).tier
evidence-never-lowers_example =
    evidence-never-lowers default_settings default_category_weights threat nudity fresh_content
      reupload ("violence", 900_000) false (λ h. refl)
