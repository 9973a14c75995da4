-- ===== src/Common/Tests.antt =====
-- Runs of the rate limiter.
use colab.Prelude.{ℕ, ◌+◌, ◌*◌, ◌≤◌, min, none, List, [], ◌∷◌, ◌≡◌, refl, length, arith}
use colab.Prelude.Int.{◌+ℤ◌, ◌-ℤ◌}
use colab.Common.RateLimit.{Rate, token_bucket, serve}
use colab.Common.RateLimit.Bound.{sum, serve-bounded}
use colab.Common.RateLimit.Starved.{serve-starved}

-- The limit of `login_email`: ten attempts, and one more every six seconds.
abbrev login_rate : Rate
login_rate = record { num = 10; den = 60 }

-- An attempt every five seconds: the first two go on, and none of the others ever does.
abbrev every_five : List ℕ
every_five = 0 ∷ 5 ∷ 5 ∷ 5 ∷ 5 ∷ 5 ∷ []

served : (serve 2 login_rate every_five 1000 none).0 ≡ 2
unfolding serve token_bucket ◌+ℤ◌ ◌-ℤ◌
served = refl

served_slowly : (serve 2 login_rate (0 ∷ 7 ∷ 7 ∷ 7 ∷ 7 ∷ 7 ∷ []) 1000 none).0 ≡ 6
unfolding serve token_bucket ◌+ℤ◌ ◌-ℤ◌
served_slowly = refl

serve-bounded_example :
    (serve 2 login_rate every_five 1000 none).0 * 60 ≤ 2 * 60 + sum every_five * 10
serve-bounded_example = serve-bounded 2 login_rate every_five 1000 (omega arith)

serve-starved_example : (serve 2 login_rate every_five 1000 none).0 ≡ min 2 (length every_five)
serve-starved_example =
    serve-starved 2 login_rate every_five 1000 (omega arith) (omega arith) (ground arith)
