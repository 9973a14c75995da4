-- ===== src/Collab/OrderKeys.antt =====
-- services/collab-svc/app/services/task_service.py: the key between two order keys, and
-- evenly spaced keys. A key is the
-- list of its code points.
pub mod Between
pub mod Balanced
use colab.Prelude.{
  ℕ, zero, suc, min, max, ◌*◌, ◌+◌, ◌/◌, ◌==◌, Bool, true, false, ◌&&◌, ◌||◌, Option, none, some,
  List, [], ◌∷◌, ltb, if◌then◌else◌,
}
use colab.Prelude.Text.{Text}

-- `a < b` on strings
abbrev pub before : Text → Text → Bool
before [] [] = false
before [] (y ∷ b) = true
before (x ∷ a) [] = false
before (x ∷ a) (y ∷ b) = ltb x y || (x == y && before a b)

-- One round of the loop, with what the later rounds add.
abbrev pub round : ℕ → ℕ → Text → Text
round ca cb rest = if ltb (ca + 1) cb then ((ca + cb) / 2) ∷ [] else ca ∷ rest

-- The loop, which pads `a` with the character before "a" and `b` with the one after "z".
unfoldable pub midpoint_from : Text → Text → Text
midpoint_from [] [] = b'm' ∷ []
midpoint_from (x ∷ a) [] = let rest = midpoint_from a [] in round x 123 rest
midpoint_from [] (y ∷ b) = let rest = midpoint_from [] b in round 96 y rest
midpoint_from (x ∷ a) (y ∷ b) = let rest = midpoint_from a b in round x y rest

-- `_lexo_midpoint`: `none` is the ValueError.
unfoldable pub lexo_midpoint : Text → Text → Option Text
lexo_midpoint a b = if before a b then some (midpoint_from a b) else none

-- `_generate_balanced_keys`, whose keys are single letters: the step, a key and the list of them.
abbrev pub step : ℕ → ℕ
step n = max 1 (26 / (n + 1))

abbrev pub key_at : ℕ → ℕ → ℕ
key_at n i = b'a' + min (i * step n) 25

unfoldable pub keys_from : ℕ → ℕ → ℕ → List ℕ
keys_from n i zero = []
keys_from n i (suc count) = key_at n i ∷ keys_from n (suc i) count

unfoldable pub generate_balanced_keys : ℕ → List ℕ
unfolding keys_from
generate_balanced_keys n = if n == 0 then [] else keys_from n 1 n
