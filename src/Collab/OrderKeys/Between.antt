-- ===== src/Collab/OrderKeys/Between.antt =====
-- The midpoint lies between the two keys, and is a key.
use colab.Prelude.{ℕ, Bool, true, false, ◌&&◌, ◌≡◌, refl, some, [], ◌∷◌, leb, arith}
use colab.Prelude.Text.{Text}
use colab.Collab.OrderKeys.{before, round, midpoint_from, lexo_midpoint}

-- Letters, or the character before "a", which does not stand last.
abbrev pub is_key : Text → Bool
is_key [] = true
is_key (x ∷ []) = leb b'a' x && leb x b'z'
is_key (x ∷ y ∷ r) = leb 96 x && leb x b'z' && is_key (y ∷ r)

round-after :
    (ca cb : ℕ) (a rest : Text) → before a rest ≡ true → before (ca ∷ a) (round ca cb rest) ≡ true
round-after ca cb a rest h = ground arith

midpoint-after : (a b : Text) → before a (midpoint_from a b) ≡ true
unfolding midpoint_from
midpoint-after [] [] = refl
midpoint-after (x ∷ a) [] = round-after x 123 a (midpoint_from a []) (midpoint-after a [])
midpoint-after [] (y ∷ b) = ground arith
midpoint-after (x ∷ a) (y ∷ b) = round-after x y a (midpoint_from a b) (midpoint-after a b)

before_nil : (a : Text) → before a [] ≡ false
before_nil [] = refl
before_nil (x ∷ a) = refl

midpoint-before :
    (a b : Text) → is_key b ≡ true → before a b ≡ true → before (midpoint_from a b) b ≡ true
unfolding midpoint_from
midpoint-before [] [] k h = ground arith
midpoint-before (x ∷ a) [] k h = ground arith
midpoint-before [] (y ∷ []) k h = ground arith
midpoint-before [] (y ∷ z ∷ b) k h = ground (arith, midpoint-before [] (z ∷ b))
midpoint-before (x ∷ a) (y ∷ []) k h = ground (arith, before_nil a)
midpoint-before (x ∷ a) (y ∷ z ∷ b) k h = ground (arith, midpoint-before a (z ∷ b))

-- A character in front of a midpoint.
longer_key :
    (c : ℕ) (a b : Text)
    → is_key (c ∷ midpoint_from a b) ≡ (leb 96 c && leb c b'z' && is_key (midpoint_from a b))
unfolding midpoint_from
longer_key c [] [] = refl
longer_key c (x ∷ a) [] = ground arith
longer_key c [] (y ∷ b) = ground arith
longer_key c (x ∷ a) (y ∷ b) = ground arith

round-key :
    (ca cb : ℕ) (a b : Text)
    → (leb 96 ca && leb ca b'z') ≡ true
    → leb cb 123 ≡ true
    → is_key (midpoint_from a b) ≡ true
    → is_key (round ca cb (midpoint_from a b)) ≡ true
round-key ca cb a b h l k = ground (arith, longer_key ca a b)

tail_key :
    (c : ℕ) (a : Text)
    → is_key (c ∷ a) ≡ true
    → ((leb 96 c && leb c b'z') ≡ true) × (is_key a ≡ true)
tail_key c [] h = ground arith
tail_key c (x ∷ a) h = ground arith

midpoint-key : (a b : Text) → is_key a ≡ true → is_key b ≡ true → is_key (midpoint_from a b) ≡ true
unfolding midpoint_from
midpoint-key [] [] h k = refl
midpoint-key (x ∷ a) [] h k =
    let (c, h') = tail_key x a h in round-key x 123 a [] c refl (midpoint-key a [] h' k)
midpoint-key [] (y ∷ b) h k =
    let (c, k') = tail_key y b k in round-key 96 y [] b refl (ground arith) (midpoint-key [] b h k')
midpoint-key (x ∷ a) (y ∷ b) h k =
    let (c, h') = tail_key x a h in
    let (d, k') = tail_key y b k in round-key x y a b c (ground arith) (midpoint-key a b h' k')

-- Between two keys in their order, of letters and of the character before "a" but not at the end,
-- there is a midpoint: a key again, after the first and before the second.
pub lexo_midpoint-between :
    (a b : Text)
    → is_key a ≡ true
    → is_key b ≡ true
    → before a b ≡ true
    → (m : Text) × lexo_midpoint a b ≡ some m
      × before a m ≡ true
      × before m b ≡ true
      × is_key m ≡ true
unfolding lexo_midpoint
lexo_midpoint-between a b h k l = (
  midpoint_from a b,
  rw l refl,
  midpoint-after a b,
  midpoint-before a b k l,
  midpoint-key a b h k,
)
