-- ===== src/Prelude/Uuid.antt =====
-- A UUID is its 128-bit number (`uuid.UUID.int`); `uuid_str` is `str(uuid)`, the hyphenated
-- lower-case hexadecimal text that the services put into keys.
use Prim.Native.Nat.{ℕ, zero, suc, ◌/◌, ◌%◌, ◌^◌}
use Prim.Native.String.{String, ◌++◌}
use colab.Prelude.Tests.{◌==◌, if◌then◌else◌}

abbrev pub Uuid : Type 0
Uuid = ℕ

hex_digit : ℕ → String
hex_digit d =
    if d == 0
    then "0"
    else if d == 1
    then "1"
    else if d == 2
    then "2"
    else if d == 3
    then "3"
    else if d == 4
    then "4"
    else if d == 5
    then "5"
    else if d == 6
    then "6"
    else if d == 7
    then "7"
    else if d == 8
    then "8"
    else if d == 9
    then "9"
    else if d == 10
    then "a"
    else if d == 11
    then "b"
    else if d == 12
    then "c"
    else if d == 13
    then "d"
    else if d == 14
    then "e"
    else "f"

-- The last `k` hexadecimal digits of a number.
hex_digits : ℕ → ℕ → String
unfolding hex_digit
hex_digits zero n = ""
hex_digits (suc k) n = hex_digits k (n / 16) ++ hex_digit (n % 16)

pub uuid_str : Uuid → String
unfolding hex_digits
uuid_str u =
    hex_digits 8 (u / 16 ^ 24)
    ++ "-"
    ++ hex_digits 4 (u / 16 ^ 20)
    ++ "-"
    ++ hex_digits 4 (u / 16 ^ 16)
    ++ "-"
    ++ hex_digits 4 (u / 16 ^ 12)
    ++ "-"
    ++ hex_digits 12 u
