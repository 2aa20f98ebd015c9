-- ===== src/Monitor/Parse.antt =====
-- frontend/src/app/monitorState.ts: the two readers of text that the validation uses. A text of
-- digits is read exactly; Number() rounds only above 2^53, and what it gives there is no safe
-- integer, so the test for one refuses the same texts.
use network_topology_map.Prelude.{
  ℕ, ◌+◌, ◌-◌, ◌*◌, ◌^◌, Bool, false, not, ◌&&◌, ◌||◌, Option, none, some, [], ◌∷◌, Text, leb, ltb,
  ◌==◌, length, every, if◌then◌else◌, trim, split, is_empty, starts_with, codes,
}

unfoldable pub is_digit : ℕ → Bool
is_digit c = leb b'0' c && leb c b'9'

-- Number() of a text of digits, behind those read already
unfoldable pub decimal : ℕ → Text → ℕ
decimal n [] = n
decimal n (c ∷ s) = decimal (n * 10 + (c - b'0')) s

-- /^\d{1,3}$/
abbrev is_short_number : Text → Bool
is_short_number s = not (is_empty s) && leb (length s) 3 && every is_digit s

-- the callback of `every`
unfoldable pub is_octet : Text → Bool
unfolding is_digit decimal starts_with
is_octet part =
    if not (is_short_number part)
    then false
    else if ltb 1 (length part) && starts_with (codes "0") part
    then false
    else leb (decimal 0 part) 255

unfoldable pub valid_ipv4 : Text → Bool
unfolding is_octet split
valid_ipv4 value = let parts = split b'.' value in length parts == 4 && every is_octet parts

abbrev in_range : ℕ → ℕ → ℕ → Option ℕ
in_range lo hi n = if leb n (2 ^ 53 - 1) && leb lo n && leb n hi then some n else none

unfoldable pub integer_in_range : Text → ℕ → ℕ → Option ℕ
unfolding is_digit decimal trim
integer_in_range value lo hi =
    let trimmed = trim value in
    if is_empty trimmed || not (every is_digit trimmed)
    then none
    else in_range lo hi (decimal 0 trimmed)

unfoldable pub trim_or_null : Text → Option Text
unfolding trim
trim_or_null value = let trimmed = trim value in if is_empty trimmed then none else some trimmed
