-- ===== src/Client/Uri.antt =====
-- encodeURIComponent of the language, on UTF-16 code units: the text in UTF-8, each byte that is not
-- one of its unreserved characters as a percent sign and two hexadecimal digits.
use network_topology_map.Prelude.{
  ℕ, zero, suc, ◌+◌, ◌-◌, ◌*◌, ◌/◌, ◌%◌, Bool, ◌&&◌, ◌||◌, Option, none, some, List, [], ◌∷◌, ◌++◌,
  Text, codes, any, ◌==◌, leb, ltb, if◌then◌else◌,
}

unfoldable pub is_unreserved : ℕ → Bool
is_unreserved c =
    (leb b'A' c && leb c b'Z')
    || (leb b'a' c && leb c b'z')
    || (leb b'0' c && leb c b'9')
    || any (λ d. c == d) (codes "-_.!~*'()")

abbrev pub is_high : ℕ → Bool
is_high c = leb 0xd800 c && leb c 0xdbff

abbrev pub is_low : ℕ → Bool
is_low c = leb 0xdc00 c && leb c 0xdfff

-- the code point of a surrogate pair
abbrev pub pair_point : ℕ → ℕ → ℕ
pair_point high low = 0x10000 + (high - 0xd800) * 0x400 + (low - 0xdc00)

-- the bytes of a code unit that is no surrogate
abbrev pub unit_bytes : ℕ → List ℕ
unit_bytes c =
    if ltb c 0x80
    then c ∷ []
    else if ltb c 0x800
    then (0xc0 + c / 64) ∷ (0x80 + c % 64) ∷ []
    else (0xe0 + c / 4096) ∷ (0x80 + c / 64 % 64) ∷ (0x80 + c % 64) ∷ []

-- the bytes of a code point that takes a pair
abbrev pub pair_bytes : ℕ → List ℕ
pair_bytes p =
    (0xf0 + p / 262144) ∷ (0x80 + p / 4096 % 64) ∷ (0x80 + p / 64 % 64) ∷ (0x80 + p % 64) ∷ []

abbrev pub before : List ℕ → Option (List ℕ) → Option (List ℕ)
before bs none = none
before bs (some rest) = some (bs ++ rest)

-- UTF-8, behind a high surrogate that waits for its pair (0 for none); `none` for a surrogate without
-- its pair, which throws a URIError
unfoldable pub utf8_from : ℕ → Text → Option (List ℕ)
utf8_from zero [] = some []
utf8_from (suc high) [] = none
utf8_from zero (c ∷ s) =
    let pair = utf8_from c s in
    let alone = utf8_from 0 s in
    if is_high c then pair else if is_low c then none else before (unit_bytes c) alone
utf8_from (suc high) (c ∷ s) =
    let rest = utf8_from 0 s in
    if is_low c then before (pair_bytes (pair_point (suc high) c)) rest else none

unfoldable pub utf8 : Text → Option (List ℕ)
unfolding utf8_from
utf8 = utf8_from 0

abbrev pub hex_digit : ℕ → ℕ
hex_digit d = if ltb d 10 then b'0' + d else b'A' + (d - 10)

unfoldable pub percent : List ℕ → Text
unfolding is_unreserved
percent [] = []
percent (b ∷ bs) =
    if is_unreserved b
    then b ∷ percent bs
    else b'%' ∷ hex_digit (b / 16) ∷ hex_digit (b % 16) ∷ percent bs

abbrev escaped : Option (List ℕ) → Option Text
escaped none = none
escaped (some bytes) = some (percent bytes)

unfoldable pub encode_uri_component : Text → Option Text
unfolding utf8 percent
encode_uri_component s = escaped (utf8 s)
