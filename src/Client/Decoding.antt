-- ===== src/Client/Decoding.antt =====
-- Reading an encoded component back.
use network_topology_map.Prelude.{
  ℕ, ◌+◌, ◌-◌, ◌*◌, ◌/◌, ◌%◌, ◌<◌, ◌≡◌, refl, ap, ◌∙◌, true, false, some, List, [], ◌∷◌, Text, ◌==◌,
  ltb, if◌then◌else◌, arith, All, Bool-cases, Option-cases, inl, inr, ◌⊎◌,
}
use network_topology_map.Client.Uri.{
  is_unreserved, utf8_from, utf8, hex_digit, percent, encode_uri_component,
}
use network_topology_map.Client.Utf8.{
  decode_from, IsUnit, IsByte, utf8_from-IsByte, decode-utf8_from,
}

-- A decoder of percent signs: outside of one, behind one, or behind its first digit.
data Mode : Type 0 where
  outside : Mode
  behind : Mode
  half : ℕ → Mode

abbrev digit_value : ℕ → ℕ
digit_value c = if ltb c b'A' then c - b'0' else c - b'A' + 10

unfoldable unpercent : Mode → Text → List ℕ
unpercent m [] = []
unpercent outside (c ∷ s) =
    let escape = unpercent behind s in
    let plain = c ∷ unpercent outside s in if c == b'%' then escape else plain
unpercent behind (c ∷ s) = unpercent (half (digit_value c)) s
unpercent (half d) (c ∷ s) = (d * 16 + digit_value c) ∷ unpercent outside s

digit_value-hex_digit : (d : ℕ) → d < 16 → digit_value (hex_digit d) ≡ d
digit_value-hex_digit d h = ground arith

unreserved-ne-percent : (b : ℕ) → is_unreserved b ≡ true → (b == b'%') ≡ false
unfolding is_unreserved
unreserved-ne-percent b h = ground arith

unpercent-percent : (bs : List ℕ) → All IsByte bs → unpercent outside (percent bs) ≡ bs
unfolding unpercent percent
unpercent-percent [] h = refl
unpercent-percent (b ∷ bs) (hb, h) = elim (Bool-cases (is_unreserved b)) [
  | inl plain ↦
      rw (plain, unreserved-ne-percent b plain)
        (ap (λ (t : List ℕ). b ∷ t) (unpercent-percent bs h))
  | inr escape ↦
      rw
        (
          escape,
          digit_value-hex_digit (b / 16) (omega arith),
          digit_value-hex_digit (b % 16) (omega arith),
        )
        (cc (unpercent-percent bs h, whole b))
]
  where
    whole : (b : ℕ) → b / 16 * 16 + b % 16 ≡ b
    whole b = omega arith

-- The decoder of a component.
pub decode_component : Text → Text
unfolding decode_from unpercent
decode_component t = decode_from 0 0 (unpercent outside t)

-- A component that can be encoded is read back from its encoding, whatever UTF-16 units it has.
pub decode-encode_uri_component :
    (s t : Text) → All IsUnit s → encode_uri_component s ≡ some t → decode_component t ≡ s
unfolding decode_component encode_uri_component utf8
decode-encode_uri_component s t u h = elim (Option-cases (utf8_from 0 s)) [
  | inl none_at ↦ absurd (ground arith)
  | inr (bs, e) ↦
      let t_is : t ≡ percent bs = ground (arith, e) in
      rw t_is (
        ap (decode_from 0 0) (unpercent-percent bs (utf8_from-IsByte s bs u e))
        ∙ decode-utf8_from s bs u e)
]

abbrev pub IsComponentUnit : ℕ → Type 0
IsComponentUnit c = (is_unreserved c ≡ true) ⊎ (c ≡ b'%')

hex_digit-is_unreserved : (d : ℕ) → d < 16 → is_unreserved (hex_digit d) ≡ true
unfolding is_unreserved
hex_digit-is_unreserved d h = ground arith

percent_units : (bs : List ℕ) → All IsByte bs → All IsComponentUnit (percent bs)
unfolding percent
percent_units [] h = tt
percent_units (b ∷ bs) (hb, h) = elim (Bool-cases (is_unreserved b)) [
  | inl plain ↦ rw plain (inl plain, percent_units bs h)
  | inr escape ↦ rw escape (
    inr refl,
    (
      inl (hex_digit-is_unreserved (b / 16) (omega arith)),
      (inl (hex_digit-is_unreserved (b % 16) (omega arith)), percent_units bs h),
    ),
  )
]

-- An encoded component has unreserved characters and percent signs only.
pub encode_uri_component-units :
    (s t : Text) → All IsUnit s → encode_uri_component s ≡ some t → All IsComponentUnit t
unfolding encode_uri_component utf8
encode_uri_component-units s t u h = elim (Option-cases (utf8_from 0 s)) [
  | inl none_at ↦ absurd (ground arith)
  | inr (bs, e) ↦
      let t_is : t ≡ percent bs = ground (arith, e) in
      rw t_is (percent_units bs (utf8_from-IsByte s bs u e))
]
