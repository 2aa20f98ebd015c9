-- ===== src/Client/Utf8.antt =====
-- Reading UTF-8 back.
use network_topology_map.Prelude.{
  ℕ, zero, suc, ◌+◌, ◌-◌, ◌*◌, ◌/◌, ◌%◌, ◌<◌, ◌≡◌, refl, ap, ◌∙◌, true, Option, none, some, List,
  [], ◌∷◌, ◌++◌, Text, ltb, if◌then◌else◌, arith, All, Bool-cases, inl, inr, All-append,
}
use network_topology_map.Client.Uri.{
  is_high, is_low, pair_point, unit_bytes, pair_bytes, before, utf8_from,
}

-- The code units of a code point.
abbrev pub units : ℕ → Text
units p =
    if ltb p 0x10000
    then p ∷ []
    else (0xd800 + (p - 0x10000) / 0x400) ∷ (0xdc00 + (p - 0x10000) % 0x400) ∷ []

-- A decoder of UTF-8: how many bytes are still to come, and the code point so far.
unfoldable pub decode_from : ℕ → ℕ → List ℕ → Text
decode_from k acc [] = []
decode_from zero acc (b ∷ bs) =
    if ltb b 0x80
    then b ∷ decode_from 0 0 bs
    else let one = decode_from 1 (b - 0xc0) bs in
      let two = decode_from 2 (b - 0xe0) bs in
      let three = decode_from 3 (b - 0xf0) bs in
      if ltb b 0xe0 then one else if ltb b 0xf0 then two else three
decode_from (suc zero) acc (b ∷ bs) = units (acc * 64 + (b - 0x80)) ++ decode_from 0 0 bs
decode_from (suc (suc k)) acc (b ∷ bs) = decode_from (suc k) (acc * 64 + (b - 0x80)) bs

abbrev pub IsUnit : ℕ → Type 0
IsUnit c = c < 65536

decode-unit_bytes :
    (c : ℕ) (bs : List ℕ) → IsUnit c → decode_from 0 0 (unit_bytes c ++ bs) ≡ c ∷ decode_from 0 0 bs
unfolding decode_from
decode-unit_bytes c bs h = ground arith

sum_of_sextets :
    (p : ℕ) → (((p / 262144) * 64 + p / 4096 % 64) * 64 + p / 64 % 64) * 64 + p % 64 ≡ p
sum_of_sextets p = omega arith

minus : (a b : ℕ) → a + b - a ≡ b
minus a b = omega arith

decode-lead : (b : ℕ) (bs : List ℕ) → decode_from 0 0 ((0xf0 + b) ∷ bs) ≡ decode_from 3 b bs
unfolding decode_from
decode-lead b bs = ground (arith, minus 0xf0 b)

decode-point :
    (p : ℕ) (bs : List ℕ) → decode_from 0 0 (pair_bytes p ++ bs) ≡ units p ++ decode_from 0 0 bs
decode-point p bs =
    decode-lead (p / 262144) _
    ∙ unfold decode_from in
      rw
        (
          minus 0x80 (p / 4096 % 64),
          minus 0x80 (p / 64 % 64),
          minus 0x80 (p % 64),
          sum_of_sextets p,
        )
        refl

high_of_point :
    (high low : ℕ)
    → is_high high ≡ true
    → is_low low ≡ true
    → 0xd800 + (pair_point high low - 0x10000) / 0x400 ≡ high
high_of_point high low h l = ground arith

low_of_point :
    (high low : ℕ)
    → is_high high ≡ true
    → is_low low ≡ true
    → 0xdc00 + (pair_point high low - 0x10000) % 0x400 ≡ low
low_of_point high low h l = ground arith

units-pair_point :
    (high low : ℕ)
    → is_high high ≡ true
    → is_low low ≡ true
    → units (pair_point high low) ≡ high ∷ low ∷ []
units-pair_point high low h l =
    ground (arith, high_of_point high low h l, low_of_point high low h l)

before-eq-some :
    (b : List ℕ) (o : Option (List ℕ)) (bs : List ℕ)
    → before b o ≡ some bs
    → (more : List ℕ) × (o ≡ some more) × (bs ≡ b ++ more)
before-eq-some b none bs h = absurd (cc)
before-eq-some b (some more) bs h = (more, refl, cc)

pub bad : (bs : List ℕ) → none ≡ some bs → ⊥
bad bs h = cc

first_of : (bs cs : List ℕ) → some cs ≡ some bs → bs ≡ cs
first_of bs cs h = cc

decode_nil : decode_from 0 0 [] ≡ []
unfolding decode_from
decode_nil = refl

mutual
  unfolding utf8_from

  pub decode-utf8_from :
      (s : Text) (bs : List ℕ) → All IsUnit s → utf8_from 0 s ≡ some bs → decode_from 0 0 bs ≡ s
  decode-utf8_from [] bs u h = rw (first_of bs [] h) decode_nil
  decode-utf8_from (c ∷ s) bs (uc, u) h = elim (Bool-cases (is_high c)) [
    | inl high ↦ decode-utf8_high c s bs high u (rw high at h)
    | inr not_high ↦ elim (Bool-cases (is_low c)) [
      | inl low ↦ absurd (bad bs (rw (not_high, low) at h))
      | inr not_low ↦
          let (more, e, f) =
            before-eq-some (unit_bytes c) (utf8_from 0 s) bs (rw (not_high, not_low) at h) in
          rw f
            (decode-unit_bytes c more uc ∙ ap (λ (t : Text). c ∷ t) (decode-utf8_from s more u e))
    ]
  ]

  decode-utf8_high :
      (high : ℕ) (s : Text) (bs : List ℕ)
      → is_high high ≡ true
      → All IsUnit s
      → utf8_from high s ≡ some bs
      → decode_from 0 0 bs ≡ high ∷ s
  decode-utf8_high zero s bs hh u h = absurd (ground arith)
  decode-utf8_high (suc k) [] bs hh u h = absurd (bad bs h)
  decode-utf8_high (suc k) (c ∷ s) bs hh (uc, u) h = elim (Bool-cases (is_low c)) [
    | inr not_low ↦ absurd (bad bs (rw not_low at h))
    | inl low ↦
        let p = pair_point (suc k) c in
        let (more, e, f) = before-eq-some (pair_bytes p) (utf8_from 0 s) bs (rw low at h) in
        rw f (
          decode-point p more
          ∙ ap (λ (t : Text). t ++ decode_from 0 0 more) (units-pair_point (suc k) c hh low)
          ∙ ap (λ (t : Text). suc k ∷ c ∷ t) (decode-utf8_from s more u e))
  ]

abbrev pub IsByte : ℕ → Type 0
IsByte b = b < 256

unit_bytes-IsByte : (c : ℕ) → IsUnit c → All IsByte (unit_bytes c)
unit_bytes-IsByte c h = ground arith

pair_bytes-IsByte :
    (high low : ℕ)
    → is_high high ≡ true
    → is_low low ≡ true
    → All IsByte (pair_bytes (pair_point high low))
pair_bytes-IsByte high low h l = ground arith

mutual
  unfolding utf8_from

  pub utf8_from-IsByte :
      (s : Text) (bs : List ℕ) → All IsUnit s → utf8_from 0 s ≡ some bs → All IsByte bs
  utf8_from-IsByte [] bs u h = rw (first_of bs [] h) tt
  utf8_from-IsByte (c ∷ s) bs (uc, u) h = elim (Bool-cases (is_high c)) [
    | inl high ↦ utf8_high-IsByte c s bs high u (rw high at h)
    | inr not_high ↦ elim (Bool-cases (is_low c)) [
      | inl low ↦ absurd (bad bs (rw (not_high, low) at h))
      | inr not_low ↦
          let (more, e, f) =
            before-eq-some (unit_bytes c) (utf8_from 0 s) bs (rw (not_high, not_low) at h) in
          rw f (
            All-append IsByte (unit_bytes c) more (unit_bytes-IsByte c uc)
              (utf8_from-IsByte s more u e))
    ]
  ]

  utf8_high-IsByte :
      (high : ℕ) (s : Text) (bs : List ℕ)
      → is_high high ≡ true
      → All IsUnit s
      → utf8_from high s ≡ some bs
      → All IsByte bs
  utf8_high-IsByte zero s bs hh u h = absurd (ground arith)
  utf8_high-IsByte (suc k) [] bs hh u h = absurd (bad bs h)
  utf8_high-IsByte (suc k) (c ∷ s) bs hh (uc, u) h = elim (Bool-cases (is_low c)) [
    | inr not_low ↦ absurd (bad bs (rw not_low at h))
    | inl low ↦
        let p = pair_point (suc k) c in
        let (more, e, f) = before-eq-some (pair_bytes p) (utf8_from 0 s) bs (rw low at h) in
        rw f (
          All-append IsByte (pair_bytes p) more (pair_bytes-IsByte (suc k) c hh low)
            (utf8_from-IsByte s more u e))
  ]
