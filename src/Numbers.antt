-- ===== src/Numbers.antt =====
-- JavaScript's numbers, where the program uses them as coordinates: a type with its operations, and
-- named laws of IEEE 754 arithmetic, which hold of the values they are stated for. Programs that
-- only compare take `Comparison`; the geometry takes `Arithmetic`.
use network_topology_map.Prelude.{ℕ, Bool, true, ◌≡◌, ◌⊎◌}

pub record Comparison (N : Type 0) : Type 0 where
  -- `a === b`, and Number.isFinite
  pub same : N → N → Bool
  pub finite : N → Bool
  pub same_refl : (a : N) → finite a ≡ true → same a a ≡ true

pub record Arithmetic (N : Type 0) : Type 0 where
  -- `a <= b`; false if either is NaN
  pub le : N → N → Bool
  pub finite : N → Bool
  pub add : N → N → N
  pub sub : N → N → N
  pub div : N → N → N
  pub abs : N → N
  pub min : N → N → N
  pub max : N → N → N
  -- the numerals of the source
  pub numeral : ℕ → N
  pub le_total : (a b : N) → finite a ≡ true → finite b ≡ true → (le a b ≡ true) ⊎ (le b a ≡ true)
  pub min_le_right : (a b : N) → finite a ≡ true → finite b ≡ true → le (min a b) b ≡ true
  pub le_min :
      (a b c : N)
      → finite a ≡ true
      → finite b ≡ true
      → le c a ≡ true
      → le c b ≡ true
      → le c (min a b) ≡ true
  pub le_max_right : (a b : N) → finite a ≡ true → finite b ≡ true → le b (max a b) ≡ true
  pub max_finite : (a b : N) → finite a ≡ true → finite b ≡ true → finite (max a b) ≡ true
