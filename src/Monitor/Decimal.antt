-- ===== src/Monitor/Decimal.antt =====
-- The decimal text of a natural number, which is what `toString` gives for the whole numbers of a
-- monitor (ports and seconds), and that the readers of the validation read it back.
use mathlib.Core.WellFounded.{Acc, WellFounded}
use mathlib.Core.Logic.{dite}
use network_topology_map.Prelude.{
  ℕ, zero, suc, ◌+◌, ◌-◌, ◌/◌, ◌%◌, ◌^◌, ◌<◌, ◌≤◌, ◌≡◌, refl, sym, ap, ◌∙◌, true, [], ◌∷◌, Text,
  arith, dec_lt, every, All, IsInk, is_space, is_empty, trim, trim_ink, false, some, codes,
}
use network_topology_map.Monitor.Parse.{is_digit, decimal, integer_in_range}

below_Acc : (bound n : ℕ) → n < bound → Acc ◌<◌ n
below_Acc zero n h = elim h [ ]
below_Acc (suc b) n h = Acc.intro n (λ m hm. below_Acc b m (omega arith))

lt_wf : WellFounded ◌<◌
unfolding below_Acc
lt_wf = record { apply = λ n. below_Acc (suc n) n (omega arith) }

pub shorter : {n : ℕ} → 9 < n → n / 10 < n
shorter h = omega arith

-- the digits of `n` in front of `out`
print_acc : (n : ℕ) → Acc ◌<◌ n → Text → Text
print_acc n (Acc.intro _ smaller) out =
    dite (dec_lt 9 n)
      (λ h. print_acc (n / 10) (smaller (n / 10) (shorter h)) ((b'0' + n % 10) ∷ out))
      (λ _. (b'0' + n) ∷ out)

-- `n.toString()`
unfoldable pub to_string : ℕ → Text
unfolding print_acc lt_wf dec_lt
to_string n = print_acc n (lt_wf.apply n) []

to_string_port : to_string 8080 ≡ codes "8080"
unfolding to_string
to_string_port = refl

digit_last : (n : ℕ) → n ≤ 9 → is_digit (b'0' + n) ≡ true
unfolding is_digit
digit_last n h = ground arith

print_acc-digits :
    (n : ℕ) (w : Acc ◌<◌ n) (out : Text)
    → every is_digit out ≡ true
    → every is_digit (print_acc n w out) ≡ true
unfolding print_acc
print_acc-digits n (Acc.intro _ smaller) out h = grind (
  arith,
  digit_last n,
  digit_last (n % 10),
  λ (p : 9 < n). print_acc-digits (n / 10) (smaller (n / 10) (shorter p)) ((b'0' + n % 10) ∷ out),
)

print_acc-reads :
    (n : ℕ) (w : Acc ◌<◌ n) (out : Text) → decimal 0 (print_acc n w out) ≡ decimal n out
unfolding print_acc decimal
print_acc-reads n (Acc.intro _ smaller) out = grind (
  arith,
  λ (p : 9 < n). print_acc-reads (n / 10) (smaller (n / 10) (shorter p)) ((b'0' + n % 10) ∷ out),
)

print_acc-filled : (n : ℕ) (w : Acc ◌<◌ n) (out : Text) → is_empty (print_acc n w out) ≡ false
unfolding print_acc
print_acc-filled n (Acc.intro _ smaller) out = grind (
  arith,
  λ (p : 9 < n). print_acc-filled (n / 10) (smaller (n / 10) (shorter p)) ((b'0' + n % 10) ∷ out),
)

pub to_string-digits : (n : ℕ) → every is_digit (to_string n) ≡ true
unfolding to_string
to_string-digits n = print_acc-digits n (lt_wf.apply n) [] refl

pub decimal-to_string : (n : ℕ) → decimal 0 (to_string n) ≡ n
unfolding to_string decimal
decimal-to_string n = print_acc-reads n (lt_wf.apply n) []

-- Different numbers have different texts.
pub to_string-injective : (m n : ℕ) → to_string m ≡ to_string n → m ≡ n
to_string-injective m n e = sym (decimal-to_string m) ∙ ap (decimal 0) e ∙ decimal-to_string n

pub to_string-filled : (n : ℕ) → is_empty (to_string n) ≡ false
unfolding to_string
to_string-filled n = print_acc-filled n (lt_wf.apply n) []

pub digit-IsInk : (c : ℕ) → is_digit c ≡ true → IsInk c
unfolding is_digit is_space
digit-IsInk c h = ground arith

-- A text of digits has no white space.
pub digits-IsInk : (s : Text) → every is_digit s ≡ true → All IsInk s
digits-IsInk [] h = tt
digits-IsInk (c ∷ s) h = (digit-IsInk c (ground arith), digits-IsInk s (ground arith))

pub trim-to_string : (n : ℕ) → trim (to_string n) ≡ to_string n
trim-to_string n = trim_ink (to_string n) (digits-IsInk (to_string n) (to_string-digits n))

-- A number in range is read back from its decimal text.
pub integer_in_range-to_string :
    (n lo hi : ℕ) → lo ≤ n → n ≤ hi → n ≤ 2 ^ 53 - 1 → integer_in_range (to_string n) lo hi ≡ some n
unfolding integer_in_range
integer_in_range-to_string n lo hi p q r =
    ground (arith, trim-to_string n, to_string-filled n, to_string-digits n, decimal-to_string n)
