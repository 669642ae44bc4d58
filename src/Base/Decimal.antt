-- ===== src/Base/Decimal.antt =====
-- The decimal print of a number (std::to_string), and the reading of one.
use slang_server_extended.Base.Tests.{ltb, if◌then◌else◌}
use slang_server_extended.Base.Chars.{Bytes, is_digit}
use Prim.Native.Nat.{ℕ, zero, suc, ◌+◌, ◌-◌, ◌*◌, ◌/◌, ◌%◌, ◌<◌}
use mathlib.Core.Path.{◌≡◌, refl, ap, ◌∙◌}
use mathlib.Core.Bool.{false}
use mathlib.Core.List.{[], ◌∷◌, ◌++◌}
use native.Mathlib.Omega.{arith}

-- Each round divides by ten, so the number itself is fuel enough.
print_from : ℕ → ℕ → Bytes → Bytes
print_from zero n out = out
print_from (suc f) n out =
    let rest = print_from f (n / 10) ((b'0' + n % 10) ∷ out) in
    if ltb n 10 then (b'0' + n) ∷ out else rest

unfoldable pub to_string : ℕ → Bytes
unfolding print_from
to_string n = print_from (suc n) n []

-- The number that leading digits spell behind `n`, and what follows them.
unfoldable pub read_digits : ℕ → Bytes → ℕ × Bytes
read_digits n [] = (n, [])
read_digits n (c ∷ s) = if is_digit c then read_digits (n * 10 + (c - b'0')) s else (n, c ∷ s)

read_digit :
    (d n : ℕ) (s : Bytes) → d < 10 → read_digits n ((b'0' + d) ∷ s) ≡ read_digits (n * 10 + d) s
unfolding read_digits
read_digit d n s h = ground arith

last_digit : (n : ℕ) → n / 10 * 10 + n % 10 ≡ n
last_digit n = omega arith

read-print_from : (f n : ℕ) (s : Bytes) → n < f → read_digits 0 (print_from f n s) ≡ read_digits n s
unfolding print_from
read-print_from zero n s h = elim h [ ]
read-print_from (suc f) n s h = ground (
  arith,
  read-print_from f (n / 10) ((b'0' + n % 10) ∷ s),
  read_digit n 0 s,
  read_digit (n % 10) (n / 10) s,
  ap (λ (k : ℕ). read_digits k s) (last_digit n),
)

print_from-append : (f n : ℕ) (out s : Bytes) → print_from f n out ++ s ≡ print_from f n (out ++ s)
unfolding print_from
print_from-append zero n out s = refl
print_from-append (suc f) n out s =
    ground (arith, print_from-append f (n / 10) ((b'0' + n % 10) ∷ out) s)

-- What follows the print of a number is left unread, if it begins with no digit.
pub read-to_string :
    (n c : ℕ) (s : Bytes) → is_digit c ≡ false → read_digits 0 (to_string n ++ c ∷ s) ≡ (n, c ∷ s)
unfolding to_string
read-to_string n c s h =
    rw print_from-append
      (read-print_from (suc n) n (c ∷ s) (omega arith) ∙ unfold read_digits in ground arith)
