-- ===== src/CString/Decimal.antt =====
-- Decimal numbers are read back, and their length is bounded.
use native.Mathlib.Nat.{pow-suc}
use simple_web_server.Base.{
  ℕ, zero, suc, ◌+◌, ◌*◌, ◌/◌, ◌%◌, ◌^◌, ◌<◌, ◌≤◌, ◌≡◌, refl, ◌∙◌, ap, inl, inr, false, [], ◌∷◌,
  arith, Bool-cases, ltb, length,
}
use simple_web_server.CString.Search.{Free}
use simple_web_server.CString.{Bytes, print_digits, decimal, read_digits}

read_digit :
    (acc n : ℕ) (s : Bytes)
    → n < 10
    → read_digits acc ((b'0' + n) ∷ s) ≡ read_digits (acc * 10 + n) s
unfolding read_digits
read_digit acc n s h = ground arith

read_digits-print_digits :
    (fuel n : ℕ) (out : Bytes)
    → n < fuel
    → read_digits 0 (print_digits fuel n out) ≡ read_digits n out
unfolding print_digits
read_digits-print_digits zero n out h = absurd (omega arith)
read_digits-print_digits (suc fuel) n out h = elim (Bool-cases (ltb n 10)) [
  | inl e ↦
      rw (e, print_digits)
        (read_digit 0 n out (ground arith) ∙ ap (λ t. read_digits t out) (omega arith))
  | inr e ↦
      rw (e, print_digits)
        (read_digits-print_digits fuel (n / 10) _ (ground arith)
          ∙ read_digit (n / 10) (n % 10) out (omega arith)
          ∙ ap (λ t. read_digits t out) (omega arith))
]

-- What `%zu` prints is read back by a reader of digits.
pub read_digits-decimal : (n : ℕ) → read_digits 0 (decimal n) ≡ n
unfolding decimal
read_digits-decimal n =
    read_digits-print_digits (suc n) n [] (omega arith) ∙ (unfold read_digits in refl)

print_digits-Free :
    (d : ℕ) (fuel n : ℕ) (out : Bytes) → d < b'0' → Free d out → Free d (print_digits fuel n out)
unfolding print_digits
print_digits-Free d zero n out h f = f
print_digits-Free d (suc fuel) n out h f = elim (Bool-cases (ltb n 10)) [
  | inl e ↦ rw (e, print_digits) (omega arith, f)
  | inr e ↦ rw (e, print_digits) (print_digits-Free d fuel (n / 10) _ h (omega arith, f))
]

pub decimal-Free : (d n : ℕ) → d < b'0' → Free d (decimal n)
unfolding decimal
decimal-Free d n h = print_digits-Free d (suc n) n [] h tt

-- `k` digits are enough for a number below 10 ^ k.
length-print_digits-le :
    (k fuel n : ℕ) (out : Bytes)
    → n < 10 ^ k
    → 0 < k
    → length (print_digits fuel n out) ≤ k + length out
unfolding print_digits
length-print_digits-le k zero n out h p = omega arith
length-print_digits-le zero (suc fuel) n out h p = absurd (omega arith)
length-print_digits-le (suc k) (suc fuel) n out h p = elim (Bool-cases (ltb n 10)) [
  | inl e ↦ rw (e, print_digits) (omega arith)
  | inr e ↦
      rw (e, print_digits)
        (omega (
          arith,
          length-print_digits-le k fuel (n / 10) ((b'0' + n % 10) ∷ out) (below k n h)
              (pos k n h e),
        ))
]
  where
    below : (k n : ℕ) → n < 10 ^ suc k → n / 10 < 10 ^ k
    below k n h = omega (arith, pow-suc 10 k)

    pos : (k n : ℕ) → n < 10 ^ suc k → ltb n 10 ≡ false → 0 < k
    pos zero n h e = absurd (ground arith)
    pos (suc k) n h e = omega arith

pub length-decimal-le : (k n : ℕ) → n < 10 ^ k → 0 < k → length (decimal n) ≤ k
unfolding decimal
length-decimal-le k n h p = omega (arith, length-print_digits-le k (suc n) n [] h p)
