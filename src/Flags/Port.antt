-- ===== src/Flags/Port.antt =====
-- A port number on the command line is read back.
use simple_web_server.Base.{
  ℕ, ◌+◌, ◌^◌, ◌<◌, ◌≡◌, refl, inl, inr, true, false, Bool-cases, some, List, [], ◌∷◌, ltb, arith,
  zero, suc, ◌/◌, ◌%◌, lt→ltb,
}
use simple_web_server.CString.{Bytes, codes, strcmp_zero, decimal, is_digit, print_digits}
use simple_web_server.CString.Decimal.{read_digits-decimal}
use simple_web_server.Flags.{Env, Config, skip, check_port_number, atoi, is_low, round, set_flags}

check_port_number-print :
    (fuel n : ℕ) (s : Bytes)
    → check_port_number s ≡ true
    → check_port_number (print_digits fuel n s) ≡ true
unfolding print_digits check_port_number
check_port_number-print zero n s h = h
check_port_number-print (suc fuel) n s h = elim (Bool-cases (ltb n 10)) [
  | inl e ↦
      let digit : is_digit (b'0' + n) ≡ true = (unfold is_digit in ground arith) in
      rw (e, print_digits, digit) h
  | inr e ↦
      let digit : is_digit (b'0' + n % 10) ≡ true = (unfold is_digit in ground arith) in
      rw (e, print_digits)
        (check_port_number-print fuel (n / 10) ((b'0' + n % 10) ∷ s) (rw digit h))
]

-- A port that is printed in decimal, from 1025 up and an `int`, is read back, by any user, and
-- changes nothing but the port.
pub set_flags-port :
    (env : Env) (n : ℕ) (rest : List Bytes) (c : Config)
    → 1024 < n
    → n < 2 ^ 31
    → set_flags env (codes "-p" ∷ decimal n ∷ rest) c
      ≡ set_flags env rest (record c { port_addr = n })
set_flags-port env n rest c high fits =
    let digits : check_port_number (decimal n) ≡ true =
      (unfold decimal in check_port_number-print (suc n) n [] (unfold check_port_number in refl)) in
    let read : atoi env (decimal n) ≡ n =
      (unfold atoi in rw (read_digits-decimal n, lt→ltb n (2 ^ 31) fits)) in
    let user : is_low n ≡ false = (unfold is_low in ground arith) in
    let run : round env (codes "-p") (some (decimal n)) c ≡ skip (record c { port_addr = n }) =
      (unfold round in unfold strcmp_zero in rw (digits, read, user)) in
    unfold set_flags in rw (run, set_flags)
