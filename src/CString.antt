-- ===== src/CString.antt =====
-- The C library functions on text that the server calls (string.h, strings.h, stdlib.h and the BSD
-- strnstr and strlcpy), over lists of bytes. A C string is the bytes before its NUL; a pointer
-- into a buffer is an index.
pub mod Search
pub mod Tokens
pub mod Decimal
mod Tests
use Prim.Native.Char.{code}
use Prim.Native.String.{String}
use mathlib.Core.Option
use simple_web_server.Base.{
  ℕ, zero, suc, ◌+◌, ◌-◌, ◌*◌, ◌/◌, ◌%◌, Bool, true, false, ◌&&◌, Option, none, some, List, [], ◌∷◌,
  ◌++◌, leb, ltb, ◌==◌, if◌then◌else◌, length, take,
}

abbrev pub Bytes : Type 0
Bytes = List ℕ

-- The bytes of a literal; every literal of the source is ASCII.
abbrev pub codes : String → Bytes
codes String.[] = []
codes (String.◌∷◌ c s) = code c ∷ codes s

-- What a `char *` into these bytes reads: all before the first NUL.
unfoldable pub c_string : Bytes → Bytes
c_string [] = []
c_string (c ∷ s) = if c == 0 then [] else c ∷ c_string s

unfoldable pub starts_with : Bytes → Bytes → Bool
starts_with [] s = true
starts_with (c ∷ n) [] = false
starts_with (c ∷ n) (d ∷ s) = c == d && starts_with n s

-- The index of the first occurrence, as `strstr`.
unfoldable pub find : Bytes → Bytes → Option ℕ
unfolding starts_with
find needle [] = if starts_with needle [] then some 0 else none
find needle (c ∷ s) = if starts_with needle (c ∷ s) then some 0 else Option.map suc (find needle s)

-- At most `len` bytes are searched, and nothing behind a NUL.
unfoldable pub strnstr : Bytes → Bytes → ℕ → Option ℕ
unfolding c_string find
strnstr hay needle len = find needle (c_string (take len hay))

-- `strncmp(a, b, n) == 0`
unfoldable pub strncmp_zero : Bytes → Bytes → ℕ → Bool
strncmp_zero a b zero = true
strncmp_zero [] [] (suc n) = true
strncmp_zero [] (d ∷ b) (suc n) = false
strncmp_zero (c ∷ a) [] (suc n) = false
strncmp_zero (c ∷ a) (d ∷ b) (suc n) = c == d && strncmp_zero a b n

unfoldable pub to_lower : ℕ → ℕ
to_lower c = if leb b'A' c && leb c b'Z' then c + 32 else c

-- `strcmp(a, b) == 0`
unfoldable pub strcmp_zero : Bytes → Bytes → Bool
strcmp_zero [] [] = true
strcmp_zero [] (d ∷ b) = false
strcmp_zero (c ∷ a) [] = false
strcmp_zero (c ∷ a) (d ∷ b) = c == d && strcmp_zero a b

-- `strcasecmp(a, b) == 0`
unfoldable pub strcasecmp_zero : Bytes → Bytes → Bool
unfolding to_lower
strcasecmp_zero [] [] = true
strcasecmp_zero [] (d ∷ b) = false
strcasecmp_zero (c ∷ a) [] = false
strcasecmp_zero (c ∷ a) (d ∷ b) = to_lower c == to_lower d && strcasecmp_zero a b

-- The text from the last `d` on.
unfoldable pub strrchr : Bytes → ℕ → Option Bytes
strrchr [] d = none
strrchr (c ∷ s) d = elim (strrchr s d) [
  | some r ↦ some r
  | none ↦ if c == d then some (c ∷ s) else none
]

-- What a buffer of `size` bytes holds after `strlcpy` or `snprintf` of the text.
unfoldable pub bounded_copy : Bytes → ℕ → Bytes
bounded_copy s size = take (size - 1) s

-- `strtok` with one delimiter: the token, or NULL, and the text that the next call goes on with.
unfoldable pub skip_delim : ℕ → Bytes → Bytes
skip_delim d [] = []
skip_delim d (c ∷ s) = if c == d then skip_delim d s else c ∷ s

unfoldable pub before_delim : ℕ → Bytes → Bytes
before_delim d [] = []
before_delim d (c ∷ s) = if c == d then [] else c ∷ before_delim d s

pub after_delim : ℕ → Bytes → Bytes
after_delim d [] = []
after_delim d (c ∷ s) = if c == d then s else after_delim d s

unfoldable pub next_token : ℕ → Bytes → Option Bytes × Bytes
unfolding before_delim after_delim
next_token d [] = (none, [])
next_token d (c ∷ s) = (some (before_delim d (c ∷ s)), after_delim d (c ∷ s))

unfoldable pub strtok : ℕ → Bytes → Option Bytes × Bytes
unfolding skip_delim next_token
strtok d s = next_token d (skip_delim d s)

-- The decimal digits of `n` in front of `out`; the fuel is a bound on the number of digits.
unfoldable pub print_digits : ℕ → ℕ → Bytes → Bytes
print_digits zero n out = out
print_digits (suc fuel) n out = elim (ltb n 10) [
  | true ↦ (b'0' + n) ∷ out
  | false ↦ print_digits fuel (n / 10) ((b'0' + n % 10) ∷ out)
]

-- `%zu`
unfoldable pub decimal : ℕ → Bytes
unfolding print_digits
decimal n = print_digits (suc n) n []

unfoldable pub is_digit : ℕ → Bool
is_digit c = leb b'0' c && leb c b'9'

-- The value of the leading digits behind `acc`.
pub read_digits : ℕ → Bytes → ℕ
unfolding is_digit
read_digits acc [] = acc
read_digits acc (c ∷ s) = elim (is_digit c) [
  | true ↦ read_digits (acc * 10 + (c - b'0')) s
  | false ↦ acc
]
