-- ===== src/CString/Search.antt =====
-- What `find` and `strnstr` return.
use simple_web_server.Base.{
  ℕ, suc, ◌+◌, ◌≤◌, ◌≡◌, refl, ap, ◌≢◌, inl, inr, true, none, some, [], ◌∷◌, ◌++◌, arith,
  Bool-cases, Option-cases, length, take, drop, ◌==◌, take_all,
}
use simple_web_server.CString.{Bytes, starts_with, find, c_string, strnstr}

-- No byte of the text is `d`.
abbrev pub Free : ℕ → Bytes → Type 0
Free d [] = Unit {0}
Free d (c ∷ s) = (c ≢ d) × Free d s

pub Free-append : (d : ℕ) (a b : Bytes) → Free d a → Free d b → Free d (a ++ b)
Free-append d [] b h k = k
Free-append d (c ∷ a) b h k = (h.0, Free-append d a b h.1 k)

starts_with-split : (n s : Bytes) → starts_with n s ≡ true → s ≡ n ++ drop (length n) s
unfolding starts_with
starts_with-split [] s h = refl
starts_with-split (c ∷ n) [] h = cc
starts_with-split (c ∷ n) (d ∷ s) h = ground (arith, starts_with-split n s)

starts_with-append : (n s : Bytes) → starts_with n (n ++ s) ≡ true
unfolding starts_with
starts_with-append [] s = refl
starts_with-append (c ∷ n) s = ground (arith, starts_with-append n s)

starts_with-le : (n s : Bytes) → starts_with n s ≡ true → length n ≤ length s
unfolding starts_with
starts_with-le [] s h = omega arith
starts_with-le (c ∷ n) [] h = cc
starts_with-le (c ∷ n) (d ∷ s) h = ground (arith, starts_with-le n s)

-- The needle stands at the index that is returned.
pub find-split :
    (n s : Bytes) (i : ℕ)
    → find n s ≡ some i
    → (r : Bytes) × (s ≡ take i s ++ (n ++ r)) × (length (take i s) ≡ i) × (i + length n ≤ length s)
find-split n [] i h = elim (Bool-cases (starts_with n [])) [
  | inl e ↦
      let z : i ≡ 0 = (unfold find in ground arith) in
      rw z
        (drop (length n) [], starts_with-split n [] e, refl, omega (arith, starts_with-le n [] e))
  | inr e ↦ absurd (unfold find in ground arith)
]
find-split n (c ∷ s) i h = elim (Bool-cases (starts_with n (c ∷ s))) [
  | inl e ↦
      let z : i ≡ 0 = (unfold find in ground arith) in
      rw z (
        drop (length n) (c ∷ s),
        starts_with-split n (c ∷ s) e,
        refl,
        omega (arith, starts_with-le n (c ∷ s) e),
      )
  | inr e ↦ elim (Option-cases (find n s)) [
    | inl m ↦ absurd (unfold find in ground arith)
    | inr (j, m) ↦
        let z : i ≡ suc j = (unfold find in ground arith) in
        let (r, split, len, fits) = find-split n s j m in
        rw z (r, ap (◌∷◌ c) split, ap suc len, omega arith)
  ]
]

-- Something is returned where an occurrence stands.
pub find-ne-none : (n a b : Bytes) → find n (a ++ (n ++ b)) ≢ none
unfolding find
find-ne-none [] [] [] = λ h. cc
find-ne-none [] [] (c ∷ b) = λ h. cc
find-ne-none (d ∷ n) [] b = λ h. ground (arith, starts_with-append (d ∷ n) b)
find-ne-none n (c ∷ a) b = λ h. ground (arith, find-ne-none n a b)

-- The first occurrence, behind bytes that are not the needle's first.
pub find-first :
    (c : ℕ) (n a b : Bytes) → Free c a → find (c ∷ n) (a ++ (c ∷ n ++ b)) ≡ some (length a)
unfolding find
find-first c n [] b f = ground (arith, starts_with-append (c ∷ n) b)
find-first c n (d ∷ a) b f = ground (arith, find-first c n a b f.1)

pub c_string-Free : (s : Bytes) → Free 0 s → c_string s ≡ s
unfolding c_string
c_string-Free [] f = refl
c_string-Free (c ∷ s) f = ground (arith, c_string-Free s f.1)

pub Free-c_string : (s : Bytes) → Free 0 (c_string s)
unfolding c_string
Free-c_string [] = tt
Free-c_string (c ∷ s) = elim (Bool-cases (c == 0)) [
  | inl e ↦ rw e tt
  | inr e ↦ rw e (ground arith, Free-c_string s)
]

pub length-c_string-le : (s : Bytes) → length (c_string s) ≤ length s
unfolding c_string
length-c_string-le [] = omega arith
length-c_string-le (c ∷ s) = ground (arith, length-c_string-le s)

-- In a text with no NUL that is searched whole, `strnstr` is `find`.
pub strnstr-find : (s n : Bytes) (len : ℕ) → Free 0 s → length s ≤ len → strnstr s n len ≡ find n s
strnstr-find s n len f h = unfold strnstr in rw (take_all len s h, c_string-Free s f)
