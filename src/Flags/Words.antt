-- ===== src/Flags/Words.antt =====
-- The word of the flags, bit by bit.
use simple_web_server.Base.{
  ℕ, ◌+◌, ◌≡◌, refl, Bool, true, false, not, ◌&&◌, ◌==◌, if◌then◌else◌, arith,
}
use simple_web_server.Client.{c_flag, v_flag, b4_flag, b6_flag, l_flag, has_flag}
use simple_web_server.Flags.{with_flag, without_flag}

-- The word with these flags set.
abbrev bit : Bool → ℕ → ℕ
bit b flag = if b then flag else 0

abbrev pub word : Bool → Bool → Bool → Bool → Bool → ℕ
word c v b4 b6 l =
    bit c c_flag + (bit v v_flag + (bit b4 b4_flag + (bit b6 b6_flag + bit l l_flag)))

abbrev Test : Type 0
Test = Bool → Bool → Bool → Bool → Bool → Bool

abbrev all1 : (Bool → Bool) → Bool
all1 p = p true && p false

abbrev all5 : Test → Bool
all5 p = all1 (λ c. all1 (λ v. all1 (λ x. all1 (λ y. all1 (λ l. p c v x y l)))))

both : (p : Bool → Bool) → all1 p ≡ true → (b : Bool) → p b ≡ true
both p h true = ground arith
both p h false = ground arith

every : (p : Test) → all5 p ≡ true → (c v x y l : Bool) → p c v x y l ≡ true
every p h c v x y l =
    both (λ l'. p c v x y l')
      (both (λ y'. all1 (λ l'. p c v x y' l'))
        (both (λ x'. all1 (λ y'. all1 (λ l'. p c v x' y' l')))
          (both (λ v'. all1 (λ x'. all1 (λ y'. all1 (λ l'. p c v' x' y' l'))))
            (both (λ c'. all1 (λ v'. all1 (λ x'. all1 (λ y'. all1 (λ l'. p c' v' x' y' l'))))) h c)
            v)
          x)
        y)
      l

same : (a b : ℕ) → (a == b) ≡ true → a ≡ b
same a b h = ground arith

pub set_c : (c v x y l : Bool) → with_flag (word c v x y l) c_flag ≡ word true v x y l
unfolding with_flag
set_c c v x y l =
    same _ _
      (every (λ c v x y l. with_flag (word c v x y l) c_flag == word true v x y l) refl c v x y l)

pub set_x : (c v x y l : Bool) → with_flag (word c v x y l) b4_flag ≡ word c v true y l
unfolding with_flag
set_x c v x y l =
    same _ _
      (every (λ c v x y l. with_flag (word c v x y l) b4_flag == word c v true y l) refl c v x y l)

pub set_y : (c v x y l : Bool) → with_flag (word c v x y l) b6_flag ≡ word c v x true l
unfolding with_flag
set_y c v x y l =
    same _ _
      (every (λ c v x y l. with_flag (word c v x y l) b6_flag == word c v x true l) refl c v x y l)

pub set_v :
    (c v x y l : Bool)
    → with_flag (without_flag (word c v x y l) l_flag) v_flag ≡ word c true x y false
unfolding with_flag without_flag
set_v c v x y l = same _ _ (
    every
      (λ c v x y l.
        with_flag (without_flag (word c v x y l) l_flag) v_flag == word c true x y false)
      refl c v x y l)

pub set_l :
    (c v x y l : Bool)
    → without_flag (with_flag (word c v x y l) l_flag) v_flag ≡ word c false x y true
unfolding with_flag without_flag
set_l c v x y l = same _ _ (
    every
      (λ c v x y l.
        without_flag (with_flag (word c v x y l) l_flag) v_flag == word c false x y true)
      refl c v x y l)

same_bit : (a b : Bool) → (if a then b else not b) ≡ true → a ≡ b
same_bit true true h = refl
same_bit true false h = cc
same_bit false true h = cc
same_bit false false h = refl

-- What the tests of the flags read.
pub has_x : (c v x y l : Bool) → has_flag (word c v x y l) b4_flag ≡ x
unfolding has_flag
has_x c v x y l =
    same_bit (has_flag (word c v x y l) b4_flag) x
      (every (λ c v x y l. if has_flag (word c v x y l) b4_flag then x else not x) refl c v x y l)

pub has_y : (c v x y l : Bool) → has_flag (word c v x y l) b6_flag ≡ y
unfolding has_flag
has_y c v x y l =
    same_bit (has_flag (word c v x y l) b6_flag) y
      (every (λ c v x y l. if has_flag (word c v x y l) b6_flag then y else not y) refl c v x y l)
