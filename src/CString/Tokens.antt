-- ===== src/CString/Tokens.antt =====
-- `strtok` against the words of a text: the non-empty pieces between delimiters.
use simple_web_server.Base.{
  ℕ, ◌≡◌, refl, ap, sym, ◌∙◌, ◌≢◌, ◌⊎◌, inl, inr, false, Option, none, some, List, [], ◌∷◌, ◌++◌,
  arith, Bool-cases, ◌==◌, if◌then◌else◌,
}
use simple_web_server.CString.{Bytes, skip_delim, before_delim, after_delim, next_token, strtok}
use simple_web_server.CString.Search.{Free}

push_front : ℕ → List Bytes → List Bytes
push_front c [] = (c ∷ []) ∷ []
push_front c (w ∷ ws) = (c ∷ w) ∷ ws

split : ℕ → Bytes → List Bytes
unfolding push_front
split d [] = [] ∷ []
split d (c ∷ s) = let rest = split d s in if c == d then [] ∷ rest else push_front c rest

drop_empty : List Bytes → List Bytes
drop_empty [] = []
drop_empty ([] ∷ ws) = drop_empty ws
drop_empty ((c ∷ w) ∷ ws) = (c ∷ w) ∷ drop_empty ws

pub words : ℕ → Bytes → List Bytes
unfolding split drop_empty
words d s = drop_empty (split d s)

split-before :
    (d : ℕ) (s : Bytes)
    → (ws : List Bytes) × (split d s ≡ before_delim d s ∷ ws)
      × (drop_empty ws ≡ words d (after_delim d s))
unfolding words before_delim after_delim
split-before d [] = ([], refl, refl)
split-before d (c ∷ s) =
    let (ws, e, k) = split-before d s in
    elim (Bool-cases (c == d)) [ inl h ↦ (split d s, rw h, rw h) | inr h ↦ (ws, rw (h, e), rw h k) ]

words-skip_delim : (d : ℕ) (s : Bytes) → words d (skip_delim d s) ≡ words d s
unfolding words skip_delim
words-skip_delim d [] = refl
words-skip_delim d (c ∷ s) = elim (Bool-cases (c == d)) [
  | inl h ↦ rw h (words-skip_delim d s)
  | inr h ↦ rw (h, split, h)
]

-- What is left after the delimiters starts with another byte.
skip_delim-cases :
    (d : ℕ) (s : Bytes)
    → (skip_delim d s ≡ [])
      ⊎ ((c : ℕ) × (r : Bytes) × (skip_delim d s ≡ c ∷ r) × ((c == d) ≡ false))
unfolding skip_delim
skip_delim-cases d [] = inl refl
skip_delim-cases d (c ∷ s) = elim (Bool-cases (c == d)) [
  | inl h ↦ rw h (skip_delim-cases d s)
  | inr h ↦ inr (c, s, rw h, h)
]

words_token :
    (d c : ℕ) (r : Bytes)
    → (c == d) ≡ false
    → words d (c ∷ r) ≡ before_delim d (c ∷ r) ∷ words d (after_delim d (c ∷ r))
words_token d c r h =
    let (ws, e, k) = split-before d (c ∷ r) in
    unfold words before_delim in rw (e, h) (ap (◌∷◌ (c ∷ before_delim d r)) k)

abbrev pub Tokens : ℕ → Bytes → Option Bytes × Bytes → Type 0
Tokens d s r =
    ((r ≡ (none, [])) × (words d s ≡ []))
    ⊎ ((w : Bytes) × (t : Bytes) × (r ≡ (some w, t)) × (words d s ≡ w ∷ words d t))

-- `strtok` splits off the first word, and returns NULL if there is none.
strtok-Tokens : (d : ℕ) (s : Bytes) → Tokens d s (strtok d s)
strtok-Tokens d s = elim (skip_delim-cases d s) [
  | inl e ↦ inl (
    unfold strtok in rw (e, next_token),
    sym (words-skip_delim d s) ∙ ap (words d) e ∙ (unfold words in refl),
  )
  | inr (c, r, e, h) ↦ inr (
    before_delim d (c ∷ r),
    after_delim d (c ∷ r),
    unfold strtok in rw (e, next_token),
    sym (words-skip_delim d s) ∙ ap (words d) e ∙ words_token d c r h,
  )
]

before-append : (d : ℕ) (w s : Bytes) → Free d w → before_delim d (w ++ d ∷ s) ≡ w
unfolding before_delim
before-append d [] s f = ground arith
before-append d (c ∷ w) s f = ground (arith, before-append d w s f.1)

after-append : (d : ℕ) (w s : Bytes) → Free d w → after_delim d (w ++ d ∷ s) ≡ s
unfolding after_delim
after-append d [] s f = ground arith
after-append d (c ∷ w) s f = ground (arith, after-append d w s f.1)

pub words-append : (d : ℕ) (w s : Bytes) → Free d w → w ≢ [] → words d (w ++ d ∷ s) ≡ w ∷ words d s
words-append d [] s f ne = absurd (ne refl)
words-append d (c ∷ w) s f ne =
    words_token d c (w ++ d ∷ s) (ground arith)
    ∙ rw (before-append d (c ∷ w) s f, after-append d (c ∷ w) s f)

before-Free : (d : ℕ) (w : Bytes) → Free d w → before_delim d w ≡ w
unfolding before_delim
before-Free d [] f = refl
before-Free d (c ∷ w) f = ground (arith, before-Free d w f.1)

after-Free : (d : ℕ) (w : Bytes) → Free d w → after_delim d w ≡ []
unfolding after_delim
after-Free d [] f = refl
after-Free d (c ∷ w) f = ground (arith, after-Free d w f.1)

pub words-Free : (d : ℕ) (w : Bytes) → Free d w → w ≢ [] → words d w ≡ w ∷ []
words-Free d [] f ne = absurd (ne refl)
words-Free d (c ∷ w) f ne =
    words_token d c w (ground arith)
    ∙ rw (before-Free d (c ∷ w) f, after-Free d (c ∷ w) f) (unfold words in refl)

pub strtok-cons :
    (d : ℕ) (s : Bytes) {w : Bytes} {ws : List Bytes}
    → words d s ≡ w ∷ ws
    → (t : Bytes) × (strtok d s ≡ (some w, t)) × (words d t ≡ ws)
strtok-cons d s {w} {ws} h = elim (strtok-Tokens d s) [
  | inl (e, none_left) ↦ absurd (cc)
  | inr (v, t, e, k) ↦ (t, rw e (ground arith), ground arith)
]

pub strtok-nil : (d : ℕ) (s : Bytes) → words d s ≡ [] → strtok d s ≡ (none, [])
strtok-nil d s h = elim (strtok-Tokens d s) [
  | inl (e, none_left) ↦ e
  | inr (v, t, e, k) ↦ absurd (cc)
]

-- A byte that the text does not hold stands in none of its words.
abbrev AllFree : ℕ → List Bytes → Type 0
AllFree x [] = Unit {0}
AllFree x (w ∷ ws) = Free x w × AllFree x ws

push_front-AllFree :
    (x c : ℕ) (ws : List Bytes) → c ≢ x → AllFree x ws → AllFree x (push_front c ws)
unfolding push_front
push_front-AllFree x c [] h f = ((h, tt), tt)
push_front-AllFree x c (w ∷ ws) h f = ((h, f.0), f.1)

split-AllFree : (x d : ℕ) (s : Bytes) → Free x s → AllFree x (split d s)
unfolding split
split-AllFree x d [] f = (tt, tt)
split-AllFree x d (c ∷ s) f = elim (Bool-cases (c == d)) [
  | inl e ↦ rw e (tt, split-AllFree x d s f.1)
  | inr e ↦ rw e (push_front-AllFree x c (split d s) f.0 (split-AllFree x d s f.1))
]

drop_empty-AllFree : (x : ℕ) (ws : List Bytes) → AllFree x ws → AllFree x (drop_empty ws)
unfolding drop_empty
drop_empty-AllFree x [] f = f
drop_empty-AllFree x ([] ∷ ws) f = drop_empty-AllFree x ws f.1
drop_empty-AllFree x ((c ∷ w) ∷ ws) f = (f.0, drop_empty-AllFree x ws f.1)

pub words-AllFree : (x d : ℕ) (s : Bytes) → Free x s → AllFree x (words d s)
unfolding words
words-AllFree x d s f = drop_empty-AllFree x (split d s) (split-AllFree x d s f)
