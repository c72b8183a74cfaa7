-- ===== src/Resolve/Confined.antt =====
-- What is opened lies below the working directory, as far as the path says.
use simple_web_server.Base.{
  ℕ, zero, suc, ◌≡◌, refl, ap, ◌∙◌, inl, inr, Bool-cases, [], ◌∷◌, ◌++◌, append_assoc, ◌==◌, arith,
  get_or, take, drop,
}
use simple_web_server.CString.{
  Bytes, codes, before_delim, strtok, skip_delim, next_token, bounded_copy,
}
use simple_web_server.Request.Checks.{StaysInside}
use simple_web_server.Resolve.{split_query}

before_delim-prefix : (d : ℕ) (s : Bytes) → (r : Bytes) × (s ≡ before_delim d s ++ r)
unfolding before_delim
before_delim-prefix d [] = ([], refl)
before_delim-prefix d (c ∷ s) = elim (Bool-cases (c == d)) [
  | inl e ↦ (c ∷ s, rw e refl)
  | inr e ↦ let (r, k) = before_delim-prefix d s in (r, rw e (ap (◌∷◌ c) k))
]

take-prefix : (n : ℕ) (s : Bytes) → (r : Bytes) × (s ≡ take n s ++ r)
take-prefix zero s = (s, refl)
take-prefix (suc n) [] = ([], refl)
take-prefix (suc n) (c ∷ s) = let (r, k) = take-prefix n s in (r, ap (◌∷◌ c) k)

-- A part of the path with a dot in front climbs nowhere.
dot-StaysInside :
    (p r path : Bytes)
    → path ≡ p ++ r
    → get_or path 0 0 ≡ b'/'
    → StaysInside path
    → StaysInside (b'.' ∷ p)
dot-StaysInside p r path e absolute inside [] b = λ k. absurd (dotted (ap (drop 1) k))
  where
    tail : p ≡ codes "./" ++ b → path ≡ b'.' ∷ (b'/' ∷ (b ++ r))
    tail q = e ∙ ap (λ s. s ++ r) q

    dotted : p ≡ codes "./" ++ b → ⊥
    dotted q = let first = ap (λ s. get_or s 0 0) (tail q) in ground arith
dot-StaysInside p r path e absolute inside (x ∷ a) b = λ k.
    inside a (b ++ r) (e ∙ ap (λ s. s ++ r) (ap (drop 1) k) ∙ append_assoc a (codes "../" ++ b) r)

-- For an absolute path with no `../` in it, as parse_request lets through, the name that
-- resolve_path opens has no `../` in it either.
pub split_query-StaysInside :
    (path : Bytes) → get_or path 0 0 ≡ b'/' → StaysInside path → StaysInside (split_query path).0
unfolding split_query bounded_copy strtok skip_delim next_token
split_query-StaysInside path absolute inside =
    let (r, k) = take-prefix 4094 path in
    let (r', k') = before_delim-prefix b'?' (take 4094 path) in
    dot-StaysInside (before_delim b'?' (take 4094 path)) (r' ++ r) path
      (k ∙ ap (λ s. s ++ r) k' ∙ append_assoc (before_delim b'?' (take 4094 path)) r' r) absolute
      inside
