-- ===== src/Read/Headers.antt =====
-- The search of do_read for the end of the headers.
use simple_web_server.Base.{
  none-some, ℕ, ◌≡◌, refl, sym, ap, ◌∙◌, inl, inr, Bool-cases, Option-cases, none, some, ◌==◌,
  arith, length,
}
use simple_web_server.Client.{Client}
use simple_web_server.CString.{Bytes, strnstr}
use simple_web_server.Read.{find_end}
use simple_web_server.Request.{header_end}
use simple_web_server.Resolve.{or_empty}

-- The search of do_read is that of the whole text.
pub find_end-strnstr :
    (c : Client)
    → length (or_empty c.in_buf) ≡ c.input_length
    → find_end c ≡ strnstr (or_empty c.in_buf) header_end (length (or_empty c.in_buf))
find_end-strnstr c n = elim (Option-cases c.in_buf) [
  | inl x ↦ unfold find_end in unfold strnstr in rw (x, find_end, strnstr)
  | inr (buf, x) ↦
      let size : length buf ≡ c.input_length = ap (λ o. length (or_empty o)) (sym x) ∙ n in
      elim (Bool-cases (c.input_length == 0)) [
        | inl z ↦
            let nothing : c.input_length ≡ 0 = ground arith in
            unfold find_end in rw (x, find_end, z, size, nothing) (sym (none_at buf))
        | inr z ↦ unfold find_end in rw (x, find_end, z, size)
      ]
]
  where
    none_at : (s : Bytes) → strnstr s header_end 0 ≡ none
    none_at s = unfold strnstr in refl

pub find_end-in_buf :
    (c : Client) (i : ℕ) → find_end c ≡ some i → (buf : Bytes) × (c.in_buf ≡ some buf)
find_end-in_buf c i e = elim (Option-cases c.in_buf) [
  | inl x ↦
      let nothing : find_end c ≡ none = (unfold find_end in rw (x, find_end)) in
      absurd (none-some (sym nothing ∙ e))
  | inr b ↦ b
]
