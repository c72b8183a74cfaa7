-- ===== src/CString/Tests.antt =====
-- Runs of the C library functions.
use simple_web_server.Base.{◌≡◌, refl, some, none, [], ◌∷◌}
use simple_web_server.CString.{codes, strnstr, strtok, decimal, read_digits, strrchr}

strnstr_runs : strnstr (codes "GET /a") (codes "/a") 6 ≡ some 4
unfolding strnstr
strnstr_runs = refl

strnstr_nul : strnstr (b'a' ∷ 0 ∷ b'b' ∷ []) (codes "b") 3 ≡ none
unfolding strnstr
strnstr_nul = refl

strtok_runs : strtok b' ' (codes "  GET  /") ≡ (some (codes "GET"), codes " /")
unfolding strtok
strtok_runs = refl

decimal_runs : decimal 20480 ≡ codes "20480"
unfolding decimal
decimal_runs = refl

read_digits_runs : read_digits 0 (codes "8080x") ≡ 8080
unfolding read_digits
read_digits_runs = refl

strrchr_runs : strrchr (codes "./a.b.html") b'.' ≡ some (codes ".html")
unfolding strrchr
strrchr_runs = refl
