-- ===== src/Resolve/Mime.antt =====
-- The media type of a file, by its extension or by libmagic.
use simple_web_server.Base.{
  map, ℕ, ◌≡◌, refl, sym, subst, ◌∙◌, inl, inr, Bool, true, false, Bool-cases, Option-cases, some,
  List, [], ◌∷◌, ◌==◌, if◌then◌else◌, arith,
}
use simple_web_server.CString.{to_lower, Bytes, strrchr, strcasecmp_zero}
use simple_web_server.CString.Search.{Free}
use simple_web_server.Host.{Host}
use simple_web_server.Resolve.{get_mime_type_by_ext, mime_lookup, mime_table}

-- No carriage return in the text.
plain : Bytes → Bool
plain [] = true
plain (c ∷ s) = if c == b'\r' then false else plain s

plain-Free : (s : Bytes) → plain s ≡ true → Free b'\r' s
unfolding plain
plain-Free [] e = tt
plain-Free (c ∷ s) e = elim (Bool-cases (c == b'\r')) [
  | inl r ↦ absurd (ground arith)
  | inr r ↦ (ground arith, plain-Free s (ground arith))
]

all_plain : List (Bytes × Bytes) → Bool
unfolding plain
all_plain [] = true
all_plain ((e, m) ∷ rest) = if plain m then all_plain rest else false

mime_lookup-Free :
    (ext m : Bytes) (table : List (Bytes × Bytes))
    → all_plain table ≡ true
    → mime_lookup ext table ≡ some m
    → Free b'\r' m
unfolding all_plain mime_lookup
mime_lookup-Free ext m [] a e = absurd (ground arith)
mime_lookup-Free ext m ((x, y) ∷ rest) a e = elim (Bool-cases (plain y)) [
  | inl p ↦ elim (Bool-cases (strcasecmp_zero ext x)) [
    | inl s ↦ let same : y ≡ m = ground arith in subst (Free b'\r') same (plain-Free y p)
    | inr s ↦ mime_lookup-Free ext m rest (ground arith) (ground arith)
  ]
  | inr p ↦ absurd (ground arith)
]

table_plain : all_plain mime_table ≡ true
unfolding all_plain plain
table_plain = refl

-- Whatever libmagic says, if it is plain, the type of a file can stand in a header.
pub get_mime_type_by_ext-Free :
    (h : Host) (path : Bytes) (n : ℕ) (m : Bytes)
    → ((k : ℕ) (d : Bytes) → h.magic_descriptor k ≡ some d → Free b'\r' d)
    → get_mime_type_by_ext h path n ≡ some m
    → Free b'\r' m
get_mime_type_by_ext-Free h path n m magic e = elim (Option-cases (strrchr path b'.')) [
  | inl no_dot ↦
      let asked : get_mime_type_by_ext h path n ≡ h.magic_descriptor n =
        (unfold get_mime_type_by_ext in rw (no_dot, get_mime_type_by_ext)) in
      magic n m (sym asked ∙ e)
  | inr (ext, dot) ↦ elim (Option-cases (mime_lookup ext mime_table)) [
    | inl unlisted ↦
        let asked : get_mime_type_by_ext h path n ≡ h.magic_descriptor n =
          (unfold get_mime_type_by_ext in rw (dot, get_mime_type_by_ext, unlisted)) in
        magic n m (sym asked ∙ e)
    | inr (y, listed) ↦
        let is : get_mime_type_by_ext h path n ≡ some y =
          (unfold get_mime_type_by_ext in rw (dot, get_mime_type_by_ext, listed)) in
        mime_lookup-Free ext m mime_table table_plain (listed ∙ sym is ∙ e)
  ]
]

strcasecmp-lower :
    (x y e : Bytes) → map to_lower x ≡ map to_lower y → strcasecmp_zero x e ≡ strcasecmp_zero y e
unfolding strcasecmp_zero
strcasecmp-lower [] [] e h = refl
strcasecmp-lower [] (d ∷ y) e h = absurd (cc)
strcasecmp-lower (c ∷ x) [] e h = absurd (cc)
strcasecmp-lower (c ∷ x) (d ∷ y) [] h = refl
strcasecmp-lower (c ∷ x) (d ∷ y) (f ∷ e) h =
    let (first, rest) = cons-injective h in rw (first, strcasecmp-lower x y e rest) refl
  where
    cons-injective : {a b : ℕ} {s t : Bytes} → a ∷ s ≡ b ∷ t → (a ≡ b) × (s ≡ t)
    cons-injective q = (cc, cc)

mime_lookup-lower :
    (x y : Bytes) (table : List (Bytes × Bytes))
    → map to_lower x ≡ map to_lower y
    → mime_lookup x table ≡ mime_lookup y table
unfolding mime_lookup
mime_lookup-lower x y [] h = refl
mime_lookup-lower x y ((e, m) ∷ rest) h =
    rw (strcasecmp-lower x y e h, mime_lookup-lower x y rest h) refl

-- Two names whose extensions differ in the case of letters alone have the same media type.
pub get_mime_type_by_ext_case :
    (h : Host) (a b x y : Bytes) (n : ℕ)
    → strrchr a b'.' ≡ some x
    → strrchr b b'.' ≡ some y
    → map to_lower x ≡ map to_lower y
    → get_mime_type_by_ext h a n ≡ get_mime_type_by_ext h b n
get_mime_type_by_ext_case h a b x y n ea eb same =
    unfold get_mime_type_by_ext in
    rw (ea, eb, get_mime_type_by_ext, mime_lookup-lower x y mime_table same) refl
