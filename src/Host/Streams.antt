-- ===== src/Host/Streams.antt =====
-- What `fopen` and `fclose` do to the set of open streams.
use simple_web_server.Base.{
  ℕ, suc, ◌≡◌, refl, ◌≢◌, ◌⊎◌, inl, inr, ◌+◌, true, false, List, ◌∷◌, ◌==◌, arith,
}
use simple_web_server.Client.{File}
use simple_web_server.CString.{Bytes}
use simple_web_server.Host.{
  Host, Lookup, node, eacces, other_error, World, is_open, remove, stream, not_opened, fopen,
  fclose,
}

-- The new stream, and the world with it.
abbrev pub stream_of : ℕ → World → File
stream_of n w = record { handle = w.next_handle; node = n }

abbrev pub with_stream : World → World
with_stream w = record w {
  next_handle = suc w.next_handle;
  open_files = w.next_handle ∷ w.open_files;
}

pub fopen-cases :
    (h : Host) (path : Bytes) (w : World)
    → ((n : ℕ) × (fopen h path w ≡ stream (stream_of n w) (with_stream w)))
      ⊎ ((e : Lookup) × (fopen h path w ≡ not_opened e))
fopen-cases h path w = unfold fopen in by_lookup (h.lookup path)
  where
    by_lookup :
        (l : Lookup)
        → ((n : ℕ) × ((elim l [
          | node m ↦ stream (stream_of m w) (with_stream w)
          | eacces ↦ not_opened eacces
          | other_error ↦ not_opened other_error
        ])
              ≡ stream (stream_of n w) (with_stream w)))
          ⊎ ((e : Lookup) × ((elim l [
            | node m ↦ stream (stream_of m w) (with_stream w)
            | eacces ↦ not_opened eacces
            | other_error ↦ not_opened other_error
          ])
                ≡ not_opened e))
    by_lookup (node n) = inl (n, refl)
    by_lookup eacces = inr (eacces, refl)
    by_lookup other_error = inr (other_error, refl)

-- The stream that was opened last is closed.
pub fclose-first :
    (f : File) (w : World) (others : List ℕ)
    → w.open_files ≡ f.handle ∷ others
    → fclose f w ≡ record w { open_files = others }
fclose-first f w others e =
    let same : (f.handle == f.handle) ≡ true = ground arith in
    unfold fclose in unfold is_open in unfold remove in rw (e, is_open, remove, same)

-- The one before it is closed.
pub fclose-second :
    (f : File) (w : World) (n : ℕ) (others : List ℕ)
    → w.open_files ≡ n ∷ f.handle ∷ others
    → f.handle ≢ n
    → fclose f w ≡ record w { open_files = n ∷ others }
fclose-second f w n others e ne =
    let same : (f.handle == f.handle) ≡ true = ground arith in
    let other : (f.handle == n) ≡ false = ground arith in
    unfold fclose in unfold is_open in unfold remove in rw (e, is_open, remove, same, other)

-- A stream that is not open is closed.
pub fclose-bad :
    (f : File) (w : World)
    → is_open f.handle w.open_files ≡ false
    → fclose f w ≡ record w { bad_closes = w.bad_closes + 1 }
fclose-bad f w e = unfold fclose in rw e

pub fclose-effects : (f : File) (w : World) → (fclose f w).effects ≡ w.effects
unfolding fclose
fclose-effects f w = ground arith
