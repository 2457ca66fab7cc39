-- ===== src/Manifest/History/Chunks.antt =====
-- limnifs-core/src/history.rs: `chunks_exact(32)` cuts a concatenation of 32-byte roots.
use limnifs.Prelude.{
  ℕ, zero, suc, ◌*◌, ◌/◌, ◌≡◌, refl, ap, List, [], ◌∷◌, ◌++◌, arith, length, take, drop, All,
  length-append, length-take, length-drop, take-append-drop, take-length-append, drop-length-append,
}
use limnifs.Cursor.Loops.{encode_list}
use limnifs.Manifest.History.{chunks, chunks_exact}

-- The roots one after the other.
abbrev pub concat : List (List ℕ) → List ℕ
concat = encode_list (λ r. r)

abbrev pub IsRoot : List ℕ → Type 0
IsRoot r = length r ≡ 32

pub length-concat : (rs : List (List ℕ)) → All IsRoot rs → length (concat rs) ≡ length rs * 32
length-concat [] h = omega arith
length-concat (r ∷ rs) (e, h) = omega (arith, length-concat rs h, length-append r (concat rs))

chunks-concat : (rs : List (List ℕ)) → All IsRoot rs → chunks (length rs) (concat rs) ≡ rs
unfolding chunks
chunks-concat [] h = refl
chunks-concat (r ∷ rs) (e, h) =
    let front : take 32 (r ++ concat rs) ≡ r = rw e at (take-length-append r (concat rs)) in
    let back : drop 32 (r ++ concat rs) ≡ concat rs = rw e at (drop-length-append r (concat rs)) in
    rw (front, back, chunks-concat rs h)

pub chunks_exact-concat : (rs : List (List ℕ)) → All IsRoot rs → chunks_exact (concat rs) ≡ rs
unfolding chunks_exact
chunks_exact-concat rs h =
    let e : length (concat rs) / 32 ≡ length rs = omega (arith, length-concat rs h) in
    rw e (chunks-concat rs h)

concat-chunks :
    (n : ℕ) (bytes : List ℕ)
    → length bytes ≡ n * 32
    → (concat (chunks n bytes) ≡ bytes)
      × (length (chunks n bytes) ≡ n)
      × All IsRoot (chunks n bytes)
unfolding chunks
concat-chunks zero [] e = (refl, refl, tt)
concat-chunks zero (b ∷ bs) e = absurd (omega arith)
concat-chunks (suc n) bytes e =
    let (p, q, r) = concat-chunks n (drop 32 bytes) (omega (arith, length-drop 32 bytes)) in
    (rw p (take-append-drop 32 bytes), ap suc q, (omega (arith, length-take 32 bytes), r))

pub concat-chunks_exact :
    (n : ℕ) (bytes : List ℕ)
    → length bytes ≡ n * 32
    → (concat (chunks_exact bytes) ≡ bytes)
      × (length (chunks_exact bytes) ≡ n)
      × All IsRoot (chunks_exact bytes)
unfolding chunks_exact
concat-chunks_exact n bytes e =
    let q : length bytes / 32 ≡ n = omega arith in rw q (concat-chunks n bytes e)
