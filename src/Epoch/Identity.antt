-- ===== src/Epoch/Identity.antt =====
-- limnifs-core/src/epoch/mod.rs: what an epoch's id says of its bytes.
use limnifs.Prelude.{
  ℕ, ◌^◌, ◌<◌, ◌≡◌, refl, sym, ap, subst, ◌∙◌, ◌⊎◌, inl, inr, List, ◌++◌, append_assoc,
  append_split, arith, ok, err, ok_injective, bytes_eq→eq, length, drop, replicate, All,
}
use limnifs.Prelude.Bytes.{IsByte, to_le_bytes}
use limnifs.Error.{Section}
use limnifs.Cursor.{
  Cursor, Outcome, new, remaining, read_n, read_u16_le, read_u32_le, read_u64_le, skip,
}
use limnifs.Cursor.Steps.{IsValid, Steps, Steps-inside, follow, after}
use limnifs.Cursor.Rules.{Sound, Sound-ok, Sound-err, Sound-bind, Took}
use limnifs.Cursor.Reads.{read_n-Sound, read_u16-Sound, read_u32-Sound, read_u64-Sound}
use limnifs.Cursor.Guards.{reject-Sound}
use limnifs.Slab.Reader.{value_of}
use limnifs.Slab.Reader.Layout.{new-IsValid}
use limnifs.Merkle.Root.{Collision, collide}
use limnifs.Epoch.Named.{named-Sound}
use limnifs.Epoch.Header.{EpochHeader, copy_id, parse_epoch_header}
use limnifs.Epoch.Ops.{parse_op_section}
use limnifs.Epoch.Drops.{parse_drop_section}
use limnifs.Epoch.{
  Epoch, own_epoch_id_offset, zero_own_epoch_id, compute_epoch_id, parse_epoch, from_bytes,
}
use limnifs.Epoch.RoundTrip.{zero_own_epoch_id-parts}

-- The header's bytes around the own id.
record Around (c : Cursor) (h : EpochHeader) (c' : Cursor) : Type 0 where
  before : List ℕ
  behind : List ℕ
  offset : length before ≡ own_epoch_id_offset
  width : length h.own_epoch_id ≡ 32
  steps : Steps c (before ++ (h.own_epoch_id ++ behind)) c'

id-Sound : (c : Cursor) → IsValid c → Sound (Took (λ xs. length xs ≡ 32) (λ xs. xs) c) (copy_id c)
unfolding copy_id
id-Sound c v = named-Sound Section.epoch_header (read_n 32) c (read_n-Sound 32 c v)

skip-Sound :
    (n : ℕ) (c : Cursor)
    → IsValid c
    → Sound (λ _ c'. (xs : List ℕ) × Steps c xs c' × IsValid c') (skip n c)
unfolding skip
skip-Sound n c v = Sound-bind (read_n-Sound n c v) λ xs c1 (h1, s1, v1). Sound-ok (xs, s1, v1)

header-Sound : (c : Cursor) → IsValid c → Sound (Around c) (parse_epoch_header c)
unfolding parse_epoch_header to_le_bytes
header-Sound c v =
    Sound-bind (named-Sound Section.epoch_header read_u32_le c (read_u32-Sound c v))
      λ magic c1 (h1, s1, v1). Sound-bind (reject-Sound _ _ c1 v1) λ _ c2 (h2, s2, v2).
        Sound-bind (named-Sound Section.epoch_header read_u16_le c2 (read_u16-Sound c2 v2))
          λ version c3 (h3, s3, v3). Sound-bind (reject-Sound _ _ c3 v3) λ _ c4 (h4, s4, v4).
            Sound-bind (named-Sound Section.epoch_header read_u16_le c4 (read_u16-Sound c4 v4))
              λ flags c5 (h5, s5, v5). Sound-bind (id-Sound c5 v5) λ parent c6 (h6, s6, v6).
                Sound-bind (id-Sound c6 v6) λ base c7 (h7, s7, v7).
                  Sound-bind
                    (named-Sound Section.epoch_header read_u64_le c7 (read_u64-Sound c7 v7))
                    λ sequence c8 (h8, s8, v8). Sound-bind (id-Sound c8 v8) λ ops c9 (h9, s9, v9).
                      Sound-bind (id-Sound c9 v9) λ drops c10 (h10, s10, v10).
                        Sound-bind (id-Sound c10 v10) λ own c11 (h11, s11, v11).
                          Sound-bind
                            (named-Sound Section.epoch_header read_u64_le c11
                              (read_u64-Sound c11 v11))
                            λ time c12 (h12, s12, v12).
                              Sound-bind
                                (named-Sound Section.epoch_header (skip 16) c12
                                  (skip-Sound 16 c12 v12))
                                λ _ c13 (reserved, s13, v13).
                                  let head = follow (after s1 s2) (
                                    follow (after s3 s4) (
                                      follow s5
                                        (follow s6 (follow s7 (follow s8 (follow s9 s10)))))) in
                                  Sound-ok (record {
                                    before =
                                        to_le_bytes 4 magic
                                        ++ (to_le_bytes 2 version
                                            ++ (to_le_bytes 2 flags
                                                ++ (parent
                                                    ++ (base
                                                        ++ (to_le_bytes 8 sequence
                                                            ++ (ops ++ drops))))));
                                    behind = to_le_bytes 8 time ++ reserved;
                                    offset = omega (
                                      arith, head.moved, s1.moved, s2.moved, s3.moved, s4.moved,
                                      s5.moved, s6.moved, s7.moved, s8.moved, s9.moved, s10.moved,
                                      h6, h7, h9, h10,
                                    );
                                    width = h11;
                                    steps = follow head (follow s11 (follow s12 s13));
                                  })

-- What a parsed epoch says of its bytes.
record Sealed (blake3 : List ℕ → List ℕ) (bytes : List ℕ) (e : Epoch) : Type 0 where
  before : List ℕ
  behind : List ℕ
  offset : length before ≡ own_epoch_id_offset
  width : length e.header.own_epoch_id ≡ 32
  split : bytes ≡ before ++ (e.header.own_epoch_id ++ behind)
  own : blake3 (zero_own_epoch_id bytes) ≡ e.header.own_epoch_id

parse-Sound :
    (blake3 : List ℕ → List ℕ) (bytes : List ℕ)
    → length bytes < 2 ^ 63
    → All IsByte bytes
    → Sound (λ e _. Sealed blake3 bytes e) (parse_epoch blake3 bytes (new bytes))
unfolding parse_epoch compute_epoch_id new remaining
parse-Sound blake3 bytes small are =
    Sound-bind (header-Sound (new bytes) (new-IsValid bytes small are)) λ h c1 a.
      Sound-bind (reject-Sound _ _ c1 (Steps-inside (new-IsValid bytes small are) a.steps))
        λ _ c2 (h2, s2, v2). Sound-bind (any-Sound (parse_op_section c2)) λ ops c3 _.
          Sound-bind (any-Sound (parse_drop_section c3)) λ drops c4 _. Sound-ok (record {
            before = a.before;
            behind = a.behind ++ drop c1.pos c1.bytes;
            offset = a.offset;
            width = a.width;
            split =
                a.steps.split
                ∙ (append_assoc a.before (h.own_epoch_id ++ a.behind) (drop c1.pos c1.bytes)
                    ∙ ap (λ ys. a.before ++ ys)
                        (append_assoc h.own_epoch_id a.behind (drop c1.pos c1.bytes)));
            own = bytes_eq→eq _ _ (ground (arith, h2));
          })
  where
    any-Sound : {A : Type 0} (o : Outcome A) → Sound (λ _ _. Unit) o
    any-Sound (ok x) = Sound-ok tt
    any-Sound (err e) = Sound-err

value_of_lem :
    {Q : Epoch → Cursor → Type 0} (o : Outcome Epoch) (e : Epoch)
    → Sound Q o
    → value_of o ≡ ok e
    → (c : Cursor) × Q e c
unfolding value_of
value_of_lem {Q} (ok (a, c)) e s p = (c, subst (λ x. Q x c) (ok_injective p) s.holds)
value_of_lem (err x) e s p = cc

-- An epoch's id is an identity of its bytes up to collisions of the hash: if two byte strings that
-- fit a slice parse as epochs with one id, then they are the same bytes, the reserved ones and
-- those behind the last drop included, or two different inputs with the same digest are at hand.
pub from_bytes_binding :
    (blake3 : List ℕ → List ℕ) (xs ys : List ℕ) (e f : Epoch)
    → length xs < 2 ^ 63
    → length ys < 2 ^ 63
    → All IsByte xs
    → All IsByte ys
    → from_bytes blake3 xs ≡ ok e
    → from_bytes blake3 ys ≡ ok f
    → e.header.own_epoch_id ≡ f.header.own_epoch_id
    → (xs ≡ ys) ⊎ Collision blake3
unfolding from_bytes
from_bytes_binding blake3 xs ys e f small_xs small_ys are_xs are_ys p q same =
    let (_, s) = value_of_lem _ e (parse-Sound blake3 xs small_xs are_xs) p in
    let (_, t) = value_of_lem _ f (parse-Sound blake3 ys small_ys are_ys) q in
    elim (collide blake3 (zero_own_epoch_id xs) (zero_own_epoch_id ys)
      (s.own ∙ (same ∙ sym t.own))) [
        | inr collision ↦ inr collision
        | inl zeroed ↦
            let left =
              ap zero_own_epoch_id s.split
              ∙ zero_own_epoch_id-parts s.before e.header.own_epoch_id s.behind s.offset s.width in
            let right =
              ap zero_own_epoch_id t.split
              ∙ zero_own_epoch_id-parts t.before f.header.own_epoch_id t.behind t.offset t.width in
            let (before, rest) =
              append_split s.before _ t.before _ (s.offset ∙ sym t.offset)
                (sym left ∙ (zeroed ∙ right)) in
            let (_, behind) =
              append_split (replicate 32 0) s.behind (replicate 32 0) t.behind refl rest in
            inl (
              s.split
              ∙ (ap (λ zs. zs ++ (e.header.own_epoch_id ++ s.behind)) before
                  ∙ (ap (λ zs. t.before ++ (zs ++ s.behind)) same
                      ∙ (ap (λ zs. t.before ++ (f.header.own_epoch_id ++ zs)) behind
                          ∙ sym t.split))))
      ]
