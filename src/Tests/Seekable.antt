-- ===== src/Tests/Seekable.antt =====
-- The theorems on seekable drops (limnifs-core/src/seekable.rs) with a codec that stores its input.
use limnifs.Prelude.{
  ℕ, ◌≡◌, refl, true, false, sym, ◌+◌, List, [], ◌∷◌, Result, ok, err, if◌then◌else◌, arith, leb,
  ◌==◌, ==_refl, bytes_eq, length, slice, ok_injective, else_ok, not,
}
use limnifs.Prelude.Bytes.{from_le_bytes, to_le_bytes}
use limnifs.Error.{CoreError, corrupt, Section, Fault}
use limnifs.Codec.{Codec, IsLossless}
use limnifs.Seekable.{
  is_seekable_codec, any_of, chunks_from, chunks, pack_frame, pack, encode_lens, encode_table,
  encode_tail, encode_seekable, decode_frames, prepend, decode_seekable, decode_seekable_range,
  parse_footer, parse_table, check_footer, footer_of, read_table, read_u32_at, uncomp_of, comp_of,
  starts_from, total_comp, any_zero,
}
use limnifs.Seekable.RoundTrip.{
  decode_seekable-encode_seekable, decode_seekable_range-decode_seekable,
}

abbrev pub stored_decompress : ℕ → List ℕ → ℕ → Result CoreError (List ℕ)
stored_decompress id bytes n =
    if not (length bytes == n) then err (corrupt Section.codec Fault.length_mismatch) else ok bytes

-- `CODEC_STORE` under every id.
abbrev pub stored : Codec
stored = record {
  compress = λ id bytes. ok bytes;
  decompress = stored_decompress;
  decompress_with_dict = λ bytes n dict. stored_decompress 0 bytes n;
}

pub stored-IsLossless : IsLossless stored
stored-IsLossless = record {
  sized = λ id bytes n out e.
      let (t, same) = else_ok _ (not (length bytes == n)) e in ground (arith, t, ok_injective same);
  dict_sized = λ bytes n dict out e.
      let (t, same) = else_ok _ (not (length bytes == n)) e in ground (arith, t, ok_injective same);
  lossless = λ id bytes out e. rw (sym (ok_injective e)) (rw (==_refl (length bytes)) refl);
}

abbrev plaintext : List ℕ
plaintext = 1 ∷ 2 ∷ 3 ∷ []

abbrev container : List ℕ
container =
    1 ∷ 2 ∷ 3 ∷ 3 ∷ 0 ∷ 0 ∷ 0 ∷ 3 ∷ 0 ∷ 0 ∷ 0 ∷ 76 ∷ 77 ∷ 83 ∷ 75 ∷ 1 ∷ 0 ∷ 1 ∷ 0 ∷ 0 ∷ 0 ∷ []

encoded : encode_seekable stored 0 plaintext ≡ ok container
unfolding encode_seekable pack pack_frame chunks chunks_from encode_table encode_lens encode_tail
    to_le_bytes
encoded = refl

decode_seekable_example : decode_seekable stored 0 container 3 ≡ ok plaintext
decode_seekable_example =
    decode_seekable-encode_seekable stored 0 plaintext container stored-IsLossless (omega arith)
      encoded

-- Two frames, of three bytes and of two.
abbrev frames : List ℕ
frames =
    1 ∷ 2 ∷ 3 ∷ 4 ∷ 5 ∷ 3 ∷ 0 ∷ 0 ∷ 0 ∷ 3 ∷ 0 ∷ 0 ∷ 0 ∷ 2 ∷ 0 ∷ 0 ∷ 0 ∷ 2 ∷ 0 ∷ 0 ∷ 0 ∷ 76 ∷ 77 ∷ 83
    ∷ 75 ∷ 1 ∷ 0 ∷ 2 ∷ 0 ∷ 0 ∷ 0 ∷ []

abbrev five : List ℕ
five = 1 ∷ 2 ∷ 3 ∷ 4 ∷ 5 ∷ []

frames_decode : decode_seekable stored 0 frames 5 ≡ ok five
unfolding decode_seekable parse_footer parse_table check_footer footer_of read_table read_u32_at
    uncomp_of comp_of starts_from total_comp any_zero decode_frames prepend from_le_bytes bytes_eq
frames_decode = refl

decode_seekable_range_example : decode_seekable_range stored 0 frames 2 2 ≡ (
    if leb (2 + 2) (length five)
    then ok (slice 2 2 five)
    else err (corrupt Section.seekable Fault.outside))
decode_seekable_range_example =
    decode_seekable_range-decode_seekable stored 0 frames 5 2 2 five stored-IsLossless (omega arith)
      frames_decode

lz4_is_seekable : is_seekable_codec 1 ≡ true
unfolding is_seekable_codec any_of
lz4_is_seekable = refl

stored_is_not_seekable : is_seekable_codec 0 ≡ false
unfolding is_seekable_codec any_of
stored_is_not_seekable = refl
