-- ===== src/Seekable.antt =====
-- limnifs-core/src/seekable.rs: a drop as a container of frames, each compressed on its own, with a
-- table of their lengths at the end. The count of decoded frames, a statistic, is left out.
pub mod Starts
pub mod Range
pub mod Layout
pub mod RoundTrip
use limnifs.Prelude.{
  ℕ, zero, suc, ◌+◌, ◌-◌, ◌*◌, ◌^◌, min, Bool, true, false, not, ◌&&◌, ◌||◌, List, [], ◌∷◌, ◌++◌,
  map, Result, ok, err, ltb, leb, ◌==◌, if◌then◌else◌, bytes_eq, length, take, drop, get_or, sum,
  slice, wrap_add, wrap_sub,
}
use limnifs.Prelude.Bytes.{from_le_bytes, to_le_bytes}
use limnifs.Error.{CoreError, corrupt, Section, Fault}
use limnifs.Codec.{Codec}
use limnifs.Merkle.{hash_section}

-- b"LMSK"
abbrev pub seekable_magic : List ℕ
seekable_magic = 76 ∷ 77 ∷ 83 ∷ 75 ∷ []

abbrev pub seekable_version : ℕ
seekable_version = 1

abbrev pub footer_tail_len : ℕ
footer_tail_len = 10

abbrev pub seekable_frame_size : ℕ
seekable_frame_size = 256 * 1024

abbrev pub seekable_emission_threshold : ℕ
seekable_emission_threshold = 1024 * 1024

unfoldable pub any_of : ℕ → List ℕ → Bool
any_of id [] = false
any_of id (i ∷ is) = id == i || any_of id is

-- LZ4, ZSTD, XZ, Brotli, DEFLATE, Snappy, PPMd, bzip2, DEFLATE64, PPMd8, LZ4 HC, libdeflate.
abbrev pub seekable_codecs : List ℕ
seekable_codecs =
    0x01 ∷ 0x02 ∷ 0x03 ∷ 0x04 ∷ 0x05 ∷ 0x06 ∷ 0x0c ∷ 0x10 ∷ 0x11 ∷ 0x12 ∷ 0x13 ∷ 0x14 ∷ []

unfoldable pub is_seekable_codec : ℕ → Bool
unfolding any_of
is_seekable_codec codec_id = any_of codec_id seekable_codecs

-- The key of a frame in the cache of frames.
unfoldable pub frame_key : (List ℕ → List ℕ) → List ℕ → ℕ → List ℕ
frame_key blake3 drop_id frame_index = hash_section blake3 (drop_id ++ to_le_bytes 4 frame_index)

-- `plaintext.chunks(n)`; the length is fuel enough, since a chunk is not empty.
unfoldable pub chunks_from : ℕ → ℕ → List ℕ → List (List ℕ)
chunks_from zero n xs = []
chunks_from (suc fuel) n [] = []
chunks_from (suc fuel) n (x ∷ xs) = take n (x ∷ xs) ∷ chunks_from fuel n (drop n (x ∷ xs))

unfoldable pub chunks : ℕ → List ℕ → List (List ℕ)
chunks n [] = [] ∷ []
chunks n (x ∷ xs) = chunks_from (length (x ∷ xs)) n (x ∷ xs)

-- The table's entry of a frame: the lengths of its plaintext and of its compressed bytes.
unfoldable pub encode_lens : ℕ × ℕ → List ℕ
encode_lens (uncomp, comp) = to_le_bytes 4 uncomp ++ to_le_bytes 4 comp

unfoldable pub encode_table : List (ℕ × ℕ) → List ℕ
unfolding encode_lens
encode_table [] = []
encode_table (f ∷ fs) = encode_lens f ++ encode_table fs

unfoldable pub encode_tail : ℕ → List ℕ
encode_tail frame_count =
    seekable_magic ++ (to_le_bytes 2 seekable_version ++ to_le_bytes 4 frame_count)

-- What the loop over the frames leaves: the compressed bytes in a row, and the pairs of lengths.
pub record Packed : Type 0 where
  pub body : List ℕ
  pub lens : List (ℕ × ℕ)

-- One frame in front of those behind it.
unfoldable pub pack_frame :
    List ℕ → Result CoreError (List ℕ) → Result CoreError Packed → Result CoreError Packed
pack_frame frame (err e) rest = err e
pack_frame frame (ok compressed) rest =
    if leb (2 ^ 32) (length compressed)
    then err (corrupt Section.seekable Fault.overflow)
    else elim rest [
      | err e ↦ err e
      | ok p ↦ ok (record {
        body = compressed ++ p.body;
        lens = (length frame, length compressed) ∷ p.lens;
      })
    ]

unfoldable pub pack : Codec → ℕ → List (List ℕ) → Result CoreError Packed
unfolding pack_frame
pack codec id [] = ok (record { body = []; lens = [] })
pack codec id (frame ∷ frames) = pack_frame frame (codec.compress id frame) (pack codec id frames)

unfoldable pub encode_seekable : Codec → ℕ → List ℕ → Result CoreError (List ℕ)
encode_seekable codec id plaintext = elim (pack codec id (chunks seekable_frame_size plaintext)) [
  | err e ↦ err e
  | ok p ↦ ok (p.body ++ (encode_table p.lens ++ encode_tail (length p.lens)))
]

pub record SeekFooter : Type 0 where
  pub uncomp_lens : List ℕ
  pub comp_lens : List ℕ
  pub starts : List ℕ
  pub total_uncomp : ℕ

unfoldable pub total_comp : SeekFooter → ℕ
total_comp f = sum f.comp_lens

unfoldable pub uncomp_offset : SeekFooter → ℕ → ℕ
uncomp_offset f i = get_or f.starts (min i (length f.starts - 1)) 0

-- `starts.partition_point(|s| s <= off)`: how many starts in front are not above `off`.
unfoldable pub partition_point : ℕ → List ℕ → ℕ
partition_point off [] = 0
partition_point off (s ∷ ss) = if leb s off then suc (partition_point off ss) else 0

unfoldable pub frame_containing : SeekFooter → ℕ → ℕ
unfolding partition_point
frame_containing f off = partition_point off f.starts - 1

unfoldable pub compressed_offset_of : SeekFooter → ℕ → ℕ
compressed_offset_of f i = sum (take i f.comp_lens)

unfoldable pub read_u32_at : List ℕ → ℕ → ℕ
read_u32_at container e = from_le_bytes (slice e 4 container)

-- The loop over the table from the entry at `e`.
unfoldable pub read_table : List ℕ → ℕ → ℕ → List (ℕ × ℕ)
unfolding read_u32_at
read_table container e zero = []
read_table container e (suc n) =
    (read_u32_at container e, read_u32_at container (e + 4)) ∷ read_table container (e + 8) n

-- The sums that are pushed, the last one behind all.
unfoldable pub starts_from : ℕ → List ℕ → List ℕ
starts_from acc [] = acc ∷ []
starts_from acc (l ∷ ls) = acc ∷ starts_from (acc + l) ls

unfoldable pub uncomp_of : List (ℕ × ℕ) → List ℕ
uncomp_of [] = []
uncomp_of ((u, c) ∷ fs) = u ∷ uncomp_of fs

unfoldable pub comp_of : List (ℕ × ℕ) → List ℕ
comp_of [] = []
comp_of ((u, c) ∷ fs) = c ∷ comp_of fs

unfoldable pub footer_of : List (ℕ × ℕ) → SeekFooter
unfolding uncomp_of comp_of starts_from
footer_of fs = record {
  uncomp_lens = uncomp_of fs;
  comp_lens = comp_of fs;
  starts = starts_from 0 (uncomp_of fs);
  total_uncomp = sum (uncomp_of fs);
}

unfoldable pub any_zero : List ℕ → Bool
any_zero [] = false
any_zero (l ∷ ls) = if l == 0 then true else any_zero ls

-- The checks behind the table.
unfoldable pub check_footer : ℕ → SeekFooter → Result CoreError SeekFooter
unfolding total_comp any_zero
check_footer body_len f =
    if not (total_comp f == body_len)
    then err (corrupt Section.seekable Fault.length_mismatch)
    else if any_zero f.uncomp_lens && ltb 1 (length f.uncomp_lens)
    then err (corrupt Section.seekable Fault.zero_length)
    else ok f

unfoldable pub parse_table : List ℕ → ℕ → Result CoreError SeekFooter
unfolding check_footer footer_of read_table
parse_table container frame_count =
    let body = length container - footer_tail_len in
    if ltb body (frame_count * 8)
    then err (corrupt Section.seekable Fault.overrun)
    else check_footer (body - frame_count * 8)
        (footer_of (read_table container (body - frame_count * 8) frame_count))

unfoldable pub parse_footer : List ℕ → Result CoreError SeekFooter
unfolding parse_table
parse_footer container =
    let tail = drop (length container - footer_tail_len) container in
    if ltb (length container) (8 + footer_tail_len)
    then err (corrupt Section.seekable Fault.below_minimum)
    else if not (bytes_eq (take 4 tail) seekable_magic)
    then err (corrupt Section.seekable Fault.bad_magic_bytes)
    else if not (from_le_bytes (slice 4 2 tail) == seekable_version)
    then err (corrupt Section.seekable Fault.version)
    else parse_table container (from_le_bytes (slice 6 4 tail))

-- `out.extend_from_slice(..)` in front of what the rest of a loop appends.
unfoldable pub prepend : List ℕ → Result CoreError (List ℕ) → Result CoreError (List ℕ)
prepend xs (err e) = err e
prepend xs (ok ys) = ok (xs ++ ys)

-- The loop over the frames, from the one whose bytes start at `pos`.
unfoldable pub decode_frames : Codec → ℕ → List ℕ → ℕ → List ℕ → List ℕ → Result CoreError (List ℕ)
unfolding prepend
decode_frames codec id container pos [] us = ok []
decode_frames codec id container pos (c ∷ cs) [] = ok []
decode_frames codec id container pos (c ∷ cs) (u ∷ us) =
    elim (codec.decompress id (slice pos c container) u) [
      | err e ↦ err e
      | ok frame ↦ prepend frame (decode_frames codec id container (pos + c) cs us)
    ]

unfoldable pub decode_seekable : Codec → ℕ → List ℕ → ℕ → Result CoreError (List ℕ)
unfolding decode_frames parse_footer
decode_seekable codec id container expected_len = elim (parse_footer container) [
  | err e ↦ err e
  | ok f ↦
      if not (f.total_uncomp == expected_len)
      then err (corrupt Section.seekable Fault.length_mismatch)
      else decode_frames codec id container 0 f.comp_lens f.uncomp_lens
]

-- What a frame at plaintext offset `cum` adds; `end` is the range's end, `off + len`.
unfoldable pub frame_part : ℕ → ℕ → ℕ → ℕ → List ℕ → Result CoreError (List ℕ)
unfolding wrap_sub
frame_part off end cum uncomp_len decoded =
    let slice_from = off - cum in
    let slice_to = min (wrap_sub end cum) uncomp_len in
    if ltb slice_to slice_from || ltb (length decoded) slice_to
    then err (corrupt Section.seekable Fault.panic)
    else ok (slice slice_from (slice_to - slice_from) decoded)

-- The loop over the frames from the first that the range needs.
unfoldable pub range_frames :
    Codec → ℕ → List ℕ → ℕ → ℕ → ℕ → ℕ → List ℕ → List ℕ → Result CoreError (List ℕ)
unfolding prepend frame_part
range_frames codec id container off end comp_pos cum [] us = ok []
range_frames codec id container off end comp_pos cum (c ∷ cs) [] = ok []
range_frames codec id container off end comp_pos cum (c ∷ cs) (u ∷ us) =
    let rest = range_frames codec id container off end (comp_pos + c) (cum + u) cs us in
    elim (codec.decompress id (slice comp_pos c container) u) [
      | err e ↦ err e
      | ok decoded ↦ elim (frame_part off end cum u decoded) [
        | err e ↦ err e
        | ok part ↦ if leb end (cum + u) then ok part else prepend part rest
      ]
    ]

-- The range with the footer parsed.
unfoldable pub range_of : Codec → ℕ → List ℕ → ℕ → ℕ → SeekFooter → Result CoreError (List ℕ)
unfolding range_frames frame_containing compressed_offset_of uncomp_offset wrap_add
range_of codec id container off len f =
    let first = frame_containing f off in
    let end = wrap_add off len in
    if ltb f.total_uncomp off || ltb f.total_uncomp end
    then err (corrupt Section.seekable Fault.outside)
    else range_frames codec id container off end (compressed_offset_of f first)
        (uncomp_offset f first) (drop first f.comp_lens) (drop first f.uncomp_lens)

unfoldable pub decode_seekable_range : Codec → ℕ → List ℕ → ℕ → ℕ → Result CoreError (List ℕ)
unfolding parse_footer range_of
decode_seekable_range codec id container off len = elim (parse_footer container) [
  | err e ↦ err e
  | ok f ↦ range_of codec id container off len f
]
