-- ===== src/Epoch/RoundTrip.antt =====
-- limnifs-core/src/epoch/mod.rs: the parser on what the writer writes.
use limnifs.Prelude.{
  ℕ, ◌+◌, ◌^◌, ◌≤◌, ◌<◌, ◌≡◌, refl, sym, ap, ◌∙◌, not, List, [], ◌++◌, append-nil, arith, ok,
  bytes_eq, bytes_eq_refl, length, replicate, take, drop, take-append_right, drop-append_right, All,
}
use limnifs.Prelude.Bytes.{IsByte}
use limnifs.Cursor.{Cursor, new}
use limnifs.Cursor.Rules.{Runs, Runs-bind, At}
use limnifs.Cursor.Guards.{reject-Runs}
use limnifs.Slab.Reader.{value_of}
use limnifs.Slab.Reader.Layout.{new-At}
use limnifs.Epoch.Header.{EpochHeader, epoch_format_version}
use limnifs.Epoch.Header.RoundTrip.{
  IsHeader, front, back, write_epoch_header-parts, length-front, header-Runs,
}
use limnifs.Epoch.Ops.{EpochOp, write_op_section}
use limnifs.Epoch.Ops.RoundTrip as OpsLayout
use limnifs.Epoch.Drops.{EpochDrop, write_drop_section}
use limnifs.Epoch.Drops.RoundTrip as DropsLayout
use limnifs.Epoch.{
  Epoch, to_bytes, own_epoch_id_offset, zero_own_epoch_id, hashed_header, compute_epoch_id, build,
  parse_epoch, from_bytes,
}

-- What `build` asks of its header: the fields that it does not fill.
pub record IsBase (h : EpochHeader) : Type 0 where
  pub version : h.version ≤ epoch_format_version
  pub flags : h.flags < 2 ^ 16
  pub parent : length h.parent_epoch_id ≡ 32
  pub base : length h.base_image_root ≡ 32
  pub sequence : h.epoch_sequence < 2 ^ 64
  pub timestamp : h.timestamp_unix < 2 ^ 64

to_bytes-parts :
    (e : Epoch)
    → to_bytes e
      ≡ front e.header
        ++ (e.header.own_epoch_id
            ++ (back e.header ++ (write_op_section e.ops ++ write_drop_section e.drops)))
unfolding to_bytes
to_bytes-parts e = write_epoch_header-parts e.header _

-- The bytes with the own id zero are those of the epoch with that id zero.
pub zero_own_epoch_id-parts :
    (xs id ys : List ℕ)
    → length xs ≡ own_epoch_id_offset
    → length id ≡ 32
    → zero_own_epoch_id (xs ++ (id ++ ys)) ≡ xs ++ (replicate 32 0 ++ ys)
unfolding zero_own_epoch_id
zero_own_epoch_id-parts xs id ys l k =
    let before : take own_epoch_id_offset (xs ++ (id ++ ys)) ≡ xs =
      take-append_right own_epoch_id_offset 0 xs (id ++ ys) (omega (arith, l)) ∙ append-nil xs in
    let behind : drop (own_epoch_id_offset + 32) (xs ++ (id ++ ys)) ≡ ys =
      drop-append_right (own_epoch_id_offset + 32) 32 xs (id ++ ys) (omega (arith, l))
      ∙ drop-append_right 32 0 id ys (omega (arith, k)) in
    ap (λ zs. zs ++ (replicate 32 0 ++ drop (own_epoch_id_offset + 32) (xs ++ (id ++ ys)))) before
    ∙ ap (λ zs. xs ++ (replicate 32 0 ++ zs)) behind

module _ (blake3 : List ℕ → List ℕ) (digests : (xs : List ℕ) → length (blake3 xs) ≡ 32) where
  build-IsHeader :
      (h : EpochHeader) (ops : List EpochOp) (drops : List EpochDrop)
      → IsBase h
      → IsHeader (build blake3 h ops drops).header
  unfolding build hashed_header compute_epoch_id
  build-IsHeader h ops drops w = record {
    version = w.version;
    flags = w.flags;
    parent = w.parent;
    base = w.base;
    sequence = w.sequence;
    ops = digests (write_op_section ops);
    drops = digests (write_drop_section drops);
    own = digests _;
    timestamp = w.timestamp;
  }

  -- The id of a built epoch is the hash of its own bytes with the id zero.
  own_epoch_id-build :
      (h : EpochHeader) (ops : List EpochOp) (drops : List EpochDrop)
      → IsBase h
      → compute_epoch_id blake3 (zero_own_epoch_id (to_bytes (build blake3 h ops drops)))
        ≡ (build blake3 h ops drops).header.own_epoch_id
  unfolding build hashed_header front back compute_epoch_id
  own_epoch_id-build h ops drops w =
      let e = build blake3 h ops drops in
      let zeroed : Epoch = record {
        header = hashed_header blake3 h ops drops;
        ops = ops;
        drops = drops;
      } in
      let header = build-IsHeader h ops drops w in
      ap blake3 (
        ap zero_own_epoch_id (to_bytes-parts e)
        ∙ (zero_own_epoch_id-parts (front e.header) e.header.own_epoch_id _
              (length-front e.header header) header.own
            ∙ sym (to_bytes-parts zeroed)))

  epoch-Runs :
      (e : Epoch) (bytes : List ℕ) (c : Cursor)
      → compute_epoch_id blake3 (zero_own_epoch_id bytes) ≡ e.header.own_epoch_id
      → IsHeader e.header
      → OpsLayout.AreOps e.ops
      → DropsLayout.AreDrops e.drops
      → At c (to_bytes e)
      → Runs e (λ _. Unit) (parse_epoch blake3 bytes c)
  unfolding parse_epoch to_bytes
  epoch-Runs e bytes c own header os ds a =
      let id = e.header.own_epoch_id in
      let same = ap (λ x. not (bytes_eq x id)) own ∙ ap not (bytes_eq_refl id) in
      Runs-bind _ (header-Runs e.header c _ header a) λ c1 (s1, a1).
        Runs-bind _ (reject-Runs _ _ c1 _ same a1) λ c2 (s2, a2).
          Runs-bind _ (OpsLayout.section-Runs e.ops c2 _ os a2) λ c3 (s3, a3).
            let a3' : At c3 (write_drop_section e.drops ++ []) = record {
              valid = a3.valid;
              unread = a3.unread ∙ sym (append-nil (write_drop_section e.drops));
            } in
            Runs-bind _ (DropsLayout.section-Runs e.drops c3 [] ds a3')
              λ c4 (s4, a4). (c4, refl, tt)

  -- With a hash of 32-byte digests: an epoch that `build` makes, of fields that fit the wire and
  -- with fewer than 2^63 bytes, parses from its bytes to itself; the recomputed id is the one in
  -- the header, and operations and drops come back in order.
  pub from_bytes-build :
      (h : EpochHeader) (ops : List EpochOp) (drops : List EpochDrop)
      → IsBase h
      → OpsLayout.AreOps ops
      → DropsLayout.AreDrops drops
      → length (to_bytes (build blake3 h ops drops)) < 2 ^ 63
      → All IsByte (to_bytes (build blake3 h ops drops))
      → from_bytes blake3 (to_bytes (build blake3 h ops drops)) ≡ ok (build blake3 h ops drops)
  unfolding from_bytes build value_of
  from_bytes-build h ops drops w os ds small are =
      let e = build blake3 h ops drops in
      let bytes = to_bytes e in
      let at = new-At bytes small are in
      let (c, run, _) : Runs e (λ _. Unit) (parse_epoch blake3 bytes (new bytes)) =
        epoch-Runs e bytes (new bytes) (own_epoch_id-build h ops drops w)
          (build-IsHeader h ops drops w) os ds at in
      ap value_of run
