-- ===== src/Error.antt =====
-- limnifs-core/src/error.rs: the errors of the parsers. A message's text is reduced to the section
-- that raised it and the rule that the input broke; the numbers that a text quotes, and the entry
-- index that some callers put in front of it, are left out. The fault `panic` is no error of the
-- program: it stands for a slice or an index outside its bounds, where the program panics.
use limnifs.Prelude.{ℕ, List}

pub data Section : Type 0 where
  cursor manifest_header feature_flags locator slab_index slab_header drop_record : Section
  metadata_reference history delta_linkage ec_params dms_policy directory_node inode : Section
  seekable metadata_blob shared_inline slab drop_read paged epoch_header epoch_ops epoch_drops :
      Section
  epoch codec chunking_config dictionary encryption_descriptor profile_descriptor : Section
  compression_tournament categorization_policy : Section

pub data Fault : Type 0 where
  overflow version reserved_nonzero zero_id bad_flag duplicate none_declared : Fault
  below_minimum above_ceiling not_utf8 no_separator empty_scheme bad_scheme empty_part : Fault
  bad_magic_bytes extended unknown_code unexpected_aead unexpected_ec unreachable : Fault
  length_mismatch decompress_failed empty_name nul_byte slash double_slash unsorted : Fault
  zero_k zero_m too_many_shards bad_polynomial count_mismatch zero_length : Fault
  empty_slice gap reserved_flags overrun outside truncated panic : Fault

pub data CoreError : Type 0 where
  too_short : ℕ → ℕ → CoreError
  bad_magic : List ℕ → CoreError
  corrupt : Section → Fault → CoreError
  unsupported_feature : Section → Fault → CoreError
