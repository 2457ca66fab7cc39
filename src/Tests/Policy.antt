-- ===== src/Tests/Policy.antt =====
-- The theorems on delta linkage and share policies (limnifs-core/src) at concrete images.
use limnifs.Prelude.{◌≡◌, refl, none, some, [], ◌∷◌, ◌++◌, arith, ok, bytes_eq, replicate}
use limnifs.Prelude.Bytes.{from_le_bytes, to_le_bytes}
use limnifs.Cursor.{
  Cursor, reject, or_fail, read_n, read_n_owned, read_u8, read_u16_le, read_u32_le, read_u64_le,
  checked_mul, ensure_remaining, parse_list, branch, remaining, remaining_len,
}
use limnifs.Cursor.Steps.{IsValid, Steps}
use limnifs.Cursor.Unique.{any}
use limnifs.Prelude.Utf8.{is_utf8, utf8_rest, contains, contains_pair}
use limnifs.Manifest.DeltaLinkage
use limnifs.Manifest.DeltaLinkage.RoundTrip as DeltaLayout
use limnifs.Manifest.DmsPolicy
use limnifs.Manifest.DmsPolicy.RoundTrip as DmsLayout

abbrev delta : DeltaLinkage.DeltaLinkage
delta = record {
  base_root = replicate 32 7;
  tree_ops =
      record {
        kind = DeltaLinkage.TreeOpKind.add;
        path = b'a' ∷ b'/' ∷ b'b' ∷ [];
        inode_number = some 5;
      }
      ∷ record { kind = DeltaLinkage.TreeOpKind.remove; path = b'c' ∷ []; inode_number = none }
      ∷ [];
}

abbrev delta_cursor : Cursor
delta_cursor = record {
  bytes =
      1 ∷ 7 ∷ 7 ∷ 7 ∷ 7 ∷ 7 ∷ 7 ∷ 7 ∷ 7 ∷ 7 ∷ 7 ∷ 7 ∷ 7 ∷ 7 ∷ 7 ∷ 7 ∷ 7 ∷ 7 ∷ 7 ∷ 7 ∷ 7 ∷ 7 ∷ 7 ∷ 7
      ∷ 7 ∷ 7 ∷ 7 ∷ 7 ∷ 7 ∷ 7 ∷ 7 ∷ 7 ∷ 7 ∷ 2 ∷ 0 ∷ 0 ∷ 0 ∷ 1 ∷ 3 ∷ 0 ∷ 0 ∷ 0 ∷ 97 ∷ 47 ∷ 98 ∷ 5 ∷ 0
      ∷ 0 ∷ 0 ∷ 0 ∷ 0 ∷ 0 ∷ 0 ∷ 2 ∷ 1 ∷ 0 ∷ 0 ∷ 0 ∷ 99 ∷ 9 ∷ [];
  pos = 0;
}

delta-IsValid : IsValid delta_cursor
delta-IsValid = omega arith

delta_bytes : remaining delta_cursor ≡ DeltaLayout.encode delta ++ (9 ∷ [])
unfolding remaining to_le_bytes DeltaLayout.encode DeltaLayout.encode_op
    DeltaLayout.encode_inode_number DeltaLayout.kind_byte
delta_bytes = refl

delta_parsed :
    DeltaLinkage.parse_delta_linkage delta_cursor ≡ ok (delta, record delta_cursor { pos = 59 })
unfolding DeltaLinkage.parse_delta_linkage DeltaLinkage.parse_tree_op DeltaLinkage.read_inode_number
    DeltaLinkage.from_byte DeltaLinkage.has_inode_number is_utf8 utf8_rest contains contains_pair
    read_n_owned read_n reject read_u8 read_u16_le read_u32_le read_u64_le bytes_eq from_le_bytes
    remaining_len checked_mul ensure_remaining parse_list any or_fail branch
delta_parsed = refl

delta_well : DeltaLayout.IsWellFormed delta
delta_well =
    (DeltaLayout.parse_delta_linkage_canonical delta_cursor delta (record delta_cursor { pos = 59 })
      delta-IsValid delta_parsed).0

delta_round_trip :
    (c' : Cursor) × (DeltaLinkage.parse_delta_linkage delta_cursor ≡ ok (delta, c'))
    × Steps delta_cursor (DeltaLayout.encode delta) c'
    × (remaining c' ≡ 9 ∷ [])
delta_round_trip =
    DeltaLayout.parse_delta_linkage-encode delta delta_cursor (9 ∷ []) delta_well delta-IsValid
      delta_bytes

delta_canonical :
    DeltaLayout.IsWellFormed delta
    × Steps delta_cursor (DeltaLayout.encode delta) (record delta_cursor { pos = 59 })
delta_canonical =
    DeltaLayout.parse_delta_linkage_canonical delta_cursor delta (record delta_cursor { pos = 59 })
      delta-IsValid delta_parsed

abbrev policy : DmsPolicy.DmsPolicy
policy = record {
  k = 1;
  n = 2;
  shares =
      record { custodian_id = b'a' ∷ []; share_data = 1 ∷ 2 ∷ [] }
      ∷ record { custodian_id = b'b' ∷ []; share_data = 3 ∷ [] }
      ∷ [];
  reconstruction_hint = some (b'h' ∷ []);
}

abbrev policy_cursor : Cursor
policy_cursor = record {
  bytes =
      1 ∷ 0 ∷ 1 ∷ 2 ∷ 2 ∷ 0 ∷ 0 ∷ 0 ∷ 1 ∷ 0 ∷ 0 ∷ 0 ∷ 97 ∷ 2 ∷ 0 ∷ 0 ∷ 0 ∷ 1 ∷ 2 ∷ 1 ∷ 0 ∷ 0 ∷ 0
      ∷ 98 ∷ 1 ∷ 0 ∷ 0 ∷ 0 ∷ 3 ∷ 1 ∷ 0 ∷ 0 ∷ 0 ∷ 104 ∷ 9 ∷ [];
  pos = 0;
}

policy-IsValid : IsValid policy_cursor
policy-IsValid = omega arith

policy_bytes : remaining policy_cursor ≡ DmsLayout.encode policy ++ (9 ∷ [])
unfolding remaining to_le_bytes DmsLayout.encode DmsLayout.encode_share DmsLayout.encode_hint
policy_bytes = refl

policy_parsed :
    DmsPolicy.parse_dms_policy_with_ceilings 64 16 policy_cursor
    ≡ ok (policy, record policy_cursor { pos = 34 })
unfolding DmsPolicy.parse_dms_policy_with_ceilings DmsPolicy.parse_share
    DmsPolicy.parse_share_record DmsPolicy.read_string_with_ceiling DmsPolicy.validate_shamir_params
    DmsPolicy.as_u16 DmsPolicy.is_empty DmsPolicy.parse_hint_bytes
    DmsPolicy.parse_reconstruction_hint is_utf8 utf8_rest read_n_owned read_n reject read_u8
    read_u16_le read_u32_le read_u64_le bytes_eq from_le_bytes remaining_len checked_mul
    ensure_remaining parse_list any or_fail branch
policy_parsed = refl

policy_well : DmsLayout.IsWellFormed 64 16 policy
policy_well =
    (DmsLayout.parse_dms_policy_with_ceilings_canonical 64 16 policy_cursor policy
      (record policy_cursor { pos = 34 }) policy-IsValid policy_parsed).0

policy_round_trip :
    (c' : Cursor) × (DmsPolicy.parse_dms_policy_with_ceilings 64 16 policy_cursor ≡ ok (policy, c'))
    × Steps policy_cursor (DmsLayout.encode policy) c'
    × (remaining c' ≡ 9 ∷ [])
policy_round_trip =
    DmsLayout.parse_dms_policy_with_ceilings-encode 64 16 policy policy_cursor (9 ∷ []) policy_well
      policy-IsValid policy_bytes

policy_canonical :
    DmsLayout.IsWellFormed 64 16 policy
    × Steps policy_cursor (DmsLayout.encode policy) (record policy_cursor { pos = 34 })
policy_canonical =
    DmsLayout.parse_dms_policy_with_ceilings_canonical 64 16 policy_cursor policy
      (record policy_cursor { pos = 34 }) policy-IsValid policy_parsed
