-- ===== src/Codec.antt =====
-- What limnifs-core/src/codec promises of the compression libraries that it calls, as an interface: the
-- operations under a codec id, and the laws that its documentation states of them.
use limnifs.Prelude.{ℕ, ◌≡◌, List, Result, ok, length}
use limnifs.Error.{CoreError}

-- `codec::compress_with_tunables` at fixed tunables, `codec::decompress`, and
-- `zstd_dict::decompress_with_dict`.
pub record Codec : Type 0 where
  pub compress : ℕ → List ℕ → Result CoreError (List ℕ)
  pub decompress : ℕ → List ℕ → ℕ → Result CoreError (List ℕ)
  pub decompress_with_dict : List ℕ → ℕ → List ℕ → Result CoreError (List ℕ)

-- `decompress` gives bytes of the expected length or an error, and undoes `compress`.
pub record IsLossless (codec : Codec) : Type 0 where
  pub sized :
      (id : ℕ) (bytes : List ℕ) (n : ℕ) (out : List ℕ)
      → codec.decompress id bytes n ≡ ok out
      → length out ≡ n
  pub dict_sized :
      (bytes : List ℕ) (n : ℕ) (dict out : List ℕ)
      → codec.decompress_with_dict bytes n dict ≡ ok out
      → length out ≡ n
  pub lossless :
      (id : ℕ) (bytes out : List ℕ)
      → codec.compress id bytes ≡ ok out
      → codec.decompress id out (length bytes) ≡ ok bytes
