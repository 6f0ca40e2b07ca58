-- ===== src/Message/OutputFile.antt =====
-- src/action_result/action_result.rs: `OutputFile`.
use local_cache_proxy.Base.{
  ℕ, Bool, true, false, Option, none, some, [], ◌++◌, length, if◌then◌else◌, ◌==◌,
}
use local_cache_proxy.Base.Text.{Text}
use local_cache_proxy.World.Disk.{Bytes}
use local_cache_proxy.Message.{
  Wire, Field, Merged, store, expect_varint, store_message, is_empty, merge_loop, ◌+u32◌,
}
use local_cache_proxy.Message.Digest
use local_cache_proxy.Message.Digest.{
  Digest, digest_size, digest_sized, write_digest, digest_is_initialized,
}

pub record OutputFile (W : Wire) : Type 0 where
  pub path : Text
  pub digest : Option (Digest W)
  pub content : Bytes
  pub is_executable : Bool
  pub unknown_fields : W.UnknownFields
  pub cached_size : ℕ

module _ (W : Wire) where
  -- `OutputFile::new`
  abbrev pub new : OutputFile W
  new = record {
    path = [];
    digest = none;
    content = [];
    is_executable = false;
    unknown_fields = W.no_unknown;
    cached_size = 0;
  }

  unfoldable pub is_initialized : OutputFile W → Bool
  unfolding Digest.is_initialized
  is_initialized f = digest_is_initialized W f.digest

  -- `Clear::clear`; the cached size stays.
  unfoldable pub clear : OutputFile W → OutputFile W
  clear f = record f {
    path = [];
    digest = none;
    content = [];
    is_executable = false;
    unknown_fields = W.no_unknown;
  }

  unfoldable pub field : Field W (OutputFile W)
  field f number wire_type rest =
      if number == 1
      then store W (W.read_string wire_type rest) (λ v. record f { path = v })
      else if number == 2
      then store_message W (Digest.merge_from W (Digest.new W)) wire_type rest
          (λ d. record f { digest = some d })
      else if number == 3
      then store W (W.read_bytes wire_type rest) (λ v. record f { content = v })
      else if number == 4
      then store W (expect_varint W wire_type (W.read_bool rest))
          (λ v. record f { is_executable = v })
      else store W (W.read_unknown number wire_type f.unknown_fields rest)
          (λ u. record f { unknown_fields = u })

  unfoldable pub merge_from : OutputFile W → Bytes → Merged W (OutputFile W)
  unfolding merge_loop field
  merge_from f s = merge_loop W field (length s) f s

  unfoldable pub size : OutputFile W → ℕ
  unfolding Digest.size
  size f =
      (if is_empty f.path then 0 else W.string_size 1 f.path)
      +u32 digest_size W f.digest
      +u32 (if is_empty f.content then 0 else W.bytes_size 3 f.content)
      +u32 (if f.is_executable then 2 else 0)
      +u32 W.unknown_fields_size f.unknown_fields

  unfoldable pub compute_size : OutputFile W → OutputFile W
  unfolding size Digest.compute_size
  compute_size f = record f { digest = digest_sized W f.digest; cached_size = size f }

  unfoldable pub write_to_with_cached_sizes : OutputFile W → Bytes
  unfolding Digest.write_to_with_cached_sizes
  write_to_with_cached_sizes f =
      (if is_empty f.path then [] else W.write_string 1 f.path)
      ++ (write_digest W 2 f.digest
          ++ ((if is_empty f.content then [] else W.write_bytes 3 f.content)
              ++ ((if f.is_executable then W.write_bool 4 true else [])
                  ++ W.write_unknown_fields f.unknown_fields)))
