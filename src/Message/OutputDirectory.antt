-- ===== src/Message/OutputDirectory.antt =====
-- src/action_result/action_result.rs: `OutputDirectory`.
use local_cache_proxy.Base.{
  ℕ, Bool, ◌&&◌, Option, none, some, [], ◌++◌, length, if◌then◌else◌, ◌==◌,
}
use local_cache_proxy.Base.Text.{Text}
use local_cache_proxy.World.Disk.{Bytes}
use local_cache_proxy.Message.{
  Wire, Field, Merged, store, store_message, is_empty, merge_loop, ◌+u32◌,
}
use local_cache_proxy.Message.Digest
use local_cache_proxy.Message.Digest.{
  Digest, digest_size, digest_sized, write_digest, digest_is_initialized,
}

pub record OutputDirectory (W : Wire) : Type 0 where
  pub path : Text
  pub digest : Option (Digest W)
  pub tree_digest : Option (Digest W)
  pub unknown_fields : W.UnknownFields
  pub cached_size : ℕ

module _ (W : Wire) where
  -- `OutputDirectory::new`
  abbrev pub new : OutputDirectory W
  new = record {
    path = [];
    digest = none;
    tree_digest = none;
    unknown_fields = W.no_unknown;
    cached_size = 0;
  }

  unfoldable pub is_initialized : OutputDirectory W → Bool
  unfolding Digest.is_initialized
  is_initialized d = digest_is_initialized W d.digest && digest_is_initialized W d.tree_digest

  -- `Clear::clear`; the cached size stays.
  unfoldable pub clear : OutputDirectory W → OutputDirectory W
  clear d = record d { path = []; digest = none; tree_digest = none; unknown_fields = W.no_unknown }

  unfoldable pub field : Field W (OutputDirectory W)
  field f number wire_type rest =
      if number == 1
      then store W (W.read_string wire_type rest) (λ v. record f { path = v })
      else if number == 2
      then store_message W (Digest.merge_from W (Digest.new W)) wire_type rest
          (λ d. record f { digest = some d })
      else if number == 3
      then store_message W (Digest.merge_from W (Digest.new W)) wire_type rest
          (λ d. record f { tree_digest = some d })
      else store W (W.read_unknown number wire_type f.unknown_fields rest)
          (λ u. record f { unknown_fields = u })

  unfoldable pub merge_from : OutputDirectory W → Bytes → Merged W (OutputDirectory W)
  unfolding merge_loop field
  merge_from f s = merge_loop W field (length s) f s

  unfoldable pub size : OutputDirectory W → ℕ
  unfolding Digest.size
  size f =
      (if is_empty f.path then 0 else W.string_size 1 f.path)
      +u32 digest_size W f.digest
      +u32 digest_size W f.tree_digest
      +u32 W.unknown_fields_size f.unknown_fields

  unfoldable pub compute_size : OutputDirectory W → OutputDirectory W
  unfolding size Digest.compute_size
  compute_size f = record f {
    digest = digest_sized W f.digest;
    tree_digest = digest_sized W f.tree_digest;
    cached_size = size f;
  }

  unfoldable pub write_to_with_cached_sizes : OutputDirectory W → Bytes
  unfolding Digest.write_to_with_cached_sizes
  write_to_with_cached_sizes f =
      (if is_empty f.path then [] else W.write_string 1 f.path)
      ++ (write_digest W 2 f.digest
          ++ (write_digest W 3 f.tree_digest ++ W.write_unknown_fields f.unknown_fields))
