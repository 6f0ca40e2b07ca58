-- ===== src/Message/DirectoryNode.antt =====
-- src/action_result/action_result.rs: `DirectoryNode`.
use local_cache_proxy.Base.{ℕ, Bool, Option, none, some, [], ◌++◌, length, if◌then◌else◌, ◌==◌}
use local_cache_proxy.Base.Text.{Text}
use local_cache_proxy.World.Disk.{Bytes}
use local_cache_proxy.Message.{
  Wire, Field, Merged, store, store_message, is_empty, merge_loop, ◌+u32◌,
}
use local_cache_proxy.Message.Digest
use local_cache_proxy.Message.Digest.{
  Digest, digest_size, digest_sized, write_digest, digest_is_initialized,
}

pub record DirectoryNode (W : Wire) : Type 0 where
  pub name : Text
  pub digest : Option (Digest W)
  pub unknown_fields : W.UnknownFields
  pub cached_size : ℕ

module _ (W : Wire) where
  -- `DirectoryNode::new`
  abbrev pub new : DirectoryNode W
  new = record { name = []; digest = none; unknown_fields = W.no_unknown; cached_size = 0 }

  unfoldable pub is_initialized : DirectoryNode W → Bool
  unfolding Digest.is_initialized
  is_initialized d = digest_is_initialized W d.digest

  -- `Clear::clear`; the cached size stays.
  unfoldable pub clear : DirectoryNode W → DirectoryNode W
  clear d = record d { name = []; digest = none; unknown_fields = W.no_unknown }

  unfoldable pub field : Field W (DirectoryNode W)
  field f number wire_type rest =
      if number == 1
      then store W (W.read_string wire_type rest) (λ v. record f { name = v })
      else if number == 2
      then store_message W (Digest.merge_from W (Digest.new W)) wire_type rest
          (λ d. record f { digest = some d })
      else store W (W.read_unknown number wire_type f.unknown_fields rest)
          (λ u. record f { unknown_fields = u })

  unfoldable pub merge_from : DirectoryNode W → Bytes → Merged W (DirectoryNode W)
  unfolding merge_loop field
  merge_from f s = merge_loop W field (length s) f s

  unfoldable pub size : DirectoryNode W → ℕ
  unfolding Digest.size
  size f =
      (if is_empty f.name then 0 else W.string_size 1 f.name)
      +u32 digest_size W f.digest
      +u32 W.unknown_fields_size f.unknown_fields

  unfoldable pub compute_size : DirectoryNode W → DirectoryNode W
  unfolding size Digest.compute_size
  compute_size f = record f { digest = digest_sized W f.digest; cached_size = size f }

  unfoldable pub write_to_with_cached_sizes : DirectoryNode W → Bytes
  unfolding Digest.write_to_with_cached_sizes
  write_to_with_cached_sizes f =
      (if is_empty f.name then [] else W.write_string 1 f.name)
      ++ (write_digest W 2 f.digest ++ W.write_unknown_fields f.unknown_fields)
