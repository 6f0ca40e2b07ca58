-- ===== src/Message/Directory.antt =====
-- src/action_result/action_result.rs: `Directory`.
use local_cache_proxy.Base.{ℕ, Bool, ◌&&◌, List, [], ◌∷◌, ◌++◌, map, length, if◌then◌else◌, ◌==◌}
use local_cache_proxy.World.Disk.{Bytes}
use local_cache_proxy.Message.{
  Wire, Field, Merged, store, store_message, nested_size, write_nested, merge_loop, ◌+u32◌,
}
use local_cache_proxy.Message.ActionResult.{every, sum_u32, write_each}
use local_cache_proxy.Message.DirectoryNode
use local_cache_proxy.Message.DirectoryNode.{DirectoryNode}
use local_cache_proxy.Message.FileNode
use local_cache_proxy.Message.FileNode.{FileNode}

pub record Directory (W : Wire) : Type 0 where
  pub files : List (FileNode W)
  pub directories : List (DirectoryNode W)
  pub unknown_fields : W.UnknownFields
  pub cached_size : ℕ

module _ (W : Wire) where
  -- `Directory::new`
  abbrev pub new : Directory W
  new = record { files = []; directories = []; unknown_fields = W.no_unknown; cached_size = 0 }

  unfoldable pub is_initialized : Directory W → Bool
  unfolding FileNode.is_initialized DirectoryNode.is_initialized
  is_initialized d =
      every (FileNode.is_initialized W) d.files
      && every (DirectoryNode.is_initialized W) d.directories

  -- `Clear::clear`; the cached size stays.
  unfoldable pub clear : Directory W → Directory W
  clear d = record (new) { cached_size = d.cached_size }

  unfoldable pub field : Field W (Directory W)
  field d number wire_type rest =
      if number == 1
      then store_message W (FileNode.merge_from W (FileNode.new W)) wire_type rest
          (λ f. record d { files = d.files ++ (f ∷ []) })
      else if number == 2
      then store_message W (DirectoryNode.merge_from W (DirectoryNode.new W)) wire_type rest
          (λ n. record d { directories = d.directories ++ (n ∷ []) })
      else store W (W.read_unknown number wire_type d.unknown_fields rest)
          (λ u. record d { unknown_fields = u })

  unfoldable pub merge_from : Directory W → Bytes → Merged W (Directory W)
  unfolding merge_loop field
  merge_from d s = merge_loop W field (length s) d s

  unfoldable pub size : Directory W → ℕ
  unfolding FileNode.size DirectoryNode.size
  size d =
      sum_u32 (λ f. nested_size W (FileNode.size W f)) d.files
      +u32 sum_u32 (λ n. nested_size W (DirectoryNode.size W n)) d.directories
      +u32 W.unknown_fields_size d.unknown_fields

  unfoldable pub compute_size : Directory W → Directory W
  unfolding size FileNode.compute_size DirectoryNode.compute_size
  compute_size d = record d {
    files = map (FileNode.compute_size W) d.files;
    directories = map (DirectoryNode.compute_size W) d.directories;
    cached_size = size d;
  }

  unfoldable pub write_to_with_cached_sizes : Directory W → Bytes
  unfolding FileNode.write_to_with_cached_sizes DirectoryNode.write_to_with_cached_sizes
  write_to_with_cached_sizes d =
      write_each (λ f. write_nested W 1 f.cached_size (FileNode.write_to_with_cached_sizes W f))
        d.files
      ++ (write_each
            (λ n. write_nested W 2 n.cached_size (DirectoryNode.write_to_with_cached_sizes W n))
            d.directories
          ++ W.write_unknown_fields d.unknown_fields)
