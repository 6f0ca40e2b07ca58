-- ===== src/Message/Written/Tree.antt =====
-- src/action_result/action_result.rs: a `Directory`, written after its sizes are computed.
use local_cache_proxy.Base.{◌≡◌, refl, ◌∙◌, ap, ◌<◌, ◌^◌, length}
use local_cache_proxy.Base.Result.{ok}
use local_cache_proxy.Message.{Wire}
use local_cache_proxy.Message.FileNode
use local_cache_proxy.Message.FileNode.{FileNode}
use local_cache_proxy.Message.DirectoryNode
use local_cache_proxy.Message.DirectoryNode.{DirectoryNode}
use local_cache_proxy.Message.Directory
use local_cache_proxy.Message.Directory.{Directory}
use local_cache_proxy.Message.RoundTrip.{IsFaithful}
use local_cache_proxy.Message.RoundTrip.Nodes.{
  IsPlainFileNode, IsPlainDirectoryNode, bare_file_node, bare_directory_node,
}
use local_cache_proxy.Message.RoundTrip.Tree.{
  IsSizedFileNode, IsSizedDirectoryNode, IsSizedDirectory, bare_whole, directory_merge_from-write,
}
use local_cache_proxy.Message.RoundTrip.Whole.{AllSized}
use local_cache_proxy.Message.Sizes.{HasSizes}
use local_cache_proxy.Message.Sizes.Nodes.{file_node-size, directory_node-size}
use local_cache_proxy.Message.Written.{
  FitsOption, option_plain, option_sized, all_sized, bare_sized, map_sized,
}

module _ (W : Wire) where
  -- No unknown fields, a string as the name, and fewer bytes than a `u32` counts.
  abbrev pub FitsFileNode : FileNode W → Type 0
  FitsFileNode f =
      IsPlainFileNode W f
      × FitsOption W f.digest
      × (length (FileNode.write_to_with_cached_sizes W (FileNode.compute_size W f)) < 2 ^ 32)

  abbrev pub FitsDirectoryNode : DirectoryNode W → Type 0
  FitsDirectoryNode d =
      IsPlainDirectoryNode W d
      × FitsOption W d.digest
      × (length (DirectoryNode.write_to_with_cached_sizes W (DirectoryNode.compute_size W d))
          < 2 ^ 32)

  pub record FitsDirectory (d : Directory W) : Type 0 where
    pub files : AllSized W FitsFileNode d.files
    pub directories : AllSized W FitsDirectoryNode d.directories
    pub known : d.unknown_fields ≡ W.no_unknown

  module _ (law : IsFaithful W) (sizes : HasSizes W) where
    file_sized : (f : FileNode W) → FitsFileNode f → IsSizedFileNode W (FileNode.compute_size W f)
    unfolding FileNode.compute_size
    file_sized f p =
        let e = file_node-size W sizes f p.0 (option_plain W law sizes f.digest p.1) p.2 in
        (p.0, option_sized W law sizes f.digest p.1, e, rw e p.2)

    directory_sized :
        (d : DirectoryNode W)
        → FitsDirectoryNode d
        → IsSizedDirectoryNode W (DirectoryNode.compute_size W d)
    unfolding DirectoryNode.compute_size
    directory_sized d p =
        let e = directory_node-size W sizes d p.0 (option_plain W law sizes d.digest p.1) p.2 in
        (p.0, option_sized W law sizes d.digest p.1, e, rw e p.2)

    whole_sized :
        (d : Directory W) → FitsDirectory d → IsSizedDirectory W (Directory.compute_size W d)
    unfolding Directory.compute_size
    whole_sized d p = record {
      files =
          all_sized W law sizes FitsFileNode (IsSizedFileNode W) (FileNode.compute_size W) d.files
            file_sized p.files;
      directories =
          all_sized W law sizes FitsDirectoryNode (IsSizedDirectoryNode W)
            (DirectoryNode.compute_size W) d.directories directory_sized p.directories;
      known = p.known;
    }

    bare_file_sized :
        (f : FileNode W) → bare_file_node W law (FileNode.compute_size W f) ≡ bare_file_node W law f
    unfolding FileNode.compute_size
    bare_file_sized f = rw (bare_sized W law sizes f.digest) refl

    bare_directory_sized :
        (d : DirectoryNode W)
        → bare_directory_node W law (DirectoryNode.compute_size W d) ≡ bare_directory_node W law d
    unfolding DirectoryNode.compute_size
    bare_directory_sized d = rw (bare_sized W law sizes d.digest) refl

    bare_whole_sized :
        (d : Directory W) → bare_whole W law (Directory.compute_size W d) ≡ bare_whole W law d
    unfolding Directory.compute_size
    bare_whole_sized d =
        rw
          (
            map_sized W law sizes (bare_file_node W law) (FileNode.compute_size W) d.files
                bare_file_sized,
            map_sized W law sizes (bare_directory_node W law) (DirectoryNode.compute_size W)
                d.directories bare_directory_sized,
          )
          refl

    -- A directory that is written after its sizes are computed is read back, with the same fields and
    -- no cached sizes, under the same conditions as an action result.
    directory_merge_from-compute_size :
        (d : Directory W)
        → FitsDirectory d
        → Directory.merge_from W
            (Directory.new W)
            (Directory.write_to_with_cached_sizes W (Directory.compute_size W d))
          ≡ ok (bare_whole W law d)
    directory_merge_from-compute_size d p =
        directory_merge_from-write W law (Directory.compute_size W d) (whole_sized d p)
        ∙ ap ok (bare_whole_sized d)
