-- ===== src/Message/RoundTrip/Tree.antt =====
-- src/action_result/action_result.rs: a `Directory`, written and read.
use mathlib.Core.List.{append_assoc, append-nil}
use local_cache_proxy.Base.{◌≡◌, refl, List, [], ◌∷◌, ◌++◌, length, map}
use local_cache_proxy.Base.Result.{ok}
use local_cache_proxy.Message.{Wire, write_nested}
use local_cache_proxy.Message.FileNode
use local_cache_proxy.Message.FileNode.{FileNode}
use local_cache_proxy.Message.DirectoryNode
use local_cache_proxy.Message.DirectoryNode.{DirectoryNode}
use local_cache_proxy.Message.Directory
use local_cache_proxy.Message.Directory.{Directory}
use local_cache_proxy.Message.ActionResult.{write_each}
use local_cache_proxy.Message.Ranges.{IsU32}
use local_cache_proxy.Message.RoundTrip.{
  IsFaithful, Gets, Gets-nil, Gets-append, Gets-message, Gets-whole, IsSizedOption,
}
use local_cache_proxy.Message.RoundTrip.Whole.{AllSized}
use local_cache_proxy.Message.RoundTrip.Nodes.{
  IsPlainFileNode, IsPlainDirectoryNode, bare_file_node, bare_directory_node,
  file_node_merge_from-write, directory_node_merge_from-write,
}

module _ (W : Wire) where
  -- No unknown fields, a string as the name, and every cached size is the number of bytes written.
  abbrev pub IsSizedFileNode : FileNode W → Type 0
  IsSizedFileNode f =
      IsPlainFileNode W f
      × IsSizedOption W f.digest
      × (f.cached_size ≡ length (FileNode.write_to_with_cached_sizes W f))
      × IsU32 f.cached_size

  abbrev pub IsSizedDirectoryNode : DirectoryNode W → Type 0
  IsSizedDirectoryNode d =
      IsPlainDirectoryNode W d
      × IsSizedOption W d.digest
      × (d.cached_size ≡ length (DirectoryNode.write_to_with_cached_sizes W d))
      × IsU32 d.cached_size

  pub record IsSizedDirectory (a : Directory W) : Type 0 where
    pub files : AllSized W IsSizedFileNode a.files
    pub directories : AllSized W IsSizedDirectoryNode a.directories
    pub known : a.unknown_fields ≡ W.no_unknown

  module _ (law : IsFaithful W) where
    abbrev pub bare_whole : Directory W → Directory W
    bare_whole a = record (Directory.new W) {
      files = map (bare_file_node W law) a.files;
      directories = map (bare_directory_node W law) a.directories;
    }

    one_file :
        (a : Directory W) (f : FileNode W)
        → IsSizedFileNode f
        → Gets W law
            (Directory.field W)
            a
            (write_nested W 1 f.cached_size (FileNode.write_to_with_cached_sizes W f))
            (record a { files = a.files ++ (bare_file_node W law f ∷ []) })
    unfolding Directory.field
    one_file a f p =
        Gets-message W law (Directory.field W) a _ 1 f.cached_size _ refl p.2 p.3
          (λ _ _ e. rw e (rw (file_node_merge_from-write W law f p.0 p.1) refl))

    files_part :
        (a : Directory W) (fs : List (FileNode W))
        → AllSized W IsSizedFileNode fs
        → Gets W law
            (Directory.field W)
            a
            (write_each
              (λ f. write_nested W 1 f.cached_size (FileNode.write_to_with_cached_sizes W f))
              fs)
            (record a { files = a.files ++ map (bare_file_node W law) fs })
    files_part a [] p = rw (append-nil a.files) (Gets-nil W law (Directory.field W) a)
    files_part a (f ∷ fs) p =
        let b : Directory W = record a { files = a.files ++ (bare_file_node W law f ∷ []) } in
        let c : Directory W = record b { files = b.files ++ map (bare_file_node W law) fs } in
        rw⁻¹ (append_assoc a.files (bare_file_node W law f ∷ []) (map (bare_file_node W law) fs))
          (Gets-append W law (Directory.field W) a b c _ _ (one_file a f p.0) (files_part b fs p.1))

    one_directory :
        (a : Directory W) (d : DirectoryNode W)
        → IsSizedDirectoryNode d
        → Gets W law
            (Directory.field W)
            a
            (write_nested W 2 d.cached_size (DirectoryNode.write_to_with_cached_sizes W d))
            (record a { directories = a.directories ++ (bare_directory_node W law d ∷ []) })
    unfolding Directory.field
    one_directory a d p =
        Gets-message W law (Directory.field W) a _ 2 d.cached_size _ refl p.2 p.3
          (λ _ _ e. rw e (rw (directory_node_merge_from-write W law d p.0 p.1) refl))

    directories_part :
        (a : Directory W) (ds : List (DirectoryNode W))
        → AllSized W IsSizedDirectoryNode ds
        → Gets W law
            (Directory.field W)
            a
            (write_each
              (λ d. write_nested W 2 d.cached_size (DirectoryNode.write_to_with_cached_sizes W d))
              ds)
            (record a { directories = a.directories ++ map (bare_directory_node W law) ds })
    directories_part a [] p = rw (append-nil a.directories) (Gets-nil W law (Directory.field W) a)
    directories_part a (d ∷ ds) p =
        let b : Directory W = record a {
          directories = a.directories ++ (bare_directory_node W law d ∷ []);
        } in
        let c : Directory W = record b {
          directories = b.directories ++ map (bare_directory_node W law) ds;
        } in
        rw⁻¹
          (append_assoc a.directories (bare_directory_node W law d ∷ [])
            (map (bare_directory_node W law) ds))
          (Gets-append W law (Directory.field W) a b c _ _ (one_directory a d p.0)
            (directories_part b ds p.1))

    pub directory_merge_from-write :
        (a : Directory W)
        → IsSizedDirectory a
        → Directory.merge_from W (Directory.new W) (Directory.write_to_with_cached_sizes W a)
          ≡ ok (bare_whole a)
    unfolding Directory.merge_from Directory.write_to_with_cached_sizes
    directory_merge_from-write a p =
        let gets = Gets-append W law (Directory.field W) in
        let z = bare_whole a in
        let a0 : Directory W = Directory.new W in
        let a1 : Directory W = record a0 { files = z.files } in
        rw (p.known, law.no_unknown)
          (Gets-whole W law (Directory.field W) a0 z _ (
            gets a0 a1 z _ _ (files_part a0 a.files p.files) (
              gets a1 z z _ _ (directories_part a1 a.directories p.directories)
                (Gets-nil W law (Directory.field W) z))))
