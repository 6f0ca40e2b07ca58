-- ===== src/Message/RoundTrip/Nodes.antt =====
-- src/action_result/action_result.rs: a `FileNode` and a `DirectoryNode`, written and read.
use local_cache_proxy.Base.{
  ◌≡◌, refl, Option, none, some, Bool, true, false, [], ◌∷◌, if◌then◌else◌,
}
use local_cache_proxy.Base.Result.{ok}
use local_cache_proxy.Base.Text.{Text}
use local_cache_proxy.Message.{Wire, varint, length_delimited, is_empty}
use local_cache_proxy.Message.Digest.{Digest, write_digest}
use local_cache_proxy.Message.FileNode
use local_cache_proxy.Message.FileNode.{FileNode}
use local_cache_proxy.Message.DirectoryNode
use local_cache_proxy.Message.DirectoryNode.{DirectoryNode}
use local_cache_proxy.Message.Ranges.{IsString}
use local_cache_proxy.Message.RoundTrip.{
  IsFaithful, Gets, Gets-nil, Gets-append, Gets-field, Gets-whole, bare_option, IsSizedOption,
}
use local_cache_proxy.Message.RoundTrip.Outputs.{digest_part}

module _ (W : Wire) where
  -- No unknown fields, and a string as the name.
  abbrev pub IsPlainFileNode : FileNode W → Type 0
  IsPlainFileNode f = (f.unknown_fields ≡ W.no_unknown) × IsString f.name

  abbrev pub IsPlainDirectoryNode : DirectoryNode W → Type 0
  IsPlainDirectoryNode f = (f.unknown_fields ≡ W.no_unknown) × IsString f.name

module _ (W : Wire) (law : IsFaithful W) where
  abbrev pub bare_file_node : FileNode W → FileNode W
  bare_file_node f = record (FileNode.new W) {
    name = f.name;
    digest = bare_option W f.digest;
    is_executable = f.is_executable;
  }

  file_name :
      (v : Text)
      → IsString v
      → Gets W law
          (FileNode.field W)
          (FileNode.new W)
          (if is_empty v then [] else W.write_string 1 v)
          (record (FileNode.new W) { name = v })
  unfolding FileNode.field
  file_name [] i = Gets-nil W law (FileNode.field W) (FileNode.new W)
  file_name (c ∷ v) i =
      Gets-field W law (FileNode.field W) (FileNode.new W) _ 1 length_delimited _
        (λ x. record (FileNode.new W) { name = x }) (c ∷ v) (law.string 1 (c ∷ v) refl i)
        (λ _ _ e. rw e refl)

  file_digest :
      (f : FileNode W) (d : Option (Digest W))
      → f.digest ≡ none
      → IsSizedOption W d
      → Gets W law (FileNode.field W) f (write_digest W 2 d) (record f { digest = bare_option W d })
  unfolding FileNode.field
  file_digest f none e p = rw⁻¹ e (Gets-nil W law (FileNode.field W) f)
  file_digest f (some d) e p =
      digest_part W law (FileNode.field W) 2 f (λ x. record f { digest = some x }) (λ _. refl) refl
        d p

  file_executable :
      (f : FileNode W) (v : Bool)
      → f.is_executable ≡ false
      → Gets W law
          (FileNode.field W)
          f
          (if v then W.write_bool 4 true else [])
          (record f { is_executable = v })
  unfolding FileNode.field
  file_executable f false e = rw⁻¹ e (Gets-nil W law (FileNode.field W) f)
  file_executable f true e =
      Gets-field W law (FileNode.field W) f _ 4 varint _ (λ x. record f { is_executable = x }) true
        (law.bool 4 true refl) (λ _ _ e. rw e refl)

  pub file_node_merge_from-write :
      (f : FileNode W)
      → IsPlainFileNode W f
      → IsSizedOption W f.digest
      → FileNode.merge_from W (FileNode.new W) (FileNode.write_to_with_cached_sizes W f)
        ≡ ok (bare_file_node f)
  unfolding FileNode.merge_from FileNode.write_to_with_cached_sizes
  file_node_merge_from-write f (e, i) p =
      let gets = Gets-append W law (FileNode.field W) in
      let a : FileNode W = record (FileNode.new W) { name = f.name } in
      let b : FileNode W = record a { digest = bare_option W f.digest } in
      rw (e, law.no_unknown)
        (Gets-whole W law (FileNode.field W) (FileNode.new W) (bare_file_node f) _ (
          gets (FileNode.new W) a (bare_file_node f) _ _ (file_name f.name i) (
            gets a b (bare_file_node f) _ _ (file_digest a f.digest refl p) (
              gets b (bare_file_node f) (bare_file_node f) _ _
                (file_executable b f.is_executable refl)
                (Gets-nil W law (FileNode.field W) (bare_file_node f))))))

  abbrev pub bare_directory_node : DirectoryNode W → DirectoryNode W
  bare_directory_node f = record (DirectoryNode.new W) {
    name = f.name;
    digest = bare_option W f.digest;
  }

  directory_name :
      (v : Text)
      → IsString v
      → Gets W law
          (DirectoryNode.field W)
          (DirectoryNode.new W)
          (if is_empty v then [] else W.write_string 1 v)
          (record (DirectoryNode.new W) { name = v })
  unfolding DirectoryNode.field
  directory_name [] i = Gets-nil W law (DirectoryNode.field W) (DirectoryNode.new W)
  directory_name (c ∷ v) i =
      Gets-field W law (DirectoryNode.field W) (DirectoryNode.new W) _ 1 length_delimited _
        (λ x. record (DirectoryNode.new W) { name = x }) (c ∷ v) (law.string 1 (c ∷ v) refl i)
        (λ _ _ e. rw e refl)

  directory_digest :
      (f : DirectoryNode W) (d : Option (Digest W))
      → f.digest ≡ none
      → IsSizedOption W d
      → Gets W law
          (DirectoryNode.field W)
          f
          (write_digest W 2 d)
          (record f { digest = bare_option W d })
  unfolding DirectoryNode.field
  directory_digest f none e p = rw⁻¹ e (Gets-nil W law (DirectoryNode.field W) f)
  directory_digest f (some d) e p =
      digest_part W law (DirectoryNode.field W) 2 f (λ x. record f { digest = some x }) (λ _. refl)
        refl d p

  pub directory_node_merge_from-write :
      (f : DirectoryNode W)
      → IsPlainDirectoryNode W f
      → IsSizedOption W f.digest
      → DirectoryNode.merge_from W
          (DirectoryNode.new W)
          (DirectoryNode.write_to_with_cached_sizes W f)
        ≡ ok (bare_directory_node f)
  unfolding DirectoryNode.merge_from DirectoryNode.write_to_with_cached_sizes
  directory_node_merge_from-write f (e, i) p =
      let gets = Gets-append W law (DirectoryNode.field W) in
      let a : DirectoryNode W = record (DirectoryNode.new W) { name = f.name } in
      rw (e, law.no_unknown)
        (Gets-whole W law (DirectoryNode.field W) (DirectoryNode.new W) (bare_directory_node f) _ (
          gets (DirectoryNode.new W) a (bare_directory_node f) _ _ (directory_name f.name i) (
            gets a (bare_directory_node f) (bare_directory_node f) _ _
              (directory_digest a f.digest refl p)
              (Gets-nil W law (DirectoryNode.field W) (bare_directory_node f)))))
