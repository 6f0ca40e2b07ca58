-- ===== src/Message/Sizes/Nodes.antt =====
-- src/action_result/action_result.rs: the sizes that `compute_size` stores in the nodes of a directory.
use local_cache_proxy.Base.{
  ◌≡◌, refl, sym, ◌^◌, ◌<◌, Bool, true, false, [], ◌++◌, arith, length, if◌then◌else◌,
}
use local_cache_proxy.Message.{Wire, is_empty}
use local_cache_proxy.Message.Digest.{digest_sized, write_digest}
use local_cache_proxy.Message.FileNode
use local_cache_proxy.Message.FileNode.{FileNode}
use local_cache_proxy.Message.DirectoryNode
use local_cache_proxy.Message.DirectoryNode.{DirectoryNode}
use local_cache_proxy.Message.RoundTrip.{IsPlainOption}
use local_cache_proxy.Message.RoundTrip.Nodes.{IsPlainFileNode, IsPlainDirectoryNode}
use local_cache_proxy.Message.Sizes.{HasSizes, known, if-length, write_digest-size, length-append}

module _ (W : Wire) (law : HasSizes W) where
  pub file_node-size :
      (f : FileNode W)
      → IsPlainFileNode W f
      → IsPlainOption W f.digest
      → let g = FileNode.compute_size W f in
        length (FileNode.write_to_with_cached_sizes W g) < 2 ^ 32
        → g.cached_size ≡ length (FileNode.write_to_with_cached_sizes W g)
  unfolding FileNode.write_to_with_cached_sizes FileNode.compute_size FileNode.size
  file_node-size f (k, i) o h =
      let a = (if is_empty f.name then [] else W.write_string 1 f.name) in
      let b = write_digest W 2 (digest_sized W f.digest) in
      let d = (if f.is_executable then W.write_bool 4 true else []) in
      let e = W.write_unknown_fields f.unknown_fields in
      let p = if-length W law (is_empty f.name) _ _ (law.string 1 f.name refl i) in
      let r = bool_part f.is_executable in
      let s = known W law f.unknown_fields k in
      let e1 = length-append a (b ++ (d ++ e)) in
      let e2 = length-append b (d ++ e) in
      let e4 = length-append d e in
      let t = write_digest-size W law 2 f.digest refl o (omega (arith, e1, e2, h)) in
      rw (p, r, s, t) (omega (arith, e1, e2, e4, h))
    where
      bool_part : (x : Bool) → (if x then 2 else 0) ≡ length (if x then W.write_bool 4 true else [])
      bool_part true = sym (law.bool 4 true refl)
      bool_part false = refl

  pub directory_node-size :
      (f : DirectoryNode W)
      → IsPlainDirectoryNode W f
      → IsPlainOption W f.digest
      → let g = DirectoryNode.compute_size W f in
        length (DirectoryNode.write_to_with_cached_sizes W g) < 2 ^ 32
        → g.cached_size ≡ length (DirectoryNode.write_to_with_cached_sizes W g)
  unfolding DirectoryNode.write_to_with_cached_sizes DirectoryNode.compute_size DirectoryNode.size
  directory_node-size f (k, i) o h =
      let a = (if is_empty f.name then [] else W.write_string 1 f.name) in
      let b = write_digest W 2 (digest_sized W f.digest) in
      let d = W.write_unknown_fields f.unknown_fields in
      let p = if-length W law (is_empty f.name) _ _ (law.string 1 f.name refl i) in
      let q = known W law f.unknown_fields k in
      let e1 = length-append a (b ++ d) in
      let e2 = length-append b d in
      let s = write_digest-size W law 2 f.digest refl o (omega (arith, e1, e2, h)) in
      rw (p, q, s) (omega (arith, e1, e2, h))
