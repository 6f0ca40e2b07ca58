-- ===== src/Message/Endings.antt =====
-- src/action_result/action_result.rs: the loops of the messages.
use local_cache_proxy.Base.{◌≢◌, ℕ, Bool, true, false, arith, length, if◌then◌else◌, ◌==◌}
use local_cache_proxy.Base.Result.{ok, err}
use local_cache_proxy.Message.{Wire, WireType, wire, out_of_fuel, Merged, store_message}
use local_cache_proxy.Message.Digest
use local_cache_proxy.Message.OutputFile
use local_cache_proxy.Message.OutputDirectory
use local_cache_proxy.Message.ActionResult
use local_cache_proxy.Message.FileNode
use local_cache_proxy.Message.DirectoryNode
use local_cache_proxy.Message.Directory
use local_cache_proxy.World.Disk.{Bytes}
use local_cache_proxy.Message.Lawful.{
  IsLawful, Stepped, Ended, store-Stepped, expect_varint-Leaves, store_message-Stepped,
  merge_loop-Ended,
}

module _ (W : Wire) where
  module _ {M : Type 0} (n : ℕ) where
    either :
        (c : Bool) (x y : Merged W (M × Bytes))
        → Stepped W n x
        → Stepped W n y
        → Stepped W n (if c then x else y)
    either true x y h k = h
    either false x y h k = k

  module _ (law : IsLawful W) where
    digest_field-Stepped :
        (d : Digest.Digest W) (n : ℕ) (t : WireType) (s : Bytes)
        → Stepped W (length s) (Digest.field W d n t s)
    unfolding Digest.field
    digest_field-Stepped d n t s = either _ (n == 1) _ _ (store-Stepped W _ _ _ (law.string t s)) (
        either _ (n == 2) _ _
          (store-Stepped W _ _ _ (expect_varint-Leaves W _ t (W.read_int64 s) (law.int64 s)))
          (store-Stepped W _ _ _ (law.unknown n t d.unknown_fields s)))

    digest_merge-Ended : (d : Digest.Digest W) (s : Bytes) → Ended W (Digest.merge_from W d s)
    unfolding Digest.merge_from
    digest_merge-Ended d s =
        merge_loop-Ended W (Digest.field W) law digest_field-Stepped (length s) d s (omega arith)

    digest-Stepped :
        {M : Type 0} (t : WireType) (s : Bytes) (set : Digest.Digest W → M)
        → Stepped W (length s) (store_message W (Digest.merge_from W (Digest.new W)) t s set)
    digest-Stepped t s set =
        store_message-Stepped W _ t s set law (digest_merge-Ended (Digest.new W))

    file_field-Stepped :
        (f : OutputFile.OutputFile W) (n : ℕ) (t : WireType) (s : Bytes)
        → Stepped W (length s) (OutputFile.field W f n t s)
    unfolding OutputFile.field
    file_field-Stepped f n t s = either _ (n == 1) _ _ (store-Stepped W _ _ _ (law.string t s)) (
        either _ (n == 2) _ _ (digest-Stepped t s _) (
          either _ (n == 3) _ _ (store-Stepped W _ _ _ (law.bytes t s)) (
            either _ (n == 4) _ _
              (store-Stepped W _ _ _ (expect_varint-Leaves W _ t (W.read_bool s) (law.bool s)))
              (store-Stepped W _ _ _ (law.unknown n t f.unknown_fields s)))))

    file_merge-Ended :
        (f : OutputFile.OutputFile W) (s : Bytes) → Ended W (OutputFile.merge_from W f s)
    unfolding OutputFile.merge_from
    file_merge-Ended f s =
        merge_loop-Ended W (OutputFile.field W) law file_field-Stepped (length s) f s (omega arith)

    directory_field-Stepped :
        (f : OutputDirectory.OutputDirectory W) (n : ℕ) (t : WireType) (s : Bytes)
        → Stepped W (length s) (OutputDirectory.field W f n t s)
    unfolding OutputDirectory.field
    directory_field-Stepped f n t s =
        either _ (n == 1) _ _ (store-Stepped W _ _ _ (law.string t s)) (
          either _ (n == 2) _ _ (digest-Stepped t s _) (
            either _ (n == 3) _ _ (digest-Stepped t s _)
              (store-Stepped W _ _ _ (law.unknown n t f.unknown_fields s))))

    directory_merge-Ended :
        (f : OutputDirectory.OutputDirectory W) (s : Bytes)
        → Ended W (OutputDirectory.merge_from W f s)
    unfolding OutputDirectory.merge_from
    directory_merge-Ended f s =
        merge_loop-Ended W (OutputDirectory.field W) law directory_field-Stepped (length s) f s
          (omega arith)

    result_field-Stepped :
        (a : ActionResult.ActionResult W) (n : ℕ) (t : WireType) (s : Bytes)
        → Stepped W (length s) (ActionResult.field W a n t s)
    unfolding ActionResult.field
    result_field-Stepped a n t s =
        either _ (n == 2) _ _
          (store_message-Stepped W _ t s _ law (file_merge-Ended (OutputFile.new W)))
          (either _ (n == 3) _ _
            (store_message-Stepped W _ t s _ law (directory_merge-Ended (OutputDirectory.new W)))
            (either _ (n == 4) _ _
              (store-Stepped W _ _ _ (expect_varint-Leaves W _ t (W.read_int32 s) (law.int32 s)))
              (either _ (n == 5) _ _ (store-Stepped W _ _ _ (law.bytes t s)) (
                either _ (n == 6) _ _ (digest-Stepped t s _) (
                  either _ (n == 7) _ _ (store-Stepped W _ _ _ (law.bytes t s)) (
                    either _ (n == 8) _ _ (digest-Stepped t s _)
                      (store-Stepped W _ _ _ (law.unknown n t a.unknown_fields s))))))))

    result_merge-Ended :
        (a : ActionResult.ActionResult W) (s : Bytes) → Ended W (ActionResult.merge_from W a s)
    unfolding ActionResult.merge_from
    result_merge-Ended a s =
        merge_loop-Ended W (ActionResult.field W) law result_field-Stepped (length s) a s
          (omega arith)

    file_node_field-Stepped :
        (f : FileNode.FileNode W) (n : ℕ) (t : WireType) (s : Bytes)
        → Stepped W (length s) (FileNode.field W f n t s)
    unfolding FileNode.field
    file_node_field-Stepped f n t s =
        either _ (n == 1) _ _ (store-Stepped W _ _ _ (law.string t s)) (
          either _ (n == 2) _ _ (digest-Stepped t s _) (
            either _ (n == 4) _ _
              (store-Stepped W _ _ _ (expect_varint-Leaves W _ t (W.read_bool s) (law.bool s)))
              (store-Stepped W _ _ _ (law.unknown n t f.unknown_fields s))))

    file_node_merge-Ended :
        (f : FileNode.FileNode W) (s : Bytes) → Ended W (FileNode.merge_from W f s)
    unfolding FileNode.merge_from
    file_node_merge-Ended f s =
        merge_loop-Ended W (FileNode.field W) law file_node_field-Stepped (length s) f s
          (omega arith)

    directory_node_field-Stepped :
        (f : DirectoryNode.DirectoryNode W) (n : ℕ) (t : WireType) (s : Bytes)
        → Stepped W (length s) (DirectoryNode.field W f n t s)
    unfolding DirectoryNode.field
    directory_node_field-Stepped f n t s =
        either _ (n == 1) _ _ (store-Stepped W _ _ _ (law.string t s)) (
          either _ (n == 2) _ _ (digest-Stepped t s _)
            (store-Stepped W _ _ _ (law.unknown n t f.unknown_fields s)))

    directory_node_merge-Ended :
        (f : DirectoryNode.DirectoryNode W) (s : Bytes) → Ended W (DirectoryNode.merge_from W f s)
    unfolding DirectoryNode.merge_from
    directory_node_merge-Ended f s =
        merge_loop-Ended W (DirectoryNode.field W) law directory_node_field-Stepped (length s) f s
          (omega arith)

    tree_field-Stepped :
        (d : Directory.Directory W) (n : ℕ) (t : WireType) (s : Bytes)
        → Stepped W (length s) (Directory.field W d n t s)
    unfolding Directory.field
    tree_field-Stepped d n t s =
        either _ (n == 1) _ _
          (store_message-Stepped W _ t s _ law (file_node_merge-Ended (FileNode.new W)))
          (either _ (n == 2) _ _
            (store_message-Stepped W _ t s _ law (directory_node_merge-Ended (DirectoryNode.new W)))
            (store-Stepped W _ _ _ (law.unknown n t d.unknown_fields s)))

    tree_merge-Ended :
        (d : Directory.Directory W) (s : Bytes) → Ended W (Directory.merge_from W d s)
    unfolding Directory.merge_from
    tree_merge-Ended d s =
        merge_loop-Ended W (Directory.field W) law tree_field-Stepped (length s) d s (omega arith)

    ended : {A : Type 0} (x : Merged W A) → Ended W x → x ≢ err out_of_fuel
    ended (ok a) h = λ e. cc
    ended (err (wire x)) h = λ e. cc
    ended (err out_of_fuel) h = absurd h

    -- The reading of an action result, and of a directory, never runs out of the fuel that it is
    -- given, one unit for each byte at every level, if the coded input stream never goes back and
    -- takes a byte at least for a tag.
    pub merge_from_ends :
        (a : ActionResult.ActionResult W) (d : Directory.Directory W) (s : Bytes)
        → (ActionResult.merge_from W a s ≢ err out_of_fuel)
          × (Directory.merge_from W d s ≢ err out_of_fuel)
    merge_from_ends a d s = (ended _ (result_merge-Ended a s), ended _ (tree_merge-Ended d s))
