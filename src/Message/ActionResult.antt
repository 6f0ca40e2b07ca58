-- ===== src/Message/ActionResult.antt =====
-- src/action_result/action_result.rs: `ActionResult`.
use local_cache_proxy.Base.{
  ℕ, Bool, true, false, ◌&&◌, not, Option, none, some, List, [], ◌∷◌, ◌++◌, map, length,
  if◌then◌else◌, ◌==◌,
}
use local_cache_proxy.Base.Int.{ℤ, pos, is_zero}
use local_cache_proxy.World.Disk.{Bytes}
use local_cache_proxy.Message.{
  Wire, Field, Merged, store, expect_varint, store_message, nested_size, write_nested, is_empty,
  merge_loop, ◌+u32◌,
}
use local_cache_proxy.Message.Digest
use local_cache_proxy.Message.Digest.{
  Digest, digest_size, digest_sized, write_digest, digest_is_initialized,
}
use local_cache_proxy.Message.OutputDirectory
use local_cache_proxy.Message.OutputDirectory.{OutputDirectory}
use local_cache_proxy.Message.OutputFile
use local_cache_proxy.Message.OutputFile.{OutputFile}

pub record ActionResult (W : Wire) : Type 0 where
  pub output_files : List (OutputFile W)
  pub output_directories : List (OutputDirectory W)
  pub exit_code : ℤ
  pub stdout_raw : Bytes
  pub stdout_digest : Option (Digest W)
  pub stderr_raw : Bytes
  pub stderr_digest : Option (Digest W)
  pub unknown_fields : W.UnknownFields
  pub cached_size : ℕ

module _ {A : Type 0} where
  -- `for v in &self.output_files { if !v.is_initialized() { return false; } }`
  abbrev pub every : (A → Bool) → List A → Bool
  every test [] = true
  every test (x ∷ xs) = if not (test x) then false else every test xs

  abbrev pub sum_u32 : (A → ℕ) → List A → ℕ
  sum_u32 f [] = 0
  sum_u32 f (x ∷ xs) = f x +u32 sum_u32 f xs

  abbrev pub write_each : (A → Bytes) → List A → Bytes
  write_each f [] = []
  write_each f (x ∷ xs) = f x ++ write_each f xs

module _ (W : Wire) where
  -- `ActionResult::new`
  abbrev pub new : ActionResult W
  new = record {
    output_files = [];
    output_directories = [];
    exit_code = pos 0;
    stdout_raw = [];
    stdout_digest = none;
    stderr_raw = [];
    stderr_digest = none;
    unknown_fields = W.no_unknown;
    cached_size = 0;
  }

  unfoldable pub is_initialized : ActionResult W → Bool
  unfolding OutputFile.is_initialized OutputDirectory.is_initialized Digest.is_initialized
  is_initialized a =
      every (OutputFile.is_initialized W) a.output_files
      && (every (OutputDirectory.is_initialized W) a.output_directories
          && (digest_is_initialized W a.stdout_digest && digest_is_initialized W a.stderr_digest))

  -- `Clear::clear`; the cached size stays.
  unfoldable pub clear : ActionResult W → ActionResult W
  clear a = record (new) { cached_size = a.cached_size }

  unfoldable pub field : Field W (ActionResult W)
  field a number wire_type rest =
      if number == 2
      then store_message W (OutputFile.merge_from W (OutputFile.new W)) wire_type rest
          (λ f. record a { output_files = a.output_files ++ (f ∷ []) })
      else if number == 3
      then store_message W (OutputDirectory.merge_from W (OutputDirectory.new W)) wire_type rest
          (λ d. record a { output_directories = a.output_directories ++ (d ∷ []) })
      else if number == 4
      then store W (expect_varint W wire_type (W.read_int32 rest)) (λ v. record a { exit_code = v })
      else if number == 5
      then store W (W.read_bytes wire_type rest) (λ v. record a { stdout_raw = v })
      else if number == 6
      then store_message W (Digest.merge_from W (Digest.new W)) wire_type rest
          (λ d. record a { stdout_digest = some d })
      else if number == 7
      then store W (W.read_bytes wire_type rest) (λ v. record a { stderr_raw = v })
      else if number == 8
      then store_message W (Digest.merge_from W (Digest.new W)) wire_type rest
          (λ d. record a { stderr_digest = some d })
      else store W (W.read_unknown number wire_type a.unknown_fields rest)
          (λ u. record a { unknown_fields = u })

  unfoldable pub merge_from : ActionResult W → Bytes → Merged W (ActionResult W)
  unfolding merge_loop field
  merge_from a s = merge_loop W field (length s) a s

  unfoldable pub size : ActionResult W → ℕ
  unfolding OutputFile.size OutputDirectory.size Digest.size
  size a =
      sum_u32 (λ f. nested_size W (OutputFile.size W f)) a.output_files
      +u32 sum_u32 (λ d. nested_size W (OutputDirectory.size W d)) a.output_directories
      +u32 (if is_zero a.exit_code then 0 else W.value_size32 4 a.exit_code)
      +u32 (if is_empty a.stdout_raw then 0 else W.bytes_size 5 a.stdout_raw)
      +u32 digest_size W a.stdout_digest
      +u32 (if is_empty a.stderr_raw then 0 else W.bytes_size 7 a.stderr_raw)
      +u32 digest_size W a.stderr_digest
      +u32 W.unknown_fields_size a.unknown_fields

  unfoldable pub compute_size : ActionResult W → ActionResult W
  unfolding size OutputFile.compute_size OutputDirectory.compute_size Digest.compute_size
  compute_size a = record a {
    output_files = map (OutputFile.compute_size W) a.output_files;
    output_directories = map (OutputDirectory.compute_size W) a.output_directories;
    stdout_digest = digest_sized W a.stdout_digest;
    stderr_digest = digest_sized W a.stderr_digest;
    cached_size = size a;
  }

  unfoldable pub write_to_with_cached_sizes : ActionResult W → Bytes
  unfolding OutputFile.write_to_with_cached_sizes OutputDirectory.write_to_with_cached_sizes
      Digest.write_to_with_cached_sizes
  write_to_with_cached_sizes a =
      write_each (λ f. write_nested W 2 f.cached_size (OutputFile.write_to_with_cached_sizes W f))
        a.output_files
      ++ (write_each
            (λ d. write_nested W 3 d.cached_size (OutputDirectory.write_to_with_cached_sizes W d))
            a.output_directories
          ++ ((if is_zero a.exit_code then [] else W.write_int32 4 a.exit_code)
              ++ ((if is_empty a.stdout_raw then [] else W.write_bytes 5 a.stdout_raw)
                  ++ (write_digest W 6 a.stdout_digest
                      ++ ((if is_empty a.stderr_raw then [] else W.write_bytes 7 a.stderr_raw)
                          ++ (write_digest W 8 a.stderr_digest
                              ++ W.write_unknown_fields a.unknown_fields))))))
