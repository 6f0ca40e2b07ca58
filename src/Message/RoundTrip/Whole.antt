-- ===== src/Message/RoundTrip/Whole.antt =====
-- src/action_result/action_result.rs: an `ActionResult`, written and read.
use mathlib.Core.List.{append_assoc, append-nil}
use local_cache_proxy.Base.{
  ◌≡◌, refl, Option, none, some, zero, suc, List, [], ◌∷◌, ◌++◌, length, map, if◌then◌else◌,
}
use local_cache_proxy.Base.Int.{ℤ, pos, negsuc, is_zero}
use local_cache_proxy.Base.Result.{ok}
use local_cache_proxy.Message.{Wire, varint, length_delimited, is_empty, write_nested}
use local_cache_proxy.Message.Digest.{Digest, write_digest}
use local_cache_proxy.Message.OutputFile
use local_cache_proxy.Message.OutputFile.{OutputFile}
use local_cache_proxy.Message.OutputDirectory
use local_cache_proxy.Message.OutputDirectory.{OutputDirectory}
use local_cache_proxy.Message.ActionResult
use local_cache_proxy.Message.ActionResult.{ActionResult, write_each}
use local_cache_proxy.Message.Ranges.{InI32, IsU32, IsBytes}
use local_cache_proxy.Message.RoundTrip.{
  IsFaithful, Gets, Gets-nil, Gets-append, Gets-field, Gets-message, Gets-whole, bare_option,
  IsSizedOption,
}
use local_cache_proxy.Message.RoundTrip.Outputs.{
  IsPlainFile, IsPlainDirectory, digest_part, bare_file, bare_directory, file_merge_from-write,
  directory_merge_from-write,
}
use local_cache_proxy.World.Disk.{Bytes}

module _ (W : Wire) where
  -- No unknown fields, values of their types in the others, and every cached size is the number of
  -- bytes written.
  abbrev pub IsSizedFile : OutputFile W → Type 0
  IsSizedFile f =
      IsPlainFile W f
      × IsSizedOption W f.digest
      × (f.cached_size ≡ length (OutputFile.write_to_with_cached_sizes W f))
      × IsU32 f.cached_size

  abbrev pub IsSizedDirectory : OutputDirectory W → Type 0
  IsSizedDirectory d =
      IsPlainDirectory W d
      × IsSizedOption W d.digest
      × IsSizedOption W d.tree_digest
      × (d.cached_size ≡ length (OutputDirectory.write_to_with_cached_sizes W d))
      × IsU32 d.cached_size

  abbrev pub AllSized : {A : Type 0} → (A → Type 0) → List A → Type 0
  AllSized P [] = Unit
  AllSized P (x ∷ xs) = P x × AllSized P xs

  pub record IsSizedResult (a : ActionResult W) : Type 0 where
    pub files : AllSized IsSizedFile a.output_files
    pub directories : AllSized IsSizedDirectory a.output_directories
    pub stdout : IsSizedOption W a.stdout_digest
    pub stderr : IsSizedOption W a.stderr_digest
    pub exit_code : InI32 a.exit_code
    pub stdout_raw : IsBytes a.stdout_raw
    pub stderr_raw : IsBytes a.stderr_raw
    pub known : a.unknown_fields ≡ W.no_unknown

  module _ (law : IsFaithful W) where
    abbrev pub bare_result : ActionResult W → ActionResult W
    bare_result a = record (ActionResult.new W) {
      output_files = map (bare_file W law) a.output_files;
      output_directories = map (bare_directory W law) a.output_directories;
      exit_code = a.exit_code;
      stdout_raw = a.stdout_raw;
      stdout_digest = bare_option W a.stdout_digest;
      stderr_raw = a.stderr_raw;
      stderr_digest = bare_option W a.stderr_digest;
    }

    one_file :
        (a : ActionResult W) (f : OutputFile W)
        → IsSizedFile f
        → Gets W law
            (ActionResult.field W)
            a
            (write_nested W 2 f.cached_size (OutputFile.write_to_with_cached_sizes W f))
            (record a { output_files = a.output_files ++ (bare_file W law f ∷ []) })
    unfolding ActionResult.field
    one_file a f p =
        Gets-message W law (ActionResult.field W) a _ 2 f.cached_size _ refl p.2 p.3
          (λ _ _ e. rw e (rw (file_merge_from-write W law f p.0 p.1) refl))

    files_part :
        (a : ActionResult W) (fs : List (OutputFile W))
        → AllSized IsSizedFile fs
        → Gets W law
            (ActionResult.field W)
            a
            (write_each
              (λ f. write_nested W 2 f.cached_size (OutputFile.write_to_with_cached_sizes W f))
              fs)
            (record a { output_files = a.output_files ++ map (bare_file W law) fs })
    files_part a [] p = rw (append-nil a.output_files) (Gets-nil W law (ActionResult.field W) a)
    files_part a (f ∷ fs) p =
        let b : ActionResult W = record a {
          output_files = a.output_files ++ (bare_file W law f ∷ []);
        } in
        let c : ActionResult W = record b {
          output_files = b.output_files ++ map (bare_file W law) fs;
        } in
        rw⁻¹ (append_assoc a.output_files (bare_file W law f ∷ []) (map (bare_file W law) fs)) (
          Gets-append W law (ActionResult.field W) a b c _ _ (one_file a f p.0)
            (files_part b fs p.1))

    one_directory :
        (a : ActionResult W) (d : OutputDirectory W)
        → IsSizedDirectory d
        → Gets W law
            (ActionResult.field W)
            a
            (write_nested W 3 d.cached_size (OutputDirectory.write_to_with_cached_sizes W d))
            (record a {
              output_directories = a.output_directories ++ (bare_directory W law d ∷ []);
            })
    unfolding ActionResult.field
    one_directory a d p =
        Gets-message W law (ActionResult.field W) a _ 3 d.cached_size _ refl p.3 p.4
          (λ _ _ e. rw e (rw (directory_merge_from-write W law d p.0 p.1 p.2) refl))

    directories_part :
        (a : ActionResult W) (ds : List (OutputDirectory W))
        → AllSized IsSizedDirectory ds
        → Gets W law
            (ActionResult.field W)
            a
            (write_each
              (λ d. write_nested W 3 d.cached_size (OutputDirectory.write_to_with_cached_sizes W d))
              ds)
            (record a {
              output_directories = a.output_directories ++ map (bare_directory W law) ds;
            })
    directories_part a [] p =
        rw (append-nil a.output_directories) (Gets-nil W law (ActionResult.field W) a)
    directories_part a (d ∷ ds) p =
        let b : ActionResult W = record a {
          output_directories = a.output_directories ++ (bare_directory W law d ∷ []);
        } in
        let c : ActionResult W = record b {
          output_directories = b.output_directories ++ map (bare_directory W law) ds;
        } in
        rw⁻¹
          (append_assoc a.output_directories (bare_directory W law d ∷ [])
            (map (bare_directory W law) ds))
          (Gets-append W law (ActionResult.field W) a b c _ _ (one_directory a d p.0)
            (directories_part b ds p.1))

    exit_part :
        (a : ActionResult W) (n : ℤ)
        → a.exit_code ≡ pos 0
        → InI32 n
        → Gets W law
            (ActionResult.field W)
            a
            (if is_zero n then [] else W.write_int32 4 n)
            (record a { exit_code = n })
    unfolding ActionResult.field
    exit_part a (pos zero) e i = rw⁻¹ e (Gets-nil W law (ActionResult.field W) a)
    exit_part a (pos (suc n)) e i =
        Gets-field W law (ActionResult.field W) a _ 4 varint _ (λ x. record a { exit_code = x })
          (pos (suc n)) (law.int32 4 (pos (suc n)) refl i) (λ _ _ e. rw e refl)
    exit_part a (negsuc n) e i =
        Gets-field W law (ActionResult.field W) a _ 4 varint _ (λ x. record a { exit_code = x })
          (negsuc n) (law.int32 4 (negsuc n) refl i) (λ _ _ e. rw e refl)

    stdout_raw_part :
        (a : ActionResult W) (v : Bytes)
        → a.stdout_raw ≡ []
        → IsBytes v
        → Gets W law
            (ActionResult.field W)
            a
            (if is_empty v then [] else W.write_bytes 5 v)
            (record a { stdout_raw = v })
    unfolding ActionResult.field
    stdout_raw_part a [] e i = rw⁻¹ e (Gets-nil W law (ActionResult.field W) a)
    stdout_raw_part a (c ∷ v) e i =
        Gets-field W law (ActionResult.field W) a _ 5 length_delimited _
          (λ x. record a { stdout_raw = x }) (c ∷ v) (law.bytes 5 (c ∷ v) refl i)
          (λ _ _ e. rw e refl)

    stdout_digest_part :
        (a : ActionResult W) (d : Option (Digest W))
        → a.stdout_digest ≡ none
        → IsSizedOption W d
        → Gets W law
            (ActionResult.field W)
            a
            (write_digest W 6 d)
            (record a { stdout_digest = bare_option W d })
    unfolding ActionResult.field
    stdout_digest_part a none e p = rw⁻¹ e (Gets-nil W law (ActionResult.field W) a)
    stdout_digest_part a (some d) e p =
        digest_part W law (ActionResult.field W) 6 a (λ x. record a { stdout_digest = some x })
          (λ _. refl) refl d p

    stderr_raw_part :
        (a : ActionResult W) (v : Bytes)
        → a.stderr_raw ≡ []
        → IsBytes v
        → Gets W law
            (ActionResult.field W)
            a
            (if is_empty v then [] else W.write_bytes 7 v)
            (record a { stderr_raw = v })
    unfolding ActionResult.field
    stderr_raw_part a [] e i = rw⁻¹ e (Gets-nil W law (ActionResult.field W) a)
    stderr_raw_part a (c ∷ v) e i =
        Gets-field W law (ActionResult.field W) a _ 7 length_delimited _
          (λ x. record a { stderr_raw = x }) (c ∷ v) (law.bytes 7 (c ∷ v) refl i)
          (λ _ _ e. rw e refl)

    stderr_digest_part :
        (a : ActionResult W) (d : Option (Digest W))
        → a.stderr_digest ≡ none
        → IsSizedOption W d
        → Gets W law
            (ActionResult.field W)
            a
            (write_digest W 8 d)
            (record a { stderr_digest = bare_option W d })
    unfolding ActionResult.field
    stderr_digest_part a none e p = rw⁻¹ e (Gets-nil W law (ActionResult.field W) a)
    stderr_digest_part a (some d) e p =
        digest_part W law (ActionResult.field W) 8 a (λ x. record a { stderr_digest = some x })
          (λ _. refl) refl d p

    -- An action result that is written with its cached sizes is read back: the reading of the bytes
    -- into a new message succeeds, with the same fields and no cached sizes. No message in it has
    -- unknown fields, the others have values of their types, the cached size of every message inside
    -- is the number of bytes that it is written with, and the two kinds of coded streams agree on
    -- each field.
    pub merge_from-write :
        (a : ActionResult W)
        → IsSizedResult a
        → ActionResult.merge_from W
            (ActionResult.new W)
            (ActionResult.write_to_with_cached_sizes W a)
          ≡ ok (bare_result a)
    unfolding ActionResult.merge_from ActionResult.write_to_with_cached_sizes
    merge_from-write a p =
        let gets = Gets-append W law (ActionResult.field W) in
        let z = bare_result a in
        let a0 : ActionResult W = ActionResult.new W in
        let a1 : ActionResult W = record a0 { output_files = z.output_files } in
        let a2 : ActionResult W = record a1 { output_directories = z.output_directories } in
        let a3 : ActionResult W = record a2 { exit_code = a.exit_code } in
        let a4 : ActionResult W = record a3 { stdout_raw = a.stdout_raw } in
        let a5 : ActionResult W = record a4 { stdout_digest = z.stdout_digest } in
        let a6 : ActionResult W = record a5 { stderr_raw = a.stderr_raw } in
        rw (p.known, law.no_unknown)
          (Gets-whole W law (ActionResult.field W) a0 z _ (
            gets a0 a1 z _ _ (files_part a0 a.output_files p.files) (
              gets a1 a2 z _ _ (directories_part a1 a.output_directories p.directories) (
                gets a2 a3 z _ _ (exit_part a2 a.exit_code refl p.exit_code) (
                  gets a3 a4 z _ _ (stdout_raw_part a3 a.stdout_raw refl p.stdout_raw) (
                    gets a4 a5 z _ _ (stdout_digest_part a4 a.stdout_digest refl p.stdout) (
                      gets a5 a6 z _ _ (stderr_raw_part a5 a.stderr_raw refl p.stderr_raw) (
                        gets a6 z z _ _ (stderr_digest_part a6 a.stderr_digest refl p.stderr)
                          (Gets-nil W law (ActionResult.field W) z)))))))))
