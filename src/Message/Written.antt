-- ===== src/Message/Written.antt =====
-- src/action_result/action_result.rs: `compute_size`, then `write_to_with_cached_sizes`, as
-- `write_to_bytes` of the crate runs them.
pub mod Tree
use local_cache_proxy.Base.{
  ◌≡◌, refl, ◌∙◌, ap, Option, none, some, ◌<◌, ◌^◌, List, [], ◌∷◌, length, map,
}
use local_cache_proxy.Base.Result.{ok}
use local_cache_proxy.Message.{Wire}
use local_cache_proxy.Message.Digest
use local_cache_proxy.Message.Digest.{Digest, digest_sized}
use local_cache_proxy.Message.OutputFile
use local_cache_proxy.Message.OutputFile.{OutputFile}
use local_cache_proxy.Message.OutputDirectory
use local_cache_proxy.Message.OutputDirectory.{OutputDirectory}
use local_cache_proxy.Message.ActionResult
use local_cache_proxy.Message.ActionResult.{ActionResult}
use local_cache_proxy.Message.Ranges.{InI32, IsBytes}
use local_cache_proxy.Message.RoundTrip.{
  IsFaithful, IsPlain, IsPlainOption, IsSizedOption, bare_option,
}
use local_cache_proxy.Message.RoundTrip.Outputs.{
  IsPlainFile, IsPlainDirectory, bare_file, bare_directory,
}
use local_cache_proxy.Message.RoundTrip.Whole.{
  AllSized, IsSizedFile, IsSizedDirectory, IsSizedResult, bare_result, merge_from-write,
}
use local_cache_proxy.Message.Sizes.{HasSizes, digest-size, file-size, directory-size}

module _ (W : Wire) where
  -- No unknown fields, values of their types in the others, and fewer bytes than a `u32` counts.
  abbrev pub FitsOption : Option (Digest W) → Type 0
  FitsOption none = Unit
  FitsOption (some d) = IsPlain W d × (length (Digest.write_to_with_cached_sizes W d) < 2 ^ 32)

  abbrev pub FitsFile : OutputFile W → Type 0
  FitsFile f =
      IsPlainFile W f
      × FitsOption f.digest
      × (length (OutputFile.write_to_with_cached_sizes W (OutputFile.compute_size W f)) < 2 ^ 32)

  abbrev pub FitsDirectory : OutputDirectory W → Type 0
  FitsDirectory d =
      IsPlainDirectory W d
      × FitsOption d.digest
      × FitsOption d.tree_digest
      × (length (OutputDirectory.write_to_with_cached_sizes W (OutputDirectory.compute_size W d))
          < 2 ^ 32)

  pub record Fits (a : ActionResult W) : Type 0 where
    pub files : AllSized W FitsFile a.output_files
    pub directories : AllSized W FitsDirectory a.output_directories
    pub stdout : FitsOption a.stdout_digest
    pub stderr : FitsOption a.stderr_digest
    pub exit_code : InI32 a.exit_code
    pub stdout_raw : IsBytes a.stdout_raw
    pub stderr_raw : IsBytes a.stderr_raw
    pub known : a.unknown_fields ≡ W.no_unknown

  module _ (law : IsFaithful W) (sizes : HasSizes W) where
    option_plain : (d : Option (Digest W)) → FitsOption d → IsPlainOption W d
    option_plain none p = tt
    option_plain (some d) p = p.0

    option_sized : (d : Option (Digest W)) → FitsOption d → IsSizedOption W (digest_sized W d)
    unfolding Digest.compute_size Digest.write_to_with_cached_sizes
    option_sized none p = tt
    option_sized (some d) p = let e = digest-size W sizes d p.0 p.1 in (p.0, e, rw e p.1)

    file_sized : (f : OutputFile W) → FitsFile f → IsSizedFile W (OutputFile.compute_size W f)
    unfolding OutputFile.compute_size
    file_sized f p =
        let e = file-size W sizes f p.0 (option_plain f.digest p.1) p.2 in
        (p.0, option_sized f.digest p.1, e, rw e p.2)

    directory_sized :
        (d : OutputDirectory W)
        → FitsDirectory d
        → IsSizedDirectory W (OutputDirectory.compute_size W d)
    unfolding OutputDirectory.compute_size
    directory_sized d p =
        let e =
          directory-size W sizes d p.0 (option_plain d.digest p.1) (option_plain d.tree_digest p.2)
            p.3 in
        (p.0, option_sized d.digest p.1, option_sized d.tree_digest p.2, e, rw e p.3)

    all_sized :
        {A : Type 0} (P Q : A → Type 0) (f : A → A) (xs : List A)
        → ((x : A) → P x → Q (f x))
        → AllSized W P xs
        → AllSized W Q (map f xs)
    all_sized P Q f [] h p = tt
    all_sized P Q f (x ∷ xs) h p = (h x p.0, all_sized P Q f xs h p.1)

    result_sized : (a : ActionResult W) → Fits a → IsSizedResult W (ActionResult.compute_size W a)
    unfolding ActionResult.compute_size
    result_sized a p = record {
      files =
          all_sized FitsFile (IsSizedFile W) (OutputFile.compute_size W) a.output_files file_sized
            p.files;
      directories =
          all_sized FitsDirectory (IsSizedDirectory W) (OutputDirectory.compute_size W)
            a.output_directories directory_sized p.directories;
      stdout = option_sized a.stdout_digest p.stdout;
      stderr = option_sized a.stderr_digest p.stderr;
      exit_code = p.exit_code;
      stdout_raw = p.stdout_raw;
      stderr_raw = p.stderr_raw;
      known = p.known;
    }

    bare_sized : (d : Option (Digest W)) → bare_option W (digest_sized W d) ≡ bare_option W d
    unfolding Digest.compute_size
    bare_sized none = refl
    bare_sized (some d) = refl

    bare_file_sized :
        (f : OutputFile W) → bare_file W law (OutputFile.compute_size W f) ≡ bare_file W law f
    unfolding OutputFile.compute_size
    bare_file_sized f = rw (bare_sized f.digest) refl

    bare_directory_sized :
        (d : OutputDirectory W)
        → bare_directory W law (OutputDirectory.compute_size W d) ≡ bare_directory W law d
    unfolding OutputDirectory.compute_size
    bare_directory_sized d = rw (bare_sized d.digest, bare_sized d.tree_digest) refl

    map_sized :
        {A : Type 0} (g f : A → A) (xs : List A)
        → ((x : A) → g (f x) ≡ g x)
        → map g (map f xs) ≡ map g xs
    map_sized g f [] h = refl
    map_sized g f (x ∷ xs) h = rw (h x, map_sized g f xs h) refl

    bare_result_sized :
        (a : ActionResult W)
        → bare_result W law (ActionResult.compute_size W a) ≡ bare_result W law a
    unfolding ActionResult.compute_size
    bare_result_sized a =
        rw
          (
            map_sized (bare_file W law) (OutputFile.compute_size W) a.output_files bare_file_sized,
            map_sized (bare_directory W law) (OutputDirectory.compute_size W) a.output_directories
                bare_directory_sized,
            bare_sized a.stdout_digest,
            bare_sized a.stderr_digest,
          )
          refl

    -- An action result that is written after its sizes are computed is read back: the reading of
    -- the bytes into a new message succeeds, with the same fields and no cached sizes. No message
    -- in it has unknown fields, every message inside is written with fewer than 2^32 bytes, and the
    -- fields have values of their types: `i64`, `i32`, strings of Unicode scalar values, and bytes.
    -- For fields with such values and numbers below 16, the two kinds of coded streams agree and
    -- the crate computes the sizes of what it writes.
    pub merge_from-compute_size :
        (a : ActionResult W)
        → Fits a
        → ActionResult.merge_from W
            (ActionResult.new W)
            (ActionResult.write_to_with_cached_sizes W (ActionResult.compute_size W a))
          ≡ ok (bare_result W law a)
    merge_from-compute_size a p =
        merge_from-write W law (ActionResult.compute_size W a) (result_sized a p)
        ∙ ap ok (bare_result_sized a)
