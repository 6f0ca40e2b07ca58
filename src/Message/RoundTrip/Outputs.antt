-- ===== src/Message/RoundTrip/Outputs.antt =====
-- src/action_result/action_result.rs: an `OutputFile` and an `OutputDirectory`, written and read.
use local_cache_proxy.Base.{
  ◌≡◌, refl, ◌∙◌, Option, none, some, ℕ, Bool, true, false, [], ◌∷◌, if◌then◌else◌,
}
use local_cache_proxy.Base.Result.{ok}
use local_cache_proxy.Base.Text.{Text}
use local_cache_proxy.Message.{Wire, varint, length_delimited, is_empty, store_message, Field}
use local_cache_proxy.Message.Digest
use local_cache_proxy.Message.Digest.{Digest, write_digest}
use local_cache_proxy.Message.OutputFile
use local_cache_proxy.Message.OutputFile.{OutputFile}
use local_cache_proxy.Message.OutputDirectory
use local_cache_proxy.Message.OutputDirectory.{OutputDirectory}
use local_cache_proxy.Message.Ranges.{IsField, IsString, IsBytes}
use local_cache_proxy.Message.RoundTrip.{
  IsFaithful, Gets, Gets-nil, Gets-append, Gets-field, Gets-message, Gets-whole, bare, bare_option,
  IsSized, IsSizedOption, digest_merge_from-write,
}
use local_cache_proxy.World.Disk.{Bytes}

module _ (W : Wire) where
  -- No unknown fields, and values of their types in the others.
  abbrev pub IsPlainFile : OutputFile W → Type 0
  IsPlainFile f = (f.unknown_fields ≡ W.no_unknown) × IsString f.path × IsBytes f.content

  abbrev pub IsPlainDirectory : OutputDirectory W → Type 0
  IsPlainDirectory f = (f.unknown_fields ≡ W.no_unknown) × IsString f.path

module _ (W : Wire) (law : IsFaithful W) where
  -- A field that holds a digest: what it stores is read back from what is written for it.
  module _ {M : Type 0} (field : Field W M) (n : ℕ) (m : M) (set : Digest W → M)
      (is_digest : (s : Bytes)
        → field m n length_delimited s
          ≡ store_message W (Digest.merge_from W (Digest.new W)) length_delimited s set)
      (is_field : IsField n) where
    pub digest_part :
        (d : Digest W)
        → IsSized W d
        → Gets W law field m (write_digest W n (some d)) (set (bare W d))
    digest_part d p =
        Gets-message W law field m (set (bare W d)) n d.cached_size _ is_field p.1 p.2
          (λ after rest e. is_digest after ∙ rw e (rw (digest_merge_from-write W law d p.0) refl))

  abbrev pub bare_file : OutputFile W → OutputFile W
  bare_file f = record (OutputFile.new W) {
    path = f.path;
    digest = bare_option W f.digest;
    content = f.content;
    is_executable = f.is_executable;
  }

  file_path :
      (v : Text)
      → IsString v
      → Gets W law
          (OutputFile.field W)
          (OutputFile.new W)
          (if is_empty v then [] else W.write_string 1 v)
          (record (OutputFile.new W) { path = v })
  unfolding OutputFile.field
  file_path [] i = Gets-nil W law (OutputFile.field W) (OutputFile.new W)
  file_path (c ∷ v) i =
      Gets-field W law (OutputFile.field W) (OutputFile.new W) _ 1 length_delimited _
        (λ x. record (OutputFile.new W) { path = x }) (c ∷ v) (law.string 1 (c ∷ v) refl i)
        (λ _ _ e. rw e refl)

  file_digest :
      (f : OutputFile W) (d : Option (Digest W))
      → f.digest ≡ none
      → IsSizedOption W d
      → Gets W law
          (OutputFile.field W)
          f
          (write_digest W 2 d)
          (record f { digest = bare_option W d })
  unfolding OutputFile.field
  file_digest f none e p = rw⁻¹ e (Gets-nil W law (OutputFile.field W) f)
  file_digest f (some d) e p =
      digest_part (OutputFile.field W) 2 f (λ x. record f { digest = some x }) (λ _. refl) refl d p

  file_content :
      (f : OutputFile W) (v : Bytes)
      → f.content ≡ []
      → IsBytes v
      → Gets W law
          (OutputFile.field W)
          f
          (if is_empty v then [] else W.write_bytes 3 v)
          (record f { content = v })
  unfolding OutputFile.field
  file_content f [] e i = rw⁻¹ e (Gets-nil W law (OutputFile.field W) f)
  file_content f (c ∷ v) e i =
      Gets-field W law (OutputFile.field W) f _ 3 length_delimited _ (λ x. record f { content = x })
        (c ∷ v) (law.bytes 3 (c ∷ v) refl i) (λ _ _ e. rw e refl)

  file_executable :
      (f : OutputFile W) (v : Bool)
      → f.is_executable ≡ false
      → Gets W law
          (OutputFile.field W)
          f
          (if v then W.write_bool 4 true else [])
          (record f { is_executable = v })
  unfolding OutputFile.field
  file_executable f false e = rw⁻¹ e (Gets-nil W law (OutputFile.field W) f)
  file_executable f true e =
      Gets-field W law (OutputFile.field W) f _ 4 varint _ (λ x. record f { is_executable = x })
        true (law.bool 4 true refl) (λ _ _ e. rw e refl)

  pub file_merge_from-write :
      (f : OutputFile W)
      → IsPlainFile W f
      → IsSizedOption W f.digest
      → OutputFile.merge_from W (OutputFile.new W) (OutputFile.write_to_with_cached_sizes W f)
        ≡ ok (bare_file f)
  unfolding OutputFile.merge_from OutputFile.write_to_with_cached_sizes
  file_merge_from-write f (e, i, j) p =
      let gets = Gets-append W law (OutputFile.field W) in
      let a : OutputFile W = record (OutputFile.new W) { path = f.path } in
      let b : OutputFile W = record a { digest = bare_option W f.digest } in
      let c : OutputFile W = record b { content = f.content } in
      rw (e, law.no_unknown)
        (Gets-whole W law (OutputFile.field W) (OutputFile.new W) (bare_file f) _ (
          gets (OutputFile.new W) a (bare_file f) _ _ (file_path f.path i) (
            gets a b (bare_file f) _ _ (file_digest a f.digest refl p) (
              gets b c (bare_file f) _ _ (file_content b f.content refl j) (
                gets c (bare_file f) (bare_file f) _ _ (file_executable c f.is_executable refl)
                  (Gets-nil W law (OutputFile.field W) (bare_file f)))))))

  abbrev pub bare_directory : OutputDirectory W → OutputDirectory W
  bare_directory f = record (OutputDirectory.new W) {
    path = f.path;
    digest = bare_option W f.digest;
    tree_digest = bare_option W f.tree_digest;
  }

  directory_path :
      (v : Text)
      → IsString v
      → Gets W law
          (OutputDirectory.field W)
          (OutputDirectory.new W)
          (if is_empty v then [] else W.write_string 1 v)
          (record (OutputDirectory.new W) { path = v })
  unfolding OutputDirectory.field
  directory_path [] i = Gets-nil W law (OutputDirectory.field W) (OutputDirectory.new W)
  directory_path (c ∷ v) i =
      Gets-field W law (OutputDirectory.field W) (OutputDirectory.new W) _ 1 length_delimited _
        (λ x. record (OutputDirectory.new W) { path = x }) (c ∷ v) (law.string 1 (c ∷ v) refl i)
        (λ _ _ e. rw e refl)

  directory_digest :
      (f : OutputDirectory W) (d : Option (Digest W))
      → f.digest ≡ none
      → IsSizedOption W d
      → Gets W law
          (OutputDirectory.field W)
          f
          (write_digest W 2 d)
          (record f { digest = bare_option W d })
  unfolding OutputDirectory.field
  directory_digest f none e p = rw⁻¹ e (Gets-nil W law (OutputDirectory.field W) f)
  directory_digest f (some d) e p =
      digest_part (OutputDirectory.field W) 2 f (λ x. record f { digest = some x }) (λ _. refl) refl
        d p

  directory_tree :
      (f : OutputDirectory W) (d : Option (Digest W))
      → f.tree_digest ≡ none
      → IsSizedOption W d
      → Gets W law
          (OutputDirectory.field W)
          f
          (write_digest W 3 d)
          (record f { tree_digest = bare_option W d })
  unfolding OutputDirectory.field
  directory_tree f none e p = rw⁻¹ e (Gets-nil W law (OutputDirectory.field W) f)
  directory_tree f (some d) e p =
      digest_part (OutputDirectory.field W) 3 f (λ x. record f { tree_digest = some x }) (λ _. refl)
        refl d p

  pub directory_merge_from-write :
      (f : OutputDirectory W)
      → IsPlainDirectory W f
      → IsSizedOption W f.digest
      → IsSizedOption W f.tree_digest
      → OutputDirectory.merge_from W
          (OutputDirectory.new W)
          (OutputDirectory.write_to_with_cached_sizes W f)
        ≡ ok (bare_directory f)
  unfolding OutputDirectory.merge_from OutputDirectory.write_to_with_cached_sizes
  directory_merge_from-write f (e, i) p q =
      let gets = Gets-append W law (OutputDirectory.field W) in
      let a : OutputDirectory W = record (OutputDirectory.new W) { path = f.path } in
      let b : OutputDirectory W = record a { digest = bare_option W f.digest } in
      rw (e, law.no_unknown)
        (Gets-whole W law (OutputDirectory.field W) (OutputDirectory.new W) (bare_directory f) _ (
          gets (OutputDirectory.new W) a (bare_directory f) _ _ (directory_path f.path i) (
            gets a b (bare_directory f) _ _ (directory_digest a f.digest refl p) (
              gets b (bare_directory f) (bare_directory f) _ _
                (directory_tree b f.tree_digest refl q)
                (Gets-nil W law (OutputDirectory.field W) (bare_directory f))))))
