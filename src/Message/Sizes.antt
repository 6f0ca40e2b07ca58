-- ===== src/Message/Sizes.antt =====
-- src/action_result/action_result.rs: the sizes that `compute_size` stores.
pub mod Nodes
use local_cache_proxy.Base.{
  ◌≡◌, refl, sym, Option, none, some, ℕ, ◌+◌, ◌^◌, ◌<◌, ◌≤◌, Bool, true, false, [], ◌∷◌, ◌++◌,
  arith, length, if◌then◌else◌,
}
use local_cache_proxy.Base.Int.{ℤ, is_zero}
use local_cache_proxy.Base.Text.{Text}
use local_cache_proxy.Message.{Wire, length_delimited, is_empty, write_nested, nested_size}
use local_cache_proxy.Message.Digest
use local_cache_proxy.Message.Digest.{Digest, digest_size, digest_sized, write_digest}
use local_cache_proxy.Message.OutputFile
use local_cache_proxy.Message.OutputFile.{OutputFile}
use local_cache_proxy.Message.OutputDirectory
use local_cache_proxy.Message.OutputDirectory.{OutputDirectory}
use local_cache_proxy.Message.Ranges.{IsField, InI64, IsU32, IsString, IsBytes}
use local_cache_proxy.Message.RoundTrip.{IsPlain, IsPlainOption}
use local_cache_proxy.Message.RoundTrip.Outputs.{IsPlainFile, IsPlainDirectory}
use local_cache_proxy.World.Disk.{Bytes}

length-append : (s t : Bytes) → length (s ++ t) ≡ length s + length t
length-append [] t = omega arith
length-append (b ∷ s) t = omega (arith, length-append s t)

module _ (W : Wire) where
  -- The crate computes the sizes of what it writes for the fields of these messages.
  pub record HasSizes : Type 0 where
    pub string :
        (n : ℕ) (v : Text)
        → IsField n
        → IsString v
        → W.string_size n v ≡ length (W.write_string n v)
    pub bytes :
        (n : ℕ) (v : Bytes) → IsField n → IsBytes v → W.bytes_size n v ≡ length (W.write_bytes n v)
    pub int64 :
        (n : ℕ) (v : ℤ) → IsField n → InI64 v → W.value_size64 n v ≡ length (W.write_int64 n v)
    pub bool : (n : ℕ) (v : Bool) → IsField n → length (W.write_bool n v) ≡ 2
    pub tag : (n : ℕ) → IsField n → length (W.write_tag n length_delimited) ≡ 1
    pub raw : (n : ℕ) → IsU32 n → W.compute_raw_varint32_size n ≡ length (W.write_raw_varint32 n)
    pub unknown : W.unknown_fields_size W.no_unknown ≡ length (W.write_unknown_fields W.no_unknown)

  module _ (law : HasSizes) where
    if-length :
        (c : Bool) (n : ℕ) (s : Bytes)
        → n ≡ length s
        → (if c then 0 else n) ≡ length (if c then [] else s)
    if-length true n s e = refl
    if-length false n s e = e

    pub known :
        (u : W.UnknownFields)
        → u ≡ W.no_unknown
        → W.unknown_fields_size u ≡ length (W.write_unknown_fields u)
    known u e = rw e law.unknown

    pub digest-size :
        (d : Digest W)
        → IsPlain W d
        → length (Digest.write_to_with_cached_sizes W d) < 2 ^ 32
        → Digest.size W d ≡ length (Digest.write_to_with_cached_sizes W d)
    unfolding Digest.write_to_with_cached_sizes Digest.size
    digest-size d (k, i, j) h =
        let x = (if is_empty d.hash then [] else W.write_string 1 d.hash) in
        let y = (if is_zero d.size_bytes then [] else W.write_int64 2 d.size_bytes) in
        let z = W.write_unknown_fields d.unknown_fields in
        let p = if-length (is_empty d.hash) _ _ (law.string 1 d.hash refl i) in
        let q = if-length (is_zero d.size_bytes) _ _ (law.int64 2 d.size_bytes refl j) in
        let r = known d.unknown_fields k in
        let e = length-append x (y ++ z) in
        let f = length-append y z in rw (p, q, r) (omega (arith, e, f, h))

    nested_inside :
        (n len : ℕ) (inside : Bytes) → length inside ≤ length (write_nested W n len inside)
    nested_inside n len inside = omega (
      arith,
      length-append (W.write_tag n length_delimited) (W.write_raw_varint32 len ++ inside),
      length-append (W.write_raw_varint32 len) inside,
    )

    nested-size :
        (n len : ℕ) (inside : Bytes)
        → IsField n
        → len ≡ length inside
        → length (write_nested W n len inside) < 2 ^ 32
        → nested_size W len ≡ length (write_nested W n len inside)
    nested-size n len inside i e h =
        let t = law.tag n i in
        let u : IsU32 len = omega (arith, e, h, nested_inside n len inside) in
        let r = law.raw len u in
        let f =
          length-append (W.write_tag n length_delimited) (W.write_raw_varint32 len ++ inside) in
        let g = length-append (W.write_raw_varint32 len) inside in omega (arith, e, t, r, f, g, h)

    write_digest-size :
        (n : ℕ) (d : Option (Digest W))
        → IsField n
        → IsPlainOption W d
        → length (write_digest W n (digest_sized W d)) < 2 ^ 32
        → digest_size W d ≡ length (write_digest W n (digest_sized W d))
    unfolding Digest.compute_size Digest.write_to_with_cached_sizes
    write_digest-size n none i p h = refl
    write_digest-size n (some d) i p h =
        let inside = Digest.write_to_with_cached_sizes W d in
        nested-size n (Digest.size W d) inside i
          (digest-size d p (omega (arith, nested_inside n (Digest.size W d) inside, h))) h

    pub file-size :
        (f : OutputFile W)
        → IsPlainFile W f
        → IsPlainOption W f.digest
        → let g = OutputFile.compute_size W f in
          length (OutputFile.write_to_with_cached_sizes W g) < 2 ^ 32
          → g.cached_size ≡ length (OutputFile.write_to_with_cached_sizes W g)
    unfolding OutputFile.write_to_with_cached_sizes OutputFile.compute_size OutputFile.size
    file-size f (k, i, j) o h =
        let a = (if is_empty f.path then [] else W.write_string 1 f.path) in
        let b = write_digest W 2 (digest_sized W f.digest) in
        let c = (if is_empty f.content then [] else W.write_bytes 3 f.content) in
        let d = (if f.is_executable then W.write_bool 4 true else []) in
        let e = W.write_unknown_fields f.unknown_fields in
        let p = if-length (is_empty f.path) _ _ (law.string 1 f.path refl i) in
        let q = if-length (is_empty f.content) _ _ (law.bytes 3 f.content refl j) in
        let r = bool_part f.is_executable in
        let s = known f.unknown_fields k in
        let e1 = length-append a (b ++ (c ++ (d ++ e))) in
        let e2 = length-append b (c ++ (d ++ e)) in
        let e3 = length-append c (d ++ e) in
        let e4 = length-append d e in
        let t = write_digest-size 2 f.digest refl o (omega (arith, e1, e2, h)) in
        rw (p, q, r, s, t) (omega (arith, e1, e2, e3, e4, h))
      where
        bool_part :
            (x : Bool) → (if x then 2 else 0) ≡ length (if x then W.write_bool 4 true else [])
        bool_part true = sym (law.bool 4 true refl)
        bool_part false = refl

    pub directory-size :
        (f : OutputDirectory W)
        → IsPlainDirectory W f
        → IsPlainOption W f.digest
        → IsPlainOption W f.tree_digest
        → let g = OutputDirectory.compute_size W f in
          length (OutputDirectory.write_to_with_cached_sizes W g) < 2 ^ 32
          → g.cached_size ≡ length (OutputDirectory.write_to_with_cached_sizes W g)
    unfolding OutputDirectory.write_to_with_cached_sizes OutputDirectory.compute_size
        OutputDirectory.size
    directory-size f (k, i) o o' h =
        let a = (if is_empty f.path then [] else W.write_string 1 f.path) in
        let b = write_digest W 2 (digest_sized W f.digest) in
        let c = write_digest W 3 (digest_sized W f.tree_digest) in
        let d = W.write_unknown_fields f.unknown_fields in
        let p = if-length (is_empty f.path) _ _ (law.string 1 f.path refl i) in
        let q = known f.unknown_fields k in
        let e1 = length-append a (b ++ (c ++ d)) in
        let e2 = length-append b (c ++ d) in
        let e3 = length-append c d in
        let s = write_digest-size 2 f.digest refl o (omega (arith, e1, e2, h)) in
        let t = write_digest-size 3 f.tree_digest refl o' (omega (arith, e1, e2, e3, h)) in
        rw (p, q, s, t) (omega (arith, e1, e2, e3, h))
