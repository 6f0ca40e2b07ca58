-- ===== src/Message/Digest.antt =====
-- src/action_result/action_result.rs: `Digest`.
use local_cache_proxy.Base.{
  Option, none, some, ℕ, Bool, true, ◌++◌, [], if◌then◌else◌, ◌==◌, length,
}
use local_cache_proxy.Base.Int.{ℤ, pos, is_zero}
use local_cache_proxy.Base.Text.{Text}
use local_cache_proxy.World.Disk.{Bytes}
use local_cache_proxy.Message.{
  Wire, Field, Merged, nested_size, write_nested, store, expect_varint, is_empty, merge_loop,
  ◌+u32◌,
}

pub record Digest (W : Wire) : Type 0 where
  pub hash : Text
  pub size_bytes : ℤ
  pub unknown_fields : W.UnknownFields
  pub cached_size : ℕ

module _ (W : Wire) where
  -- `Digest::new`
  abbrev pub new : Digest W
  new = record { hash = []; size_bytes = pos 0; unknown_fields = W.no_unknown; cached_size = 0 }

  -- `is_initialized`
  unfoldable pub is_initialized : Digest W → Bool
  is_initialized d = true

  -- `Clear::clear`; the cached size stays.
  unfoldable pub clear : Digest W → Digest W
  clear d = record d { hash = []; size_bytes = pos 0; unknown_fields = W.no_unknown }

  unfoldable pub field : Field W (Digest W)
  field d number wire_type rest =
      if number == 1
      then store W (W.read_string wire_type rest) (λ v. record d { hash = v })
      else if number == 2
      then store W (expect_varint W wire_type (W.read_int64 rest))
          (λ v. record d { size_bytes = v })
      else store W (W.read_unknown number wire_type d.unknown_fields rest)
          (λ u. record d { unknown_fields = u })

  -- A message has at most as many fields as bytes.
  unfoldable pub merge_from : Digest W → Bytes → Merged W (Digest W)
  unfolding merge_loop field
  merge_from d s = merge_loop W field (length s) d s

  -- The size, which `compute_size` also stores.
  unfoldable pub size : Digest W → ℕ
  size d =
      (if is_empty d.hash then 0 else W.string_size 1 d.hash)
      +u32 (if is_zero d.size_bytes then 0 else W.value_size64 2 d.size_bytes)
      +u32 W.unknown_fields_size d.unknown_fields

  unfoldable pub compute_size : Digest W → Digest W
  unfolding size
  compute_size d = record d { cached_size = size d }

  unfoldable pub write_to_with_cached_sizes : Digest W → Bytes
  write_to_with_cached_sizes d =
      (if is_empty d.hash then [] else W.write_string 1 d.hash)
      ++ ((if is_zero d.size_bytes then [] else W.write_int64 2 d.size_bytes)
          ++ W.write_unknown_fields d.unknown_fields)

  -- `if let Some(ref v) = self.digest.as_ref()`: its size, with the size stored, and its bytes.
  abbrev pub digest_size : Option (Digest W) → ℕ
  digest_size none = 0
  digest_size (some d) = nested_size W (size d)

  abbrev pub digest_sized : Option (Digest W) → Option (Digest W)
  digest_sized none = none
  digest_sized (some d) = some (compute_size d)

  abbrev pub write_digest : ℕ → Option (Digest W) → Bytes
  write_digest number none = []
  write_digest number (some d) = write_nested W number d.cached_size (write_to_with_cached_sizes d)

  -- `for v in &self.digest { if !v.is_initialized() { return false; } }`
  abbrev pub digest_is_initialized : Option (Digest W) → Bool
  digest_is_initialized none = true
  digest_is_initialized (some d) = is_initialized d
