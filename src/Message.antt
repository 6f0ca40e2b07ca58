-- ===== src/Message.antt =====
-- src/action_result/action_result.rs: what the messages share. The coded streams of the crate
-- `protobuf` are the parameter `Wire`: an input stream is the bytes that are left, an output stream
-- the bytes written. `merge_loop` is the loop that every `merge_from` runs.
pub mod Digest
pub mod OutputFile
pub mod OutputDirectory
pub mod ActionResult
pub mod FileNode
pub mod DirectoryNode
pub mod Directory
pub mod Lawful
pub mod Ranges
pub mod Endings
pub mod RoundTrip
pub mod Sizes
pub mod Written
use local_cache_proxy.Base.{
  if◌then◌else◌, true, false, ◌++◌, Option, none, some, ℕ, zero, suc, ◌+◌, ◌%◌, ◌^◌, Bool, List, [],
  ◌∷◌,
}
use local_cache_proxy.Base.Int.{ℤ}
use local_cache_proxy.Base.Result.{Result, ok, err, ◌>>=◌}
use local_cache_proxy.Base.Text.{Text}
use local_cache_proxy.World.Disk.{Bytes}

pub data WireType : Type 0 where
  varint fixed64 length_delimited start_group end_group fixed32 : WireType

abbrev pub is_varint : WireType → Bool
is_varint varint = true
is_varint _ = false

-- `is_empty` of a string or of bytes
abbrev pub is_empty : List ℕ → Bool
is_empty [] = true
is_empty (x ∷ xs) = false

pub record Wire : Type 1 where
  pub Error : Type 0
  pub UnknownFields : Type 0
  pub no_unknown : UnknownFields
  pub unexpected_wire_type : WireType → Error
  -- `CodedInputStream`
  pub read_tag_unpack : Bytes → Result Error ((ℕ × WireType) × Bytes)
  pub read_bool : Bytes → Result Error (Bool × Bytes)
  pub read_int32 : Bytes → Result Error (ℤ × Bytes)
  pub read_int64 : Bytes → Result Error (ℤ × Bytes)
  -- `rt::read_singular_proto3_string_into`, `rt::read_singular_proto3_bytes_into`
  pub read_string : WireType → Bytes → Result Error (Text × Bytes)
  pub read_bytes : WireType → Bytes → Result Error (Bytes × Bytes)
  -- The bytes to which `rt::read_singular_message_into` and `rt::read_repeated_message_into` limit
  -- the stream for the message inside.
  pub read_message : WireType → Bytes → Result Error (Bytes × Bytes)
  -- `rt::read_unknown_or_skip_group`
  pub read_unknown : ℕ → WireType → UnknownFields → Bytes → Result Error (UnknownFields × Bytes)
  -- `CodedOutputStream`
  pub write_tag : ℕ → WireType → Bytes
  pub write_raw_varint32 : ℕ → Bytes
  pub write_string : ℕ → Text → Bytes
  pub write_bytes : ℕ → Bytes → Bytes
  pub write_bool : ℕ → Bool → Bytes
  pub write_int32 : ℕ → ℤ → Bytes
  pub write_int64 : ℕ → ℤ → Bytes
  pub write_unknown_fields : UnknownFields → Bytes
  -- `rt`
  pub string_size : ℕ → Text → ℕ
  pub bytes_size : ℕ → Bytes → ℕ
  pub value_size32 : ℕ → ℤ → ℕ
  pub value_size64 : ℕ → ℤ → ℕ
  pub compute_raw_varint32_size : ℕ → ℕ
  pub unknown_fields_size : UnknownFields → ℕ

-- The sum of two `u32`, as a release build wraps it around.
infixl 65 ◌+u32◌
abbrev pub ◌+u32◌ : ℕ → ℕ → ℕ
a +u32 b = (a + b) % 2 ^ 32

-- `out_of_fuel` is no error of the source: it marks a loop that the fuel has cut off.
pub data MergeError (E : Type 0) : Type 0 where
  wire : E → MergeError E
  out_of_fuel : MergeError E

abbrev pub lift {ℓ} : {E : Type 0} {A : Type ℓ} → Result E A → Result (MergeError E) A
lift (ok a) = ok a
lift (err e) = err (wire e)

module _ (W : Wire) where
  abbrev pub Merged : Type 0 → Type 0
  Merged M = Result (MergeError W.Error) M

  -- One field, given its number and its wire type.
  abbrev pub Field : Type 0 → Type 0
  Field M = M → ℕ → WireType → Bytes → Merged (M × Bytes)

  -- A field that is set to what has been read.
  abbrev pub store {ℓ} :
      {A : Type ℓ} {M : Type 0} → Result W.Error (A × Bytes) → (A → M) → Merged (M × Bytes)
  store read set = lift read >>= λ (v, rest). ok (set v, rest)

  -- `if wire_type != WireTypeVarint { return Err(unexpected_wire_type(wire_type)) }`
  abbrev pub expect_varint {ℓ} :
      {A : Type ℓ} → WireType → Result W.Error (A × Bytes) → Result W.Error (A × Bytes)
  expect_varint wire_type read =
      if is_varint wire_type then read else err (W.unexpected_wire_type wire_type)

  -- A message inside: `merge` reads it from the bytes that it is limited to.
  abbrev pub store_message :
      {N M : Type 0} → (Bytes → Merged N) → WireType → Bytes → (N → M) → Merged (M × Bytes)
  store_message merge wire_type s set =
      lift (W.read_message wire_type s) >>= λ (inside, rest). merge inside >>= λ n. ok (set n, rest)

  -- `my_size += 1 + compute_raw_varint32_size(len) + len`
  abbrev pub nested_size : ℕ → ℕ
  nested_size len = 1 +u32 W.compute_raw_varint32_size len +u32 len

  -- A tag, the length and the message inside.
  abbrev pub write_nested : ℕ → ℕ → Bytes → Bytes
  write_nested number len inside =
      W.write_tag number length_delimited ++ (W.write_raw_varint32 len ++ inside)

  -- `while !is.eof()? { let (field_number, wire_type) = is.read_tag_unpack()?; ... }`
  unfoldable pub merge_loop : {M : Type 0} → Field M → ℕ → M → Bytes → Merged M
  merge_loop field fuel m [] = ok m
  merge_loop field zero m (b ∷ bs) = err out_of_fuel
  merge_loop field (suc fuel) m (b ∷ bs) =
      lift (W.read_tag_unpack (b ∷ bs)) >>= λ ((number, wire_type), rest).
      field m number wire_type rest >>= λ (m', rest'). merge_loop field fuel m' rest'
