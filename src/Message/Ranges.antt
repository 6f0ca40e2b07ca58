-- ===== src/Message/Ranges.antt =====
-- src/action_result/action_result.rs: the values that its fields can have. In the source they are
-- `i32`, `i64`, `String`, `Vec<u8>` and `u32` for sizes; in the model the numbers have no bounds.
use local_cache_proxy.Base.{◌≡◌, ◌⊎◌, ℕ, ◌<◌, ◌≤◌, ◌*◌, ◌^◌, ltb, ◌&&◌, true, List, [], ◌∷◌, length}
use local_cache_proxy.Base.Int.{ℤ, pos, negsuc}
use local_cache_proxy.Base.Text.{Text}
use local_cache_proxy.World.Disk.{Bytes}

-- A field whose tag takes one byte.
abbrev pub IsField : ℕ → Type 0
IsField n = (ltb 0 n && ltb n 16) ≡ true

abbrev pub InI32 : ℤ → Type 0
InI32 (pos n) = n < 2 ^ 31
InI32 (negsuc n) = n < 2 ^ 31

abbrev pub InI64 : ℤ → Type 0
InI64 (pos n) = n < 2 ^ 63
InI64 (negsuc n) = n < 2 ^ 63

abbrev pub IsU32 : ℕ → Type 0
IsU32 n = n < 2 ^ 32

abbrev pub AllOf : (ℕ → Type 0) → List ℕ → Type 0
AllOf P [] = Unit
AllOf P (x ∷ xs) = P x × AllOf P xs

-- The code points that are no halves of a pair.
abbrev pub IsScalar : ℕ → Type 0
IsScalar c = (c < 55296) ⊎ ((57344 ≤ c) × (c < 1114112))

-- At most four bytes for each code point, and fewer than a `u32` counts.
abbrev pub IsString : Text → Type 0
IsString v = AllOf IsScalar v × IsU32 (4 * length v)

abbrev pub IsBytes : Bytes → Type 0
IsBytes v = AllOf (λ b. b < 256) v × IsU32 (length v)
