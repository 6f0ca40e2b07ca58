-- ===== src/Message/Lawful.antt =====
-- src/action_result/action_result.rs: the reading of a message comes to its end.
use local_cache_proxy.Base.{inl, inr, ℕ, zero, suc, ◌≤◌, [], ◌∷◌, arith, length, Bool-cases}
use local_cache_proxy.Base.Result.{Result, ok, err, ◌>>=◌}
use local_cache_proxy.Message.{
  Wire, WireType, MergeError, wire, out_of_fuel, lift, Merged, Field, store, expect_varint,
  store_message, merge_loop, is_varint,
}
use local_cache_proxy.World.Disk.{Bytes}

module _ (W : Wire) where
  -- What has been read leaves at most this many bytes.
  abbrev pub Leaves {ℓ} : {A : Type ℓ} → ℕ → Result W.Error (A × Bytes) → Type 0
  Leaves n (ok (a, rest)) = length rest ≤ n
  Leaves n (err e) = Unit

  -- A coded input stream goes on, and past a tag by a byte at least.
  pub record IsLawful : Type 0 where
    pub tag : (b : ℕ) (bs : Bytes) → Leaves (length bs) (W.read_tag_unpack (b ∷ bs))
    pub bool : (s : Bytes) → Leaves (length s) (W.read_bool s)
    pub int32 : (s : Bytes) → Leaves (length s) (W.read_int32 s)
    pub int64 : (s : Bytes) → Leaves (length s) (W.read_int64 s)
    pub string : (t : WireType) (s : Bytes) → Leaves (length s) (W.read_string t s)
    pub bytes : (t : WireType) (s : Bytes) → Leaves (length s) (W.read_bytes t s)
    pub message : (t : WireType) (s : Bytes) → Leaves (length s) (W.read_message t s)
    pub unknown :
        (n : ℕ) (t : WireType) (u : W.UnknownFields) (s : Bytes)
        → Leaves (length s) (W.read_unknown n t u s)

  abbrev pub Ended {ℓ} : {A : Type ℓ} → Result (MergeError W.Error) A → Type 0
  Ended (ok a) = Unit
  Ended (err (wire e)) = Unit
  Ended (err out_of_fuel) = ⊥

  -- The reading of a field: it ends, and leaves at most this many bytes.
  abbrev pub Stepped : {M : Type 0} → ℕ → Merged W (M × Bytes) → Type 0
  Stepped n (ok (m, rest)) = length rest ≤ n
  Stepped n (err (wire e)) = Unit
  Stepped n (err out_of_fuel) = ⊥

  pub store-Stepped :
      {A M : Type 0} (n : ℕ) (read : Result W.Error (A × Bytes)) (set : A → M)
      → Leaves n read
      → Stepped n (store W read set)
  store-Stepped n (ok (a, rest)) set h = h
  store-Stepped n (err e) set h = tt

  pub expect_varint-Leaves :
      {A : Type 0} (n : ℕ) (t : WireType) (read : Result W.Error (A × Bytes))
      → Leaves n read
      → Leaves n (expect_varint W t read)
  expect_varint-Leaves n t read h = elim (Bool-cases (is_varint t)) [
    | inl e ↦ rw e h
    | inr e ↦ rw e tt
  ]

  pub store_message-Stepped :
      {N M : Type 0} (merge : Bytes → Merged W N) (t : WireType) (s : Bytes) (set : N → M)
      → IsLawful
      → ((b : Bytes) → Ended (merge b))
      → Stepped (length s) (store_message W merge t s set)
  store_message-Stepped {N = N} merge t s set law ends =
      inside (W.read_message t s) (law.message t s)
    where
      after :
          (rest : Bytes) (x : Merged W N)
          → length rest ≤ length s
          → Ended x
          → Stepped (length s) (x >>= λ n. ok (set n, rest))
      after rest (ok n) h e = h
      after rest (err (wire x)) h e = tt
      after rest (err out_of_fuel) h e = e

      inside :
          (r : Result W.Error (Bytes × Bytes))
          → Leaves (length s) r
          → Stepped (length s) (lift r >>= λ (b, rest). merge b >>= λ n. ok (set n, rest))
      inside (ok (b, rest)) h = after rest (merge b) h (ends b)
      inside (err e) h = tt

  pub merge_loop-Ended :
      {M : Type 0} (field : Field W M)
      → IsLawful
      → ((m : M) (n : ℕ) (t : WireType) (s : Bytes) → Stepped (length s) (field m n t s))
      → (fuel : ℕ) (m : M) (s : Bytes) → length s ≤ fuel
      → Ended (merge_loop W field fuel m s)
  unfolding merge_loop
  merge_loop-Ended field law each fuel m [] h = tt
  merge_loop-Ended field law each zero m (b ∷ bs) h = absurd (omega arith)
  merge_loop-Ended {M = M} field law each (suc fuel) m (b ∷ bs) h =
      tagged (merge_loop-Ended field law each fuel) (W.read_tag_unpack (b ∷ bs)) (law.tag b bs)
    where
      Again : Type 0
      Again =
          (m' : M) (rest' : Bytes) → length rest' ≤ fuel → Ended (merge_loop W field fuel m' rest')

      stepped :
          Again
          → (k : ℕ) (x : Merged W (M × Bytes)) → k ≤ fuel
          → Stepped k x
          → Ended (x >>= λ (m', rest'). merge_loop W field fuel m' rest')
      stepped again k (ok (m', rest)) le st = again m' rest (omega arith)
      stepped again k (err (wire e)) le st = tt
      stepped again k (err out_of_fuel) le st = st

      tagged :
          Again
          → (r : Result W.Error ((ℕ × WireType) × Bytes)) → Leaves (length bs) r
          → Ended (
              lift r >>= λ ((number, wire_type), rest).
              field m number wire_type rest >>= λ (m', rest'). merge_loop W field fuel m' rest')
      tagged again (ok ((n, t), rest)) le =
          stepped again (length rest) (field m n t rest) (omega arith) (each m n t rest)
      tagged again (err e) le = tt
