-- ===== src/Message/RoundTrip.antt =====
-- src/action_result/action_result.rs: a message that is written and read again.
pub mod Outputs
pub mod Whole
pub mod Nodes
pub mod Tree
use mathlib.Core.List.{append_assoc, append-nil}
use local_cache_proxy.Base.{
  ap, ◌≡◌, ◌≢◌, refl, sym, ◌∙◌, ◌⊎◌, inl, inr, Option, none, some, ℕ, zero, suc, ◌≤◌, Bool, true,
  false, List, [], ◌∷◌, ◌++◌, arith, length, if◌then◌else◌, Bool-cases,
}
use local_cache_proxy.Base.Int.{ℤ, pos, negsuc, is_zero}
use local_cache_proxy.Base.Result.{Result, ok, err, ◌>>=◌}
use local_cache_proxy.Base.Text.{Text}
use local_cache_proxy.Message.{
  Wire, WireType, varint, length_delimited, lift, Merged, Field, merge_loop, is_empty, write_nested,
}
use local_cache_proxy.Message.Digest
use local_cache_proxy.Message.Digest.{Digest}
use local_cache_proxy.Message.Lawful.{IsLawful, Leaves}
use local_cache_proxy.Message.Ranges.{IsField, InI32, InI64, IsU32, IsString, IsBytes}
use local_cache_proxy.World.Disk.{Bytes}

module _ (W : Wire) where
  -- What is written for a field is read as its tag and its value, whatever follows.
  abbrev pub Reads :
      {A : Type 0} → Bytes → ℕ → WireType → (Bytes → Result W.Error (A × Bytes)) → A → Type 0
  Reads written number wire_type read v =
      (rest : Bytes)
      → (after : Bytes) × (W.read_tag_unpack (written ++ rest) ≡ ok ((number, wire_type), after))
        × (read after ≡ ok (v, rest))
        × (length rest ≤ length after)

  -- The two kinds of coded streams agree on the fields of these messages.
  pub record IsFaithful : Type 0 where
    pub lawful : IsLawful W
    pub at_end : (x : (ℕ × WireType) × Bytes) → W.read_tag_unpack [] ≢ ok x
    pub string :
        (n : ℕ) (v : Text)
        → IsField n
        → IsString v
        → Reads (W.write_string n v) n length_delimited (W.read_string length_delimited) v
    pub int64 :
        (n : ℕ) (v : ℤ) → IsField n → InI64 v → Reads (W.write_int64 n v) n varint W.read_int64 v
    pub int32 :
        (n : ℕ) (v : ℤ) → IsField n → InI32 v → Reads (W.write_int32 n v) n varint W.read_int32 v
    pub bool : (n : ℕ) (v : Bool) → IsField n → Reads (W.write_bool n v) n varint W.read_bool v
    pub bytes :
        (n : ℕ) (v : Bytes)
        → IsField n
        → IsBytes v
        → Reads (W.write_bytes n v) n length_delimited (W.read_bytes length_delimited) v
    pub message :
        (n : ℕ) (len : ℕ) (inside : Bytes)
        → IsField n
        → len ≡ length inside
        → IsU32 len
        → Reads
            (write_nested W n len inside)
            n
            length_delimited
            (W.read_message length_delimited)
            inside
    pub no_unknown : W.write_unknown_fields W.no_unknown ≡ []

  module _ {M : Type 0} (law : IsFaithful) (field : Field W M) where
    tag_shorter :
        (s : Bytes) (x : ℕ × WireType) (after : Bytes)
        → W.read_tag_unpack s ≡ ok (x, after)
        → suc (length after) ≤ length s
    tag_shorter [] x after e = absurd (law.at_end (x, after) e)
    tag_shorter (b ∷ bs) x after e =
        let l : Leaves W (length bs) (ok (x, after)) = rw e at (law.lawful.tag b bs) in
        omega (arith, l)

    -- One round of the loop, with fuel left for the rest.
    next_round :
        (s : Bytes) (m m' : M) (n : ℕ) (t : WireType) (after rest : Bytes) (fuel : ℕ)
        → W.read_tag_unpack s ≡ ok ((n, t), after)
        → field m n t after ≡ ok (m', rest)
        → length rest ≤ length after
        → length s ≤ fuel
        → (left : ℕ) × (merge_loop W field fuel m s ≡ merge_loop W field left m' rest)
          × (length rest ≤ left)
    unfolding merge_loop
    next_round [] m m' n t after rest fuel r f l h = absurd (law.at_end ((n, t), after) r)
    next_round (b ∷ bs) m m' n t after rest zero r f l h = absurd (omega arith)
    next_round (b ∷ bs) m m' n t after rest (suc fuel) r f l h =
        let k = tag_shorter (b ∷ bs) (n, t) after r in (fuel, rw r (rw f refl), omega arith)

    -- The loop reads these bytes, whatever follows, and gets from one message to the other.
    abbrev pub Gets : M → Bytes → M → Type 0
    Gets m s m' =
        (rest : Bytes) (fuel : ℕ)
        → length (s ++ rest) ≤ fuel
        → (left : ℕ) × (merge_loop W field fuel m (s ++ rest) ≡ merge_loop W field left m' rest)
          × (length rest ≤ left)

    pub Gets-nil : (m : M) → Gets m [] m
    Gets-nil m rest fuel h = (fuel, refl, h)

    pub Gets-append :
        (m m' m'' : M) (s t : Bytes) → Gets m s m' → Gets m' t m'' → Gets m (s ++ t) m''
    Gets-append m m' m'' s t g g' rest fuel h =
        let e = append_assoc s t rest in
        let (left, p, l) = g (t ++ rest) fuel (rw e at h) in
        let (left', p', l') = g' rest left l in (left', rw e (p ∙ p'), l')

    pub Gets-field :
        {A : Type 0} (m : M) (written : Bytes) (n : ℕ) (t : WireType)
        (read : Bytes → Result W.Error (A × Bytes)) (set : A → M) (v : A)
        → Reads written n t read v
        → ((after rest : Bytes) → read after ≡ ok (v, rest) → field m n t after ≡ ok (set v, rest))
        → Gets m written (set v)
    Gets-field m written n t read set v reads sets rest fuel h =
        let (after, tag, value, l) = reads rest in
        next_round (written ++ rest) m (set v) n t after rest fuel tag (sets after rest value) l h

    pub Gets-message :
        (m m' : M) (n len : ℕ) (inside : Bytes)
        → IsField n
        → len ≡ length inside
        → IsU32 len
        → ((after rest : Bytes)
            → W.read_message length_delimited after ≡ ok (inside, rest)
            → field m n length_delimited after ≡ ok (m', rest))
        → Gets m (write_nested W n len inside) m'
    Gets-message m m' n len inside f e u sets =
        Gets-field m _ n length_delimited _ (λ _. m') inside (law.message n len inside f e u) sets

    pub Gets-whole :
        (m m' : M) (s : Bytes) → Gets m s m' → merge_loop W field (length s) m s ≡ ok m'
    unfolding merge_loop
    Gets-whole m m' s g =
        let e = append-nil s in
        let (left, p, l) = g [] (length s) (rw e (omega arith)) in
        sym (ap (merge_loop W field (length s) m) e) ∙ p ∙ ends left m'
      where
        ends : (left : ℕ) (x : M) → merge_loop W field left x [] ≡ ok x
        ends zero x = refl
        ends (suc left) x = refl

  -- A digest as it is read: without a cached size or unknown fields.
  abbrev pub bare : Digest W → Digest W
  bare d = record (Digest.new W) { hash = d.hash; size_bytes = d.size_bytes }

  abbrev pub bare_option : Option (Digest W) → Option (Digest W)
  bare_option none = none
  bare_option (some d) = some (bare d)

  -- It has no unknown fields, and the others have values of their types.
  abbrev pub IsPlain : Digest W → Type 0
  IsPlain d = (d.unknown_fields ≡ W.no_unknown) × IsString d.hash × InI64 d.size_bytes

  abbrev pub IsPlainOption : Option (Digest W) → Type 0
  IsPlainOption none = Unit
  IsPlainOption (some d) = IsPlain d

  -- Besides, its cached size is the number of bytes that it is written with.
  abbrev pub IsSized : Digest W → Type 0
  IsSized d =
      IsPlain d
      × (d.cached_size ≡ length (Digest.write_to_with_cached_sizes W d))
      × IsU32 d.cached_size

  abbrev pub IsSizedOption : Option (Digest W) → Type 0
  IsSizedOption none = Unit
  IsSizedOption (some d) = IsSized d

  module _ (law : IsFaithful) where
    hash_field :
        (d : Digest W) (v : Text) (after rest : Bytes)
        → W.read_string length_delimited after ≡ ok (v, rest)
        → Digest.field W d 1 length_delimited after ≡ ok (record d { hash = v }, rest)
    unfolding Digest.field
    hash_field d v after rest e = rw e refl

    size_field :
        (d : Digest W) (v : ℤ) (after rest : Bytes)
        → W.read_int64 after ≡ ok (v, rest)
        → Digest.field W d 2 varint after ≡ ok (record d { size_bytes = v }, rest)
    unfolding Digest.field
    size_field d v after rest e = rw e refl

    hash_part :
        (h : Text)
        → IsString h
        → Gets law
            (Digest.field W)
            (Digest.new W)
            (if is_empty h then [] else W.write_string 1 h)
            (record (Digest.new W) { hash = h })
    hash_part [] i = Gets-nil law (Digest.field W) (Digest.new W)
    hash_part (c ∷ h) i =
        Gets-field law (Digest.field W) (Digest.new W) _ 1 length_delimited _
          (λ v. record (Digest.new W) { hash = v }) (c ∷ h) (law.string 1 (c ∷ h) refl i)
          (hash_field (Digest.new W) (c ∷ h))

    size_part :
        (d : Digest W) (n : ℤ)
        → d.size_bytes ≡ pos 0
        → InI64 n
        → Gets law
            (Digest.field W)
            d
            (if is_zero n then [] else W.write_int64 2 n)
            (record d { size_bytes = n })
    size_part d (pos zero) e i = rw⁻¹ e (Gets-nil law (Digest.field W) d)
    size_part d (pos (suc n)) e i =
        Gets-field law (Digest.field W) d _ 2 varint _ (λ v. record d { size_bytes = v })
          (pos (suc n)) (law.int64 2 (pos (suc n)) refl i) (size_field d (pos (suc n)))
    size_part d (negsuc n) e i =
        Gets-field law (Digest.field W) d _ 2 varint _ (λ v. record d { size_bytes = v }) (negsuc n)
          (law.int64 2 (negsuc n) refl i) (size_field d (negsuc n))

    pub digest_merge_from-write :
        (d : Digest W)
        → IsPlain d
        → Digest.merge_from W (Digest.new W) (Digest.write_to_with_cached_sizes W d) ≡ ok (bare d)
    unfolding Digest.merge_from Digest.write_to_with_cached_sizes
    digest_merge_from-write d (e, i, j) =
        let first : Digest W = record (Digest.new W) { hash = d.hash } in
        let last : Digest W = record first { size_bytes = d.size_bytes } in
        rw (e, law.no_unknown)
          (Gets-whole law (Digest.field W) (Digest.new W) last _ (
            Gets-append law (Digest.field W) (Digest.new W) first last _ _ (hash_part d.hash i) (
              Gets-append law (Digest.field W) first last last _ _
                (size_part first d.size_bytes refl j) (Gets-nil law (Digest.field W) last))))
