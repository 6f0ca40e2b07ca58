-- ===== src/Tests/Faithful.antt =====
-- The two sides of the wire format of bytes agree.
use mathlib.Core.List.{append_assoc}
use local_cache_proxy.Base.{
  ◌≡◌, refl, ap, ◌∙◌, inl, inr, ℕ, zero, suc, ◌*◌, ◌≤◌, ◌<◌, Bool, true, false, [], ◌∷◌, ◌++◌,
  arith, length, length-append,
}
use local_cache_proxy.Base.Int.{ℤ, pos, negsuc}
use local_cache_proxy.Base.Result.{ok}
use local_cache_proxy.Base.Text.{Text}
use local_cache_proxy.Message.{varint, length_delimited, write_nested}
use local_cache_proxy.Message.Ranges.{InI32, InI64, IsU32, IsString, IsScalar, AllOf}
use local_cache_proxy.Message.RoundTrip.{IsFaithful, Reads}
use local_cache_proxy.Message.Sizes.{HasSizes}
use local_cache_proxy.SendStream.{take, drop}
use local_cache_proxy.Tests.Fixtures.{tag_number, tag_type, double}
use local_cache_proxy.Tests.Wire.{
  Read, and_read, digits, number, room, number-digits, chars, spread, read_int, write_int,
  read_many, read_string, byte_wire, byte_wire-IsLawful,
}
use local_cache_proxy.World.Disk.{Bytes}

number_varint : (n : ℕ) → tag_number (double n) ≡ n
number_varint zero = refl
number_varint (suc n) = rw (number_varint n) refl

type_varint : (n : ℕ) → tag_type (double n) ≡ varint
type_varint zero = refl
type_varint (suc n) = type_varint n

number_delimited : (n : ℕ) → tag_number (suc (double n)) ≡ n
number_delimited zero = refl
number_delimited (suc n) = rw (number_delimited n) refl

type_delimited : (n : ℕ) → tag_type (suc (double n)) ≡ length_delimited
type_delimited zero = refl
type_delimited (suc n) = type_delimited n

take-append : (v rest : Bytes) → take (length v) (v ++ rest) ≡ v
take-append [] rest = refl
take-append (b ∷ v) rest = rw (take-append v rest) refl

drop-append : (v rest : Bytes) → drop (length v) (v ++ rest) ≡ rest
drop-append [] rest = refl
drop-append (b ∷ v) rest = drop-append v rest

length_rest : (v rest : Bytes) → length rest ≤ length (v ++ rest)
length_rest [] rest = omega arith
length_rest (b ∷ v) rest = omega (arith, length_rest v rest)

-- The number at the start, and what follows it.
number_then :
    {A : Type 0} (k n : ℕ) (v rest : Bytes) (f : ℕ → Bytes → Read A)
    → n < room k
    → and_read (number k ((digits k n ++ v) ++ rest)) f ≡ f n (v ++ rest)
number_then k n v rest f h =
    ap (λ s. and_read (number k s) f) (append_assoc (digits k n) v rest)
    ∙ ap (λ x. and_read x f) (number-digits k n (v ++ rest) h)

longer : (a b rest : Bytes) → length rest ≤ length ((a ++ b) ++ rest)
longer a b rest = length_rest (a ++ b) rest

read_many_lem :
    (v rest : Bytes)
    → IsU32 (length v)
    → read_many ((digits 4 (length v) ++ v) ++ rest) ≡ ok (v, rest)
read_many_lem v rest h =
    number_then 4 (length v) v rest (λ n s. ok (take n s, drop n s)) (omega (arith, h))
    ∙ rw (take-append v rest, drop-append v rest) refl

small_char : (c : ℕ) → IsScalar c → c < 16777216
small_char c (inl h) = omega (arith, h)
small_char c (inr (l, h)) = omega (arith, h)

chars_lem :
    (v : Text) (rest : Bytes)
    → AllOf IsScalar v
    → chars (length v) (spread v ++ rest) ≡ ok (v, rest)
chars_lem [] rest h = refl
chars_lem (c ∷ v) rest h =
    number_then 3 c (spread v) rest
      (λ c s. and_read (chars (length v) s) (λ v rest'. ok (c ∷ v, rest')))
      (omega (arith, small_char c h.0))
    ∙ ap (λ x. and_read x (λ v rest'. ok (c ∷ v, rest'))) (chars_lem v rest h.1)

read_string_lem :
    (v : Text) (rest : Bytes)
    → IsString v
    → read_string ((digits 4 (length v) ++ spread v) ++ rest) ≡ ok (v, rest)
read_string_lem v rest h =
    number_then 4 (length v) (spread v) rest (λ n s. chars n s) (omega (arith, h.1))
    ∙ chars_lem v rest h.0

read_int_lem : (v : ℤ) (rest : Bytes) → InI64 v → read_int (write_int v ++ rest) ≡ ok (v, rest)
read_int_lem (pos n) rest h =
    ap (λ x. and_read x (λ n rest. ok (pos n, rest))) (number-digits 8 n rest (omega (arith, h)))
read_int_lem (negsuc n) rest h =
    ap (λ x. and_read x (λ n rest. ok (negsuc n, rest))) (number-digits 8 n rest (omega (arith, h)))

reads_int :
    (n : ℕ) (v : ℤ)
    → InI64 v
    → Reads byte_wire (byte_wire.write_int64 n v) n varint byte_wire.read_int64 v
reads_int n v h rest = (
  write_int v ++ rest,
  rw (number_varint n, type_varint n) refl,
  read_int_lem v rest h,
  length_rest (write_int v) rest,
)

wide : (v : ℤ) → InI32 v → InI64 v
wide (pos n) h = omega (arith, h)
wide (negsuc n) h = omega (arith, h)

reads_bool :
    (n : ℕ) (v : Bool) → Reads byte_wire (byte_wire.write_bool n v) n varint byte_wire.read_bool v
reads_bool n true rest = (1 ∷ rest, rw (number_varint n, type_varint n) refl, refl, omega arith)
reads_bool n false rest = (0 ∷ rest, rw (number_varint n, type_varint n) refl, refl, omega arith)

reads_string :
    (n : ℕ) (v : Text)
    → IsString v
    → Reads byte_wire
        (byte_wire.write_string n v)
        n
        length_delimited
        (byte_wire.read_string length_delimited)
        v
reads_string n v h rest = (
  (digits 4 (length v) ++ spread v) ++ rest,
  rw (number_delimited n, type_delimited n) refl,
  read_string_lem v rest h,
  longer (digits 4 (length v)) (spread v) rest,
)

reads_many :
    (n : ℕ) (v : Bytes)
    → IsU32 (length v)
    → Reads byte_wire
        (byte_wire.write_bytes n v)
        n
        length_delimited
        (byte_wire.read_bytes length_delimited)
        v
reads_many n v h rest = (
  (digits 4 (length v) ++ v) ++ rest,
  rw (number_delimited n, type_delimited n) refl,
  read_many_lem v rest h,
  longer (digits 4 (length v)) v rest,
)

reads_inside :
    (n len : ℕ) (inside : Bytes)
    → len ≡ length inside
    → IsU32 len
    → Reads byte_wire
        (write_nested byte_wire n len inside)
        n
        length_delimited
        (byte_wire.read_message length_delimited)
        inside
reads_inside n len inside e h = rw e (reads_many n inside (omega (arith, e, h)))

pub byte_wire-IsFaithful : IsFaithful byte_wire
byte_wire-IsFaithful = record {
  lawful = byte_wire-IsLawful;
  at_end = λ x h. cc;
  string = λ n v _ h. reads_string n v h;
  int64 = λ n v _ h. reads_int n v h;
  int32 = λ n v _ h. reads_int n v (wide v h);
  bool = λ n v _. reads_bool n v;
  bytes = λ n v _ h. reads_many n v h.1;
  message = λ n len inside _ e h. reads_inside n len inside e h;
  no_unknown = refl;
}

pub byte_wire-HasSizes : HasSizes byte_wire
byte_wire-HasSizes = record {
  string =
      λ n v _ _. omega (arith, length-append (digits 4 (length v)) (spread v), length-spread v);
  bytes = λ n v _ _. omega (arith, length-append (digits 4 (length v)) v);
  int64 = λ n v _ _. size64 n v;
  bool = λ n v _. refl;
  tag = λ n _. refl;
  raw = λ n _. refl;
  unknown = refl;
}
  where
    length-spread : (v : Text) → length (spread v) ≡ 3 * length v
    length-spread [] = refl
    length-spread (c ∷ v) = omega (arith, length-spread v)

    size64 : (n : ℕ) (v : ℤ) → 10 ≡ length (byte_wire.write_int64 n v)
    size64 n (pos k) = refl
    size64 n (negsuc k) = refl
