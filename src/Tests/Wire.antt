-- ===== src/Tests/Wire.antt =====
-- A wire format of bytes: numbers of a fixed width, the lowest byte first.
use local_cache_proxy.Base.{
  ◌≡◌, refl, ap, ℕ, zero, suc, ◌+◌, ◌*◌, ◌/◌, ◌%◌, ◌<◌, ◌≤◌, [], ◌∷◌, ◌++◌, arith, length,
}
use local_cache_proxy.Base.Int.{ℤ, pos, negsuc}
use local_cache_proxy.Base.Result.{Result, ok, err}
use local_cache_proxy.Base.Text.{Text, codes}
use local_cache_proxy.Message.{Wire}
use local_cache_proxy.Message.Lawful.{IsLawful, Leaves}
use local_cache_proxy.Message.Ranges.{AllOf}
use local_cache_proxy.SendStream.{take, drop}
use local_cache_proxy.Tests.Fixtures.{small_wire, double, small_wire-IsLawful, length-drop}
use local_cache_proxy.World.Disk.{Bytes}

abbrev pub Read : Type 0 → Type 0
Read A = Result Text (A × Bytes)

abbrev pub and_read : {A B : Type 0} → Read A → (A → Bytes → Read B) → Read B
and_read (ok (a, s)) f = f a s
and_read (err e) f = err e

abbrev pub digits : ℕ → ℕ → Bytes
digits zero n = []
digits (suc k) n = n % 256 ∷ digits k (n / 256)

abbrev pub number : ℕ → Bytes → Read ℕ
number zero s = ok (0, s)
number (suc k) [] = err (codes "end")
number (suc k) (b ∷ s) = and_read (number k s) (λ m rest. ok (b + 256 * m, rest))

-- How many numbers `k` bytes can tell apart.
abbrev pub room : ℕ → ℕ
room zero = 1
room (suc k) = 256 * room k

pub number-digits :
    (k n : ℕ) (rest : Bytes) → n < room k → number k (digits k n ++ rest) ≡ ok (n, rest)
number-digits zero n rest h = let e : n ≡ 0 = omega (arith, h) in rw e refl
number-digits (suc k) n rest h =
    let e = number-digits k (n / 256) rest (omega (arith, h)) in
    let f : n % 256 + 256 * (n / 256) ≡ n = omega arith in rw e (ap (λ x. ok (x, rest)) f)

pub length-digits : (k n : ℕ) → length (digits k n) ≡ k
length-digits zero n = refl
length-digits (suc k) n = ap suc (length-digits k (n / 256))

abbrev pub chars : ℕ → Bytes → Read Text
chars zero s = ok ([], s)
chars (suc n) s =
    and_read (number 3 s) (λ c rest. and_read (chars n rest) (λ v rest'. ok (c ∷ v, rest')))

abbrev pub spread : Text → Bytes
spread [] = []
spread (c ∷ v) = digits 3 c ++ spread v

abbrev pub read_int : Bytes → Read ℤ
read_int [] = err (codes "end")
read_int (zero ∷ s) = and_read (number 8 s) (λ n rest. ok (pos n, rest))
read_int (suc k ∷ s) = and_read (number 8 s) (λ n rest. ok (negsuc n, rest))

abbrev pub write_int : ℤ → Bytes
write_int (pos n) = 0 ∷ digits 8 n
write_int (negsuc n) = 1 ∷ digits 8 n

abbrev pub read_many : Bytes → Read Bytes
read_many s = and_read (number 4 s) (λ n rest. ok (take n rest, drop n rest))

abbrev pub read_string : Bytes → Read Text
read_string s = and_read (number 4 s) (λ n rest. chars n rest)

abbrev pub byte_wire : Wire
byte_wire = record small_wire {
  read_int32 = read_int;
  read_int64 = read_int;
  read_string = λ _. read_string;
  read_bytes = λ _. read_many;
  read_message = λ _. read_many;
  write_raw_varint32 = λ n. digits 4 n;
  write_string = λ n v. suc (double n) ∷ (digits 4 (length v) ++ spread v);
  write_bytes = λ n v. suc (double n) ∷ (digits 4 (length v) ++ v);
  write_int32 = λ n v. double n ∷ write_int v;
  write_int64 = λ n v. double n ∷ write_int v;
  string_size = λ _ v. 5 + 3 * length v;
  bytes_size = λ _ v. 5 + length v;
  value_size32 = λ _ _. 10;
  value_size64 = λ _ _. 10;
  compute_raw_varint32_size = λ _. 4;
}

AllOf-digits : (k n : ℕ) → AllOf (λ b. b < 256) (digits k n)
AllOf-digits zero n = tt
AllOf-digits (suc k) n = (omega arith, AllOf-digits k (n / 256))

-- What is left after a number, and after what follows it.
number-Leaves : (k : ℕ) (s : Bytes) → Leaves byte_wire (length s) (number k s)
number-Leaves zero s = omega arith
number-Leaves (suc k) [] = tt
number-Leaves (suc k) (b ∷ s) = after (number k s) (number-Leaves k s)
  where
    after :
        (x : Read ℕ)
        → Leaves byte_wire (length s) x
        → Leaves byte_wire (suc (length s)) (and_read x (λ m rest. ok (b + 256 * m, rest)))
    after (ok (m, rest)) h = omega (arith, h)
    after (err e) h = tt

and_read-Leaves :
    {A B : Type 0} (m : ℕ) (x : Read A) (f : A → Bytes → Read B)
    → Leaves byte_wire m x
    → ((a : A) (s : Bytes) → length s ≤ m → Leaves byte_wire m (f a s))
    → Leaves byte_wire m (and_read x f)
and_read-Leaves m (ok (a, s)) f h g = g a s h
and_read-Leaves m (err e) f h g = tt

Leaves-le :
    {A : Type 0} (m n : ℕ) (x : Read A) → m ≤ n → Leaves byte_wire m x → Leaves byte_wire n x
Leaves-le m n (ok (a, s)) h l = omega (arith, h, l)
Leaves-le m n (err e) h l = tt

chars-Leaves : (n : ℕ) (s : Bytes) → Leaves byte_wire (length s) (chars n s)
chars-Leaves zero s = omega arith
chars-Leaves (suc n) s = and_read-Leaves (length s) (number 3 s) _ (number-Leaves 3 s) (λ c rest h.
    and_read-Leaves (length s) (chars n rest) _
      (Leaves-le (length rest) (length s) (chars n rest) h (chars-Leaves n rest))
      (λ v rest' h'. h'))

many-Leaves : (s : Bytes) → Leaves byte_wire (length s) (read_many s)
many-Leaves s =
    and_read-Leaves (length s) (number 4 s) _ (number-Leaves 4 s)
      (λ n rest h. omega (arith, h, length-drop n rest))

string-Leaves : (s : Bytes) → Leaves byte_wire (length s) (read_string s)
string-Leaves s =
    and_read-Leaves (length s) (number 4 s) _ (number-Leaves 4 s)
      (λ n rest h. Leaves-le (length rest) (length s) (chars n rest) h (chars-Leaves n rest))

int-Leaves : (s : Bytes) → Leaves byte_wire (length s) (read_int s)
int-Leaves [] = tt
int-Leaves (zero ∷ s) =
    and_read-Leaves (suc (length s)) (number 8 s) _
      (Leaves-le (length s) (suc (length s)) (number 8 s) (omega arith) (number-Leaves 8 s))
      (λ n rest h. h)
int-Leaves (suc k ∷ s) =
    and_read-Leaves (suc (length s)) (number 8 s) _
      (Leaves-le (length s) (suc (length s)) (number 8 s) (omega arith) (number-Leaves 8 s))
      (λ n rest h. h)

pub byte_wire-IsLawful : IsLawful byte_wire
byte_wire-IsLawful = record {
  tag = small_wire-IsLawful.tag;
  bool = small_wire-IsLawful.bool;
  int32 = int-Leaves;
  int64 = int-Leaves;
  string = λ _ s. string-Leaves s;
  bytes = λ _ s. many-Leaves s;
  message = λ _ s. many-Leaves s;
  unknown = small_wire-IsLawful.unknown;
}
