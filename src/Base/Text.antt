-- ===== src/Base/Text.antt =====
-- `String` and `&str` as lists of code points, with the operations of the standard library that
-- the program calls: `==`, `starts_with`, `split`, `trim_matches`, `trim_right_matches`,
-- `replace` of one character, and the decimal `parse` and `to_string` of `u64`.
use Prim.Native.Nat.{ℕ, ◌+◌, ◌-◌, ◌*◌, ◌^◌, ◌<◌}
use Prim.Native.Char.{code}
use Prim.Native.String.{String}
use mathlib.Core.Bool.{Bool, true, false, ◌&&◌, ◌||◌}
use mathlib.Core.List.{List, [], ◌∷◌, ◌++◌}
use mathlib.Core.Logic.{◌↔◌}
use mathlib.Core.Option.{Option, none, some}
use mathlib.Core.Path.{◌≡◌, refl}
use native.Mathlib.Omega.{arith}
use local_cache_proxy.Base.Tests.{ltb, leb, ◌==◌, if◌then◌else◌}

abbrev pub Text : Type 0
Text = List ℕ

-- A text literal of the source; all of them are ASCII.
abbrev pub codes : String → Text
codes String.[] = []
codes (String.◌∷◌ c s) = code c ∷ codes s

unfoldable pub text_eq : Text → Text → Bool
text_eq [] [] = true
text_eq (x ∷ xs) (y ∷ ys) = x == y && text_eq xs ys
text_eq _ _ = false

pub text_eq_iff : (a b : Text) → (text_eq a b ≡ true) ↔ (a ≡ b)
unfolding text_eq
text_eq_iff (x ∷ a) (y ∷ b) = ground (arith, text_eq_iff a b)
text_eq_iff _ _ = ground arith

pub text_eq_refl : (a : Text) → text_eq a a ≡ true
text_eq_refl a = (text_eq_iff a a).1 refl

unfoldable pub starts_with : Text → Text → Bool
starts_with s [] = true
starts_with [] (p ∷ ps) = false
starts_with (c ∷ s) (p ∷ ps) = c == p && starts_with s ps

unfoldable pub contains : ℕ → Text → Bool
contains a [] = false
contains a (c ∷ s) = c == a || contains a s

-- Puts a character in front of the first piece.
abbrev pub cons_first : ℕ → List Text → List Text
cons_first c [] = (c ∷ []) ∷ []
cons_first c (w ∷ ws) = (c ∷ w) ∷ ws

unfoldable pub split : ℕ → Text → List Text
split sep [] = [] ∷ []
split sep (c ∷ s) = if c == sep then [] ∷ split sep s else cons_first c (split sep s)

unfoldable pub trim_left_matches : ℕ → Text → Text
trim_left_matches a [] = []
trim_left_matches a (c ∷ s) = if c == a then trim_left_matches a s else c ∷ s

abbrev pub cons_trimmed : ℕ → ℕ → Text → Text
cons_trimmed a c [] = if c == a then [] else c ∷ []
cons_trimmed a c (d ∷ s) = c ∷ d ∷ s

unfoldable pub trim_right_matches : ℕ → Text → Text
trim_right_matches a [] = []
trim_right_matches a (c ∷ s) = cons_trimmed a c (trim_right_matches a s)

unfoldable pub trim_matches : ℕ → Text → Text
unfolding trim_left_matches trim_right_matches
trim_matches a s = trim_right_matches a (trim_left_matches a s)

unfoldable pub replace : ℕ → Text → Text → Text
replace a new [] = []
replace a new (c ∷ s) = (if c == a then new else c ∷ []) ++ replace a new s

abbrev is_digit : ℕ → Bool
is_digit c = leb b'0' c && leb c b'9'

-- Digits from the left, with an error at the first value past `u64::MAX`.
digits_onto : ℕ → Text → Option ℕ
digits_onto n [] = some n
digits_onto n (c ∷ s) =
    let next = n * 10 + (c - b'0') in
    let rest = digits_onto next s in if is_digit c && ltb next (2 ^ 64) then rest else none

-- `str::parse::<u64>`: one leading `+` is allowed, and at least one digit is needed.
unfoldable pub parse_u64 : Text → Option ℕ
unfolding digits_onto
parse_u64 [] = none
parse_u64 (c ∷ []) = if c == b'+' then none else digits_onto 0 (c ∷ [])
parse_u64 (c ∷ d ∷ s) = if c == b'+' then digits_onto 0 (d ∷ s) else digits_onto 0 (c ∷ d ∷ s)

digits_onto-bound : (n v : ℕ) (s : Text) → digits_onto n s ≡ some v → n < 2 ^ 64 → v < 2 ^ 64
unfolding digits_onto
digits_onto-bound n v [] e h = ground (arith, e)
digits_onto-bound n v (c ∷ s) e h = ground (arith, digits_onto-bound (n * 10 + (c - b'0')) v s)

-- What is parsed is a number of the machine.
pub parse_u64-bound : (s : Text) (v : ℕ) → parse_u64 s ≡ some v → v < 2 ^ 64
unfolding parse_u64
parse_u64-bound [] v e = absurd (cc)
parse_u64-bound (c ∷ []) v e = ground (arith, digits_onto-bound 0 v (c ∷ []))
parse_u64-bound (c ∷ d ∷ s) v e =
    ground (arith, digits_onto-bound 0 v (c ∷ d ∷ s), digits_onto-bound 0 v (d ∷ s))
