-- ===== src/Programs/Keys.antt =====
-- src/bin/server_side_proxy.rs: the prefix of the keys in the bucket.
use local_cache_proxy.Base.{
  ◌≡◌, refl, ℕ, zero, suc, Option, some, [], ◌∷◌, ◌++◌, Bool-cases, inl, inr, ◌==◌,
}
use local_cache_proxy.Base.Result.{Result}
use local_cache_proxy.Base.Text.{Text, codes, trim_matches, trim_left_matches, trim_right_matches}
use local_cache_proxy.Programs.{Matches, s3_config}

abbrev slashes : ℕ → Text
slashes zero = []
slashes (suc n) = b'/' ∷ slashes n

trim_left-slashes :
    (n : ℕ) (s : Text) → trim_left_matches b'/' (slashes n ++ s) ≡ trim_left_matches b'/' s
unfolding trim_left_matches
trim_left-slashes zero s = refl
trim_left-slashes (suc n) s = trim_left-slashes n s

trim_right-slashes : (m : ℕ) → trim_right_matches b'/' (slashes m) ≡ []
unfolding trim_right_matches
trim_right-slashes zero = refl
trim_right-slashes (suc m) = rw (trim_right-slashes m) refl

trim_right-append :
    (s : Text) (m : ℕ) → trim_right_matches b'/' (s ++ slashes m) ≡ trim_right_matches b'/' s
unfolding trim_right_matches
trim_right-append [] m = trim_right-slashes m
trim_right-append (c ∷ s) m = rw (trim_right-append s m) refl

trim_matches-append : (s : Text) (m : ℕ) → trim_matches b'/' (s ++ slashes m) ≡ trim_matches b'/' s
unfolding trim_matches trim_left_matches
trim_matches-append [] zero = refl
trim_matches-append [] (suc m) = trim_matches-append [] m
trim_matches-append (c ∷ s) m = elim (Bool-cases (c == b'/')) [
  | inl e ↦ rw e (trim_matches-append s m)
  | inr e ↦ rw e (trim_right-append (c ∷ s) m)
]

-- Slashes at the ends of the prefix make no difference: the two command lines have one bucket and the
-- same prefix but for them.
s3_config-slashes :
    (matches matches' : Matches) (p : Text) (n m : ℕ)
    → matches (codes "s3_bucket") ≡ matches' (codes "s3_bucket")
    → matches (codes "s3_prefix") ≡ some p
    → matches' (codes "s3_prefix") ≡ some (slashes n ++ (p ++ slashes m))
    → (parse : Text → Result Text Text) (home : Option Text)
    → s3_config parse home matches ≡ s3_config parse home matches'
unfolding s3_config trim_matches
s3_config-slashes matches matches' p n m b e f parse home =
    rw (b, e, f) (rw (trim_left-slashes n (p ++ slashes m), trim_matches-append p m) refl)
