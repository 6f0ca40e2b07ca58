-- ===== src/Request/Pieces.antt =====
-- Laws of the trimming, splitting and replacing of texts that a path goes through.
use mathlib.Core.List.{append_assoc}
use local_cache_proxy.Base.{
  ◌≡◌, ◌≢◌, refl, sym, ℕ, false, List, [], ◌∷◌, ◌++◌, arith, if◌then◌else◌, ◌==◌, Bool-cases, inl,
  inr,
}
use local_cache_proxy.Base.Text.{
  Text, contains, split, replace, cons_trimmed, trim_matches, trim_right_matches, trim_left_matches,
}
use local_cache_proxy.Request.Safe.{Free}

pub cons_trimmed_ne : (a c : ℕ) (s : Text) → (c == a) ≡ false → cons_trimmed a c s ≡ c ∷ s
cons_trimmed_ne a c [] h = rw h
cons_trimmed_ne a c (d ∷ s) h = refl

pub cons_trimmed_onto : (a c : ℕ) (s : Text) → s ≢ [] → cons_trimmed a c s ≡ c ∷ s
cons_trimmed_onto a c [] h = absurd (h refl)
cons_trimmed_onto a c (d ∷ s) h = refl

pub trim_right-Free : (a : ℕ) (s : Text) → Free a s → trim_right_matches a s ≡ s
unfolding trim_right_matches contains
trim_right-Free a [] h = refl
trim_right-Free a (c ∷ s) h =
    rw (trim_right-Free a s (ground arith)) (cons_trimmed_ne a c s (ground arith))

-- A text that the trimming leaves alone, and whatever stands in front of it.
abbrev pub Kept : ℕ → Text → Type 0
Kept a s = (trim_right_matches a s ≡ s) × (s ≢ [])

pub Kept-Free : (a : ℕ) (s : Text) → Free a s → s ≢ [] → Kept a s
Kept-Free a s f h = (trim_right-Free a s f, h)

pub Kept-append : (a : ℕ) (s t : Text) → Kept a t → Kept a (s ++ t)
unfolding trim_right_matches
Kept-append a [] t k = k
Kept-append a (c ∷ s) t k =
    let (e, n) = Kept-append a s t k in (rw e (cons_trimmed_onto a c (s ++ t) n), λ p. cc)

pub trim_right-append_Free :
    (a : ℕ) (s t : Text) → Free a s → trim_right_matches a (s ++ t) ≡ s ++ trim_right_matches a t
unfolding trim_right_matches contains
trim_right-append_Free a [] t f = refl
trim_right-append_Free a (c ∷ s) t f =
    rw (trim_right-append_Free a s t (ground arith)) (cons_trimmed_ne a c _ (ground arith))

pub split-Free : (a : ℕ) (s : Text) → Free a s → split a s ≡ s ∷ []
unfolding split contains
split-Free a [] f = refl
split-Free a (c ∷ s) f = ground (arith, split-Free a s)

pub split-append : (a : ℕ) (s t : Text) → Free a s → split a (s ++ (a ∷ t)) ≡ s ∷ split a t
unfolding split contains
split-append a [] t f = ground arith
split-append a (c ∷ s) t f = ground (arith, split-append a s t)

pub replace-Free_self : (a : ℕ) (new s : Text) → Free a s → replace a new s ≡ s
unfolding replace contains
replace-Free_self a new [] f = refl
replace-Free_self a new (c ∷ s) f = ground (arith, replace-Free_self a new s)

pub replace-append :
    (a : ℕ) (s t put : Text) → replace a put (s ++ t) ≡ replace a put s ++ replace a put t
unfolding replace
replace-append a [] t put = refl
replace-append a (c ∷ s) t put =
    rw (replace-append a s t put) (sym (append_assoc (if c == a then put else c ∷ []) _ _))

-- The leading slash goes, and nothing else.
pub trim_slash :
    (s : Text) → trim_left_matches b'/' s ≡ s → Kept b'/' s → trim_matches b'/' (b'/' ∷ s) ≡ s
unfolding trim_matches
trim_slash s e k = rw e k.0

pub split-cons : (a : ℕ) (s : Text) → (w : Text) × (ws : List Text) × (split a s ≡ w ∷ ws)
unfolding split
split-cons a [] = ([], [], refl)
split-cons a (c ∷ s) = elim (Bool-cases (c == a)) [
  | inl e ↦ ([], split a s, rw e)
  | inr e ↦ let (w, ws, p) = split-cons a s in (c ∷ w, ws, rw (e, p))
]

pub split-append_Free :
    (a : ℕ) (s t : Text)
    → Free a s
    → (w : Text) × (ws : List Text) × (split a (s ++ t) ≡ (s ++ w) ∷ ws)
unfolding split contains
split-append_Free a [] t f = split-cons a t
split-append_Free a (c ∷ s) t f =
    let (w, ws, p) = split-append_Free a s t (ground arith) in (w, ws, ground arith)
