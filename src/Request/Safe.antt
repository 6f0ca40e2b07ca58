-- ===== src/Request/Safe.antt =====
-- src/net/proxy_request.rs: the characters of the names that `ProxyRequest::new` makes.
use local_cache_proxy.Base.{
  ◌≡◌, refl, ℕ, Option, none, some, false, List, [], ◌∷◌, ◌++◌, arith, drop_last, ◌==◌, Bool-cases,
  inl, inr,
}
use local_cache_proxy.Base.Text.{
  Text, codes, text_eq, starts_with, contains, split, replace, cons_first, trim_matches,
}
use local_cache_proxy.Request.{
  ProxyRequest, file_name, repo_request, plain_request, other_request, from_elements, strip_prefix,
  new,
}

abbrev pub Free : ℕ → Text → Type 0
Free a s = contains a s ≡ false

abbrev pub AllFree : ℕ → List Text → Type 0
AllFree a [] = Unit
AllFree a (s ∷ ss) = Free a s × AllFree a ss

pub Free-append : (a : ℕ) (s t : Text) → Free a s → Free a t → Free a (s ++ t)
unfolding contains
Free-append a [] t h k = k
Free-append a (c ∷ s) t h k = ground (arith, Free-append a s t)

AllFree-cons_first :
    (a c : ℕ) (ws : List Text) → (c == a) ≡ false → AllFree a ws → AllFree a (cons_first c ws)
unfolding contains
AllFree-cons_first a c [] h k = ground arith
AllFree-cons_first a c (w ∷ ws) h k = ground arith

-- The pieces of a split do not hold the separator.
pub split-AllFree : (a : ℕ) (s : Text) → AllFree a (split a s)
unfolding split contains
split-AllFree a [] = (refl, tt)
split-AllFree a (c ∷ s) = elim (Bool-cases (c == a)) [
  | inl e ↦ rw e (refl, split-AllFree a s)
  | inr e ↦ rw e (AllFree-cons_first a c (split a s) e (split-AllFree a s))
]

AllFree-drop_last : (a : ℕ) (ws : List Text) → AllFree a ws → AllFree a (drop_last ws)
AllFree-drop_last a [] h = tt
AllFree-drop_last a (x ∷ []) h = tt
AllFree-drop_last a (x ∷ y ∷ ys) h = (h.0, AllFree-drop_last a (y ∷ ys) h.1)

strip_prefix-AllFree : (a : ℕ) (ws : List Text) → AllFree a ws → AllFree a (strip_prefix ws)
unfolding strip_prefix
strip_prefix-AllFree a [] h = tt
strip_prefix-AllFree a (w ∷ ws) h = elim (Bool-cases (starts_with w (codes "bazel-cache"))) [
  | inl e ↦ rw e (AllFree-drop_last a (w ∷ ws) h)
  | inr e ↦ rw e h
]

pub replace-Free : (a : ℕ) (new s : Text) → Free a new → Free a (replace a new s)
unfolding replace contains
replace-Free a new [] h = refl
replace-Free a new (c ∷ s) h = elim (Bool-cases (c == a)) [
  | inl e ↦ rw e (Free-append a new (replace a new s) h (replace-Free a new s h))
  | inr e ↦ rw e (ground (arith, replace-Free a new s h))
]

-- The two parts of the file name.
abbrev IsSafe : Option ProxyRequest → Type 0
IsSafe none = Unit
IsSafe (some r) = Free b'/' r.tpe × Free b'/' r.digest

other_request-IsSafe : (path : Text) → IsSafe (other_request path)
unfolding other_request contains
other_request-IsSafe path = elim (Bool-cases (text_eq path (codes "/"))) [
  | inl e ↦ rw e (refl, refl)
  | inr e ↦ rw e (refl, replace-Free b'/' (codes "__") path refl)
]

repo_request-IsSafe :
    (first : Text) (rest : List Text) → AllFree b'/' rest → IsSafe (repo_request first rest)
unfolding repo_request
repo_request-IsSafe first [] h = ground arith
repo_request-IsSafe first (t ∷ []) h = ground arith
repo_request-IsSafe first (t ∷ d ∷ ds) h = ground arith

plain_request-IsSafe :
    (path tpe : Text) (rest : List Text)
    → Free b'/' tpe
    → AllFree b'/' rest
    → IsSafe (plain_request path tpe rest)
unfolding plain_request
plain_request-IsSafe path tpe [] h k = other_request-IsSafe path
plain_request-IsSafe path tpe (d ∷ []) h k = ground (arith, other_request-IsSafe path)
plain_request-IsSafe path tpe (d ∷ e ∷ es) h k = other_request-IsSafe path

from_elements-IsSafe :
    (path : Text) (ws : List Text) → AllFree b'/' ws → IsSafe (from_elements path ws)
unfolding from_elements
from_elements-IsSafe path [] h = tt
from_elements-IsSafe path (w ∷ ws) h = elim (Bool-cases (starts_with w (codes "repo="))) [
  | inl e ↦ rw e (repo_request-IsSafe w ws h.1)
  | inr e ↦ rw e (plain_request-IsSafe path w ws h.0 h.1)
]

-- Whatever path is read as a request, the name of the file that the proxy reads or writes for it
-- has no `/`.
pub file_name-new :
    (uri_path : Text) {r : ProxyRequest} → new uri_path ≡ some r → Free b'/' (file_name r)
unfolding new file_name contains
file_name-new uri_path {r} h =
    let ws = split b'/' (trim_matches b'/' uri_path) in
    let s : IsSafe (new uri_path) =
      from_elements-IsSafe _ (strip_prefix ws)
        (strip_prefix-AllFree b'/' ws (split-AllFree b'/' _)) in
    let s' : IsSafe (some r) = rw h at s in
    Free-append b'/' r.tpe (codes "__" ++ r.digest) s'.0
      (Free-append b'/' (codes "__") r.digest refl s'.1)
