-- ===== src/World/Keeps.antt =====
-- What an action keeps of a world, whatever its outcome: the rules for the ways to compose actions.
use local_cache_proxy.Base.{◌≡◌, refl, Bool, true, false, if◌then◌else◌}
use local_cache_proxy.World.Step.{
  Out, done, fail, panic, Act, and_then_from, ◌>>=◌, or_else_from, or_else,
}

-- The action keeps `I`.
abbrev pub Keeps {ℓ κ μ ν} :
    {W : Type μ} {E : Type κ} {A : Type ℓ} → (W → Type ν) → Act W E A → Type (μ ⊔ ν)
Keeps {W = W} I m = (w : W) → I w → I (m w).1

module _ {ℓ κ μ ν ξ} {W : Type μ} {E : Type κ} {A : Type ℓ} {B : Type ν} (I : W → Type ξ) where
  pub then-I :
      (x : Out E A × W) (f : A → Act W E B)
      → I x.1
      → ((a : A) (v : W) → x ≡ (done a, v) → I v → I (f a v).1)
      → I (and_then_from x f).1
  then-I (done a, v) f i k = k a v refl i
  then-I (fail e, v) f i k = i
  then-I (panic, v) f i k = i

  pub then-Keeps :
      (m : Act W E A) (f : A → Act W E B)
      → Keeps I m
      → ((a : A) → Keeps I (f a))
      → Keeps I (m >>= f)
  then-Keeps m f k l w i = then-I (m w) f (k w i) (λ a v _ j. l a v j)

module _ {ℓ κ μ ν ξ} {W : Type μ} {E : Type κ} {F : Type ν} {A : Type ℓ} (I : W → Type ξ) where
  pub else-I :
      (x : Out E A × W) (h : E → Act W F A)
      → I x.1
      → ((e : E) → Keeps I (h e))
      → I (or_else_from x h).1
  else-I (done a, v) h i k = i
  else-I (fail e, v) h i k = k e v i
  else-I (panic, v) h i k = i

  pub else-Keeps :
      (m : Act W E A) (h : E → Act W F A)
      → Keeps I m
      → ((e : E) → Keeps I (h e))
      → Keeps I (or_else m h)
  else-Keeps m h k l w i = else-I (m w) h (k w i) l

module _ {ℓ κ μ ξ} {W : Type μ} {E : Type κ} {A : Type ℓ} (I : W → Type ξ) where
  pub if-I :
      (c : Bool) (x y : Out E A × W)
      → (c ≡ true → I x.1)
      → (c ≡ false → I y.1)
      → I (if c then x else y).1
  if-I true x y h k = h refl
  if-I false x y h k = k refl
