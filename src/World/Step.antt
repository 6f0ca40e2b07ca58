-- ===== src/World/Step.antt =====
-- A future run to its end: a value, an error or a panic, with the world that it leaves.

pub data Out {ℓ κ} (E : Type κ) (A : Type ℓ) : Type (ℓ ⊔ κ) where
  done : A → Out E A
  fail : E → Out E A
  panic : Out E A

-- The actions on a world of type `W`.
abbrev pub Act {ℓ κ μ} : Type μ → Type κ → Type ℓ → Type (ℓ ⊔ κ ⊔ μ)
Act W E A = W → Out E A × W

module _ {ℓ κ μ ν} {W : Type μ} {E : Type κ} {A : Type ℓ} {B : Type ν} where
  abbrev pub and_then_from : Out E A × W → (A → Act W E B) → Out E B × W
  and_then_from (done a, w) f = f a w
  and_then_from (fail e, w) f = (fail e, w)
  and_then_from (panic, w) f = (panic, w)

  -- `and_then`
  infixl 5 ◌>>=◌
  abbrev pub ◌>>=◌ : Act W E A → (A → Act W E B) → Act W E B
  ◌>>=◌ m f w = and_then_from (m w) f

module _ {ℓ κ μ ν} {W : Type μ} {E : Type κ} {F : Type ν} {A : Type ℓ} where
  abbrev pub or_else_from : Out E A × W → (E → Act W F A) → Out F A × W
  or_else_from (done a, w) h = (done a, w)
  or_else_from (fail e, w) h = h e w
  or_else_from (panic, w) h = (panic, w)

  -- `or_else`: the handler runs on an error, not on a panic.
  abbrev pub or_else : Act W E A → (E → Act W F A) → Act W F A
  or_else m h w = or_else_from (m w) h

module _ {ℓ κ μ} {W : Type μ} {E : Type κ} {A : Type ℓ} where
  abbrev pub return : A → Act W E A
  return a w = (done a, w)
