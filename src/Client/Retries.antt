-- ===== src/Client/Retries.antt =====
-- src/net/client.rs: what a loop of retries costs, over any single attempt.
use local_cache_proxy.Base.{◌∙◌, ◌≡◌, ◌≢◌, ℕ, zero, suc, ◌+◌, ◌*◌, ◌≤◌, arith, length}
use local_cache_proxy.Base.Text.{Text}
use local_cache_proxy.World.{World}
use local_cache_proxy.World.Step.{Out, or_else_from, done, fail, panic, Act}
use local_cache_proxy.Client.{delay, with_retries}

-- The sleeps before `tries` retries.
unfoldable pub backoff : ℕ → ℕ → ℕ → ℕ
backoff zero sleep multiplier = 0
backoff (suc tries) sleep multiplier = sleep + backoff tries (sleep * multiplier) multiplier

-- What one attempt may do: it sends up to `most` requests and at least one, and takes at most `long`.
pub record Attempt {ℓ} {C : Type 0} {A : Type ℓ} (once : Act (World C) Text A) (most long : ℕ)
    (w : World C) : Type 0 where
  pub sends : suc (length w.sent) ≤ length (once w).1.sent
  pub at_most : length (once w).1.sent ≤ length w.sent + most
  pub forward : w.now ≤ (once w).1.now
  pub in_time : (once w).1.now ≤ w.now + long

module _ {ℓ} {C : Type 0} {A : Type ℓ} (once : Act (World C) Text A) (most long : ℕ)
    (each : (w : World C) → Attempt once most long w) where
  pub with_retries-Attempt :
      (tries sleep multiplier : ℕ) (w : World C)
      → Attempt
          (with_retries once tries sleep multiplier)
          (suc tries * most)
          (suc tries * long + backoff tries sleep multiplier)
          w
  unfolding with_retries backoff
  with_retries-Attempt zero sleep multiplier w = ground (arith, each w)
  with_retries-Attempt (suc tries) sleep multiplier w = ground (
    arith,
    each w,
    with_retries-Attempt tries (sleep * multiplier) multiplier
        (record (once w).1 { now = (once w).1.now + sleep }),
  )

-- Every attempt sends one request.
module _ {ℓ} {C : Type 0} {A : Type ℓ} (once : Act (World C) Text A)
    (one : (w : World C) → Attempt once 1 5000 w) where
  -- An error at the end means that no retry was left: each one was made, after its sleep.
  pub with_retries_failed :
      (e : Text) (tries sleep multiplier : ℕ) (w : World C)
      → (with_retries once tries sleep multiplier w).0 ≡ fail e
      → let w' = (with_retries once tries sleep multiplier w).1 in
        (length w'.sent ≡ length w.sent + suc tries)
        × (w.now + backoff tries sleep multiplier ≤ w'.now)
  unfolding with_retries backoff
  with_retries_failed e zero sleep multiplier w h = ground (arith, one w)
  with_retries_failed e (suc tries) sleep multiplier w h = ground (
    arith,
    one w,
    with_retries_failed e tries (sleep * multiplier) multiplier
        (record (once w).1 { now = (once w).1.now + sleep }),
  )

  pub with_retries-ne-panic :
      ((w : World C) → (once w).0 ≢ panic)
      → (tries sleep multiplier : ℕ) (w : World C)
      → (with_retries once tries sleep multiplier w).0 ≢ panic
  unfolding with_retries
  with_retries-ne-panic h zero sleep multiplier w = h w
  with_retries-ne-panic h (suc tries) sleep multiplier w = ground (
    arith,
    h w,
    with_retries-ne-panic h tries (sleep * multiplier) multiplier
        (record (once w).1 { now = (once w).1.now + sleep }),
  )

-- What holds of every attempt holds of the last one. Of a property of worlds that neither an attempt
-- nor the clock changes, the loop does not change it.
module _ {ℓ κ} {C : Type 0} {A : Type ℓ} (once : Act (World C) Text A) where
  pub with_retries-holds :
      (P : Out Text A × World C → Type κ)
      → ((w : World C) → P (once w))
      → (tries sleep multiplier : ℕ) (w : World C) → P (with_retries once tries sleep multiplier w)
  unfolding with_retries
  with_retries-holds P h zero sleep multiplier w = h w
  with_retries-holds P h (suc tries) sleep multiplier w =
      after (once w) (h w) (with_retries-holds P h tries (sleep * multiplier) multiplier)
    where
      after :
          (x : Out Text A × World C)
          → P x
          → ((v : World C) → P (with_retries once tries (sleep * multiplier) multiplier v))
          → P (
              or_else_from x
                (λ _. delay sleep (with_retries once tries (sleep * multiplier) multiplier)))
      after (done a, v) p q = p
      after (fail e, v) p q = q (record v { now = v.now + sleep })
      after (panic, v) p q = p

  pub with_retries-keeps :
      {B : Type κ} (f : World C → B)
      → ((w : World C) → f (once w).1 ≡ f w)
      → ((w : World C) (t : ℕ) → f (record w { now = t }) ≡ f w)
      → (tries sleep multiplier : ℕ) (w : World C)
      → f (with_retries once tries sleep multiplier w).1 ≡ f w
  unfolding with_retries
  with_retries-keeps f h t zero sleep multiplier w = h w
  with_retries-keeps f h t (suc tries) sleep multiplier w =
      after (once w) (h w) (with_retries-keeps f h t tries (sleep * multiplier) multiplier)
    where
      after :
          (x : Out Text A × World C)
          → f x.1 ≡ f w
          → ((v : World C) → f (with_retries once tries (sleep * multiplier) multiplier v).1 ≡ f v)
          → f
              (or_else_from x
                (λ _. delay sleep (with_retries once tries (sleep * multiplier) multiplier))).1
            ≡ f w
      after (done a, v) p q = p
      after (fail e, v) p q = q (record v { now = v.now + sleep }) ∙ t v (v.now + sleep) ∙ p
      after (panic, v) p q = p
