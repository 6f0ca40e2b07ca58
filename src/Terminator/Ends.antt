-- ===== src/Terminator/Ends.antt =====
-- src/net/terminator.rs: the polls of an idle process, one each time the timer fires.
use local_cache_proxy.Base.{
  ◌≡◌, refl, ℕ, zero, suc, ◌+◌, ◌*◌, ◌≤◌, Option, none, some, Bool-cases, inl, inr, false, arith,
  if◌then◌else◌,
}
use local_cache_proxy.Config.{State}
use local_cache_proxy.Terminator.{
  Terminator, Poll, pending, exited, panicked, out_of_fuel, poll, is_active, is_waiting,
}

-- The outcome of the last poll and its time.
pub record Run : Type 0 where
  pub outcome : Poll
  pub at : ℕ

-- What follows a poll: a timer that it leaves is waited for.
unfoldable pub after : (ℕ → Terminator → Run) → ℕ → Poll × Terminator → Run
after again now (pending, t) = again (elim t.active_future [ none ↦ now | some at ↦ at ]) t
after again now (exited, t) = record { outcome = exited; at = now }
after again now (panicked, t) = record { outcome = panicked; at = now }
after again now (out_of_fuel, t) = record { outcome = out_of_fuel; at = now }

-- A poll, and at most `n` more, each at the time at which the timer of the one before fires.
unfoldable pub run : ℕ → Option ℕ → State → ℕ → Terminator → Run
unfolding after
run zero idle s now t = record { outcome = (poll idle s now t).0; at = now }
run (suc n) idle s now t = after (λ at v. run n idle s at v) now (poll idle s now t)

poll_once :
    (idle : ℕ) (s : State) (now : ℕ) (t : Terminator)
    → is_waiting t now ≡ false
    → poll (some idle) s now t ≡ (
        if is_active idle s now
        then (pending, record { active_future = some (now + 60000) })
        else (exited, record { active_future = none }))
unfolding poll is_active
poll_once idle s now t h = ground arith

active_early :
    (n idle : ℕ) (s : State) (now : ℕ)
    → s.last_user_facing_request + idle ≤ now + n * 60000
    → s.last_background_upload + idle ≤ now + n * 60000
    → n ≡ 0
    → is_active idle s now ≡ false
unfolding is_active
active_early n idle s now u b e = ground (arith, e)

-- If neither a client nor the uploader does anything more, then polls of the terminator, the first
-- when its timer does not run and each next one when its timer fires, end the process: at most `n`
-- polls after the first and at most `n` minutes later, if by then the idle time is over for both.
pub run-exited :
    (n idle : ℕ) (s : State) (now : ℕ) (t : Terminator)
    → is_waiting t now ≡ false
    → s.last_user_facing_request + idle ≤ now + n * 60000
    → s.last_background_upload + idle ≤ now + n * 60000
    → ((run n (some idle) s now t).outcome ≡ exited)
      × ((run n (some idle) s now t).at ≤ now + n * 60000)
unfolding run after
run-exited zero idle s now t h u b =
    rw (poll_once idle s now t h, active_early 0 idle s now u b refl) (refl, omega arith)
run-exited (suc n) idle s now t h u b = elim (Bool-cases (is_active idle s now)) [
  | inl a ↦
      let (e, l) =
        run-exited n idle s (now + 60000) (record { active_future = some (now + 60000) })
          (ground arith) (omega (arith, u)) (omega (arith, b)) in
      rw (poll_once idle s now t h, a) (e, omega (arith, l))
  | inr a ↦ rw (poll_once idle s now t h, a) (refl, omega arith)
]
