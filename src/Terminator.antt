-- ===== src/Terminator.antt =====
-- src/net/terminator.rs: the task that ends an idle process.
pub mod Idle
pub mod Ends
use local_cache_proxy.Base.{
  ℕ, zero, suc, ◌+◌, ◌-◌, Option, none, some, Bool, true, false, ◌||◌, ltb, if◌then◌else◌,
}
use local_cache_proxy.Config.{State}

-- When the active future is ready, if there is one.
pub record Terminator : Type 0 where
  pub active_future : Option ℕ

pub data Poll : Type 0 where
  pending : Poll
  -- `process::exit(0)`
  exited : Poll
  panicked : Poll
  out_of_fuel : Poll

abbrev pub is_waiting : Terminator → ℕ → Bool
is_waiting t now = elim t.active_future [ none ↦ false | some at ↦ ltb now at ]

-- The names are those of the source, which takes each from the other's instant.
unfoldable pub is_active : ℕ → State → ℕ → Bool
is_active idle_duration s now =
    let time_since_last_user_req = now - s.last_background_upload in
    let time_since_last_background_req = now - s.last_user_facing_request in
    ltb time_since_last_user_req idle_duration || ltb time_since_last_background_req idle_duration

unfoldable pub poll_idle : ℕ → State → ℕ → ℕ → Terminator → Poll × Terminator
unfolding is_active
poll_idle idle s now zero t = (out_of_fuel, t)
poll_idle idle s now (suc fuel) t = elim (is_waiting t now) [
  | true ↦ (pending, t)
  | false ↦ elim (is_active idle s now) [
    | true ↦ poll_idle idle s now fuel (record { active_future = some (now + 60000) })
    | false ↦ (exited, record { active_future = none })
  ]
]

-- `Terminator::poll`. It calls itself once at most: two rounds are enough.
unfoldable pub poll : Option ℕ → State → ℕ → Terminator → Poll × Terminator
unfolding poll_idle
poll none s now t = (panicked, t)
poll (some idle) s now t = poll_idle idle s now 2 t
