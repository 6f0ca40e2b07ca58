-- ===== src/Terminator/Idle.antt =====
-- src/net/terminator.rs: when the process ends.
use local_cache_proxy.Base.{◌≡◌, ℕ, ◌+◌, ◌-◌, ◌≤◌, ◌↔◌, ◌⊎◌, some, true, false, arith}
use local_cache_proxy.Config.{State}
use local_cache_proxy.Terminator.{Terminator, pending, exited, poll, is_waiting}

-- A poll of the terminator, at a time when its timer is not running, ends the process exactly when
-- neither a client nor the uploader has done anything for the idle time.
pub poll-exited :
    (idle : ℕ) (s : State) (now : ℕ) (t : Terminator)
    → is_waiting t now ≡ false
    → ((poll (some idle) s now t).0 ≡ exited)
      ↔ ((idle ≤ now - s.last_user_facing_request) × (idle ≤ now - s.last_background_upload))
unfolding poll
poll-exited idle s now t h = ground arith

-- With an idle time configured, a poll of the terminator ends the process, or is pending and leaves
-- a timer that is running: the old one, or one that fires in a minute.
poll-pending :
    (idle : ℕ) (s : State) (now : ℕ) (t : Terminator)
    → ((poll (some idle) s now t).0 ≡ exited)
      ⊎ ((poll (some idle) s now t ≡ (pending, t)) × (is_waiting t now ≡ true)
          ⊎ (poll (some idle) s now t ≡ (pending, record { active_future = some (now + 60000) })))
unfolding poll
poll-pending idle s now t = ground arith
