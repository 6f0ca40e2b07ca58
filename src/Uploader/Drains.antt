-- ===== src/Uploader/Drains.antt =====
-- src/net/background_uploader.rs: polls at the times at which the uploader is woken.
use local_cache_proxy.Base.{
  ◌≡◌, refl, ap, ℕ, zero, suc, ◌+◌, ◌-◌, ◌*◌, ◌≤◌, ◌<◌, Option, none, some, true, false, List, [],
  ◌∷◌, arith, length, ltb, Bool-cases, inl, inr,
}
use local_cache_proxy.Config.{AppConfig}
use local_cache_proxy.Uploader.{
  Uploader, Job, timer, asks, Poll, pending, running, start_upload, go_on, poll_future,
  upload_unless, take_request, is_allowed, is_recent, poll,
}
use local_cache_proxy.Uploader.Polls.{after_future}
use local_cache_proxy.Uploader.Uploads.{
  ready_at, poll_future-Quiet, poll_future_now, start_upload-Quiet,
}
use local_cache_proxy.World.{Env, World, UploadRequest}

-- The world at the time at which the uploader's future is ready, or goes on.
abbrev pub woken : {C : Type 0} → Uploader → World C → World C
woken u w = record w { now = w.now + (ready_at u.active_future - w.now) }

-- One if the future still waits for the answer to its requests `HEAD`.
abbrev asking : Option Job → ℕ
asking none = 0
asking (some (timer at)) = 0
asking (some (asks at len uri path)) = 1

-- How often the uploader has to be woken yet, at most.
abbrev wakes : {C : Type 0} → Uploader → World C → ℕ
wakes u w = 2 * length w.queue + asking u.active_future

module _ (env : Env) (config : AppConfig) where
  -- No request of a client in the last ten seconds.
  abbrev pub IsIdle : World env.Cache → Type 0
  IsIdle w = w.state.last_user_facing_request + 10000 ≤ w.now

  -- Polls one after the other, each at the time at which the future of the one before is ready or
  -- goes on.
  unfoldable pub rounds : ℕ → Uploader → World env.Cache → World env.Cache
  rounds zero u w = w
  rounds (suc n) u w =
      let v = woken u w in
      let x = poll env config true (suc (suc (length v.queue))) u v in rounds n x.1 x.2

  -- What a poll of an idle uploader leaves: an idle one that has to be woken `most` times at most.
  record Left (most : ℕ) (x : Poll × Uploader × World env.Cache) : Type 0 where
    idle : IsIdle x.2
    less : wakes x.1 x.2 ≤ most

  asking_le : (j : Option Job) → asking j ≤ 1
  asking_le none = omega arith
  asking_le (some (timer at)) = omega arith
  asking_le (some (asks at len uri path)) = omega arith

  taken :
      (r : UploadRequest) (w : World env.Cache)
      → IsIdle w
      → let x = take_request env config r w in Left (2 * length w.queue + 1) (pending, x.0, x.1)
  unfolding take_request start_upload
  taken r w h = elim (Bool-cases (is_allowed env config r w)) [
    | inl e ↦
        let q = start_upload-Quiet env r w in
        rw e (record {
          idle = omega (arith, h, ap (λ (x : World env.Cache). x.state.last_user_facing_request) q);
          less = omega (
            arith,
            ap (λ (x : World env.Cache). length x.queue) q,
            asking_le (start_upload env r w).0.active_future,
          );
        })
    | inr e ↦ rw e (record { idle = h; less = omega arith })
  ]

  idle-recent : (w : World env.Cache) → IsIdle w → is_recent env w ≡ false
  idle-recent w h = ground (arith, h)

  -- The active future after a poll of it.
  going-asking : (n now : ℕ) → asking (running n now) ≡ 0
  going-asking n now = ground arith

  future-asking : (j : Option Job) (w : World env.Cache) → asking (poll_future env j w).0 ≤ asking j
  unfolding poll_future go_on
  future-asking none w = omega arith
  future-asking (some (timer at)) w = omega (arith, going-asking at w.now)
  future-asking (some (asks at len uri path)) w = ground arith

  -- The wakes that a poll leaves, from what it has left of the active future.
  abbrev leaves : Option Job × World env.Cache → ℕ
  leaves (none, w) = 2 * length w.queue - 1
  leaves (some j, w) = 2 * length w.queue + asking (some j)

  leaves_le : (j : Option Job) (w : World env.Cache) → leaves (j, w) ≤ 2 * length w.queue + asking j
  leaves_le none w = omega arith
  leaves_le (some j) w = omega arith

  -- A future that is due does not stay as it is.
  due_lem :
      (j : Option Job) (v w : World env.Cache)
      → ready_at j ≤ w.now
      → leaves ((poll_future env j w).0, v) ≤ 2 * length v.queue + asking j - 1
  unfolding poll_future go_on
  due_lem none v w h = omega arith
  due_lem (some (timer at)) v w h =
      let late : ltb w.now at ≡ false = ground (arith, h) in rw late (omega arith)
  due_lem (some (asks at len uri path)) v w h =
      let late : ltb w.now at ≡ false = ground (arith, h) in
      rw late
        (omega (arith, leaves_le _ v, going-asking (upload_unless env len uri path w).1.now w.now))

  -- A poll of the active future leaves the uploader idle, and the queue as it was.
  future-IsIdle : (j : Option Job) (w : World env.Cache) → IsIdle w → IsIdle (poll_future env j w).1
  future-IsIdle j w h = omega (
    arith,
    h,
    poll_future_now env j w,
    ap (λ (x : World env.Cache). x.state.last_user_facing_request) (poll_future-Quiet env j w),
  )

  future_queue :
      (j : Option Job) (w : World env.Cache) → length (poll_future env j w).1.queue ≡ length w.queue
  future_queue j w = ap (λ (x : World env.Cache). length x.queue) (poll_future-Quiet env j w)

  -- What every poll with this fuel leaves.
  abbrev EachLeft : ℕ → Type 0
  EachLeft fuel =
      (u : Uploader) (w : World env.Cache)
      → IsIdle w
      → Left (wakes u w) (poll env config true fuel u w)

  Left-le : (m n : ℕ) (x : Poll × Uploader × World env.Cache) → m ≤ n → Left m x → Left n x
  Left-le m n x h l = record { idle = l.idle; less = omega (arith, h, l.less) }

  next-Left :
      (fuel : ℕ) (w : World env.Cache)
      → EachLeft fuel
      → IsIdle w
      → (q : List UploadRequest) → w.queue ≡ q
      → Left (2 * length q - 1) (elim q as (λ _. Poll × Uploader × World env.Cache) [
        | [] ↦ (pending, record { active_future = none }, w)
        | r ∷ rs ↦
            let (u', w') = take_request env config r (record w { queue = rs }) in
            poll env config true fuel u' w'
      ])
  next-Left fuel w each h [] e = record { idle = h; less = omega (arith, ap length e) }
  next-Left fuel w each h (r ∷ rs) e =
      let l = taken r (record w { queue = rs }) h in
      Left-le _ _ _ (omega (arith, l.less)) (each _ _ l.idle)

  after-Left :
      (fuel : ℕ) (x : Option Job × World env.Cache)
      → EachLeft fuel
      → IsIdle x.1
      → Left (leaves x) (after_future env config true fuel x)
  after-Left fuel (some j, w) each h = record { idle = h; less = omega arith }
  after-Left fuel (none, w) each h =
      rw (idle-recent w h, after_future) (next-Left fuel w each h w.queue refl)

  poll-EachLeft : (fuel : ℕ) → EachLeft fuel
  unfolding poll
  poll-EachLeft zero u w h = record { idle = h; less = omega arith }
  poll-EachLeft (suc fuel) u w h =
      let j = u.active_future in
      Left-le _ _ _
        (omega (
          arith,
          leaves_le (poll_future env j w).0 (poll_future env j w).1,
          future_queue j w,
          future-asking j w,
        ))
        (after-Left fuel (poll_future env j w) (poll-EachLeft fuel) (future-IsIdle j w h))

  poll_less :
      (fuel : ℕ) (u : Uploader) (w : World env.Cache)
      → IsIdle w
      → ready_at u.active_future ≤ w.now
      → Left (wakes u w - 1) (poll env config true (suc fuel) u w)
  unfolding poll
  poll_less fuel u w h d =
      let j = u.active_future in
      Left-le _ _ _ (omega (arith, due_lem j (poll_future env j w).1 w d, future_queue j w))
        (after-Left fuel (poll_future env j w) (poll-EachLeft fuel) (future-IsIdle j w h))

  empty_of_length : (q : List UploadRequest) → length q ≤ 0 → q ≡ []
  empty_of_length [] h = refl
  empty_of_length (r ∷ rs) h = absurd (omega arith)

  woken_enough :
      (n : ℕ) (u : Uploader) (w : World env.Cache)
      → IsIdle w
      → wakes u w ≤ n
      → (rounds n u w).queue ≡ []
  unfolding rounds
  woken_enough zero u w h l = empty_of_length w.queue (omega (arith, l))
  woken_enough (suc n) u w h l =
      let v = woken u w in
      let left = poll_less (suc (length v.queue)) u v (omega (arith, h)) (omega arith) in
      woken_enough n _ _ left.idle (omega (arith, left.less, l))

  -- If no client has asked for anything in the last ten seconds, then polls of the uploader, each
  -- at the time at which the future of the one before is ready or has the answer to its requests
  -- `HEAD`, empty the queue: one more than twice as many as it has requests are enough.
  pub rounds_drain :
      (n : ℕ) (u : Uploader) (w : World env.Cache)
      → IsIdle w
      → 2 * length w.queue < n
      → (rounds n u w).queue ≡ []
  rounds_drain n u w h l = woken_enough n u w h (omega (arith, l, asking_le u.active_future))
