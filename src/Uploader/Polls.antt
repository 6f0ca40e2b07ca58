-- ===== src/Uploader/Polls.antt =====
-- src/net/background_uploader.rs: what a poll of the uploader does.
use local_cache_proxy.Base.{
  ◌≡◌, ◌<◌, ◌≢◌, ◌⊎◌, refl, ap, ℕ, zero, suc, ◌+◌, Option, none, some, Bool, true, false, List, [],
  ◌∷◌, arith, if◌then◌else◌, length, ltb, Bool-cases, inl, inr,
}
use local_cache_proxy.Config.{AppConfig, State}
use local_cache_proxy.Uploader.{
  Uploader, Job, timer, Poll, pending, terminated, out_of_fuel, take_request, is_allowed, is_recent,
  poll_future, poll,
}
use local_cache_proxy.Uploader.Uploads.{poll_future-Quiet, poll_future_now, start_upload-Quiet}
use local_cache_proxy.World.{Env, World, UploadRequest}

module _ (env : Env) (config : AppConfig) (is_open : Bool) where
  pub take_request_queue :
      (r : UploadRequest) (w : World env.Cache) → (take_request env config r w).1.queue ≡ w.queue
  unfolding take_request
  take_request_queue r w = elim (Bool-cases (is_allowed env config r w)) [
    | inl e ↦ rw e (ap (λ (x : World env.Cache). x.queue) (start_upload-Quiet env r w))
    | inr e ↦ rw e refl
  ]

  -- The timer of an uploader that waits for the client.
  abbrev pub waiting : World env.Cache → Uploader
  waiting w = record { active_future = some (timer (w.now + 5000)) }

  -- A poll, from what is left of the active future.
  abbrev pub after_future : ℕ → Option Job × World env.Cache → Poll × Uploader × World env.Cache
  after_future fuel x = elim x.0 [
    | some j ↦ (pending, record { active_future = some j }, x.1)
    | none ↦ elim (is_recent env x.1) [
      | true ↦ poll env config is_open fuel (waiting x.1) x.1
      | false ↦ elim x.1.queue [
        | [] ↦ (if is_open then pending else terminated, record { active_future = none }, x.1)
        | r ∷ rs ↦
            let (u', w') = take_request env config r (record x.1 { queue = rs }) in
            poll env config is_open fuel u' w'
      ]
    ]
  ]

  pub poll_on :
      (fuel : ℕ) (u : Uploader) (w : World env.Cache)
      → poll env config is_open (suc fuel) u w
        ≡ after_future fuel (poll_future env u.active_future w)
  unfolding poll
  poll_on fuel u w = refl

  timer_poll :
      (fuel : ℕ) (w : World env.Cache)
      → poll env config is_open (suc fuel) (waiting w) w ≡ (pending, waiting w, w)
  unfolding poll poll_future
  timer_poll fuel w =
      let later : ltb w.now (w.now + 5000) ≡ true = ground arith in
      rw (later, poll, poll_future) refl

  recent_after :
      (fuel : ℕ) (w : World env.Cache)
      → is_recent env w ≡ true
      → after_future (suc fuel) (none, w) ≡ (pending, waiting w, w)
  recent_after fuel w r = rw (r, after_future) (timer_poll fuel w)

  -- What a poll has done while a client is there.
  abbrev pub Held : World env.Cache → Poll × Uploader × World env.Cache → Type 0
  Held w x =
      (x.0 ≡ pending) × (x.1.active_future ≢ none) × (x.2.queue ≡ w.queue) × (x.2.state ≡ w.state)

  -- If a client has asked for something less than ten seconds ago, then a poll of the uploader,
  -- whatever its future is, is pending after two rounds at most, with a future that will wake it:
  -- it takes no request from the queue and starts no upload, for the queue and the times of the
  -- last request and the last upload are as before.
  pub poll_recent :
      (fuel : ℕ) (u : Uploader) (w : World env.Cache)
      → w.now < w.state.last_user_facing_request + 10000
      → let x = poll env config is_open (suc (suc fuel)) u w in
        (x.0 ≡ pending) × (x.1.active_future ≢ none) × (x.2.queue ≡ w.queue) × (x.2.state ≡ w.state)
  poll_recent fuel u w h =
      let q = poll_future-Quiet env u.active_future w in
      rw (poll_on (suc fuel) u w) (
        held (poll_future env u.active_future w) (poll_future_now env u.active_future w)
          (ap (λ (x : World env.Cache). x.queue) q) (ap (λ (x : World env.Cache). x.state) q))
    where
      held :
          (x : Option Job × World env.Cache)
          → x.1.now ≡ w.now
          → x.1.queue ≡ w.queue
          → x.1.state ≡ w.state
          → Held w (after_future (suc fuel) x)
      held (some j, v) n q s = (refl, (λ e. cc), q, s)
      held (none, v) n q s =
          let l = ap (λ (x : State). x.last_user_facing_request) s in
          let r : is_recent env v ≡ true = ground (arith, h, n, l) in
          rw (recent_after fuel v r) (refl, (λ e. cc), q, s)

  queue-cases :
      (q : List UploadRequest)
      → (q ≡ []) ⊎ ((r : UploadRequest) × (rs : List UploadRequest) × (q ≡ r ∷ rs))
  queue-cases [] = inl refl
  queue-cases (r ∷ rs) = inr (r, rs, refl)

  open_lem : (if is_open then pending else terminated) ≢ out_of_fuel
  open_lem = ground arith

  -- A poll of the uploader ends within two rounds more than its queue has requests.
  pub poll_enough :
      (fuel : ℕ) (u : Uploader) (w : World env.Cache)
      → suc (length w.queue) < fuel
      → (poll env config is_open fuel u w).0 ≢ out_of_fuel
  poll_enough zero u w h = absurd (omega arith)
  poll_enough (suc zero) u w h = absurd (omega arith)
  poll_enough (suc (suc fuel)) u w h = rw (poll_on (suc fuel) u w) (
      ends (poll_enough (suc fuel)) (poll_future env u.active_future w)
        (ap (λ (x : World env.Cache). x.queue) (poll_future-Quiet env u.active_future w)))
    where
      ends :
          ((u' : Uploader) (v : World env.Cache)
            → suc (length v.queue) < suc fuel
            → (poll env config is_open (suc fuel) u' v).0 ≢ out_of_fuel)
          → (x : Option Job × World env.Cache) → x.1.queue ≡ w.queue
          → (after_future (suc fuel) x).0 ≢ out_of_fuel
      ends again (some j, v) q = λ e. cc
      ends again (none, v) q = elim (Bool-cases (is_recent env v)) [
        | inl r ↦ rw (recent_after fuel v r) (λ e. cc)
        | inr r ↦ elim (queue-cases v.queue) [
          | inl e ↦ rw (r, after_future) (rw e open_lem)
          | inr (x, xs, e) ↦
              rw (r, after_future)
                (rw e (
                  again _ _ (
                    rw (take_request_queue x (record v { queue = xs }))
                      (omega (arith, h, ap length q, ap length e)))))
        ]
      ]
