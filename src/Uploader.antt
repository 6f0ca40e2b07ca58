-- ===== src/Uploader.antt =====
-- src/net/background_uploader.rs: the task that sends queued files upstream while no client asks.
-- The future of an upload has two stages: the requests `HEAD` are sent when it is first polled, and
-- the file is opened and sent by the poll that finds their answer. Other steps may come between.
pub mod Polls
pub mod Kept
pub mod Drains
pub mod Uploads
use local_cache_proxy.Base.{
  ℕ, zero, suc, ◌+◌, ◌-◌, ◌*◌, Option, none, some, Bool, true, false, ◌&&◌, List, [], ◌∷◌, leb, ltb,
  length, if◌then◌else◌,
}
use local_cache_proxy.Base.Result.{Result, ok, err}
use local_cache_proxy.Base.Text.{Text, codes}
use local_cache_proxy.Client.{connect_for_head}
use local_cache_proxy.Config.{AppConfig}
use local_cache_proxy.World.{
  Env, World, Method, get, head, put, Sent, Exchange, Reply, UploadRequest,
}
use local_cache_proxy.World.Disk.{
  Bytes, Files, FileState, absent, file, denied, unreadable, current_file_size,
}
use local_cache_proxy.World.Step.{Out, done, fail, panic, Act, or_else, ◌>>=◌, return}

-- What the active future waits for: a time, at which it is ready, or the answer to the requests
-- `HEAD` for the file at the path, which is there at a time and tells a length or none.
pub data Job : Type 0 where
  timer : ℕ → Job
  asks : ℕ → Option ℕ → Text → Text → Job

pub record Uploader : Type 0 where
  pub active_future : Option Job

pub data Poll : Type 0 where
  pending : Poll
  terminated : Poll
  out_of_fuel : Poll

-- `Uploader::should_upload`: the file is there and not too large.
unfoldable pub fits_upload : AppConfig → Files → Text → Bool
fits_upload config files path = elim (current_file_size files path) [
  | none ↦ false
  | some len ↦ leb len config.maximum_upload_size
]

-- A future that is ready at the time `at`, when it is polled.
abbrev pub running : ℕ → ℕ → Option Job
running at now = if ltb now at then some (timer at) else none

-- The future of an upload, once the requests `HEAD` have ended at the time `at`.
abbrev pub job_of : Out Text (Option ℕ) → ℕ → UploadRequest → Job
job_of (done len) at r = asks at len r.uri r.path
job_of (fail e) at r = timer at
job_of panic at r = timer at

module _ (env : Env) where
  answered : Exchange → List Sent → World env.Cache → Out Text (Unit {0}) × World env.Cache
  answered x asked w = (
    elim x.outcome [ ok _ ↦ done tt | err e ↦ fail e ],
    record w { sent = asked; now = w.now + x.after },
  )

  put_state : FileState → Text → Act (World env.Cache) Text (Unit {0})
  put_state (file b) uri w =
      let asked = record { method = put; uri = uri; payload = b } ∷ w.sent in
      answered (env.answer asked) asked w
  put_state absent uri w = (fail (env.io_error absent), w)
  put_state denied uri w = (fail (env.io_error denied), w)
  put_state unreadable uri w = (fail (env.io_error unreadable), w)

  -- The request has no time limit, and any response counts as success.
  unfoldable pub raw_upload_file : Text → Text → Act (World env.Cache) Text (Unit {0})
  unfolding put_state answered
  raw_upload_file uri path w = put_state (w.files path) uri w

  -- The upload, unless the upstream has told the length of what it has.
  upload_unless : Option ℕ → Text → Text → Act (World env.Cache) Text (Unit {0})
  upload_unless (some _) uri path w = (done tt, w)
  upload_unless none uri path w = raw_upload_file uri path w

  unfoldable pub run_upload_file : Text → Text → Act (World env.Cache) Text (Unit {0})
  unfolding upload_unless
  run_upload_file uri path =
      or_else (connect_for_head env uri 10 500 4 >>= λ resp. upload_unless resp uri path)
        (λ _ w. (fail (codes "None"), w))

  -- The clock of the task does not wait for the answer.
  unfoldable pub start_upload : UploadRequest → World env.Cache → Uploader × World env.Cache
  start_upload r w =
      let begun = record w { state = record (w.state) { last_background_upload = w.now } } in
      let x = connect_for_head env r.uri 10 500 4 begun in
      (record { active_future = some (job_of x.0 x.1.now r) }, record x.1 { now = w.now })

  -- The upload goes on with the answer; the file is opened now.
  unfoldable pub go_on : Option ℕ → Text → Text → World env.Cache → Option Job × World env.Cache
  unfolding upload_unless
  go_on len uri path w =
      let x = (upload_unless len uri path w).1 in (running x.now w.now, record x { now = w.now })

  -- `fut.poll()`: what is left of the active future, none if it is ready.
  unfoldable pub poll_future : Option Job → World env.Cache → Option Job × World env.Cache
  unfolding go_on
  poll_future none w = (none, w)
  poll_future (some (timer at)) w = (running at w.now, w)
  poll_future (some (asks at len uri path)) w =
      if ltb w.now at then (some (asks at len uri path), w) else go_on len uri path w

  unfoldable pub is_allowed : AppConfig → UploadRequest → World env.Cache → Bool
  unfolding fits_upload
  is_allowed config r w = r.should_upload w.files && fits_upload config w.files r.path

  -- Less than ten seconds since the last request of a client.
  abbrev pub is_recent : World env.Cache → Bool
  is_recent w = ltb (w.now - w.state.last_user_facing_request) 10000

  abbrev idle : Uploader
  idle = record { active_future = none }

  -- What is done with the next request of the channel.
  unfoldable pub take_request :
      AppConfig → UploadRequest → World env.Cache → Uploader × World env.Cache
  unfolding is_allowed start_upload
  take_request config r w = if is_allowed config r w then start_upload r w else (idle, w)

  -- `Uploader::poll`; `open` tells whether a sender of the channel is left.
  unfoldable pub poll :
      AppConfig → Bool → ℕ → Uploader → World env.Cache → Poll × Uploader × World env.Cache
  unfolding take_request poll_future
  poll config is_open zero u w = (out_of_fuel, u, w)
  poll config is_open (suc fuel) u w =
      let (job, v) = poll_future u.active_future w in
      elim job [
        | some j ↦ (pending, record { active_future = some j }, v)
        | none ↦ elim (is_recent v) [
          | true ↦
              poll config is_open fuel (record { active_future = some (timer (v.now + 5000)) }) v
          | false ↦ elim v.queue [
            | [] ↦ (if is_open then pending else terminated, idle, v)
            | r ∷ rs ↦
                let (u', w') = take_request config r (record v { queue = rs }) in
                poll config is_open fuel u' w'
          ]
        ]
      ]
