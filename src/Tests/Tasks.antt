-- ===== src/Tests/Tasks.antt =====
-- The background tasks and the requests that they send.
use local_cache_proxy.Base.{
  ◌≡◌, ◌≢◌, refl, ◌-◌, ◌≤◌, ◌↔◌, none, some, Bool, true, false, [], ◌∷◌, arith, length,
}
use local_cache_proxy.Base.Result.{err}
use local_cache_proxy.Base.Text.{Text, codes}
use local_cache_proxy.Client.{connect_for_file}
use local_cache_proxy.Client.Asking.{connect_for_file_cost}
use local_cache_proxy.Client.Retries.{backoff}
use local_cache_proxy.Config.{State}
use local_cache_proxy.Terminator
use local_cache_proxy.Terminator.{Terminator, exited, pending as waits_on}
use local_cache_proxy.Terminator.Idle.{poll-exited}
use local_cache_proxy.Tests.Fixtures.{
  env_of, config, world_with, no_files, found_reply, unsized_reply, abc,
}
use local_cache_proxy.Uploader
use local_cache_proxy.Uploader.{Uploader, pending, asks, out_of_fuel, run_upload_file}
use local_cache_proxy.Uploader.Polls.{poll_recent, poll_enough}
use local_cache_proxy.Uploader.Uploads.{upload_unsized, asked_head}
use local_cache_proxy.World.{Env, World, put, UploadRequest}
use local_cache_proxy.World.Disk.{file, write, write_self}

abbrev w : World Bool
w = world_with false no_files

abbrev uri : Text
uri = codes "http://up/ac/repo=r/12"

connect_for_file_cost_example :
    let w' = (connect_for_file (env_of found_reply) uri 1 500 1 w).1 in
    (1 ≤ length w'.sent) × (length w'.sent ≤ 2) × (w'.now ≤ 1010500)
unfolding backoff
connect_for_file_cost_example = connect_for_file_cost (env_of found_reply) uri 1 500 1 w

-- An upstream that does not answer.
abbrev silent : Env
silent = record (env_of found_reply) {
  answer = λ _. record { after = 9000; outcome = err (codes "gone") };
}

abbrev idle_since_start : State
idle_since_start = record { last_user_facing_request = 0; last_background_upload = 0 }

poll-exited_example :
    ((Terminator.poll (some 600000) idle_since_start 700000 (record { active_future = none })).0
      ≡ exited)
    ↔ ((600000 ≤ 700000 - 0) × (600000 ≤ 700000 - 0))
poll-exited_example =
    poll-exited 600000 idle_since_start 700000 (record { active_future = none }) refl

-- A client has just asked for something.
abbrev recent : World Bool
recent = record w {
  state = record { last_user_facing_request = 999000; last_background_upload = 0 };
}

-- The answer to the requests `HEAD` of an upload is there.
abbrev answered : Uploader
answered = record { active_future = some (asks 0 none uri (codes "/c/ac__12")) }

poll_recent_example :
    let x = Uploader.poll (env_of found_reply) config true 2 answered recent in
    (x.0 ≡ pending) × (x.1.active_future ≢ none) × (x.2.queue ≡ []) × (x.2.state ≡ recent.state)
poll_recent_example = poll_recent (env_of found_reply) config true 0 answered recent (omega arith)

poll_enough_example :
    (Uploader.poll (env_of found_reply) config true 2 (record { active_future = none }) w).0
    ≢ out_of_fuel
poll_enough_example =
    poll_enough (env_of found_reply) config true 2 (record { active_future = none }) w (omega arith)

abbrev stored : World Bool
stored = world_with false (write no_files (codes "/c/ac__12") (file abc))

upload_unsized_example :
    (run_upload_file (env_of unsized_reply) uri (codes "/c/ac__12") stored).1.sent
    ≡ record { method = put; uri = uri; payload = abc }
      ∷ asked_head (env_of unsized_reply) uri (codes "/c/ac__12") stored
upload_unsized_example =
    upload_unsized (env_of unsized_reply) uri (codes "/c/ac__12") stored abc unsized_reply refl
      (omega arith) refl refl (write_self no_files (codes "/c/ac__12") (file abc))

abbrev fresh : Terminator
fresh = record { active_future = none }

abbrev request : UploadRequest
request = record { uri = uri; path = codes "/c/ac__12"; should_upload = λ _. true }
