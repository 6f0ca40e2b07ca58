-- ===== src/Tests/Runs.antt =====
-- Runs of the server with its uploader.
use local_cache_proxy.Base.{
  ◌≡◌, refl, ap, ℕ, none, some, Bool, true, false, [], ◌∷◌, ◌+◌, arith, ◌≤◌,
}
use local_cache_proxy.Base.Text.{
  codes, text_eq, text_eq_iff, contains, split, trim_matches, starts_with, trim_right_matches,
}
use local_cache_proxy.Downloader.{creates}
use local_cache_proxy.Downloader.Kept.{AreApart}
use local_cache_proxy.Request
use local_cache_proxy.Request.{ProxyRequest, file_name, unknown}
use local_cache_proxy.Server.{get_request, put_request, service}
use local_cache_proxy.Server.Reads.{view, Answers, get_request-Answers}
use local_cache_proxy.ServerIo.{Response, contents}
use local_cache_proxy.System.{System, Reach, here, next, serves, polls, passes, polled}
use local_cache_proxy.System.Locked.{Reach-put_panics}
use local_cache_proxy.Tests.Fixtures.{
  env_of, config, folder, world_with, no_files, abc, whole_body, found_reply,
}
use local_cache_proxy.Config.{State}
use local_cache_proxy.Terminator.{exited}
use local_cache_proxy.Terminator.Ends.{run, run-exited}
use local_cache_proxy.Server.Get.{get_present}
use local_cache_proxy.Uploader.{Uploader}
use local_cache_proxy.Uploader.Drains.{rounds, rounds_drain}
use local_cache_proxy.World.{Env, World, put}
use local_cache_proxy.World.Disk.{file, write, join}
use local_cache_proxy.World.Step.{done, panic}

abbrev env : Env
env = env_of found_reply

apart : AreApart env folder
unfolding join text_eq
apart a b h =
    let e : text_eq (join folder b) (join (codes "/tmp") a) ≡ true = (text_eq_iff _ _).1 h in
    absurd (cc)

abbrev idle : Uploader
idle = record { active_future = none }

-- The lock on the cache has been poisoned.
abbrev start : System Bool
start = record { world = record (world_with false no_files) { poisoned = true }; uploader = idle }

-- Twenty seconds pass, a client puts an action result, and the uploader is polled.
abbrev later : System Bool
later = record start { world = record (start.world) { now = start.world.now + 20000 } }

abbrev after_put : System Bool
after_put = record later {
  world =
      (service env config (record { method = put; path = codes "/ac/12"; body = whole_body })
        later.world).1;
}

put_and_polled : Reach env config start (polled env config after_put)
put_and_polled = next (next (next here (passes 20000)) (serves _)) polls

abbrev r : ProxyRequest
r = record { repo = unknown; tpe = codes "ac"; digest = codes "12" }

read : Request.new (codes "/ac/12") ≡ some r
unfolding Request.new contains split trim_matches starts_with text_eq
read = refl

-- The action result is in the cache.
abbrev stored : World Bool
stored = world_with false (write no_files (codes "/c/ac__12") (file abc))

abbrev answer : Response
answer = record { status = 200; content_length = some 3; body = contents abc }

get_stored :
    (t : ℕ)
    → get_request env config (codes "/ac/12") (record stored { now = t })
      ≡ (done answer, record stored { now = t })
unfolding join file_name write Request.query_text trim_right_matches text_eq
get_stored t =
    get_present env config (codes "/ac/12") r (codes "http://up/ac/repo=unknown/12") abc
      (record stored { now = t }) read refl refl

get_first : get_request env config (codes "/ac/12") stored ≡ (done answer, stored)
get_first = get_stored 1000000

get_request-Answers_example :
    Answers
      (view folder (get_request env config (codes "/ac/12") stored).1.files)
      (file_name r)
      answer
get_request-Answers_example =
    get_request-Answers env config (codes "/ac/12") r stored answer read (ap (λ x. x.0) get_first)

opens :
    creates true ((polled env config after_put).world.files (join (codes "/tmp") (codes "ac__12")))
    ≡ true
unfolding polled local_cache_proxy.Uploader.poll service put_request Request.new split trim_matches
    starts_with text_eq local_cache_proxy.Downloader.save_file write join file_name
opens = refl

Reach-put_panics_example :
    (put_request env config (codes "/ac/12") whole_body (polled env config after_put).world).0
    ≡ panic
unfolding file_name
Reach-put_panics_example =
    Reach-put_panics env config apart refl put_and_polled r whole_body (codes "/ac/12") opens refl
      read

-- Two files wait to be uploaded.
abbrev busy : World Bool
busy = record stored {
  queue =
      record { uri = codes "http://up/a"; path = codes "/c/ac__12"; should_upload = λ _. true }
      ∷ record { uri = codes "http://up/b"; path = codes "/c/ac__13"; should_upload = λ _. true }
      ∷ [];
}

rounds_drain_example : (rounds env config 5 idle busy).queue ≡ []
rounds_drain_example = rounds_drain env config 5 idle busy (omega arith) (omega arith)

run-exited_example :
    let s : State = record { last_user_facing_request = 500000; last_background_upload = 0 } in
    let x = run 7 (some 600000) s 700000 (record { active_future = none }) in
    (x.outcome ≡ exited) × (x.at ≤ 1120000)
run-exited_example =
    run-exited 7 600000 (record { last_user_facing_request = 500000; last_background_upload = 0 })
      700000 (record { active_future = none }) refl (omega arith) (omega arith)
