-- ===== src/Tests/Fetches.antt =====
-- Downloads from the upstream and from S3.
use local_cache_proxy.Base.Text.{text_eq}
use local_cache_proxy.ActionCache.{process_action_cache_response}
use local_cache_proxy.World.Disk.{current_file_size}
use local_cache_proxy.Server.{is_gated}
use local_cache_proxy.Client.{stream_body}
use local_cache_proxy.Downloader.{save_body}
use local_cache_proxy.Downloader.{should_download}
use local_cache_proxy.Downloader.{get_content_length}
use local_cache_proxy.Client.{connect_for_file}
use local_cache_proxy.Base.Text.{trim_matches}
use local_cache_proxy.Base.Text.{split}
use local_cache_proxy.Base.{◌≡◌, refl, ◌≤◌, none, some, Bool, true, false, length}
use local_cache_proxy.Base.Text.{Text, codes, contains, starts_with, parse_u64}
use local_cache_proxy.Config.{S3Config}
use local_cache_proxy.Downloader.{fetch_file}
use local_cache_proxy.Downloader.Cost.{fetch_file_cost}
use local_cache_proxy.Downloader.Fetch.{Downloaded, fetch_file-Downloaded}
use local_cache_proxy.Remote
use local_cache_proxy.Remote.{S3, found, to_upstream_path}
use local_cache_proxy.Remote.Objects.{remote_broken, stored}
use local_cache_proxy.Request
use local_cache_proxy.Request.{ProxyRequest, file_name, unknown}
use local_cache_proxy.Server.{get_request}
use local_cache_proxy.Server.Download.{Delivers, get_downloaded}
use local_cache_proxy.ServerIo.{Response, contents, report, string_error}
use local_cache_proxy.Tests.Fixtures.{
  env_of, config, folder, move_in-Inserts, world_with, no_files, abc, broken_body, found_reply,
}
use local_cache_proxy.World.{Env, World}
use local_cache_proxy.World.Disk.{write, join}
use local_cache_proxy.World.Step.{done}

abbrev env : Env
env = env_of found_reply

abbrev w : World Bool
w = world_with false no_files

abbrev path : Text
path = codes "/repo=r/out/12"

abbrev r : ProxyRequest
r = record { repo = codes "r"; tpe = codes "out"; digest = codes "12" }

read : Request.new path ≡ some r
unfolding Request.new contains split trim_matches starts_with
read = refl

abbrev uri : Text
uri = codes "http://up/out/repo=r/12"

fetch_file_cost_example :
    let w' = (fetch_file env config uri (codes "out__12") w).1 in
    (1 ≤ length w'.sent) × (length w'.sent ≤ 8) × (w'.now ≤ 1182000)
fetch_file_cost_example = fetch_file_cost env config uri (codes "out__12") w

fetch_file-Downloaded_example :
    let w' = (fetch_file env config uri (codes "out__12") w).1 in
    Downloaded env 100 w'.sent 3 (w'.files (join folder (codes "out__12")))
unfolding fetch_file parse_u64 connect_for_file get_content_length should_download save_body
    stream_body
fetch_file-Downloaded_example =
    fetch_file-Downloaded env config (move_in-Inserts found_reply) uri (codes "out__12") w refl

abbrev sent_back : Response
sent_back = record { status = 200; content_length = some 3; body = contents abc }

get_downloaded_example :
    Delivers env config (codes "out__12") sent_back (get_request env config path w).1
unfolding get_request fetch_file Request.new contains starts_with parse_u64 join write split
    trim_matches is_gated file_name Request.build_query_uri current_file_size connect_for_file
    get_content_length should_download save_body stream_body process_action_cache_response text_eq
get_downloaded_example =
    get_downloaded env config (move_in-Inserts found_reply) path r w sent_back read refl refl refl

abbrev c : S3Config
c = record { bucket = codes "bucket"; prefix = codes "cache" }

-- A bucket whose objects break off.
abbrev s3 : S3
s3 = record { get_object = λ _. found (some 9) (some broken_body); put_object = λ _. true }

abbrev half : World Bool
half = stored env s3 config c path r read broken_body (some 9) w refl refl refl

remote_broken_example :
    (Remote.get_request env s3 config c path w ≡ (
      done (record {
        status = 500;
        content_length = none;
        body = report (to_upstream_path r c) (string_error (codes "reset"));
      }),
      half,
    ))
    × (Remote.get_request env s3 config c path half ≡ (done sent_back, half))
remote_broken_example =
    remote_broken env s3 config c path r read broken_body (some 9) w refl refl refl (codes "reset")
      refl
