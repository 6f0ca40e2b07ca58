-- ===== src/Tests/Proxy.antt =====
-- The proxy beside a client: what it stores, serves and keeps back.
use local_cache_proxy.World.Disk.{path_exists}
use local_cache_proxy.Downloader.{save_file}
use local_cache_proxy.Base.Text.{trim_right_matches}
use local_cache_proxy.Base.Text.{trim_matches}
use local_cache_proxy.Base.Text.{split}
use local_cache_proxy.ActionCache.{process_action_cache_response, process_existing_action_caches}
use local_cache_proxy.ActionCache.Gates.{Grown}
use local_cache_proxy.ActionCache.Process.{process-Grown, process_existing-Grown}
use local_cache_proxy.Base.{◌≡◌, ◌≢◌, refl, some, Bool, true, false, [], ◌∷◌, inl, inr}
use local_cache_proxy.Base.Result.{ok, err}
use local_cache_proxy.Base.Text.{Text, codes, contains, starts_with, text_eq}
use local_cache_proxy.Message.ActionResult
use local_cache_proxy.Message.ActionResult.{ActionResult}
use local_cache_proxy.Message.Digest
use local_cache_proxy.Message.Digest.{Digest}
use local_cache_proxy.Request
use local_cache_proxy.Request.{ProxyRequest, file_name, unknown}
use local_cache_proxy.Server.{is_gated, upload_allowed, put_request, get_request}
use local_cache_proxy.Server.Blobs.{blob_name, process_opens}
use local_cache_proxy.Server.Get.{get_gated, get_present, get_error}
use local_cache_proxy.Server.Poisoned.{put_after_refused}
use local_cache_proxy.Server.Put.{
  put_new, put_present, put_refused, upload, cache_path, tmp_path, received,
}
use local_cache_proxy.ServerIo.{contents, empty_with_status_code, invalid_uri}
use local_cache_proxy.Tests.Fixtures.{
  small_wire, env_of, config, folder, move_in-Inserts, world_with, no_files, abc, whole_body,
  found_reply,
}
use local_cache_proxy.World.{Env, World}
use local_cache_proxy.World.Disk.{Bytes, Files, file, write, join}
use local_cache_proxy.World.Step.{done, panic}

abbrev env : Env
env = env_of found_reply

abbrev r : ProxyRequest
r = record { repo = unknown; tpe = codes "ac"; digest = codes "12" }

abbrev path : Text
path = codes "/ac/12"

read : Request.new path ≡ some r
unfolding Request.new contains split trim_matches starts_with text_eq
read = refl

abbrev w : World Bool
w = world_with false no_files

abbrev uri : Text
uri = codes "http://up/ac/repo=unknown/12"

apart : cache_path env config r ≢ tmp_path env config r
unfolding join file_name
apart h = cc

put_new_example :
    let w' = (put_request env config path whole_body w).1 in
    ((put_request env config path whole_body w).0 ≡ done (empty_with_status_code 201))
    × (w'.files (codes "/c/ac__12") ≡ file abc)
    × (w'.queue ≡ upload env config r uri ∷ [])
unfolding join file_name Request.query_text trim_right_matches
put_new_example =
    put_new env config r whole_body w refl refl path read refl apart refl refl uri refl refl
      (move_in-Inserts found_reply)

abbrev files_12 : Files
files_12 = write no_files (codes "/c/ac__12") (file abc)

put_present_example : put_request env config path whole_body (world_with false files_12) ≡ (
  done (empty_with_status_code 201),
  received env config r whole_body (world_with false files_12),
)
unfolding join file_name write text_eq
put_present_example =
    put_present env config r whole_body (world_with false files_12) refl refl path read refl apart
      abc refl

-- The cache is full.
abbrev full : World Bool
full = world_with true no_files

put_refused_example :
    ((put_request env config path whole_body full).0 ≡ panic)
    × ((put_request env config path whole_body full).1.poisoned ≡ true)
put_refused_example =
    put_refused env config r whole_body full refl refl path read refl apart refl (codes "full") refl

put_after_refused_example :
    (put_request env config path whole_body (put_request env config path whole_body full).1).0
    ≡ panic
unfolding put_request Request.new contains join file_name write split trim_matches starts_with
    text_eq save_file path_exists
put_after_refused_example =
    put_after_refused env config r whole_body full path refl refl read refl apart refl
      (codes "full") refl r whole_body path refl refl read

get_gated_example :
    get_request env config (codes "/cas/ab") w ≡ (done (empty_with_status_code 404), w)
unfolding contains
get_gated_example = get_gated env config (codes "ab") w refl (λ h. cc) refl refl

get_present_example : get_request env config path (world_with false files_12) ≡ (
  done (record { status = 200; content_length = some 3; body = contents abc }),
  world_with false files_12,
)
unfolding join file_name write Request.query_text trim_right_matches text_eq
get_present_example =
    get_present env config path r uri abc (world_with false files_12) read refl refl

-- A text that is no URI.
abbrev strict : Env
strict = record (env) { parse_uri = λ t. err (codes "bad") }

get_error_example : (message : Text) × (invalid_uri (codes "bad") ≡ invalid_uri message)
unfolding get_request Request.new contains starts_with split trim_matches text_eq is_gated file_name
    Request.build_query_uri
get_error_example = get_error strict config path w (invalid_uri (codes "bad")) refl

-- An action result whose standard output is the blob `h`.
abbrev message : Bytes
message = 13 ∷ 3 ∷ 3 ∷ 1 ∷ b'h' ∷ []

abbrev stdout : Digest small_wire
stdout = record (Digest.new small_wire) { hash = codes "h" }

abbrev result : ActionResult small_wire
result = record (ActionResult.new small_wire) { stdout_digest = some stdout }

merged : ActionResult.merge_from small_wire (ActionResult.new small_wire) message ≡ ok result
unfolding ActionResult.merge_from Digest.merge_from
merged = refl

abbrev downloaded : World Bool
downloaded = world_with false (write no_files (codes "/c/ac__12") (file message))

process_opens_example :
    let w' = (process_action_cache_response env config (codes "ac__12") downloaded).1 in
    (is_gated config w'.files (blob_name (codes "h")) ≡ false)
    × (upload_allowed env folder (blob_name (codes "h")) w'.files ≡ true)
unfolding process_action_cache_response starts_with join write ActionResult.merge_from
    Digest.merge_from text_eq
process_opens_example =
    process_opens env config (codes "ac__12") downloaded message result stdout refl refl merged refl
      (inr (inl refl))

process-Grown_example :
    Grown folder downloaded (process_action_cache_response env config (codes "ac__12") downloaded).1
process-Grown_example = process-Grown env config (codes "ac__12") downloaded

process_existing-Grown_example :
    let x =
      process_existing_action_caches env config
        (codes "ac__12" ∷ codes "cas__ab" ∷ [])
        downloaded in
    (x.0 ≡ done tt) × Grown folder downloaded x.1
process_existing-Grown_example =
    process_existing-Grown env config (codes "ac__12" ∷ codes "cas__ab" ∷ []) downloaded
