-- ===== src/Tests/Stored.antt =====
-- What a `PUT` opens, and what the programs are started with.
use local_cache_proxy.Base.Text.{trim_right_matches}
use local_cache_proxy.ActionCache.{enable_name}
use local_cache_proxy.ActionCache.Done.{CanOpen}
use local_cache_proxy.Base.{◌≡◌, ◌≢◌, refl, ◌↔◌, none, some, inl, inr, Bool, true, false, [], ◌∷◌}
use local_cache_proxy.Base.Result.{ok}
use local_cache_proxy.Base.Text.{codes, text_eq, starts_with, contains, split, trim_matches}
use local_cache_proxy.Message.ActionResult
use local_cache_proxy.Message.ActionResult.{ActionResult}
use local_cache_proxy.Message.Digest
use local_cache_proxy.Message.Digest.{Digest}
use local_cache_proxy.Programs.{copy}
use local_cache_proxy.Programs.Copies.{IsKept, copy_back, upload_sent, download_sent}
use local_cache_proxy.Remote.{S3, found}
use local_cache_proxy.Request
use local_cache_proxy.Request.{ProxyRequest, file_name, unknown}
use local_cache_proxy.Request.Forms.{repo_path}
use local_cache_proxy.Server.{is_gated, upload_allowed, put_request}
use local_cache_proxy.Server.Blobs.{blob_name}
use local_cache_proxy.Server.Put.{cache_path, tmp_path, insertion}
use local_cache_proxy.Server.Stored.{put_opens, put_gate, gate_request}
use local_cache_proxy.Start.{Net, v4, v6, start_server}
use local_cache_proxy.Start.Binds.{IsServed, start_server-IsServed}
use local_cache_proxy.Tests.Fixtures.{
  small_wire, env_of, config, folder, move_in-Inserts, world_with, no_files, abc, whole_body,
  found_reply,
}
use local_cache_proxy.World.{Env, World, Body, complete}
use local_cache_proxy.World.Disk.{Bytes, absent, file, write, join}
use local_cache_proxy.World.Step.{done}

abbrev env : Env
env = env_of found_reply

abbrev w : World Bool
w = world_with false no_files

abbrev r : ProxyRequest
r = record { repo = unknown; tpe = codes "ac"; digest = codes "12" }

read : Request.new (codes "/ac/12") ≡ some r
unfolding Request.new contains split trim_matches starts_with text_eq
read = refl

-- An action result whose standard error is the blob `h`, as a body.
abbrev message : Bytes
message = 17 ∷ 3 ∷ 3 ∷ 1 ∷ b'h' ∷ []

abbrev body : Body
body = record {
  polls = record { fired = false; chunk = some message } ∷ [];
  end_fired = false;
  ending = complete;
}

abbrev stderr : Digest small_wire
stderr = record (Digest.new small_wire) { hash = codes "h" }

abbrev result : ActionResult small_wire
result = record (ActionResult.new small_wire) { stderr_digest = some stderr }

merged : ActionResult.merge_from small_wire (ActionResult.new small_wire) message ≡ ok result
unfolding ActionResult.merge_from Digest.merge_from
merged = refl

can_open : CanOpen env folder (insertion env config r body w).files
unfolding join write text_eq file_name enable_name
can_open hash = (refl, inl refl)

apart : cache_path env config r ≢ tmp_path env config r
unfolding join file_name
apart h = cc

put_opens_example :
    let w' = (put_request env config (codes "/ac/12") body w).1 in
    (is_gated config w'.files (blob_name (codes "h")) ≡ false)
    × (upload_allowed env folder (blob_name (codes "h")) w'.files ≡ true)
unfolding join file_name Request.query_text trim_right_matches starts_with
put_opens_example =
    put_opens env config (move_in-Inserts found_reply) (codes "/ac/12") r
      (codes "http://up/ac/repo=unknown/12") body w result stderr read refl refl refl refl apart
      refl refl refl refl merged (inr (inr refl)) can_open

gate_apart :
    cache_path env config (gate_request (codes "r") (codes "h"))
    ≢ tmp_path env config (gate_request (codes "r") (codes "h"))
unfolding join file_name
gate_apart h = cc

put_gate_example :
    let path = b'/' ∷ repo_path (codes "r") (codes "enable_cas") (codes "h") in
    let w' = (put_request env config path whole_body w).1 in
    (w'.files (join folder (enable_name (codes "h"))) ≡ file abc)
    × (is_gated config w'.files (blob_name (codes "h")) ≡ false)
    × (upload_allowed env folder (blob_name (codes "h")) w'.files ≡ true)
unfolding join file_name contains Request.query_text trim_right_matches
put_gate_example =
    put_gate env config (move_in-Inserts found_reply) (codes "r") (codes "h")
      (codes "http://up/enable_cas/repo=r/h") whole_body w refl refl refl (λ h. cc) refl refl refl
      refl gate_apart refl refl refl

-- A bucket with one object.
abbrev bucket : S3
bucket = record { get_object = λ _. found none (some whole_body); put_object = λ _. true }

abbrev on_disk : World Bool
on_disk = world_with false (write no_files (codes "/tmp/a") (file abc))

kept : IsKept env bucket (codes "b") (codes "k") abc []
kept = record {
  accepted = refl;
  len = none;
  body = whole_body;
  answered = refl;
  whole = refl;
  same = refl;
}

copy_back_example :
    let up = copy env bucket true false (codes "b") (codes "k") (codes "/tmp/a") on_disk in
    let down = copy env bucket false true (codes "b") (codes "k") (codes "/tmp/z") up.1 in
    (up.0 ≡ done tt)
    × (down.0 ≡ done tt)
    × (down.1.files (codes "/tmp/z") ≡ file abc)
    × (down.1.sent
        ≡ download_sent env bucket
            (codes "b")
            (codes "k")
            (upload_sent env bucket (codes "b") (codes "k") abc []))
unfolding write text_eq
copy_back_example =
    copy_back env bucket (codes "b") (codes "k") (codes "/tmp/a") (codes "/tmp/z") abc on_disk refl
      refl kept

-- A machine with one name, of an address of each version.
abbrev net : Net
net = record {
  scheme = λ _. some (codes "http");
  authority = λ _. some (codes "localhost:10487");
  host = λ _. some (codes "localhost");
  port = λ _. some (codes "10487");
  to_socket_addrs = λ _. some (v6 (codes "::1") ∷ v4 (codes "127.0.0.1") ∷ []);
  parse_addr = λ t. some t;
  bind = λ _. true;
  remove_file = λ files path. ok (write files path absent);
}

start_server-IsServed_example :
    ((start_server net config no_files).0 ≡ done (codes "127.0.0.1:10487"))
    ↔ IsServed net (codes "http://localhost:10487") (codes "127.0.0.1:10487")
start_server-IsServed_example = start_server-IsServed net config (codes "127.0.0.1:10487") no_files
