-- ===== src/Programs.antt =====
-- src/bin: what the programs make of their command lines. `clap`'s matches, `Uri`'s parser and
-- `env::home_dir` are parameters; `none` is a panic.
pub mod Keys
pub mod Copies
pub mod Configs
use Prim.Native.String.{String}
use local_cache_proxy.Base.{
  ℕ, Option, none, some, Bool, true, false, List, [], ◌∷◌, ◌++◌, ◌||◌, if◌then◌else◌, ◌>>=?◌,
}
use local_cache_proxy.Base.Result.{Result, ok, err}
use local_cache_proxy.Base.Text.{Text, codes, text_eq, starts_with, trim_matches, parse_u64}
use local_cache_proxy.Config.{AppConfig, S3Config, str_to_ms}
use local_cache_proxy.Downloader.{creates, body_bytes}
use local_cache_proxy.Message.ActionResult
use local_cache_proxy.Message.ActionResult.{ActionResult}
use local_cache_proxy.Message.OutputDirectory.{OutputDirectory}
use local_cache_proxy.Remote.{S3, S3Object, no_such_key, other_error, found}
use local_cache_proxy.World.{Env, World, Body, Ending, complete, broken, get, put}
use local_cache_proxy.World.Disk.{
  Files, FileState, absent, file, denied, unreadable, write, path_exists,
}
use local_cache_proxy.World.Step.{Out, done, fail, panic, Act}

-- `matches.value_of`
abbrev pub Matches : Type 0
Matches = Text → Option Text

-- `unwrap_or`
abbrev pub or_default : Option Text → Text → Text
or_default none d = d
or_default (some t) d = t

-- `unwrap` of a parsed URI
abbrev pub unwrap : Result Text Text → Option Text
unwrap (ok t) = some t
unwrap (err e) = none

module _ (parse_uri : Text → Result Text Text) (home : Option Text) (matches : Matches) where
  abbrev pub given : String → String → Text
  given name default = or_default (matches (codes name)) (codes default)

  abbrev pub parsed_uri : Text → Option Text
  parsed_uri t = unwrap (parse_uri t)

  abbrev pub number : String → String → Option ℕ
  number name default = parse_u64 (given name default)

  -- The default is made before it is known whether the argument is there.
  unfoldable pub cache_folder : Option Text
  cache_folder = home >>=? λ h.
      some (or_default (matches (codes "cache_folder")) (h ++ codes "/bazel_download_cache"))

  -- The configuration of client_side_proxy.rs.
  unfoldable pub client_config : Option AppConfig
  unfolding cache_folder
  client_config = matches (codes "upstream") >>=? λ u. parsed_uri u >>=? λ upstream.
      parsed_uri (given "bind_target" "http://localhost:10487") >>=? λ bind_target.
      number "cache_folder_size" "32212254720" >>=? λ cache_folder_size. cache_folder >>=? λ folder.
      number "maximum_upload_size" "10485760" >>=? λ maximum_upload_size.
      number "maximum_download_size" "10485760" >>=? λ maximum_download_size.
      str_to_ms (given "idle_time_terminate" "600000") >>=? λ idle_time. some (record {
        upstream = upstream;
        proxy = matches (codes "proxy");
        bind_target = bind_target;
        cache_folder = folder;
        cache_folder_size = cache_folder_size;
        maximum_download_size = maximum_download_size;
        maximum_upload_size = maximum_upload_size;
        idle_time_terminate = some idle_time;
      })

  -- The bucket and the prefix of server_side_proxy.rs.
  unfoldable pub s3_config : Option S3Config
  s3_config = matches (codes "s3_bucket") >>=? λ bucket. matches (codes "s3_prefix") >>=? λ prefix.
      some (record { bucket = bucket; prefix = trim_matches b'/' prefix })

  -- The configuration of server_side_proxy.rs.
  unfoldable pub server_config : Option AppConfig
  unfolding cache_folder
  server_config = parsed_uri (codes "http://local:123") >>=? λ upstream.
      matches (codes "port") >>=? λ port.
      parsed_uri (codes "http://127.0.0.1:" ++ port) >>=? λ bind_target.
      number "cache_folder_size" "32212254720" >>=? λ cache_folder_size. cache_folder >>=? λ folder.
      number "maximum_upload_size" "10485760" >>=? λ maximum_upload_size.
      number "maximum_download_size" "10485760" >>=? λ maximum_download_size. some (record {
        upstream = upstream;
        proxy = none;
        bind_target = bind_target;
        cache_folder = folder;
        cache_folder_size = cache_folder_size;
        maximum_download_size = maximum_download_size;
        maximum_upload_size = maximum_upload_size;
        idle_time_terminate = none;
      })

-- upload_to_s3.rs: the bucket, the key and the local file; an error is a panic.
module _ (env : Env) (s3 : S3) where
  abbrev pub Step : Type 0
  Step = Act (World env.Cache) Text (Unit {0})

  sent_file : FileState → Text → Step
  sent_file (file b) uri w =
      let asked = record { method = put; uri = uri; payload = b } ∷ w.sent in
      if s3.put_object asked
      then (done tt, record w { sent = asked })
      else (panic, record w { sent = asked })
  sent_file absent uri w = (panic, w)
  sent_file denied uri w = (panic, w)
  sent_file unreadable uri w = (panic, w)

  abbrev pub object_uri : Text → Text → Text
  object_uri bucket key = bucket ++ (b'/' ∷ key)

  unfoldable pub put_object_with_file_name : Text → Text → Text → Step
  unfolding sent_file
  put_object_with_file_name bucket key local w = sent_file (w.files local) (object_uri bucket key) w

  ended : Ending → Step
  ended complete w = (done tt, w)
  ended (broken e) w = (panic, w)

  received : S3Object → Text → Step
  received no_such_key local w = (panic, w)
  received other_error local w = (panic, w)
  received (found len none) local w = (panic, w)
  received (found len (some body)) local w =
      ended body.ending (record w { files = write w.files local (file (body_bytes body.polls)) })

  -- The local file is made, or emptied, before the object is asked for.
  unfoldable pub get_object_with_file_name : Text → Text → Text → Step
  unfolding received ended
  get_object_with_file_name bucket key local w =
      let asked = record { method = get; uri = object_uri bucket key; payload = [] } ∷ w.sent in
      if creates (env.can_create local) (w.files local)
      then received (s3.get_object asked) local
          (record w { files = write w.files local (file []); sent = asked })
      else (panic, w)

  -- The dispatch of `main`: whether `--upload` and `--download` are present.
  unfoldable pub copy : Bool → Bool → Text → Text → Text → Step
  unfolding put_object_with_file_name get_object_with_file_name
  copy true false bucket key local w = put_object_with_file_name bucket key local w
  copy false true bucket key local w = get_object_with_file_name bucket key local w
  copy true true bucket key local w = (panic, w)
  copy false false bucket key local w = (panic, w)

-- `str::contains`
unfoldable pub has_part : Text → Text → Bool
has_part [] p = starts_with [] p
has_part (c ∷ s) p = starts_with (c ∷ s) p || has_part s p

-- dump_actionresult.rs
module _ (env : Env) where
  unfoldable pub is_blacklisted : List (OutputDirectory env.wire) → Bool
  unfolding has_part
  is_blacklisted [] = false
  is_blacklisted (d ∷ ds) =
      has_part d.path (codes "external/io_bazel_rules_go") || is_blacklisted ds

  dumped : FileState → Option Bool
  unfolding is_blacklisted
  dumped (file b) =
      elim (ActionResult.merge_from env.wire (ActionResult.new env.wire) b) as (λ _. Option Bool) [
        | ok s ↦ some (is_blacklisted s.output_directories)
        | err e ↦ none
      ]
  dumped absent = none
  dumped denied = none
  dumped unreadable = none

  -- What `main` tells of the file, or a panic.
  unfoldable pub dump : Files → Text → Option Bool
  unfolding dumped
  dump files path = dumped (files path)
