-- ===== src/Remote/Objects.antt =====
-- src/net/remote_cache_server.rs: the answers of the server in front of S3 to `GET`.
use local_cache_proxy.Base.{ℕ, ◌≡◌, refl, Option, none, some, true, List, [], ◌∷◌, length}
use local_cache_proxy.Base.Text.{Text}
use local_cache_proxy.Config.{AppConfig, S3Config}
use local_cache_proxy.Downloader.{body_bytes}
use local_cache_proxy.Remote.{
  S3, no_such_key, found, get_object_from_s3_with_file_name, to_upstream_path, object_uri, serve,
  get_request,
}
use local_cache_proxy.Request
use local_cache_proxy.Request.{ProxyRequest, file_name}
use local_cache_proxy.ServerIo.{string_error, contents, report, empty_with_status_code}
use local_cache_proxy.World.{Env, World, Body, broken, Sent, get}
use local_cache_proxy.World.Disk.{Bytes, absent, file, write, write_self, join, current_file_size}
use local_cache_proxy.World.Step.{done}

module _ (env : Env) (s3 : S3) (config : AppConfig) (c : S3Config) (path : Text) (r : ProxyRequest)
    (parsed : Request.new path ≡ some r) where
  abbrev pub object_path : Text
  object_path = join config.cache_folder (file_name r)

  -- The requests once the object is asked for.
  abbrev pub asked : World env.Cache → List Sent
  asked w =
      record { method = get; uri = object_uri c (to_upstream_path r c); payload = [] } ∷ w.sent

  pub remote_present :
      (b : Bytes) (w : World env.Cache)
      → w.files object_path ≡ file b
      → get_request env s3 config c path w
        ≡ (done (record { status = 200; content_length = some (length b); body = contents b }), w)
  unfolding get_request serve current_file_size get_object_from_s3_with_file_name to_upstream_path
  remote_present b w f = rw (parsed, f) (rw f refl)

  pub remote_missing :
      (w : World env.Cache)
      → w.files object_path ≡ absent
      → s3.get_object (asked w) ≡ no_such_key
      → get_request env s3 config c path w
        ≡ (done (empty_with_status_code 404), record w { sent = asked w })
  unfolding get_request serve current_file_size get_object_from_s3_with_file_name to_upstream_path
  remote_missing w f a = rw (parsed, f) (rw a refl)

  module _ (body : Body) (len : Option ℕ) (w : World env.Cache)
      (free : w.files object_path ≡ absent) (opens : env.can_create object_path ≡ true)
      (answer : s3.get_object (asked w) ≡ found len (some body)) where
    abbrev pub stored : World env.Cache
    stored = record w {
      sent = asked w;
      files = write w.files object_path (file (body_bytes body.polls));
    }

    -- If the body of an object from S3 breaks off, then the `GET` for it, of a file that is not in
    -- the cache folder and can be created, is answered with 500, and the next `GET` with 200 and
    -- the part of the body that had come, for that part stays in the cache folder. The path is read
    -- as the request `r`.
    pub remote_broken :
        (e : Text)
        → body.ending ≡ broken e
        → (get_request env s3 config c path w ≡ (
          done (record {
            status = 500;
            content_length = none;
            body = report (to_upstream_path r c) (string_error e);
          }),
          stored,
        ))
          × (get_request env s3 config c path stored ≡ (
            done (record {
              status = 200;
              content_length = some (length (body_bytes body.polls));
              body = contents (body_bytes body.polls);
            }),
            stored,
          ))
    unfolding get_request serve current_file_size get_object_from_s3_with_file_name to_upstream_path
    remote_broken e b = (
      rw (parsed, free) (rw (answer, free, opens) (rw b refl)),
      remote_present _ stored (write_self w.files object_path _),
    )
