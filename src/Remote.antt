-- ===== src/Remote.antt =====
-- src/net/remote_cache_server.rs: the server in front of an S3 bucket. The S3 client is the
-- parameter `S3`; a request to it is logged with the bucket and the key as its URI.
pub mod Objects
use local_cache_proxy.ActionCache.{process_action_cache_response, forget}
use local_cache_proxy.Base.{ℕ, Option, none, some, Bool, List, [], ◌∷◌, ◌++◌, if◌then◌else◌}
use local_cache_proxy.Base.Text.{Text, codes}
use local_cache_proxy.Config.{AppConfig, S3Config}
use local_cache_proxy.Downloader.{save_file, creates, body_bytes}
use local_cache_proxy.Request
use local_cache_proxy.Request.{ProxyRequest, file_name}
use local_cache_proxy.Server.{HttpRequest, as_server_error}
use local_cache_proxy.ServerIo.{ServerError, Response, report, empty_with_status_code, send_file}
use local_cache_proxy.World.{
  Env, World, Body, Ending, complete, broken, Method, get, head, put, other, Sent,
}
use local_cache_proxy.World.Disk.{
  Bytes, FileState, absent, file, denied, unreadable, write, join, current_file_size,
}
use local_cache_proxy.World.Step.{
  Out, done, fail, panic, Act, ◌>>=◌, and_then_from, or_else, return,
}

-- What `get_object` answers.
pub data S3Object : Type 0 where
  no_such_key : S3Object
  other_error : S3Object
  found : Option ℕ → Option Body → S3Object

pub record S3 : Type 0 where
  pub get_object : List Sent → S3Object
  -- Whether `put_object` succeeds.
  pub put_object : List Sent → Bool

-- `to_upstream_path`
unfoldable pub to_upstream_path : ProxyRequest → S3Config → Text
to_upstream_path r c =
    c.prefix ++ (b'/' ∷ (r.tpe ++ (codes "/repo_" ++ (r.repo ++ (b'/' ∷ r.digest)))))

abbrev object_uri : S3Config → Text → Text
object_uri c key = c.bucket ++ (b'/' ∷ key)

module _ (env : Env) (s3 : S3) where
  body_ending : Ending → Option ℕ → Act (World env.Cache) Text (Option ℕ)
  body_ending complete len w = (done len, w)
  body_ending (broken e) len w = (fail e, w)

  -- The chunks are written to the file in the cache folder as they come.
  store_body : Option Body → Option ℕ → Text → Act (World env.Cache) Text (Option ℕ)
  store_body none len path w = (panic, record w { files = write w.files path (file []) })
  store_body (some b) len path w =
      body_ending b.ending len (record w { files = write w.files path (file (body_bytes b.polls)) })

  receive_object : S3Object → Text → Act (World env.Cache) Text (Option ℕ)
  receive_object no_such_key path w = (done none, w)
  receive_object other_error path w = (done none, w)
  receive_object (found len body) path w =
      if creates (env.can_create path) (w.files path)
      then store_body body len path w
      else (panic, w)

  unfoldable pub get_object_from_s3_with_file_name :
      S3Config → Text → Text → Act (World env.Cache) Text (Option ℕ)
  unfolding receive_object store_body body_ending
  get_object_from_s3_with_file_name c key path w =
      let asked = record { method = get; uri = object_uri c key; payload = [] } ∷ w.sent in
      receive_object (s3.get_object asked) path (record w { sent = asked })

  put_state : FileState → S3Config → Text → Act (World env.Cache) Text (Unit {0})
  put_state (file b) c key w =
      let asked = record { method = put; uri = object_uri c key; payload = b } ∷ w.sent in
      if s3.put_object asked
      then (done tt, record w { sent = asked })
      else (panic, record w { sent = asked })
  put_state absent c key w = (panic, w)
  put_state denied c key w = (panic, w)
  put_state unreadable c key w = (panic, w)

  -- `put_object_with_file_name`, whose error is unwrapped.
  unfoldable pub put_object_with_file_name :
      S3Config → Text → Text → Act (World env.Cache) Text (Unit {0})
  unfolding put_state
  put_object_with_file_name c key path w = put_state (w.files path) c key w

  obtain_from : Option ℕ → S3Config → Text → Text → Act (World env.Cache) ServerError (Option ℕ)
  obtain_from (some len) c key path w = (done (some len), w)
  obtain_from none c key path w = as_server_error (get_object_from_s3_with_file_name c key path) w

  unfoldable pub obtain : S3Config → Text → Text → Act (World env.Cache) ServerError (Option ℕ)
  unfolding obtain_from
  obtain c key path w = obtain_from (current_file_size w.files path) c key path w

  unfoldable pub respond : Text → Option ℕ → Act (World env.Cache) ServerError Response
  unfolding send_file empty_with_status_code
  respond path none w = (done (empty_with_status_code 404), w)
  respond path (some len) w = send_file env path w

  unfoldable pub serve : S3Config → Text → Text → Act (World env.Cache) ServerError Response
  unfolding obtain respond
  serve c key path =
      or_else (obtain c key path >>= respond path)
        (λ e w. (done (record { status = 500; content_length = none; body = report key e }), w))

  get_from : Option ProxyRequest → AppConfig → S3Config → Act (World env.Cache) ServerError Response
  get_from none config c w = (panic, w)
  get_from (some r) config c w =
      serve c (to_upstream_path r c) (join config.cache_folder (file_name r)) w

  unfoldable pub get_request :
      AppConfig → S3Config → Text → Act (World env.Cache) ServerError Response
  unfolding get_from serve
  get_request config c path = get_from (Request.new path) config c

  unfoldable pub upstream_upload :
      AppConfig → S3Config → ProxyRequest → Act (World env.Cache) Text (Unit {0})
  unfolding put_object_with_file_name
  upstream_upload config c r =
      put_object_with_file_name c (to_upstream_path r c) (join config.cache_folder (file_name r))

  after_save :
      AppConfig → S3Config → ProxyRequest → Option Text → Act (World env.Cache) Text (Unit {0})
  after_save config c r none = return tt
  after_save config c r (some name) =
      forget env (process_action_cache_response env config name) >>= λ _. upstream_upload config c r

  put_from :
      Option ProxyRequest → AppConfig → S3Config → Body → Act (World env.Cache) ServerError Response
  put_from none config c body w = (panic, w)
  put_from (some r) config c body w =
      as_server_error
        (save_file env config (file_name r) body >>= λ saved.
          after_save config c r saved >>= λ _. return (empty_with_status_code 201))
        w

  unfoldable pub put_request :
      AppConfig → S3Config → Text → Body → Act (World env.Cache) ServerError Response
  unfolding put_from after_save upstream_upload
  put_request config c path = put_from (Request.new path) config c

  dispatch :
      Method → AppConfig → S3Config → HttpRequest → Act (World env.Cache) ServerError Response
  dispatch get config c req w = get_request config c req.path w
  dispatch put config c req w = put_request config c req.path req.body w
  dispatch head config c req w = (done (empty_with_status_code 500), w)
  dispatch other config c req w = (done (empty_with_status_code 500), w)

  -- The service function of `start_server`.
  unfoldable pub service :
      AppConfig → S3Config → HttpRequest → Act (World env.Cache) ServerError Response
  unfolding dispatch get_request put_request
  service config c req w =
      dispatch req.method config c req
        (record w { state = record (w.state) { last_user_facing_request = w.now } })
