-- ===== src/Server.antt =====
-- src/net/client_proxy_server.rs: the proxy that runs beside a client. Each handler runs to its end
-- before the next one starts.
pub mod Get
pub mod Kept
pub mod Download
pub mod Put
pub mod Blobs
pub mod Poisoned
pub mod Reads
pub mod Stored
use mathlib.Core.Option.{or_else as or_option}
use local_cache_proxy.ActionCache.{process_action_cache_response, forget}
use local_cache_proxy.Base.{
  Option, none, some, Bool, true, false, not, List, [], ◌∷◌, ◌++◌, if◌then◌else◌,
}
use local_cache_proxy.Base.Result.{Result, ok, err}
use local_cache_proxy.Base.Text.{Text, codes, starts_with}
use local_cache_proxy.Config.{AppConfig}
use local_cache_proxy.Downloader.{fetch_file, save_file}
use local_cache_proxy.Request
use local_cache_proxy.Request.{ProxyRequest, file_name, build_query_uri}
use local_cache_proxy.ServerIo.{
  ServerError, string_error, invalid_uri, Response, report, empty_with_status_code, send_file,
}
use local_cache_proxy.World.{Env, World, Body, Method, get, head, put, other, UploadRequest}
use local_cache_proxy.World.Disk.{Files, FileState, join, current_file_size}
use local_cache_proxy.World.Step.{
  Out, done, fail, panic, Act, ◌>>=◌, and_then_from, or_else, return,
}
use local_cache_proxy.Base.{ℕ}

pub record HttpRequest : Type 0 where
  pub method : Method
  -- `uri().path()`
  pub path : Text
  pub body : Body

-- `format!("{}/enable_{}", cache_folder, file_name)`
unfoldable pub gate_path : Text → Text → Text
gate_path folder name = folder ++ (codes "/enable_" ++ name)

-- A blob that is neither present nor named by an action result seen so far.
unfoldable pub is_gated : AppConfig → Files → Text → Bool
unfolding or_option
is_gated config files name =
    if starts_with name (codes "cas__")
    then (elim (or_option (current_file_size files (join config.cache_folder name))
        (current_file_size files (gate_path config.cache_folder name))) [
          | none ↦ true
          | some _ ↦ false
        ])
    else false

-- `From::from` of the error of a chain of futures
abbrev pub as_server_error {ℓ κ} : {A : Type ℓ} {W : Type κ} → Act W Text A → Act W ServerError A
as_server_error m = or_else m (λ e w. (fail (string_error e), w))

module _ (env : Env) where
  -- What follows a download: an action result opens the gates of its blobs.
  unfoldable pub process_fetched :
      AppConfig → Text → Option ℕ → Act (World env.Cache) Text (Option ℕ)
  process_fetched config name none = return none
  process_fetched config name (some len) =
      forget env (process_action_cache_response env config name) >>= λ _. return (some len)

  obtain_from : Option ℕ → AppConfig → Text → Text → Act (World env.Cache) ServerError (Option ℕ)
  obtain_from (some len) config uri name w = (done (some len), w)
  obtain_from none config uri name w =
      as_server_error (fetch_file env config uri name >>= process_fetched config name) w

  -- `downloaded_file_future`
  unfoldable pub obtain : AppConfig → Text → Text → Act (World env.Cache) ServerError (Option ℕ)
  unfolding obtain_from process_fetched
  obtain config uri name w =
      obtain_from (current_file_size w.files (join config.cache_folder name)) config uri name w

  unfoldable pub respond : AppConfig → Text → Option ℕ → Act (World env.Cache) ServerError Response
  unfolding send_file empty_with_status_code
  respond config name none w = (done (empty_with_status_code 404), w)
  respond config name (some len) w = send_file env (join config.cache_folder name) w

  unfoldable pub serve : AppConfig → Text → Text → Act (World env.Cache) ServerError Response
  unfolding obtain respond
  serve config uri name =
      or_else (obtain config uri name >>= respond config name)
        (λ e w. (done (record { status = 500; content_length = none; body = report uri e }), w))

  query_from : Result Text Text → AppConfig → Text → Act (World env.Cache) ServerError Response
  query_from (ok uri) config name w = serve config uri name w
  query_from (err e) config name w = (fail (invalid_uri e), w)

  get_from : Option ProxyRequest → AppConfig → Act (World env.Cache) ServerError Response
  get_from none config w = (panic, w)
  get_from (some r) config w =
      if is_gated config w.files (file_name r)
      then (done (empty_with_status_code 404), w)
      else query_from (build_query_uri env.parse_uri r config.upstream) config (file_name r) w

  unfoldable pub get_request : AppConfig → Text → Act (World env.Cache) ServerError Response
  unfolding get_from query_from serve
  get_request config path = get_from (Request.new path) config

  -- The boxed closure of an upload: a blob goes upstream only once its gate is open.
  unfoldable pub upload_allowed : Text → Text → Files → Bool
  upload_allowed folder name files =
      if starts_with name (codes "cas__")
      then (elim (current_file_size files (gate_path folder name)) [ none ↦ false | some _ ↦ true ])
      else true

  -- `RequestUpload::upload` of background_uploader.rs, whose error is unwrapped here.
  unfoldable pub enqueue : UploadRequest → Act (World env.Cache) Text (Unit {0})
  enqueue u w =
      if env.uploader_listens
      then (done tt, record w { queue = w.queue ++ (u ∷ []) })
      else (panic, w)

  unfoldable pub upstream_upload : AppConfig → ProxyRequest → Act (World env.Cache) Text (Unit {0})
  unfolding enqueue upload_allowed
  upstream_upload config r w = elim (build_query_uri env.parse_uri r config.upstream) [
    | ok uri ↦
        enqueue
          (record {
            uri = uri;
            path = join config.cache_folder (file_name r);
            should_upload = upload_allowed config.cache_folder (file_name r);
          })
          w
    | err e ↦ (panic, w)
  ]

  unfoldable pub after_save :
      AppConfig → ProxyRequest → Option Text → Act (World env.Cache) Text (Unit {0})
  unfolding upstream_upload
  after_save config r none = return tt
  after_save config r (some name) =
      forget env (process_action_cache_response env config name) >>= λ _. upstream_upload config r

  put_from : Option ProxyRequest → AppConfig → Body → Act (World env.Cache) ServerError Response
  put_from none config body w = (panic, w)
  put_from (some r) config body w =
      as_server_error
        (save_file env config (file_name r) body >>= λ saved.
          after_save config r saved >>= λ _. return (empty_with_status_code 201))
        w

  unfoldable pub put_request : AppConfig → Text → Body → Act (World env.Cache) ServerError Response
  unfolding put_from after_save
  put_request config path = put_from (Request.new path) config

  dispatch : Method → AppConfig → HttpRequest → Act (World env.Cache) ServerError Response
  dispatch get config req w = get_request config req.path w
  dispatch put config req w = put_request config req.path req.body w
  dispatch head config req w = (done (empty_with_status_code 500), w)
  dispatch other config req w = (done (empty_with_status_code 500), w)

  -- The service function of `start_server`.
  unfoldable pub service : AppConfig → HttpRequest → Act (World env.Cache) ServerError Response
  unfolding dispatch
  service config req w =
      dispatch req.method config req
        (record w { state = record (w.state) { last_user_facing_request = w.now } })
