-- ===== src/Server/Kept.antt =====
-- src/net/client_proxy_server.rs: what a handler keeps, by what its single effects keep.
use local_cache_proxy.ActionCache.{process_action_cache_response, forget}
use local_cache_proxy.ActionCache.Kept.{IsGateStable, process-Keeps}
use local_cache_proxy.Base.{◌≡◌, refl, ℕ, Option, none, some, false, [], ◌∷◌, ◌++◌}
use local_cache_proxy.Base.Result.{Result, ok, err}
use local_cache_proxy.Base.Text.{Text}
use local_cache_proxy.Config.{AppConfig}
use local_cache_proxy.Downloader.{fetch_file, save_file}
use local_cache_proxy.Downloader.Kept.{
  AreApart, IsMissing, IsStoreStable, fetch_file-I, save_file-I,
}
use local_cache_proxy.Request
use local_cache_proxy.Request.{ProxyRequest, file_name, build_query_uri}
use local_cache_proxy.Server.{
  HttpRequest, is_gated, process_fetched, obtain_from, obtain, respond, serve, query_from, get_from,
  get_request, upload_allowed, enqueue, upstream_upload, after_save, put_from, put_request,
  dispatch, service,
}
use local_cache_proxy.ServerIo.{ServerError, send_state, send_file}
use local_cache_proxy.World.{Env, World, Body, Method, get, head, put, other, UploadRequest}
use local_cache_proxy.World.Disk.{
  FileState, size_of, is_file, absent, file, denied, unreadable, join, current_file_size,
  path_exists,
}
use local_cache_proxy.World.Keeps.{Keeps, then-I, then-Keeps, else-I, else-Keeps, if-I}

-- The request that a handler makes of the uploader.
abbrev pub upload_of : Env → AppConfig → Text → Text → UploadRequest
upload_of env config name uri = record {
  uri = uri;
  path = join config.cache_folder name;
  should_upload = upload_allowed env config.cache_folder name;
}

-- Every single effect of the handlers keeps `I`.
pub record IsStable (env : Env) (config : AppConfig) (I : World env.Cache → Type 0) : Type 0 where
  pub stores : IsStoreStable env config.cache_folder I
  pub gates : IsGateStable env config.cache_folder I
  pub enqueues :
      (name uri : Text) (w : World env.Cache)
      → I w
      → I (record w { queue = w.queue ++ (upload_of env config name uri ∷ []) })
  pub stamps :
      (t : ℕ) (w : World env.Cache)
      → I w
      → I (record w { state = record (w.state) { last_user_facing_request = t } })

module _ (env : Env) (config : AppConfig) (apart : AreApart env config.cache_folder)
    (I : World env.Cache → Type 0) (s : IsStable env config I) where
  process_fetched-Keeps :
      (name : Text) (len : Option ℕ) → Keeps I (process_fetched env config name len)
  unfolding process_fetched
  process_fetched-Keeps name none = λ w i. i
  process_fetched-Keeps name (some len) =
      then-Keeps {E = Text} I (forget env (process_action_cache_response env config name)) _
        (else-Keeps {E = Text} I (process_action_cache_response env config name) _
          (process-Keeps env config I s.gates name) (λ _ w i. i))
        (λ _ w i. i)

  IsMissing-size :
      (w : World env.Cache) (name : Text)
      → current_file_size w.files (join config.cache_folder name) ≡ none
      → IsMissing env config.cache_folder name w
  unfolding current_file_size path_exists
  IsMissing-size w name = by_state (w.files (join config.cache_folder name))
    where
      by_state : (st : FileState) → size_of st ≡ none → is_file st ≡ false
      by_state (file b) e = absurd (cc)
      by_state _ e = refl

  obtain_from-I :
      (len : Option ℕ) (uri name : Text) (w : World env.Cache)
      → current_file_size w.files (join config.cache_folder name) ≡ len
      → I w
      → I (obtain_from env len config uri name w).1
  unfolding obtain_from
  obtain_from-I (some len) uri name w e i = i
  obtain_from-I none uri name w e i =
      else-I {E = Text} I _ _
        (then-I {E = Text} I (fetch_file env config uri name w) (process_fetched env config name)
          (fetch_file-I env config.cache_folder apart I s.stores config uri name w
            (IsMissing-size w name e) i)
          (λ len v _ j. process_fetched-Keeps name len v j))
        (λ _ v j. j)

  respond-Keeps : (name : Text) (len : Option ℕ) → Keeps I (respond env config name len)
  unfolding respond send_file
  respond-Keeps name none w i = i
  respond-Keeps name (some len) w i = by_state (w.files (join config.cache_folder name))
    where
      by_state : (st : FileState) → I (send_state env st w).1
      by_state (file b) = i
      by_state absent = i
      by_state denied = i
      by_state unreadable = i

  serve-Keeps : (uri name : Text) → Keeps I (serve env config uri name)
  unfolding serve obtain
  serve-Keeps uri name w i =
      else-I {E = ServerError} I _ _
        (then-I {E = ServerError} I (obtain env config uri name w) (respond env config name)
          (obtain_from-I _ uri name w refl i) (λ len v _ j. respond-Keeps name len v j))
        (λ _ v j. j)

  query_from-Keeps : (q : Result Text Text) (name : Text) → Keeps I (query_from env q config name)
  unfolding query_from
  query_from-Keeps (ok uri) name = serve-Keeps uri name
  query_from-Keeps (err e) name = λ w i. i

  get_from-Keeps : (r : Option ProxyRequest) → Keeps I (get_from env r config)
  unfolding get_from
  get_from-Keeps none w i = i
  get_from-Keeps (some r) w i =
      if-I {E = ServerError} I (is_gated config w.files (file_name r)) _ _ (λ _. i)
        (λ _. query_from-Keeps (build_query_uri env.parse_uri r config.upstream) (file_name r) w i)

  pub get_request-Keeps : (path : Text) → Keeps I (get_request env config path)
  unfolding get_request
  get_request-Keeps path = get_from-Keeps (Request.new path)

  upload_from :
      (r : ProxyRequest) (q : Result Text Text) (w : World env.Cache)
      → build_query_uri env.parse_uri r config.upstream ≡ q
      → I w
      → I (upstream_upload env config r w).1
  unfolding upstream_upload enqueue
  upload_from r (ok uri) w e i =
      rw (e, upstream_upload)
        (if-I {E = Text} I env.uploader_listens _ _ (λ _. s.enqueues (file_name r) uri w i)
          (λ _. i))
  upload_from r (err d) w e i = rw (e, upstream_upload) i

  after_save-Keeps :
      (r : ProxyRequest) (saved : Option Text) → Keeps I (after_save env config r saved)
  unfolding after_save
  after_save-Keeps r none = λ w i. i
  after_save-Keeps r (some name) =
      then-Keeps {E = Text} I (forget env (process_action_cache_response env config name)) _
        (else-Keeps {E = Text} I (process_action_cache_response env config name) _
          (process-Keeps env config I s.gates name) (λ _ w i. i))
        (λ _ w i. upload_from r _ w refl i)

  put_from-Keeps : (r : Option ProxyRequest) (body : Body) → Keeps I (put_from env r config body)
  unfolding put_from
  put_from-Keeps none body w i = i
  put_from-Keeps (some r) body w i =
      else-I {E = Text} I _ _
        (then-I {E = Text} I (save_file env config (file_name r) body w) _
          (save_file-I env config.cache_folder apart I s.stores config (file_name r) body w refl i)
          (λ saved v _ j.
            then-Keeps {E = Text} I (after_save env config r saved) _ (after_save-Keeps r saved)
              (λ _ u k. k) v j))
        (λ _ v j. j)

  pub put_request-Keeps : (path : Text) (body : Body) → Keeps I (put_request env config path body)
  unfolding put_request
  put_request-Keeps path body = put_from-Keeps (Request.new path) body

  pub service-Keeps : (req : HttpRequest) → Keeps I (service env config req)
  unfolding service
  service-Keeps req w i = by_method req.method _ (s.stamps _ w i)
    where
      by_method : (m : Method) → Keeps I (dispatch env m config req)
      by_method get = get_request-Keeps req.path
      by_method put = put_request-Keeps req.path req.body
      by_method head = λ w i. i
      by_method other = λ w i. i
