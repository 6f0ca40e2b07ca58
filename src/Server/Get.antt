-- ===== src/Server/Get.antt =====
-- src/net/client_proxy_server.rs: the answers to `GET`.
use local_cache_proxy.Base.{
  ◌≡◌, ◌≢◌, refl, Option, none, some, false, [], ◌∷◌, ◌++◌, arith, length, Bool-cases, inl, inr,
}
use local_cache_proxy.Base.Result.{Result, ok, err}
use local_cache_proxy.Base.Text.{Text, codes, starts_with}
use local_cache_proxy.Config.{AppConfig}
use local_cache_proxy.Request
use local_cache_proxy.Request.{ProxyRequest, file_name, query_text, build_query_uri}
use local_cache_proxy.Request.Safe.{Free}
use local_cache_proxy.Request.Forms.{plain_path, cas, new-plain}
use local_cache_proxy.Server.{is_gated, gate_path, serve, get_request, query_from, get_from}
use local_cache_proxy.ServerIo.{
  ServerError, invalid_uri, Response, contents, empty_with_status_code,
}
use local_cache_proxy.World.{Env, World}
use local_cache_proxy.World.Disk.{Bytes, absent, file, join, current_file_size}
use local_cache_proxy.World.Step.{Out, done, fail, panic, or_else_from}

module _ (env : Env) (config : AppConfig) where
  -- A `GET` of `/cas/D`, where `D` is not empty and has no `/`, is answered with 404 if neither the
  -- blob nor its gate is in the cache folder; nothing is asked of the upstream and nothing changes.
  pub get_gated :
      (digest : Text) (w : World env.Cache)
      → Free b'/' digest
      → digest ≢ []
      → let name = codes "cas__" ++ digest in
        w.files (join config.cache_folder name) ≡ absent
        → w.files (gate_path config.cache_folder name) ≡ absent
        → get_request env config (b'/' ∷ plain_path (codes "cas") digest) w
          ≡ (done (empty_with_status_code 404), w)
  unfolding get_request is_gated current_file_size file_name starts_with
  get_gated digest w f n a g = rw (new-plain (codes "cas") digest (cas refl) f n) (rw (a, g) refl)

  served :
      (r : ProxyRequest) (uri : Text) (b : Bytes) (w : World env.Cache)
      → w.files (join config.cache_folder (file_name r)) ≡ file b
      → serve env config uri (file_name r) w
        ≡ (done (record { status = 200; content_length = some (length b); body = contents b }), w)
  unfolding serve current_file_size
  served r uri b w h = rw h (rw h refl)

  present-not-gated :
      (name : Text) (b : Bytes) (w : World env.Cache)
      → w.files (join config.cache_folder name) ≡ file b
      → is_gated config w.files name ≡ false
  unfolding is_gated current_file_size
  present-not-gated name b w h = elim (Bool-cases (starts_with name (codes "cas__"))) [
    | inl e ↦ rw (e, h)
    | inr e ↦ rw e
  ]

  -- A `GET` for a file that is in the cache is answered with 200, all bytes of the file and their
  -- number, and nothing changes: the upstream is not asked. The path is read as the request `r`,
  -- and the query is a URI.
  pub get_present :
      (path : Text) (r : ProxyRequest) (uri : Text) (b : Bytes) (w : World env.Cache)
      → Request.new path ≡ some r
      → env.parse_uri (query_text r config.upstream) ≡ ok uri
      → w.files (join config.cache_folder (file_name r)) ≡ file b
      → get_request env config path w
        ≡ (done (record { status = 200; content_length = some (length b); body = contents b }), w)
  unfolding get_request build_query_uri
  get_present path r uri b w p q h =
      rw (p, present-not-gated (file_name r) b w h, q) (served r uri b w h)

  -- The handler of errors leaves none.
  handled :
      (x : Out ServerError Response × World env.Cache) (answer : ServerError → Response)
      → (e : ServerError)
      → (or_else_from {F = ServerError} x (λ d v. (done (answer d), v))).0 ≢ fail e
  handled (done a, v) answer e = λ h. cc
  handled (fail d, v) answer e = λ h. cc
  handled (panic, v) answer e = λ h. cc

  query_error :
      (x : Result Text Text) (name : Text) (w : World env.Cache) (e : ServerError)
      → (query_from env x config name w).0 ≡ fail e
      → (message : Text) × (e ≡ invalid_uri message)
  unfolding query_from serve
  query_error (ok uri) name w e h = absurd (handled _ _ e h)
  query_error (err m) name w e h = (m, cc)

  request_error :
      (x : Option ProxyRequest) (w : World env.Cache) (e : ServerError)
      → (get_from env x config w).0 ≡ fail e
      → (message : Text) × (e ≡ invalid_uri message)
  unfolding get_from
  request_error none w e h = absurd (cc)
  request_error (some r) w e h = elim (Bool-cases (is_gated config w.files (file_name r))) [
    | inl g ↦ absurd (ground arith)
    | inr g ↦ query_error _ (file_name r) w e (rw g at h)
  ]

  -- The only error that a `GET` passes on to the server is that the text of the query is no URI.
  pub get_error :
      (path : Text) (w : World env.Cache) (e : ServerError)
      → (get_request env config path w).0 ≡ fail e
      → (message : Text) × (e ≡ invalid_uri message)
  unfolding get_request
  get_error path w e h = request_error (Request.new path) w e h
