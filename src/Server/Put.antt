-- ===== src/Server/Put.antt =====
-- src/net/client_proxy_server.rs: what a `PUT` stores and sends on.
use local_cache_proxy.ActionCache.{process_action_cache_response}
use local_cache_proxy.ActionCache.Process.{forget_process}
use local_cache_proxy.Base.{
  ◌≡◌, ◌≢◌, refl, ap, ◌∙◌, some, true, false, [], ◌∷◌, ◌++◌, arith, if-false,
}
use local_cache_proxy.Base.Result.{Result, ok, err}
use local_cache_proxy.Base.Text.{Text}
use local_cache_proxy.Config.{AppConfig}
use local_cache_proxy.Downloader.{save_file, insert_saved, stored_as, creates, body_bytes}
use local_cache_proxy.Downloader.Fetch.{Inserts}
use local_cache_proxy.Request
use local_cache_proxy.Request.{ProxyRequest, file_name, query_text, build_query_uri}
use local_cache_proxy.Server.{put_request, upstream_upload, upload_allowed}
use local_cache_proxy.ServerIo.{empty_with_status_code}
use local_cache_proxy.World.{Inserted, Env, World, Body, complete, UploadRequest}
use local_cache_proxy.World.Disk.{
  Bytes, absent, file, write, write_self, write_other, join, path_exists,
}
use local_cache_proxy.World.Step.{done, panic}

module _ (env : Env) (config : AppConfig) (r : ProxyRequest) where
  -- The file that a client's body goes to first, and the one in the cache.
  abbrev pub tmp_path : Text
  tmp_path = join env.tmp_download_root (file_name r)

  abbrev pub cache_path : Text
  cache_path = join config.cache_folder (file_name r)

  -- The world once the body is in the temporary file.
  abbrev pub received : Body → World env.Cache → World env.Cache
  received body w = record w { files = write w.files tmp_path (file (body_bytes body.polls)) }

  -- The request that a new file puts in the uploader's queue.
  abbrev pub upload : Text → UploadRequest
  upload uri = record {
    uri = uri;
    path = cache_path;
    should_upload = upload_allowed env config.cache_folder (file_name r);
  }

  uploaded :
      (uri : Text) (v : World env.Cache)
      → env.parse_uri (query_text r config.upstream) ≡ ok uri
      → env.uploader_listens ≡ true
      → upstream_upload env config r v
        ≡ (done tt, record v { queue = v.queue ++ (upload uri ∷ []) })
  unfolding upstream_upload build_query_uri
  uploaded uri v query listens = rw (query, upstream_upload) (rw listens refl)

  -- What the cache makes of it.
  abbrev pub insertion : Body → World env.Cache → Inserted env.Cache
  insertion body w = env.insert_file w.lru_cache (received body w).files (file_name r) tmp_path

  -- The world once the cache has the file.
  abbrev pub inserted : Body → World env.Cache → World env.Cache
  inserted body w = record (received body w) {
    lru_cache = (insertion body w).cache;
    files = (insertion body w).files;
  }

  module _ (body : Body) (w : World env.Cache)
      (opens : creates (env.can_create tmp_path) (w.files tmp_path) ≡ true)
      (ends : body.ending ≡ complete) where
    save_file-received :
        save_file env config (file_name r) body w
        ≡ insert_saved env (file_name r) tmp_path cache_path (received body w)
    unfolding save_file
    save_file-received = rw (opens, ends) refl

    module _ (path : Text) (parsed : Request.new path ≡ some r) where
      -- A `PUT` whose body is complete, with the lock on the cache poisoned, panics.
      pub put_poisoned : w.poisoned ≡ true → (put_request env config path body w).0 ≡ panic
      unfolding put_request insert_saved
      put_poisoned p = rw parsed (rw save_file-received (rw p refl))

      module _ (sound : w.poisoned ≡ false) (apart : cache_path ≢ tmp_path) where
        received_cache : (received body w).files cache_path ≡ w.files cache_path
        received_cache = write_other w.files tmp_path cache_path _ apart

        -- A `PUT` of a body that is read to its end, for a file that is in the cache already, is
        -- answered with 201, and leaves the body in its temporary file: the cache and the queue of
        -- uploads are as before. The path is read as the request `r`, the temporary file can be
        -- opened and is not the file in the cache, and the lock on the cache is not poisoned.
        pub put_present :
            (b : Bytes)
            → w.files cache_path ≡ file b
            → put_request env config path body w
              ≡ (done (empty_with_status_code 201), received body w)
        unfolding put_request insert_saved path_exists
        put_present b e =
            let f : (received body w).files cache_path ≡ file b = received_cache ∙ e in
            rw parsed (rw save_file-received (rw (sound, f) refl))

        module _ (free : w.files cache_path ≡ absent) where
          not_there : path_exists (received body w).files cache_path ≡ false
          unfolding path_exists
          not_there =
              let f : (received body w).files cache_path ≡ absent = received_cache ∙ free in rw f

          stored :
              (o : Result Text (Unit {0}))
              → (insertion body w).outcome ≡ o
              → save_file env config (file_name r) body w
                ≡ stored_as env (file_name r) o (insertion body w) (received body w)
          unfolding insert_saved
          stored o e =
              save_file-received
              ∙ (if-false _ w.poisoned sound
                  ∙ (if-false _ _ not_there
                      ∙ ap (λ x. stored_as env (file_name r) x (insertion body w) (received body w))
                          e))

          -- If the cache refuses the file, the `PUT` panics with the lock held, so the lock is poisoned.
          pub put_refused :
              (e : Text)
              → (insertion body w).outcome ≡ err e
              → ((put_request env config path body w).0 ≡ panic)
                × ((put_request env config path body w).1.poisoned ≡ true)
          unfolding put_request stored_as
          put_refused e o = rw parsed (rw (stored (err e) o) (refl, refl))

          module _ (accepted : (insertion body w).outcome ≡ ok tt) (uri : Text)
              (query : env.parse_uri (query_text r config.upstream) ≡ ok uri)
              (listens : env.uploader_listens ≡ true) where
            -- The world once the gates of an action result are made, too.
            abbrev pub processed : World env.Cache
            processed = (process_action_cache_response env config (file_name r) (inserted body w)).1

            pub put_result : put_request env config path body w ≡ (
              done (empty_with_status_code 201),
              record (processed) { queue = processed.queue ++ (upload uri ∷ []) },
            )
            unfolding put_request stored_as
            put_result = rw parsed (
                rw (stored (ok tt) accepted) (
                  rw (forget_process env config (file_name r) (inserted body w)).0
                    (rw (uploaded uri processed query listens) refl)))

            -- A `PUT` of a body that is read to its end, for a file that is not in the cache, is
            -- answered with 201: then the cache folder has the file with all bytes of the body, and
            -- the uploader's queue has one more request, for that file and the URI of the query.
            -- The conditions: the path is read as the request `r`, the temporary file can be opened
            -- and is not the file in the cache, the lock on the cache is not poisoned, the cache
            -- accepts the file and keeps what it accepts at its path, the query is a URI, and the
            -- uploader listens.
            pub put_new :
                Inserts env config.cache_folder
                → let w' = (put_request env config path body w).1 in
                  ((put_request env config path body w).0 ≡ done (empty_with_status_code 201))
                  × (w'.files cache_path ≡ file (body_bytes body.polls))
                  × (w'.queue ≡ w.queue ++ (upload uri ∷ []))
            put_new inserts =
                let b = body_bytes body.polls in
                let (e, g) = forget_process env config (file_name r) (inserted body w) in
                let kept : (inserted body w).files cache_path ≡ file b =
                  inserts w.lru_cache (received body w).files (file_name r) tmp_path accepted
                  ∙ write_self w.files tmp_path (file b) in
                let opened = ap (λ (x : World env.Cache). x.queue ++ (upload uri ∷ [])) g.0 in
                rw put_result (refl, ground (arith, g.1 cache_path, kept), opened)
