-- ===== src/Server/Stored.antt =====
-- src/net/client_proxy_server.rs: what later requests find after a `PUT`.
use local_cache_proxy.ActionCache.{enable_name}
use local_cache_proxy.Base.{◌≡◌, ◌≢◌, refl, ◌∙◌, some, true, false, [], ◌∷◌, length}
use local_cache_proxy.ActionCache.Done.{CanOpen, process-done}
use local_cache_proxy.Base.Result.{ok}
use local_cache_proxy.Base.Text.{Text, codes, starts_with, contains}
use local_cache_proxy.Config.{AppConfig}
use local_cache_proxy.Downloader.{creates, body_bytes}
use local_cache_proxy.Downloader.Fetch.{Inserts}
use local_cache_proxy.Message.ActionResult
use local_cache_proxy.Message.ActionResult.{ActionResult}
use local_cache_proxy.Message.Digest.{Digest}
use local_cache_proxy.Request
use local_cache_proxy.Request.{ProxyRequest, file_name, query_text}
use local_cache_proxy.Request.Forms.{repo_path, new-repo}
use local_cache_proxy.Request.Safe.{Free}
use local_cache_proxy.Server.{is_gated, upload_allowed, get_request, put_request}
use local_cache_proxy.Server.Blobs.{blob_name, IsNamed, opened, process_opens}
use local_cache_proxy.Server.Get.{get_present}
use local_cache_proxy.Server.Put.{
  tmp_path, cache_path, insertion, inserted, received, put_new, put_result,
}
use local_cache_proxy.ServerIo.{contents}
use local_cache_proxy.World.{Env, World, Body, complete}
use local_cache_proxy.World.Disk.{absent, file, join, write_self}
use local_cache_proxy.World.Step.{done}

-- What `/repo=R/enable_cas/H` is read as.
abbrev pub gate_request : Text → Text → ProxyRequest
gate_request repo hash = record { repo = repo; tpe = codes "enable_cas"; digest = hash }

module _ (env : Env) (config : AppConfig) (inserts : Inserts env config.cache_folder) where
  pub put_then_get :
      (path : Text) (r : ProxyRequest) (uri : Text) (body : Body) (w : World env.Cache)
      → Request.new path ≡ some r
      → env.parse_uri (query_text r config.upstream) ≡ ok uri
      → creates (env.can_create (tmp_path env config r)) (w.files (tmp_path env config r)) ≡ true
      → body.ending ≡ complete
      → w.poisoned ≡ false
      → cache_path env config r ≢ tmp_path env config r
      → w.files (cache_path env config r) ≡ absent
      → (insertion env config r body w).outcome ≡ ok tt
      → env.uploader_listens ≡ true
      → let b = body_bytes body.polls in
        let w' = (put_request env config path body w).1 in
        get_request env config path w'
        ≡ (done (record { status = 200; content_length = some (length b); body = contents b }), w')
  put_then_get path r uri body w p q c e s a f i l =
      let (_, k, _) = put_new env config r body w c e path p s a f i uri q l inserts in
      get_present env config path r uri (body_bytes body.polls) _ p q k

  -- A `PUT` of an action result `ac__...` under the conditions of `put_new`, whose body is read as
  -- a message, opens every blob whose digest the message names for an output file, the standard
  -- output or the standard error: after it the blob is not gated for `GET`, and its upload is
  -- allowed. Besides, the gates in the cache folder can be made where there are none, and their
  -- metadata can be read.
  pub put_opens :
      (path : Text) (r : ProxyRequest) (uri : Text) (body : Body) (w : World env.Cache)
      (s : ActionResult env.wire) (h : Digest env.wire)
      → Request.new path ≡ some r
      → env.parse_uri (query_text r config.upstream) ≡ ok uri
      → creates (env.can_create (tmp_path env config r)) (w.files (tmp_path env config r)) ≡ true
      → body.ending ≡ complete
      → w.poisoned ≡ false
      → cache_path env config r ≢ tmp_path env config r
      → w.files (cache_path env config r) ≡ absent
      → (insertion env config r body w).outcome ≡ ok tt
      → env.uploader_listens ≡ true
      → starts_with (file_name r) (codes "ac__") ≡ true
      → ActionResult.merge_from env.wire (ActionResult.new env.wire) (body_bytes body.polls) ≡ ok s
      → IsNamed env s h
      → CanOpen env config.cache_folder (insertion env config r body w).files
      → let w' = (put_request env config path body w).1 in
        (is_gated config w'.files (blob_name h.hash) ≡ false)
        × (upload_allowed env config.cache_folder (blob_name h.hash) w'.files ≡ true)
  put_opens path r uri body w s h p q c e n a f i l ac parse named can =
      let v = inserted env config r body w in
      let kept : v.files (cache_path env config r) ≡ file (body_bytes body.polls) =
        inserts w.lru_cache (received env config r body w).files (file_name r)
          (tmp_path env config r) i
        ∙ write_self w.files (tmp_path env config r) (file (body_bytes body.polls)) in
      rw (put_result env config r body w c e path p n a f i uri q l) (
        process_opens env config (file_name r) v (body_bytes body.polls) s h ac kept parse
          (process-done env config (file_name r) v (body_bytes body.polls) s ac kept parse can)
          named)

  -- A client can open a blob that no action result names: a `PUT` to `/repo=R/enable_cas/H` under
  -- the conditions of `put_new`, where `R` and `H` have no `/`, `R` has no `=` and `H` is not
  -- empty, stores its body under the name of the gate of `H`, so that the blob is not gated and its
  -- upload is allowed.
  pub put_gate :
      (repo hash uri : Text) (body : Body) (w : World env.Cache)
      → let r = gate_request repo hash in
        Free b'/' repo
        → Free b'=' repo
        → Free b'/' hash
        → hash ≢ []
        → env.parse_uri (query_text r config.upstream) ≡ ok uri
        → creates (env.can_create (tmp_path env config r)) (w.files (tmp_path env config r)) ≡ true
        → body.ending ≡ complete
        → w.poisoned ≡ false
        → cache_path env config r ≢ tmp_path env config r
        → w.files (cache_path env config r) ≡ absent
        → (insertion env config r body w).outcome ≡ ok tt
        → env.uploader_listens ≡ true
        → let w' =
            (put_request env config (b'/' ∷ repo_path repo (codes "enable_cas") hash) body w).1 in
          (w'.files (join config.cache_folder (enable_name hash)) ≡ file (body_bytes body.polls))
          × (is_gated config w'.files (blob_name hash) ≡ false)
          × (upload_allowed env config.cache_folder (blob_name hash) w'.files ≡ true)
  unfolding file_name enable_name contains
  put_gate repo hash uri body w fr fe fh n q c e s a f i l =
      let r = gate_request repo hash in
      let path = b'/' ∷ repo_path repo (codes "enable_cas") hash in
      let p = new-repo repo (codes "enable_cas") hash fr fe refl fh n in
      let (_, k, _) = put_new env config r body w c e path p s a f i uri q l inserts in
      let (gate, upload) = opened env config _ hash (body_bytes body.polls, k) in (k, gate, upload)
