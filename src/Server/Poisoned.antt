-- ===== src/Server/Poisoned.antt =====
-- src/net/client_proxy_server.rs: a `PUT` after one whose file the cache has refused.
use local_cache_proxy.Base.{◌≡◌, ◌≢◌, true, false}
use local_cache_proxy.Base.Result.{err}
use local_cache_proxy.Base.{some}
use local_cache_proxy.Base.Text.{Text}
use local_cache_proxy.Config.{AppConfig}
use local_cache_proxy.Downloader.{creates}
use local_cache_proxy.Request
use local_cache_proxy.Request.{ProxyRequest}
use local_cache_proxy.Server.{put_request}
use local_cache_proxy.Server.Put.{tmp_path, cache_path, insertion, put_poisoned, put_refused}
use local_cache_proxy.World.{Env, World, Body, complete}
use local_cache_proxy.World.Disk.{absent}
use local_cache_proxy.World.Step.{panic}

module _ (env : Env) (config : AppConfig) where
  -- After a `PUT` whose file the cache has refused, every next `PUT` panics, whatever it stores.
  -- The conditions on the first: its path is read as a request, its body is read to its end into a
  -- temporary file that can be opened and is not the file in the cache, the file is not in the
  -- cache, and the lock on the cache is not poisoned. On the next: its path is read as a request,
  -- and its body is read to its end into a temporary file that can be opened.
  pub put_after_refused :
      (r : ProxyRequest) (body : Body) (w : World env.Cache) (path : Text)
      → creates (env.can_create (tmp_path env config r)) (w.files (tmp_path env config r)) ≡ true
      → body.ending ≡ complete
      → Request.new path ≡ some r
      → w.poisoned ≡ false
      → cache_path env config r ≢ tmp_path env config r
      → w.files (cache_path env config r) ≡ absent
      → (e : Text) → (insertion env config r body w).outcome ≡ err e
      → (r' : ProxyRequest) (body' : Body) (path' : Text)
      → let w' = (put_request env config path body w).1 in
        creates (env.can_create (tmp_path env config r')) (w'.files (tmp_path env config r')) ≡ true
        → body'.ending ≡ complete
        → Request.new path' ≡ some r'
        → (put_request env config path' body' w').0 ≡ panic
  put_after_refused r body w path opens ends parsed sound apart free e refused r' body' path' opens'
        ends' parsed' =
      put_poisoned env config r' body' _ opens' ends' path' parsed'
        (put_refused env config r body w opens ends path parsed sound apart free e refused).1
