-- ===== src/System/Locked.antt =====
-- src/net/downloader.rs: the lock on the cache once it is poisoned, over all runs.
use local_cache_proxy.Base.{◌≡◌, refl, some, true}
use local_cache_proxy.Base.Text.{Text}
use local_cache_proxy.Config.{AppConfig}
use local_cache_proxy.Downloader.{creates}
use local_cache_proxy.Downloader.Kept.{AreApart}
use local_cache_proxy.Request
use local_cache_proxy.Request.{ProxyRequest}
use local_cache_proxy.Server.{put_request}
use local_cache_proxy.Server.Kept.{IsStable}
use local_cache_proxy.Server.Put.{tmp_path, put_poisoned}
use local_cache_proxy.System.{System, Reach, Reach-I}
use local_cache_proxy.Uploader.Kept.{IsUploadStable}
use local_cache_proxy.World.{Env, World, Body, complete}
use local_cache_proxy.World.Step.{panic}

module _ (env : Env) (config : AppConfig) where
  abbrev Locked : World env.Cache → Type 0
  Locked w = w.poisoned ≡ true

  Locked-IsStable : IsStable env config Locked
  Locked-IsStable = record {
    stores = record {
      fetches = record { clock = λ w t i. i; asks = λ uri w i. i; temporary = λ name b w i. i };
      insert = λ name path w m i. i;
      poison = λ w i. refl;
    };
    gates = λ hash w e i. i;
    enqueues = λ name uri w i. i;
    stamps = λ t w i. i;
  }

  Locked-IsUploadStable : IsUploadStable env config Locked
  Locked-IsUploadStable = record {
    clock = λ w t i. i;
    heads = λ uri w i. i;
    puts = λ uri path b w e i. i;
    pops = λ r rs w e i. i;
    stamps = λ t w i. i;
  }

  -- Once the lock on the cache is poisoned, every `PUT` panics, in every state that is reached by
  -- requests of clients, polls of the uploader, scans of the cache folder and time. Its path is
  -- read as a request, its body is read to its end into a temporary file that can be opened, and no
  -- file of the temporary folder is one of the cache folder.
  pub Reach-put_panics :
      AreApart env config.cache_folder
      → {s t : System env.Cache} → s.world.poisoned ≡ true
      → Reach env config s t
      → (r : ProxyRequest) (body : Body) (path : Text)
      → creates (env.can_create (tmp_path env config r)) (t.world.files (tmp_path env config r))
        ≡ true
      → body.ending ≡ complete
      → Request.new path ≡ some r
      → (put_request env config path body t.world).0 ≡ panic
  Reach-put_panics apart {t = t} locked reach r body path opens ends parsed =
      put_poisoned env config r body t.world opens ends path parsed
        (Reach-I env config apart Locked Locked-IsStable Locked-IsUploadStable locked reach)
