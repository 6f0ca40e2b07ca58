-- ===== src/System.antt =====
-- src/net/client_proxy_server.rs, src/net/background_uploader.rs: the server with its uploader. The
-- requests of clients, the polls of the uploader, the scan of the cache folder and the passing of
-- time are steps in any order.
pub mod Locked
use local_cache_proxy.ActionCache.{process_existing_action_caches}
use local_cache_proxy.ActionCache.Kept.{process_existing-Keeps}
use local_cache_proxy.Base.{ℕ, ◌+◌, true, List, length}
use local_cache_proxy.Base.Text.{Text}
use local_cache_proxy.Config.{AppConfig}
use local_cache_proxy.Downloader.Kept.{AreApart}
use local_cache_proxy.Server.{HttpRequest, service}
use local_cache_proxy.Server.Kept.{IsStable, service-Keeps}
use local_cache_proxy.Uploader
use local_cache_proxy.Uploader.{Uploader}
use local_cache_proxy.Uploader.Kept.{IsUploadStable, poll-I}
use local_cache_proxy.World.{Env, World}

pub record System (C : Type 0) : Type 0 where
  pub world : World C
  pub uploader : Uploader

module _ (env : Env) (config : AppConfig) where
  -- A poll of the uploader, with rounds for all of its queue; a sender of the channel is left.
  unfoldable pub polled : System env.Cache → System env.Cache
  polled s =
      let x = Uploader.poll env config true (2 + length s.world.queue) s.uploader s.world in
      record { world = x.2; uploader = x.1 }

  pub data Step (s : System env.Cache) : System env.Cache → Type 0 where
    serves : (req : HttpRequest) → Step s (record s { world = (service env config req s.world).1 })
    polls : Step s (polled s)
    scans :
        (names : List Text)
        → Step s (record s { world = (process_existing_action_caches env config names s.world).1 })
    passes : (t : ℕ) → Step s (record s { world = record (s.world) { now = s.world.now + t } })

  pub data Reach (s : System env.Cache) : System env.Cache → Type 0 where
    here : Reach s s
    next : {t u : System env.Cache} → Reach s t → Step t u → Reach s u

  module _ (apart : AreApart env config.cache_folder) (I : World env.Cache → Type 0)
      (server : IsStable env config I) (uploader : IsUploadStable env config I) where
    Step-I : {s t : System env.Cache} → Step s t → I s.world → I t.world
    unfolding polled
    Step-I {s = s} (serves req) i = service-Keeps env config apart I server req s.world i
    Step-I {s = s} polls i = poll-I env config I uploader _ _ s.uploader s.world i
    Step-I {s = s} (scans names) i =
        process_existing-Keeps env config I server.gates names s.world i
    Step-I (passes t) i = uploader.clock _ _ i

    -- What every single effect keeps holds in every state that is reached.
    pub Reach-I : {s t : System env.Cache} → I s.world → Reach s t → I t.world
    Reach-I i here = i
    Reach-I i (next r st) = Step-I st (Reach-I i r)
