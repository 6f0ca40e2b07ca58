-- ===== src/Server/Download.antt =====
-- src/net/client_proxy_server.rs: a `GET` for a file that is not in the cache yet.
use local_cache_proxy.ActionCache.{process_action_cache_response}
use local_cache_proxy.ActionCache.Process.{process-Grown}
use local_cache_proxy.ActionCache.Gates.{Grown}
use local_cache_proxy.Base.{
  ◌≡◌, refl, subst, ap, ℕ, Option, none, some, arith, length, Bool-cases, inl, inr,
}
use local_cache_proxy.Base.Result.{Result, ok, err}
use local_cache_proxy.Base.Text.{Text}
use local_cache_proxy.Client.Streams.{chunks}
use local_cache_proxy.Config.{AppConfig}
use local_cache_proxy.Downloader.{fetch_file}
use local_cache_proxy.Downloader.Fetch.{Downloaded, Inserts, fetch_file-Downloaded}
use local_cache_proxy.Request
use local_cache_proxy.Request.{ProxyRequest, file_name}
use local_cache_proxy.Server.{
  is_gated, process_fetched, obtain, obtain_from, respond, serve, get_request, query_from, get_from,
}
use local_cache_proxy.ServerIo.{
  ServerError, string_error, Response, contents, report, empty_with_status_code,
}
use local_cache_proxy.World.{Env, World}
use local_cache_proxy.World.Disk.{Bytes, FileState, absent, file, join, current_file_size}
use local_cache_proxy.World.Step.{Out, done, fail, panic, and_then_from, or_else_from}

module _ (env : Env) (config : AppConfig) (name : Text) where
  -- The file in the cache.
  abbrev cached : World env.Cache → FileState
  cached w = w.files (join config.cache_folder name)

  abbrev Good {κ} : {E : Type κ} → Out E (Option ℕ) × World env.Cache → Type 0
  Good (done (some len), w) = Downloaded env config.maximum_download_size w.sent len (cached w)
  Good (done none, w) = Unit
  Good (fail e, w) = Unit
  Good (panic, w) = Unit

  fetched-Good :
      (x : Out Text (Option ℕ) × World env.Cache)
      → ((len : ℕ)
          → x.0 ≡ done (some len)
          → Downloaded env config.maximum_download_size x.1.sent len (cached x.1))
      → Good x
  fetched-Good (done (some len), w) h = h len refl
  fetched-Good (done none, w) h = tt
  fetched-Good (fail e, w) h = tt
  fetched-Good (panic, w) h = tt

  Downloaded-Grown :
      (v w : World env.Cache) (len : ℕ)
      → Grown config.cache_folder v w
      → Downloaded env config.maximum_download_size v.sent len (cached v)
      → Downloaded env config.maximum_download_size w.sent len (cached w)
  Downloaded-Grown v w len g d = record {
    res = d.res;
    answered = rw (ap (λ (x : World env.Cache). x.sent) g.0) d.answered;
    success = d.success;
    told = d.told;
    within = d.within;
    at_end = d.at_end;
    whole = ground (arith, g.1 (join config.cache_folder name), d.whole);
  }

  processed-Good :
      (len : ℕ) (v : World env.Cache) (x : Out Text (Unit {0}) × World env.Cache)
      → Grown config.cache_folder v x.1
      → Downloaded env config.maximum_download_size v.sent len (cached v)
      → Good (
          and_then_from
            (or_else_from {F = Text} x (λ _ w. (done tt, w)))
            (λ _ w. (done (some len), w)))
  processed-Good len v (done tt, w) g d = Downloaded-Grown v w len g d
  processed-Good len v (fail e, w) g d = Downloaded-Grown v w len g d
  processed-Good len v (panic, w) g d = tt

  process_fetched-Good :
      (x : Out Text (Option ℕ) × World env.Cache)
      → Good x
      → Good (and_then_from x (process_fetched env config name))
  unfolding process_fetched
  process_fetched-Good (done (some len), w) g =
      processed-Good len w (process_action_cache_response env config name w)
        (process-Grown env config name w) g
  process_fetched-Good (done none, w) g = tt
  process_fetched-Good (fail e, w) g = tt
  process_fetched-Good (panic, w) g = tt

  converted-Good :
      (x : Out Text (Option ℕ) × World env.Cache)
      → Good x
      → Good (or_else_from {F = ServerError} x (λ e w. (fail (string_error e), w)))
  converted-Good (done (some len), w) g = g
  converted-Good (done none, w) g = tt
  converted-Good (fail e, w) g = tt
  converted-Good (panic, w) g = tt

  -- The response and the cache hold the body of a download.
  abbrev pub Delivers : Response → World env.Cache → Type 0
  Delivers res w =
      (len : ℕ) × (b : Bytes) × Downloaded env config.maximum_download_size w.sent len (file b)
      × (res.content_length ≡ some (length b))
      × (res.body ≡ contents b)
      × (cached w ≡ file b)

  abbrev SentDownload : Out ServerError Response × World env.Cache → Type 0
  SentDownload (done res, w) = res.status ≡ 200 → Delivers res w
  SentDownload (fail e, w) = Unit
  SentDownload (panic, w) = Unit

  delivers :
      (x : Out ServerError Response × World env.Cache) (res : Response)
      → SentDownload x
      → x.0 ≡ done res
      → res.status ≡ 200
      → Delivers res x.1
  delivers (done r, w) res s e h =
      let p : r ≡ res = cc in subst (λ (q : Response). q.status ≡ 200 → Delivers q w) p s h
  delivers (fail d, w) res s e h = absurd (cc)
  delivers (panic, w) res s e h = absurd (cc)

  respond-SentDownload :
      (x : Out ServerError (Option ℕ) × World env.Cache)
      → Good x
      → SentDownload (and_then_from x (respond env config name))
  unfolding respond
  respond-SentDownload (done (some len), w) g =
      rw g.whole (λ s. (len, chunks g.res.body.polls, (rw g.whole at g), refl, refl, g.whole))
  respond-SentDownload (done none, w) g = λ s. absurd (omega arith)
  respond-SentDownload (fail e, w) g = tt
  respond-SentDownload (panic, w) g = tt

  handled-SentDownload :
      (x : Out ServerError Response × World env.Cache) (uri : Text)
      → SentDownload x
      → SentDownload (
          or_else_from {F = ServerError} x (λ e w.
            (done (record { status = 500; content_length = none; body = report uri e }), w)))
  handled-SentDownload (done res, w) uri g = g
  handled-SentDownload (fail e, w) uri g = λ s. absurd (omega arith)
  handled-SentDownload (panic, w) uri g = tt

  module _ (inserts : Inserts env config.cache_folder) where
    obtain-Good :
        (uri : Text) (w : World env.Cache) → cached w ≡ absent → Good (obtain env config uri name w)
    unfolding obtain obtain_from current_file_size
    obtain-Good uri w h = rw h (
        converted-Good _ (
          process_fetched-Good _ (
            fetched-Good (fetch_file env config uri name w)
              (λ len e. fetch_file-Downloaded env config inserts uri name w e))))

    serve-SentDownload :
        (uri : Text) (w : World env.Cache)
        → cached w ≡ absent
        → SentDownload (serve env config uri name w)
    unfolding serve
    serve-SentDownload uri w h =
        handled-SentDownload _ uri (respond-SentDownload _ (obtain-Good uri w h))

    query-SentDownload :
        (x : Result Text Text) (w : World env.Cache)
        → cached w ≡ absent
        → SentDownload (query_from env x config name w)
    unfolding query_from
    query-SentDownload (ok uri) w h = serve-SentDownload uri w h
    query-SentDownload (err e) w h = tt

  get_request-SentDownload :
      Inserts env config.cache_folder
      → (path : Text) (r : ProxyRequest) (w : World env.Cache) → Request.new path ≡ some r
      → file_name r ≡ name
      → cached w ≡ absent
      → SentDownload (get_request env config path w)
  unfolding get_request get_from empty_with_status_code
  get_request-SentDownload inserts path r w p n h =
      rw (p, n)
        (elim (Bool-cases (is_gated config w.files name)) [
          | inl g ↦ rw g (λ s. absurd (omega arith))
          | inr g ↦ rw g (query-SentDownload inserts _ w h)
        ])

-- If a `GET` for a file that was not in the cache is answered with 200, and the cache keeps what it
-- accepts at its path, then the upstream's last answer had status 200 and told a length within the
-- limit, its body was read to the end, and all of its bytes are in the cache and are the body of
-- the response.
pub get_downloaded :
    (env : Env) (config : AppConfig)
    → Inserts env config.cache_folder
    → (path : Text) (r : ProxyRequest) (w : World env.Cache) (res : Response)
    → Request.new path ≡ some r
    → w.files (join config.cache_folder (file_name r)) ≡ absent
    → (get_request env config path w).0 ≡ done res
    → res.status ≡ 200
    → Delivers env config (file_name r) res (get_request env config path w).1
get_downloaded env config inserts path r w res p h e s =
    delivers env config (file_name r) _ res
      (get_request-SentDownload env config (file_name r) inserts path r w p refl h) e s
