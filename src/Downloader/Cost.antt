-- ===== src/Downloader/Cost.antt =====
-- src/net/downloader.rs: the requests and the waiting of a download.
use local_cache_proxy.Base.{
  ◌≡◌, ap, refl, ℕ, suc, ◌&&◌, ◌==◌, inl, inr, ◌+◌, ◌≤◌, Option, none, some, arith, length,
  Bool-cases,
}
use local_cache_proxy.Base.Text.{Text}
use local_cache_proxy.Client.{connect_for_file}
use local_cache_proxy.Client.Asking.{connect_for_file-Attempt}
use local_cache_proxy.Client.Retries.{Attempt, backoff, with_retries-Attempt}
use local_cache_proxy.Config.{AppConfig}
use local_cache_proxy.Downloader.{
  creates, should_download, get_content_length, save_body, receive, fetch_once,
  internal_fetch_file_with_retries, insert_fetched, fetch_file,
}
use local_cache_proxy.World.{Env, World, Reply, Body}
use local_cache_proxy.World.Disk.{join}
use local_cache_proxy.World.Step.{Out, done, fail, panic, and_then_from}

module _ (env : Env) where
  save_body_still :
      (path : Text) (len : ℕ) (b : Body) (w : World env.Cache)
      → ((save_body env path len b w).1.sent ≡ w.sent)
        × ((save_body env path len b w).1.now ≡ w.now)
  unfolding save_body
  save_body_still path len b w = elim (Bool-cases (creates (env.can_create path) (w.files path))) [
    | inl e ↦ rw e (refl, refl)
    | inr e ↦ rw e (refl, refl)
  ]

  receive_still :
      (root : Text) (maximum : ℕ) (told : Option ℕ) (res : Reply) (w : World env.Cache)
      → ((receive env root maximum told res w).1.sent ≡ w.sent)
        × ((receive env root maximum told res w).1.now ≡ w.now)
  unfolding receive
  receive_still root maximum none res w = (refl, refl)
  receive_still root maximum (some len) res w =
      elim (Bool-cases (should_download maximum (some len) && res.status == 200)) [
        | inl e ↦ rw e (save_body_still (join root (env.random w.sent)) len res.body w)
        | inr e ↦ rw e (refl, refl)
      ]

  received-Attempt :
      (root : Text) (maximum : ℕ) (x : Out Text Reply × World env.Cache)
      → let y =
          and_then_from x
            (λ res. receive env root maximum (get_content_length res.content_length) res) in
        (y.1.sent ≡ x.1.sent) × (y.1.now ≡ x.1.now)
  received-Attempt root maximum (done res, w) = receive_still root maximum _ res w
  received-Attempt root maximum (fail e, w) = (refl, refl)
  received-Attempt root maximum (panic, w) = (refl, refl)

  -- One try is up to two requests, half a second apart.
  fetch_once-Attempt :
      (maximum : ℕ) (root uri : Text) (w : World env.Cache)
      → Attempt (fetch_once env maximum root uri) 2 10500 w
  unfolding fetch_once backoff
  fetch_once-Attempt maximum root uri w =
      let a = connect_for_file-Attempt env uri 1 500 1 w in
      let s = received-Attempt root maximum (connect_for_file env uri 1 500 1 w) in
      omega (arith, a, ap length s.0, s.1)

  inserted_still :
      (name : Text) (x : Out Text (Option (ℕ × Text)) × World env.Cache)
      → let y = and_then_from x (insert_fetched env name) in
        (y.1.sent ≡ x.1.sent) × (y.1.now ≡ x.1.now)
  unfolding insert_fetched
  inserted_still name (done none, w) = (refl, refl)
  inserted_still name (done (some (len, path)), w) = elim (Bool-cases w.poisoned) [
    | inl e ↦ ground arith
    | inr e ↦ ground arith
  ]
  inserted_still name (fail e, w) = (refl, refl)
  inserted_still name (panic, w) = (refl, refl)

  -- A download sends between one and eight requests, and its requests and sleeps take at most 182
  -- seconds in all: four tries, each of up to two requests of five seconds with half a second
  -- between them, and sleeps of 20, 40 and 80 seconds. The streaming of the body is not counted.
  pub fetch_file_cost :
      (config : AppConfig) (uri name : Text) (w : World env.Cache)
      → let w' = (fetch_file env config uri name w).1 in
        (suc (length w.sent) ≤ length w'.sent)
        × (length w'.sent ≤ length w.sent + 8)
        × (w'.now ≤ w.now + 182000)
  unfolding fetch_file internal_fetch_file_with_retries backoff
  fetch_file_cost config uri name w =
      let once = fetch_once env config.maximum_download_size env.tmp_download_root uri in
      let a =
        with_retries-Attempt once 2 10500
          (fetch_once-Attempt config.maximum_download_size env.tmp_download_root uri) 3 20000 2 w in
      let s = inserted_still name (
        internal_fetch_file_with_retries env config.maximum_download_size env.tmp_download_root uri
          3 20000 2 w) in
      omega (arith, a, ap length s.0, s.1)
