-- ===== src/Downloader/Kept.antt =====
-- src/net/downloader.rs: what downloads and the storing of bodies keep.
use local_cache_proxy.Base.{ap, ◌≡◌, ◌≢◌, ℕ, Option, none, some, true, false, [], ◌∷◌, ◌∙◌, sym}
use local_cache_proxy.Base.Result.{Result, ok, err}
use local_cache_proxy.Base.Text.{Text}
use local_cache_proxy.Client.{connect_for_file, stream_body}
use local_cache_proxy.Client.Kept.{with_retries-Keeps, connect_for_file-Keeps}
use local_cache_proxy.Config.{AppConfig}
use local_cache_proxy.Downloader.{
  get_content_length, creates, body_bytes, save_body, receive, receive_all, fetch_once,
  internal_fetch_file_with_retries, insert_fetched, fetch_file, save_file, insert_saved, stored_as,
}
use local_cache_proxy.World.{Env, World, Body, Ending, complete, broken, Reply, get}
use local_cache_proxy.World.Disk.{Bytes, file, write, write_other, join, path_exists}
use local_cache_proxy.World.Keeps.{Keeps, then-Keeps, if-I}
use local_cache_proxy.World.Step.{Out, done, fail, panic, and_then_from}
use local_cache_proxy.Downloader.Temporary.{IntoTemporary, internal_fetch-IntoTemporary}

module _ (env : Env) (folder : Text) where
  -- There is no file for the name in the cache folder.
  abbrev pub IsMissing : Text → World env.Cache → Type 0
  IsMissing name w = path_exists w.files (join folder name) ≡ false

  -- What a download does before the cache gets its file.
  pub record IsFetchStable (I : World env.Cache → Type 0) : Type 0 where
    pub clock : (w : World env.Cache) (t : ℕ) → I w → I (record w { now = t })
    pub asks :
        (uri : Text) (w : World env.Cache)
        → I w
        → I (record w { sent = record { method = get; uri = uri; payload = [] } ∷ w.sent })
    pub temporary :
        (name : Text) (b : Bytes) (w : World env.Cache)
        → I w
        → I (record w { files = write w.files (join env.tmp_download_root name) (file b) })

  -- What the storing of a file in the cache does: the file comes from the temporary folder, and the
  -- name is not in the cache folder yet.
  pub record IsStoreStable (I : World env.Cache → Type 0) : Type 0 where
    pub fetches : IsFetchStable I
    pub insert :
        (name a : Text) (w : World env.Cache)
        → IsMissing name w
        → I w
        → let i = env.insert_file w.lru_cache w.files name (join env.tmp_download_root a) in
          I (record w { lru_cache = i.cache; files = i.files })
    pub poison : (w : World env.Cache) → I w → I (record w { poisoned = true })

  -- No file of the temporary folder is one of the cache folder.
  abbrev pub AreApart : Type 0
  AreApart = (a b : Text) → join folder b ≢ join env.tmp_download_root a

  IsMissing-IsFetchStable : AreApart → (name : Text) → IsFetchStable (IsMissing name)
  unfolding path_exists
  IsMissing-IsFetchStable apart name = record {
    clock = λ w t i. i;
    asks = λ uri w i. i;
    temporary = λ a b w i.
        rw
          (write_other w.files (join env.tmp_download_root a) (join folder name) (file b)
            (apart a name))
          i;
  }

  module _ (I : World env.Cache → Type 0) (s : IsFetchStable I) where
    save_body-Keeps :
        (name : Text) (len : ℕ) (body : Body)
        → Keeps I (save_body env (join env.tmp_download_root name) len body)
    unfolding save_body
    save_body-Keeps name len body w i =
        if-I {E = Text} {A = Option (ℕ × Text)} I
          (creates (env.can_create (join env.tmp_download_root name))
            (w.files (join env.tmp_download_root name)))
          (_, _) (panic, w) (λ _. s.temporary name (stream_body body).1 w i) (λ _. i)

    receive-Keeps :
        (maximum : ℕ) (len : Option ℕ) (res : Reply)
        → Keeps I (receive env env.tmp_download_root maximum len res)
    unfolding receive
    receive-Keeps maximum none res w i = i
    receive-Keeps maximum (some len) res w i =
        if-I {E = Text} I _ _ _ (λ _. save_body-Keeps (env.random w.sent) len res.body w i) (λ _. i)

    pub internal_fetch-Keeps :
        (maximum : ℕ) (uri : Text) (tries sleep multiplier : ℕ)
        → Keeps I (
            internal_fetch_file_with_retries env maximum env.tmp_download_root uri tries sleep
              multiplier)
    unfolding internal_fetch_file_with_retries fetch_once
    internal_fetch-Keeps maximum uri =
        with_retries-Keeps I (fetch_once env maximum env.tmp_download_root uri) s.clock (
          then-Keeps {E = Text} I (connect_for_file env uri 1 500 1) _
            (connect_for_file-Keeps env I s.clock s.asks uri 1 500 1)
            (λ res. receive-Keeps maximum (get_content_length res.content_length) res))

  module _ (apart : AreApart) (I : World env.Cache → Type 0) (s : IsStoreStable I) where
    -- A download keeps `I`, while the name stays missing up to its insertion.
    abbrev Both : Text → World env.Cache → Type 0
    Both name w = I w × IsMissing name w

    Both-IsFetchStable : (name : Text) → IsFetchStable (Both name)
    Both-IsFetchStable name =
        let m = IsMissing-IsFetchStable apart name in
        record {
          clock = λ w t i. (s.fetches.clock w t i.0, m.clock w t i.1);
          asks = λ uri w i. (s.fetches.asks uri w i.0, m.asks uri w i.1);
          temporary = λ a b w i. (s.fetches.temporary a b w i.0, m.temporary a b w i.1);
        }

    insert_fetched-I :
        (name : Text) (x : Option (ℕ × Text)) (w : World env.Cache)
        → Both name w
        → IntoTemporary env (done x, w)
        → I (insert_fetched env name x w).1
    unfolding insert_fetched
    insert_fetched-I name none w i t = i.0
    insert_fetched-I name (some (len, path)) w i (a, e) =
        if-I {E = Text} I w.poisoned _ _ (λ _. i.0) (λ _. rw e (s.insert name a w i.1 i.0))

    pub fetch_file-I :
        (config : AppConfig) (uri name : Text) (w : World env.Cache)
        → IsMissing name w
        → I w
        → I (fetch_file env config uri name w).1
    unfolding fetch_file
    fetch_file-I config uri name w m i =
        let fetched =
          internal_fetch_file_with_retries env config.maximum_download_size env.tmp_download_root
            uri 3 20000 2 w in
        let k =
          internal_fetch-Keeps (Both name) (Both-IsFetchStable name) config.maximum_download_size
            uri 3 20000 2 w (i, m) in
        inserted fetched k
          (internal_fetch-IntoTemporary env config.maximum_download_size uri 3 20000 2 w)
      where
        inserted :
            (x : Out Text (Option (ℕ × Text)) × World env.Cache)
            → Both name x.1
            → IntoTemporary env x
            → I (and_then_from x (insert_fetched env name)).1
        inserted (done r, v) k t = insert_fetched-I name r v k t
        inserted (fail e, v) k t = k.0
        inserted (panic, v) k t = k.0

    stored_as-I :
        (name a : Text) (w : World env.Cache) (o : Result Text (Unit {0}))
        → IsMissing name w
        → I w
        → let path = join env.tmp_download_root a in
          I (stored_as env name o (env.insert_file w.lru_cache w.files name path) w).1
    unfolding stored_as
    stored_as-I name a w (ok _) m i = s.insert name a w m i
    stored_as-I name a w (err e) m i = s.poison _ (s.insert name a w m i)

    insert_saved-I :
        (folder' name a : Text) (w : World env.Cache)
        → folder' ≡ join folder name
        → I w
        → I (insert_saved env name (join env.tmp_download_root a) folder' w).1
    unfolding insert_saved
    insert_saved-I folder' name a w e i =
        if-I {E = Text} I w.poisoned _ _ (λ _. i)
          (λ _.
            if-I {E = Text} I (path_exists w.files folder') _ _ (λ _. i)
              (λ m. stored_as-I name a w _ (ap (path_exists w.files) (sym e) ∙ m) i))

    receive_all-I :
        (name a upload_path : Text) (ending : Ending) (w : World env.Cache)
        → upload_path ≡ join folder name
        → I w
        → I (receive_all env name (join env.tmp_download_root a) upload_path ending w).1
    unfolding receive_all
    receive_all-I name a upload_path complete w e i = insert_saved-I upload_path name a w e i
    receive_all-I name a upload_path (broken d) w e i = i

    pub save_file-I :
        (config : AppConfig) (name : Text) (body : Body) (w : World env.Cache)
        → config.cache_folder ≡ folder
        → I w
        → I (save_file env config name body w).1
    unfolding save_file
    save_file-I config name body w e i =
        let path = join env.tmp_download_root name in
        let received = record w { files = write w.files path (file (body_bytes body.polls)) } in
        if-I {E = Text} {A = Option Text} I (creates (env.can_create path) (w.files path))
          (receive_all env name path (join config.cache_folder name) body.ending received)
          (panic, w)
          (λ _.
            receive_all-I name name _ body.ending received (ap (λ f. join f name) e)
              (s.fetches.temporary name (body_bytes body.polls) w i))
          (λ _. i)
