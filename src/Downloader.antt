-- ===== src/Downloader.antt =====
-- src/net/downloader.rs: what fills the cache folder, from the upstream and from clients.
pub mod Cost
pub mod Fetch
pub mod Kept
pub mod Temporary
use local_cache_proxy.Base.{
  ℕ, ◌+◌, Option, none, some, Bool, true, false, ◌&&◌, List, [], ◌∷◌, ◌++◌, leb, if◌then◌else◌,
  ◌==◌, ◌>>=?◌,
}
use local_cache_proxy.Base.Result.{Result, ok, err}
use local_cache_proxy.Base.Text.{Text, codes, parse_u64}
use local_cache_proxy.Client.{
  connect_for_file, with_retries, stream_body, description, BodyStreamerError,
}
use local_cache_proxy.Config.{AppConfig}
use local_cache_proxy.World.{
  Env, World, Reply, Body, BodyPoll, Ending, complete, broken, Inserted, HeaderValue, visible,
  opaque,
}
use local_cache_proxy.World.Disk.{
  Bytes, Files, FileState, absent, file, denied, unreadable, write, join, path_exists,
}
use local_cache_proxy.World.Step.{Out, done, fail, panic, Act, ◌>>=◌, return}

-- `get_content_length`
unfoldable pub get_content_length : Option HeaderValue → Option ℕ
get_content_length none = none
get_content_length (some (visible t)) = parse_u64 t
get_content_length (some opaque) = none

unfoldable pub should_download : ℕ → Option ℕ → Bool
should_download maximum none = false
should_download maximum (some siz) = leb siz maximum

-- Whether `File::create` opens the file: it makes one, or empties the one that is there.
abbrev pub creates : Bool → FileState → Bool
creates can absent = can
creates can (file b) = true
creates can _ = false

saved_as : Text → ℕ → Result BodyStreamerError (Unit {0}) → Out Text (Option (ℕ × Text))
saved_as path len (ok _) = done (some (len, path))
saved_as path len (err e) = fail (description e)

inserted_as : ℕ → Result Text (Unit {0}) → Out Text (Option ℕ)
inserted_as len (ok _) = done (some len)
inserted_as len (err e) = fail e

module _ (env : Env) where
  -- The body goes to a new file; the file stays when the body breaks off.
  unfoldable pub save_body : Text → ℕ → Body → Act (World env.Cache) Text (Option (ℕ × Text))
  unfolding saved_as
  save_body path len body w =
      if creates (env.can_create path) (w.files path)
      then (
        saved_as path len (stream_body body).0,
        record w { files = write w.files path (file (stream_body body).1) },
      )
      else (panic, w)

  receive : Text → ℕ → Option ℕ → Reply → Act (World env.Cache) Text (Option (ℕ × Text))
  receive download_root maximum none res w = (done none, w)
  receive download_root maximum (some len) res w =
      if should_download maximum (some len) && res.status == 200
      then save_body (join download_root (env.random w.sent)) len res.body w
      else (done none, w)

  unfoldable pub fetch_once : ℕ → Text → Text → Act (World env.Cache) Text (Option (ℕ × Text))
  unfolding receive
  fetch_once maximum download_root uri = connect_for_file env uri 1 500 1 >>= λ res.
      receive download_root maximum (get_content_length res.content_length) res

  unfoldable pub internal_fetch_file_with_retries :
      ℕ
      → Text
      → Text
      → (tries sleep_duration multiplier : ℕ) → Act (World env.Cache) Text (Option (ℕ × Text))
  unfolding fetch_once with_retries
  internal_fetch_file_with_retries maximum download_root uri =
      with_retries (fetch_once maximum download_root uri)

  -- The lock on the cache is taken, and the file at the path moves in under the key.
  unfoldable pub insert_fetched : Text → Option (ℕ × Text) → Act (World env.Cache) Text (Option ℕ)
  unfolding inserted_as
  insert_fetched name none w = (done none, w)
  insert_fetched name (some (len, path)) w =
      if w.poisoned
      then (panic, w)
      else (let i = env.insert_file w.lru_cache w.files name path in
          (inserted_as len i.outcome, record w { lru_cache = i.cache; files = i.files }))

  unfoldable pub fetch_file : AppConfig → Text → Text → Act (World env.Cache) Text (Option ℕ)
  unfolding internal_fetch_file_with_retries insert_fetched
  fetch_file config uri name =
      internal_fetch_file_with_retries config.maximum_download_size env.tmp_download_root uri 3
        20000 2
      >>= insert_fetched name

  unfoldable pub stored_as :
      Text → Result Text (Unit {0}) → Inserted env.Cache → Act (World env.Cache) Text (Option Text)
  stored_as name (ok _) i w = (done (some name), record w { lru_cache = i.cache; files = i.files })
  stored_as name (err e) i w =
      (panic, record w { lru_cache = i.cache; files = i.files; poisoned = true })

  -- The file is in the temporary folder. An error of the cache is a panic with the lock held.
  unfoldable pub insert_saved : Text → Text → Text → Act (World env.Cache) Text (Option Text)
  unfolding stored_as
  insert_saved name path upload_path w =
      if w.poisoned
      then (panic, w)
      else if path_exists w.files upload_path
      then (done none, w)
      else (let i = env.insert_file w.lru_cache w.files name path in stored_as name i.outcome i w)

-- The bytes of a request's body.
abbrev pub body_bytes : List BodyPoll → Bytes
body_bytes [] = []
body_bytes (p ∷ ps) = elim p.chunk [ none ↦ [] | some b ↦ b ] ++ body_bytes ps

module _ (env : Env) where
  unfoldable pub receive_all :
      Text → Text → Text → Ending → Act (World env.Cache) Text (Option Text)
  receive_all name path upload_path complete w = insert_saved env name path upload_path w
  receive_all name path upload_path (broken e) w = (fail e, w)

  unfoldable pub save_file : AppConfig → Text → Body → Act (World env.Cache) Text (Option Text)
  unfolding receive_all insert_saved
  save_file config name body w =
      let path = join env.tmp_download_root name in
      if creates (env.can_create path) (w.files path)
      then receive_all name path (join config.cache_folder name) body.ending
          (record w { files = write w.files path (file (body_bytes body.polls)) })
      else (panic, w)
