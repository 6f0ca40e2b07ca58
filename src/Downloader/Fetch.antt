-- ===== src/Downloader/Fetch.antt =====
-- src/net/downloader.rs: what a download costs, and what it leaves in the cache.
use local_cache_proxy.Base.{
  ap, ◌≡◌, refl, ◌∙◌, inl, inr, ℕ, ◌≤◌, Option, none, some, ◌&&◌, List, arith, Bool-cases, leb,
  ◌==◌,
}
use local_cache_proxy.Base.Result.{Result, ok, err}
use local_cache_proxy.Base.Text.{Text}
use local_cache_proxy.Client.{connect_for_file, stream_body, BodyStreamerError}
use local_cache_proxy.Client.Asking.{connect_for_file_answer, Answered}
use local_cache_proxy.Client.Retries.{with_retries-holds}
use local_cache_proxy.Client.Streams.{chunks, stream_body_sound}
use local_cache_proxy.Config.{AppConfig}
use local_cache_proxy.Downloader.{
  get_content_length, should_download, creates, save_body, receive, fetch_once,
  internal_fetch_file_with_retries, insert_fetched, fetch_file, saved_as, inserted_as,
}
use local_cache_proxy.World.{Env, World, Reply, Sent, complete}
use local_cache_proxy.World.Disk.{Files, FileState, file, write, join, write_self}
use local_cache_proxy.World.Step.{Out, done, fail, panic, and_then_from}

-- What a download of a file has come from: the upstream's last answer, which was a success, told its
-- length within the limit, and was read to its end into the file.
pub record Downloaded (env : Env) (maximum : ℕ) (sent : List Sent) (len : ℕ) (content : FileState)
    : Type 0 where
  pub res : Reply
  pub answered : (env.answer sent).outcome ≡ ok res
  pub success : res.status ≡ 200
  pub told : get_content_length res.content_length ≡ some len
  pub within : len ≤ maximum
  pub at_end : res.body.ending ≡ complete
  pub whole : content ≡ file (chunks res.body.polls)

module _ (env : Env) (maximum : ℕ) where
  -- Of the outcome of a fetch.
  abbrev pub Fetched : Out Text (Option (ℕ × Text)) × World env.Cache → Type 0
  Fetched (done (some (len, path)), w) = Downloaded env maximum w.sent len (w.files path)
  Fetched (done none, w) = Unit
  Fetched (fail e, w) = Unit
  Fetched (panic, w) = Unit

  module _ (path : Text) (len : ℕ) (res : Reply) (w : World env.Cache)
      (a : (env.answer w.sent).outcome ≡ ok res) (s : res.status ≡ 200)
      (t : get_content_length res.content_length ≡ some len) (m : len ≤ maximum) where
    saved-Fetched :
        (out : Result BodyStreamerError (Unit {0}))
        → (stream_body res.body).0 ≡ out
        → Fetched (
          saved_as path len out,
          record w { files = write w.files path (file (stream_body res.body).1) },
        )
    unfolding saved_as
    saved-Fetched (ok tt) e =
        let (c, b) = stream_body_sound res.body e in
        record {
          res = res;
          answered = a;
          success = s;
          told = t;
          within = m;
          at_end = c;
          whole = write_self w.files path _ ∙ ap file b;
        }
    saved-Fetched (err e) p = tt

    save_body-Fetched : Fetched (save_body env path len res.body w)
    unfolding save_body
    save_body-Fetched = elim (Bool-cases (creates (env.can_create path) (w.files path))) [
      | inl e ↦ rw e (saved-Fetched (stream_body res.body).0 refl)
      | inr e ↦ rw e tt
    ]

  receive-Fetched :
      (root : Text) (told : Option ℕ) (res : Reply) (w : World env.Cache)
      → (env.answer w.sent).outcome ≡ ok res
      → get_content_length res.content_length ≡ told
      → Fetched (receive env root maximum told res w)
  unfolding receive should_download
  receive-Fetched root none res w a t = tt
  receive-Fetched root (some len) res w a t =
      elim (Bool-cases (leb len maximum && res.status == 200)) [
        | inl e ↦ rw e (
            save_body-Fetched (join root (env.random w.sent)) len res w a (ground arith) t
              (ground arith))
        | inr e ↦ rw e tt
      ]

  received-Fetched :
      (root : Text) (x : Out Text Reply × World env.Cache)
      → Answered env x
      → Fetched (
          and_then_from x
            (λ res. receive env root maximum (get_content_length res.content_length) res))
  received-Fetched root (done res, w) a = receive-Fetched root _ res w a refl
  received-Fetched root (fail e, w) a = tt
  received-Fetched root (panic, w) a = tt

  internal_fetch-Fetched :
      (root uri : Text) (tries sleep multiplier : ℕ) (w : World env.Cache)
      → Fetched (internal_fetch_file_with_retries env maximum root uri tries sleep multiplier w)
  unfolding internal_fetch_file_with_retries
  internal_fetch-Fetched root uri =
      with_retries-holds (fetch_once env maximum root uri) Fetched (λ w.
        received-Fetched root (connect_for_file env uri 1 500 1 w)
          (connect_for_file_answer env uri 1 500 1 w))

-- What the cache of the crate `lru_disk_cache` promises of an insertion that succeeds: the file of the
-- key in the folder holds what the file at the path held.
abbrev pub Inserts : Env → Text → Type 0
Inserts env folder =
    (cache : env.Cache) (files : Files) (name path : Text)
    → (env.insert_file cache files name path).outcome ≡ ok tt
    → (env.insert_file cache files name path).files (join folder name) ≡ files path

module _ (env : Env) (config : AppConfig) (inserts : Inserts env config.cache_folder) where
  module _ (name : Text) (v : World env.Cache) (n : ℕ) where
    inserted-Downloaded :
        (len : ℕ) (path : Text) (r : Result Text (Unit {0}))
        → Downloaded env config.maximum_download_size v.sent len (v.files path)
        → let i = env.insert_file v.lru_cache v.files name path in
          i.outcome ≡ r
          → inserted_as len r ≡ done (some n)
          → Downloaded env config.maximum_download_size v.sent n
              (i.files (join config.cache_folder name))
    unfolding inserted_as
    inserted-Downloaded len path (err x) d o e = absurd (cc)
    inserted-Downloaded len path (ok tt) d o e = record {
      res = d.res;
      answered = d.answered;
      success = d.success;
      told = cc (d.told);
      within = ground (arith, d.within);
      at_end = d.at_end;
      whole = inserts v.lru_cache v.files name path o ∙ d.whole;
    }

    insert_fetched-Downloaded :
        (x : Option (ℕ × Text))
        → Fetched env config.maximum_download_size (done x, v)
        → (insert_fetched env name x v).0 ≡ done (some n)
        → let w' = (insert_fetched env name x v).1 in
          Downloaded env config.maximum_download_size w'.sent n
            (w'.files (join config.cache_folder name))
    unfolding insert_fetched
    insert_fetched-Downloaded none f e = absurd (cc)
    insert_fetched-Downloaded (some (len, path)) f e = elim (Bool-cases v.poisoned) [
      | inl p ↦ absurd (ground arith)
      | inr p ↦ simp p (inserted-Downloaded len path _ f refl (rw p at e))
    ]

  Fetched-Downloaded :
      (name : Text) (n : ℕ) (x : Out Text (Option (ℕ × Text)) × World env.Cache)
      → Fetched env config.maximum_download_size x
      → (and_then_from x (insert_fetched env name)).0 ≡ done (some n)
      → let w' = (and_then_from x (insert_fetched env name)).1 in
        Downloaded env config.maximum_download_size w'.sent n
          (w'.files (join config.cache_folder name))
  Fetched-Downloaded name n (done r, v) f e = insert_fetched-Downloaded name v n r f e
  Fetched-Downloaded name n (fail x, v) f e = absurd (cc)
  Fetched-Downloaded name n (panic, v) f e = absurd (cc)

  -- A download that gives the length `len`, with a cache that keeps what it accepts at its path,
  -- has taken the body of the upstream's last answer: its status was 200, it told the length `len`,
  -- which is within the limit, its body was read to the end, and the file in the cache holds all
  -- bytes of it.
  pub fetch_file-Downloaded :
      (uri name : Text) (w : World env.Cache) {len : ℕ}
      → (fetch_file env config uri name w).0 ≡ done (some len)
      → let w' = (fetch_file env config uri name w).1 in
        Downloaded env config.maximum_download_size w'.sent len
          (w'.files (join config.cache_folder name))
  unfolding fetch_file
  fetch_file-Downloaded uri name w {len} h =
      Fetched-Downloaded name len _ (internal_fetch-Fetched env _ _ uri 3 20000 2 w) h
