-- ===== src/Server/Reads.antt =====
-- src/net/client_proxy_server.rs: the answers to `GET`, against the store that the cache folder holds.
use local_cache_proxy.Base.{
  subst, ◌≡◌, ◌≢◌, refl, ℕ, Option, none, some, arith, length, Bool-cases, inl, inr,
}
use local_cache_proxy.Base.Result.{Result, ok, err}
use local_cache_proxy.Base.Text.{Text}
use local_cache_proxy.Config.{AppConfig}
use local_cache_proxy.Request
use local_cache_proxy.Request.{ProxyRequest, file_name}
use local_cache_proxy.Server.{is_gated, obtain, respond, serve, query_from, get_from, get_request}
use local_cache_proxy.ServerIo.{
  ServerError, Response, contents, report, send_state, send_file, empty_with_status_code,
}
use local_cache_proxy.World.{Env, World}
use local_cache_proxy.World.Disk.{Bytes, Files, FileState, absent, file, denied, unreadable, join}
use local_cache_proxy.World.Step.{Out, done, fail, panic, and_then_from, or_else_from}

-- The abstract store: what is stored under a name.
abbrev pub Store : Type 0
Store = Text → Option Bytes

-- What a `GET` for a name may answer: what the store has, or no success.
pub data Answers (m : Store) (name : Text) (res : Response) : Type 0 where
  hit :
      (b : Bytes)
      → m name ≡ some b
      → res ≡ record { status = 200; content_length = some (length b); body = contents b }
      → Answers m name res
  miss : res.status ≢ 200 → Answers m name res

abbrev content_of : FileState → Option Bytes
content_of (file b) = some b
content_of _ = none

-- The store that the cache folder holds.
unfoldable pub view : Text → Files → Store
view folder files name = content_of (files (join folder name))

pub content_of-some : (st : FileState) (b : Bytes) → content_of st ≡ some b → st ≡ file b
content_of-some (file c) b e = ground (arith, e)
content_of-some absent b e = absurd (cc)
content_of-some denied b e = absurd (cc)
content_of-some unreadable b e = absurd (cc)

module _ (env : Env) (config : AppConfig) (name : Text) where
  abbrev Answered : Out ServerError Response × World env.Cache → Type 0
  Answered (done res, w) = Answers (view config.cache_folder w.files) name res
  Answered (fail e, w) = Unit
  Answered (panic, w) = Unit

  send_state-Answered :
      (st : FileState) (w : World env.Cache)
      → w.files (join config.cache_folder name) ≡ st
      → Answered (send_state env st w)
  unfolding send_state empty_with_status_code view
  send_state-Answered (file b) w e = hit b (rw e refl) refl
  send_state-Answered absent w e = tt
  send_state-Answered denied w e = miss (λ h. absurd (omega arith))
  send_state-Answered unreadable w e = tt

  respond-Answered :
      (len : Option ℕ) (w : World env.Cache) → Answered (respond env config name len w)
  unfolding respond send_file empty_with_status_code
  respond-Answered none w = miss (λ h. absurd (omega arith))
  respond-Answered (some len) w = send_state-Answered _ w refl

  handled-Answered :
      (x : Out ServerError Response × World env.Cache) (uri : Text)
      → Answered x
      → Answered (
          or_else_from {F = ServerError} x (λ e w.
            (done (record { status = 500; content_length = none; body = report uri e }), w)))
  handled-Answered (done res, w) uri a = a
  handled-Answered (fail e, w) uri a = miss (λ h. absurd (omega arith))
  handled-Answered (panic, w) uri a = tt

  then-Answered :
      (x : Out ServerError (Option ℕ) × World env.Cache)
      → Answered (and_then_from x (respond env config name))
  then-Answered (done len, w) = respond-Answered len w
  then-Answered (fail e, w) = tt
  then-Answered (panic, w) = tt

  query_from-Answered :
      (q : Result Text Text) (w : World env.Cache) → Answered (query_from env q config name w)
  unfolding query_from serve
  query_from-Answered (ok uri) w =
      handled-Answered _ uri (then-Answered (obtain env config uri name w))
  query_from-Answered (err e) w = tt

  get_from-Answered :
      (r : ProxyRequest) (w : World env.Cache)
      → file_name r ≡ name
      → Answered (get_from env (some r) config w)
  unfolding get_from empty_with_status_code
  get_from-Answered r w e = rw e (elim (Bool-cases (is_gated config w.files name)) [
    | inl g ↦ rw g (miss (λ h. absurd (omega arith)))
    | inr g ↦ rw g (query_from-Answered _ w)
  ])

-- Whatever a `GET` does, its response is what the store of bytes by name, which is the cache folder
-- after it, allows: status 200 with all bytes that are stored under the name of the request and
-- their number, or a status that is not 200. The path is read as the request `r`.
pub get_request-Answers :
    (env : Env) (config : AppConfig) (path : Text) (r : ProxyRequest) (w : World env.Cache)
    (res : Response)
    → Request.new path ≡ some r
    → (get_request env config path w).0 ≡ done res
    → Answers (view config.cache_folder (get_request env config path w).1.files) (file_name r) res
unfolding get_request
get_request-Answers env config path r w res p h =
    answers (get_request env config path w)
      (rw p (get_from-Answered env config (file_name r) r w refl)) h
  where
    answers :
        (x : Out ServerError Response × World env.Cache)
        → Answered env config (file_name r) x
        → x.0 ≡ done res
        → Answers (view config.cache_folder x.1.files) (file_name r) res
    answers (done q, v) a e = subst (λ x. Answered env config (file_name r) (x, v)) e a
    answers (fail d, v) a e = absurd (cc)
    answers (panic, v) a e = absurd (cc)
