-- ===== src/ActionCache.antt =====
-- src/net/process_action_cache.rs: an action result in the cache opens the gates of the blobs that
-- it names. The gate of a blob is an empty file `enable_cas__<hash>` in the cache folder.
pub mod Gates
pub mod Kept
pub mod Process
pub mod Done
use local_cache_proxy.Base.{
  Option, none, some, Bool, true, false, List, [], ◌∷◌, ◌++◌, if◌then◌else◌,
}
use local_cache_proxy.Base.Result.{Result, ok, err}
use local_cache_proxy.Base.Text.{Text, codes, starts_with}
use local_cache_proxy.Config.{AppConfig}
use local_cache_proxy.Message.{Merged}
use local_cache_proxy.Message.ActionResult
use local_cache_proxy.Message.ActionResult.{ActionResult}
use local_cache_proxy.Message.Digest.{Digest}
use local_cache_proxy.Message.OutputFile.{OutputFile}
use local_cache_proxy.World.{Env, World}
use local_cache_proxy.World.Disk.{Bytes, FileState, absent, file, denied, unreadable, write, join}
use local_cache_proxy.World.Step.{Out, done, fail, Act, ◌>>=◌, or_else, return}

-- The name of a blob's gate.
unfoldable pub enable_name : Text → Text
enable_name hash = codes "enable_cas__" ++ hash

module _ (env : Env) where
  -- What is at the path, then the attempt to open it for writing.
  touch_state : FileState → Text → Act (World env.Cache) Text (Unit {0})
  touch_state absent path w =
      if env.can_create path
      then (done tt, record w { files = write w.files path (file []) })
      else (fail (env.io_error absent), w)
  touch_state (file b) path w = (done tt, w)
  touch_state denied path w = (fail (env.io_error denied), w)
  touch_state unreadable path w = (fail (env.io_error unreadable), w)

  unfoldable pub touch : Text → Act (World env.Cache) Text (Unit {0})
  unfolding touch_state
  touch path w = touch_state (w.files path) path w

  -- `match f.digest.as_ref() { Some(h) => touch(...)?, None => () }`
  unfoldable pub enable : Text → Option (Digest env.wire) → Act (World env.Cache) Text (Unit {0})
  unfolding touch enable_name
  enable folder none = return tt
  enable folder (some h) = touch (join folder (enable_name h.hash))

  unfoldable pub enable_outputs :
      Text → List (OutputFile env.wire) → Act (World env.Cache) Text (Unit {0})
  unfolding enable
  enable_outputs folder [] = return tt
  enable_outputs folder (f ∷ fs) = enable folder f.digest >>= λ _. enable_outputs folder fs

  unfoldable pub enable_all : Text → ActionResult env.wire → Act (World env.Cache) Text (Unit {0})
  unfolding enable_outputs
  enable_all folder s = enable_outputs folder s.output_files >>= λ _.
      enable folder s.stdout_digest >>= λ _. enable folder s.stderr_digest

  read_state : FileState → Act (World env.Cache) Text Bytes
  read_state (file b) w = (done b, w)
  read_state s w = (fail (env.io_error s), w)

  parsed_from :
      Merged env.wire (ActionResult env.wire) → Act (World env.Cache) Text (ActionResult env.wire)
  parsed_from (ok s) w = (done s, w)
  parsed_from (err e) w = (fail (env.wire_error e), w)

  parsed : Bytes → Act (World env.Cache) Text (ActionResult env.wire)
  unfolding parsed_from
  parsed b w = parsed_from (ActionResult.merge_from env.wire (ActionResult.new env.wire) b) w

  unfoldable pub process_action_cache_response :
      AppConfig → Text → Act (World env.Cache) Text (Unit {0})
  unfolding read_state parsed enable_all
  process_action_cache_response config downloaded_file w =
      if starts_with downloaded_file (codes "ac__")
      then ((read_state (w.files (join config.cache_folder downloaded_file)) >>= λ b.
            parsed b >>= λ s. enable_all config.cache_folder s)
          w)
      else (done tt, w)

  -- `.unwrap_or(())`: an error is logged and forgotten.
  abbrev pub forget : Act (World env.Cache) Text (Unit {0}) → Act (World env.Cache) Text (Unit {0})
  forget m = or_else m (λ _. return tt)

  -- The thread that starts with the server, over the names that `read_dir` gives it.
  unfoldable pub process_existing_action_caches :
      AppConfig → List Text → Act (World env.Cache) Text (Unit {0})
  unfolding process_action_cache_response
  process_existing_action_caches config [] = return tt
  process_existing_action_caches config (name ∷ names) =
      forget (process_action_cache_response config name) >>= λ _.
      process_existing_action_caches config names
