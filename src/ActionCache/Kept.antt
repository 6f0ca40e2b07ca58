-- ===== src/ActionCache/Kept.antt =====
-- src/net/process_action_cache.rs: what the processing of a file keeps.
use local_cache_proxy.ActionCache.{
  enable_name, touch, touch_state, enable, enable_outputs, enable_all, read_state, parsed,
  parsed_from, process_action_cache_response, process_existing_action_caches, forget,
}
use local_cache_proxy.Base.{◌≡◌, refl, Option, none, some, List, [], ◌∷◌}
use local_cache_proxy.Base.Result.{ok, err}
use local_cache_proxy.Base.Text.{Text, codes, starts_with}
use local_cache_proxy.Config.{AppConfig}
use local_cache_proxy.Message.{Merged}
use local_cache_proxy.Message.ActionResult.{ActionResult}
use local_cache_proxy.Message.Digest.{Digest}
use local_cache_proxy.Message.OutputFile.{OutputFile}
use local_cache_proxy.World.{Env, World}
use local_cache_proxy.World.Disk.{FileState, absent, file, denied, unreadable, write, join}
use local_cache_proxy.World.Keeps.{Keeps, then-Keeps, else-Keeps, if-I}

-- A gate that appears keeps `I`.
abbrev pub IsGateStable : (env : Env) → Text → (World env.Cache → Type 0) → Type 0
IsGateStable env folder I =
    (hash : Text) (w : World env.Cache)
    → w.files (join folder (enable_name hash)) ≡ absent
    → I w
    → I (record w { files = write w.files (join folder (enable_name hash)) (file []) })

module _ (env : Env) (config : AppConfig) (I : World env.Cache → Type 0)
    (gate : IsGateStable env config.cache_folder I) where
  touch_state-I :
      (st : FileState) (hash : Text) (w : World env.Cache)
      → w.files (join config.cache_folder (enable_name hash)) ≡ st
      → I w
      → I (touch_state env st (join config.cache_folder (enable_name hash)) w).1
  unfolding touch_state
  touch_state-I absent hash w e i =
      if-I {E = Text} I (env.can_create (join config.cache_folder (enable_name hash))) _ _
        (λ _. gate hash w e i) (λ _. i)
  touch_state-I (file b) hash w e i = i
  touch_state-I denied hash w e i = i
  touch_state-I unreadable hash w e i = i

  enable-Keeps : (d : Option (Digest env.wire)) → Keeps I (enable env config.cache_folder d)
  unfolding enable touch
  enable-Keeps none w i = i
  enable-Keeps (some h) w i = touch_state-I _ h.hash w refl i

  enable_outputs-Keeps :
      (fs : List (OutputFile env.wire)) → Keeps I (enable_outputs env config.cache_folder fs)
  unfolding enable_outputs
  enable_outputs-Keeps [] = λ w i. i
  enable_outputs-Keeps (f ∷ fs) =
      then-Keeps {E = Text} I (enable env config.cache_folder f.digest) _ (enable-Keeps f.digest)
        (λ _. enable_outputs-Keeps fs)

  enable_all-Keeps : (a : ActionResult env.wire) → Keeps I (enable_all env config.cache_folder a)
  unfolding enable_all
  enable_all-Keeps a =
      then-Keeps {E = Text} I (enable_outputs env config.cache_folder a.output_files) _
        (enable_outputs-Keeps a.output_files)
        (λ _.
          then-Keeps {E = Text} I (enable env config.cache_folder a.stdout_digest) _
            (enable-Keeps a.stdout_digest) (λ _. enable-Keeps a.stderr_digest))

  read_state-Keeps : (st : FileState) → Keeps I (read_state env st)
  unfolding read_state
  read_state-Keeps (file b) w i = i
  read_state-Keeps absent w i = i
  read_state-Keeps denied w i = i
  read_state-Keeps unreadable w i = i

  parsed_from-Keeps : (r : Merged env.wire (ActionResult env.wire)) → Keeps I (parsed_from env r)
  unfolding parsed_from
  parsed_from-Keeps (ok a) w i = i
  parsed_from-Keeps (err e) w i = i

  pub process-Keeps : (name : Text) → Keeps I (process_action_cache_response env config name)
  unfolding process_action_cache_response parsed
  process-Keeps name w i =
      if-I {E = Text} I (starts_with name (codes "ac__")) _ _
        (λ _.
          then-Keeps {E = Text} I (read_state env (w.files (join config.cache_folder name))) _
            (read_state-Keeps _)
            (λ b.
              then-Keeps {E = Text} I (parsed env b) _ (λ v. parsed_from-Keeps _ v)
                enable_all-Keeps)
            w i)
        (λ _. i)

  pub process_existing-Keeps :
      (names : List Text) → Keeps I (process_existing_action_caches env config names)
  unfolding process_existing_action_caches
  process_existing-Keeps [] = λ w i. i
  process_existing-Keeps (name ∷ names) =
      then-Keeps {E = Text} I (forget env (process_action_cache_response env config name)) _
        (else-Keeps {E = Text} I (process_action_cache_response env config name) _
          (process-Keeps name) (λ _ w i. i))
        (λ _. process_existing-Keeps names)
