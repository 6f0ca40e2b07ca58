-- ===== src/ActionCache/Process.antt =====
-- src/net/process_action_cache.rs: the processing of one cached file.
use local_cache_proxy.Base.{
  Option, none, some, ◌≡◌, ◌≢◌, refl, inl, inr, true, arith, Bool-cases, List, [], ◌∷◌,
}
use local_cache_proxy.Base.Result.{ok, err}
use local_cache_proxy.Message.{Merged}
use local_cache_proxy.Base.Text.{Text, codes, starts_with}
use local_cache_proxy.Config.{AppConfig}
use local_cache_proxy.Message.ActionResult
use local_cache_proxy.Message.ActionResult.{ActionResult}
use local_cache_proxy.World.{Env, World}
use local_cache_proxy.World.Disk.{Bytes, FileState, absent, file, join}
use local_cache_proxy.World.Step.{Act, Out, done, fail, panic, and_then_from, or_else_from}
use local_cache_proxy.Message.Digest.{Digest}
use local_cache_proxy.Message.OutputFile.{OutputFile}
use local_cache_proxy.ActionCache.{
  forget, touch_state, enable, enable_outputs, enable_all, process_action_cache_response,
  process_existing_action_caches, read_state, parsed, parsed_from,
}
use local_cache_proxy.ActionCache.Gates.{
  Grown, Grown-refl, Grown-trans, ResultOpened, enable_all-Grown, enable_all-ResultOpened,
}

module _ (env : Env) (config : AppConfig) where
  -- The two ways in which the reading of the message ends.
  pub process_parsed :
      (name : Text) (w : World env.Cache) (b : Bytes) (s : ActionResult env.wire)
      → starts_with name (codes "ac__") ≡ true
      → w.files (join config.cache_folder name) ≡ file b
      → ActionResult.merge_from env.wire (ActionResult.new env.wire) b ≡ ok s
      → process_action_cache_response env config name w ≡ enable_all env config.cache_folder s w
  unfolding process_action_cache_response
  process_parsed name w b s h f p = rw (h, f) (rw (p, parsed) refl)

  -- If the processing of the cached action result `ac__...` succeeds, then every blob that the
  -- message in that file names has an open gate.
  pub process-ResultOpened :
      (name : Text) (w : World env.Cache) (b : Bytes) (s : ActionResult env.wire)
      → starts_with name (codes "ac__") ≡ true
      → w.files (join config.cache_folder name) ≡ file b
      → ActionResult.merge_from env.wire (ActionResult.new env.wire) b ≡ ok s
      → (process_action_cache_response env config name w).0 ≡ done tt
      → ResultOpened env config.cache_folder s
          (process_action_cache_response env config name w).1.files
  process-ResultOpened name w b s h f p d =
      let e = process_parsed name w b s h f p in
      rw e (enable_all-ResultOpened env config.cache_folder s w (rw e at d))

  read-Grown :
      (st : FileState) (w : World env.Cache)
      → Grown config.cache_folder w
          (and_then_from
            (read_state env st w)
            (λ b v. and_then_from (parsed env b v) (λ s. enable_all env config.cache_folder s))).1
  unfolding read_state parsed
  read-Grown (file b) w = parsed-Grown b
    where
      from :
          (r : Merged env.wire (ActionResult env.wire))
          → Grown config.cache_folder w
              (and_then_from (parsed_from env r w) (λ s. enable_all env config.cache_folder s)).1
      from (ok s) = enable_all-Grown env config.cache_folder s w
      from (err e) = Grown-refl config.cache_folder w

      parsed-Grown :
          (x : Bytes)
          → Grown config.cache_folder w
              (and_then_from (parsed env x w) (λ s. enable_all env config.cache_folder s)).1
      parsed-Grown x = from (ActionResult.merge_from env.wire (ActionResult.new env.wire) x)
  read-Grown _ w = Grown-refl config.cache_folder w

  -- However the processing of a file ends, it has changed nothing but gates in the cache folder:
  -- each file is as before, or it is a gate that did not exist and now is an empty file.
  pub process-Grown :
      (name : Text) (w : World env.Cache)
      → Grown config.cache_folder w (process_action_cache_response env config name w).1
  unfolding process_action_cache_response
  process-Grown name w = elim (Bool-cases (starts_with name (codes "ac__"))) [
    | inl e ↦ rw e (read-Grown (w.files (join config.cache_folder name)) w)
    | inr e ↦ rw e (Grown-refl config.cache_folder w)
  ]

  -- `forget` of a step that does not panic: it succeeds, with the gates that the step has made.
  forgotten :
      (w : World env.Cache) (x : Out Text (Unit {0}) × World env.Cache)
      → x.0 ≢ panic
      → Grown config.cache_folder w x.1
      → let y = or_else_from {F = Text} x (λ _ v. (done tt, v)) in
        (y ≡ (done tt, x.1)) × Grown config.cache_folder w x.1
  forgotten w (done tt, v) n g = (refl, g)
  forgotten w (fail e, v) n g = (refl, g)
  forgotten w (panic, v) n g = absurd (n refl)

  then-ne-panic :
      {A B : Type 0} (x : Out Text A × World env.Cache) (k : A → Act (World env.Cache) Text B)
      → x.0 ≢ panic
      → ((a : A) (v : World env.Cache) → (k a v).0 ≢ panic)
      → (and_then_from x k).0 ≢ panic
  then-ne-panic (done a, v) k n m = m a v
  then-ne-panic (fail e, v) k n m = λ h. cc
  then-ne-panic (panic, v) k n m = absurd (n refl)

  touch_state-ne-panic :
      (st : FileState) (path : Text) (w : World env.Cache) → (touch_state env st path w).0 ≢ panic
  unfolding touch_state
  touch_state-ne-panic absent path w = ground arith
  touch_state-ne-panic _ path w = λ h. cc

  enable-ne-panic :
      (d : Option (Digest env.wire)) (w : World env.Cache)
      → (enable env config.cache_folder d w).0 ≢ panic
  unfolding enable
  enable-ne-panic none w = λ h. cc
  enable-ne-panic (some h) w = touch_state-ne-panic _ _ w

  enable_outputs-ne-panic :
      (fs : List (OutputFile env.wire)) (w : World env.Cache)
      → (enable_outputs env config.cache_folder fs w).0 ≢ panic
  unfolding enable_outputs
  enable_outputs-ne-panic [] w = λ h. cc
  enable_outputs-ne-panic (f ∷ fs) w =
      then-ne-panic (enable env config.cache_folder f.digest w) _ (enable-ne-panic f.digest w)
        (λ _ v. enable_outputs-ne-panic fs v)

  enable_all-ne-panic :
      (s : ActionResult env.wire) (w : World env.Cache)
      → (enable_all env config.cache_folder s w).0 ≢ panic
  unfolding enable_all
  enable_all-ne-panic s w =
      then-ne-panic (enable_outputs env config.cache_folder s.output_files w) _
        (enable_outputs-ne-panic s.output_files w)
        (λ _ v.
          then-ne-panic (enable env config.cache_folder s.stdout_digest v) _
            (enable-ne-panic s.stdout_digest v) (λ _ u. enable-ne-panic s.stderr_digest u))

  read_state-ne-panic : (st : FileState) (w : World env.Cache) → (read_state env st w).0 ≢ panic
  unfolding read_state
  read_state-ne-panic (file b) w = λ h. cc
  read_state-ne-panic _ w = λ h. cc

  parsed_from-ne-panic :
      (r : Merged env.wire (ActionResult env.wire)) (w : World env.Cache)
      → (parsed_from env r w).0 ≢ panic
  unfolding parsed_from
  parsed_from-ne-panic (ok s) w = λ h. cc
  parsed_from-ne-panic (err e) w = λ h. cc

  process-ne-panic :
      (name : Text) (w : World env.Cache)
      → (process_action_cache_response env config name w).0 ≢ panic
  unfolding process_action_cache_response
  process-ne-panic name w = elim (Bool-cases (starts_with name (codes "ac__"))) [
    | inl e ↦ rw e (
        then-ne-panic (read_state env (w.files (join config.cache_folder name)) w) _
          (read_state-ne-panic _ w)
          (λ b v.
            then-ne-panic (parsed env b v) _ (parsed_from-ne-panic _ v)
              (λ s u. enable_all-ne-panic s u)))
    | inr e ↦ rw e (λ h. cc)
  ]

  -- The processing whose error is forgotten always succeeds.
  pub forget_process :
      (name : Text) (w : World env.Cache)
      → let v = (process_action_cache_response env config name w).1 in
        (forget env (process_action_cache_response env config name) w ≡ (done tt, v))
        × Grown config.cache_folder w v
  forget_process name w = forgotten w _ (process-ne-panic name w) (process-Grown name w)

  -- The task that starts with the server succeeds on all the names that it is given, whatever the
  -- files hold, and changes nothing but gates: some that did not exist are now empty files.
  pub process_existing-Grown :
      (names : List Text) (w : World env.Cache)
      → ((process_existing_action_caches env config names w).0 ≡ done tt)
        × Grown config.cache_folder w (process_existing_action_caches env config names w).1
  unfolding process_existing_action_caches
  process_existing-Grown [] w = (refl, Grown-refl config.cache_folder w)
  process_existing-Grown (name ∷ names) w =
      let v = (process_action_cache_response env config name w).1 in
      let (e, g) = forget_process name w in
      let (d, h) = process_existing-Grown names v in
      rw e (d, Grown-trans config.cache_folder w v _ g h)
