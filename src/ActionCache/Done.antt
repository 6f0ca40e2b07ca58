-- ===== src/ActionCache/Done.antt =====
-- src/net/process_action_cache.rs: when the processing of an action result succeeds.
use local_cache_proxy.ActionCache.{
  enable_name, touch_state, enable, enable_outputs, enable_all, process_action_cache_response,
}
use local_cache_proxy.ActionCache.Process.{process_parsed}
use local_cache_proxy.Base.{
  ◌≡◌, refl, ◌⊎◌, inl, inr, Option, none, some, true, List, [], ◌∷◌, Bool-cases,
}
use local_cache_proxy.Base.Result.{ok}
use local_cache_proxy.Base.Text.{Text, codes, starts_with, text_eq}
use local_cache_proxy.Config.{AppConfig}
use local_cache_proxy.Message.ActionResult
use local_cache_proxy.Message.ActionResult.{ActionResult}
use local_cache_proxy.Message.Digest.{Digest}
use local_cache_proxy.Message.OutputFile.{OutputFile}
use local_cache_proxy.World.{Env, World}
use local_cache_proxy.World.Disk.{
  Bytes, Files, FileState, absent, file, denied, unreadable, write, join,
}
use local_cache_proxy.World.Step.{Out, done, fail, panic, Act, and_then_from}

-- The metadata can be read.
abbrev pub IsSeen : FileState → Type 0
IsSeen s = (s ≡ absent) ⊎ ((b : Bytes) × (s ≡ file b))

module _ (env : Env) (folder : Text) where
  -- Each gate can be made where there is none, and be seen.
  abbrev pub CanOpen : Files → Type 0
  CanOpen files =
      (hash : Text)
      → let path = join folder (enable_name hash) in
        (env.can_create path ≡ true) × IsSeen (files path)

  -- Of the outcome of a step.
  abbrev Opens : Out Text (Unit {0}) × World env.Cache → Type 0
  Opens x = (x.0 ≡ done tt) × CanOpen x.1.files

  written-CanOpen :
      (files : Files) (path : Text) → CanOpen files → CanOpen (write files path (file []))
  unfolding write
  written-CanOpen files path c hash =
      elim (Bool-cases (text_eq (join folder (enable_name hash)) path)) [
        | inl e ↦ ((c hash).0, rw e (inr ([], refl)))
        | inr e ↦ ((c hash).0, rw e ((c hash).1))
      ]

  touch_state-Opens :
      (s : FileState) (path : Text) (w : World env.Cache)
      → IsSeen s
      → env.can_create path ≡ true
      → CanOpen w.files
      → Opens (touch_state env s path w)
  unfolding touch_state
  touch_state-Opens absent path w i e c = rw e (refl, written-CanOpen w.files path c)
  touch_state-Opens (file b) path w i e c = (refl, c)
  touch_state-Opens denied path w (inl i) e c = absurd (cc)
  touch_state-Opens denied path w (inr (b, i)) e c = absurd (cc)
  touch_state-Opens unreadable path w (inl i) e c = absurd (cc)
  touch_state-Opens unreadable path w (inr (b, i)) e c = absurd (cc)

  enable-Opens :
      (d : Option (Digest env.wire)) (w : World env.Cache)
      → CanOpen w.files
      → Opens (enable env folder d w)
  unfolding enable
  enable-Opens none w c = (refl, c)
  enable-Opens (some h) w c = touch_state-Opens _ _ w (c h.hash).1 (c h.hash).0 c

  then-Opens :
      (x : Out Text (Unit {0}) × World env.Cache)
      (k : Unit {0} → Act (World env.Cache) Text (Unit {0}))
      → Opens x
      → ((a : Unit {0}) (v : World env.Cache) → CanOpen v.files → Opens (k a v))
      → Opens (and_then_from x k)
  then-Opens (done a, v) k (e, c) h = h a v c
  then-Opens (fail d, v) k (e, c) h = absurd (cc)
  then-Opens (panic, v) k (e, c) h = absurd (cc)

  enable_outputs-Opens :
      (fs : List (OutputFile env.wire)) (w : World env.Cache)
      → CanOpen w.files
      → Opens (enable_outputs env folder fs w)
  unfolding enable_outputs
  enable_outputs-Opens [] w c = (refl, c)
  enable_outputs-Opens (f ∷ fs) w c =
      then-Opens (enable env folder f.digest w) _ (enable-Opens f.digest w c)
        (λ _ v d. enable_outputs-Opens fs v d)

  enable_all-Opens :
      (s : ActionResult env.wire) (w : World env.Cache)
      → CanOpen w.files
      → Opens (enable_all env folder s w)
  unfolding enable_all
  enable_all-Opens s w c =
      then-Opens (enable_outputs env folder s.output_files w) _
        (enable_outputs-Opens s.output_files w c)
        (λ _ v d.
          then-Opens (enable env folder s.stdout_digest v) _ (enable-Opens s.stdout_digest v d)
            (λ _ u f. enable-Opens s.stderr_digest u f))

-- A cached action result that can be read is processed with success, where each gate can be made.
pub process-done :
    (env : Env) (config : AppConfig) (name : Text) (w : World env.Cache) (b : Bytes)
    (s : ActionResult env.wire)
    → starts_with name (codes "ac__") ≡ true
    → w.files (join config.cache_folder name) ≡ file b
    → ActionResult.merge_from env.wire (ActionResult.new env.wire) b ≡ ok s
    → CanOpen env config.cache_folder w.files
    → (process_action_cache_response env config name w).0 ≡ done tt
process-done env config name w b s n h p c =
    rw (process_parsed env config name w b s n h p)
      (enable_all-Opens env config.cache_folder s w c).0
