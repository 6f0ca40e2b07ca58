-- ===== src/Server/Blobs.antt =====
-- src/net/client_proxy_server.rs: which blobs are served and uploaded.
use mathlib.Core.Option.{or_else as or_option}
use local_cache_proxy.ActionCache.{enable_name, process_action_cache_response}
use local_cache_proxy.ActionCache.Gates.{IsPresent, Opened, AllOpened, ResultOpened}
use local_cache_proxy.ActionCache.Process.{process-ResultOpened}
use local_cache_proxy.Base.{
  ℕ, length, ◌≡◌, refl, ◌⊎◌, inl, inr, Option, none, some, true, false, List, [], ◌∷◌, ◌++◌, subst,
}
use local_cache_proxy.Base.Result.{ok}
use local_cache_proxy.Base.Text.{Text, codes, starts_with}
use local_cache_proxy.Config.{AppConfig}
use local_cache_proxy.Message.ActionResult
use local_cache_proxy.Message.ActionResult.{ActionResult}
use local_cache_proxy.Message.Digest.{Digest}
use local_cache_proxy.Message.OutputFile.{OutputFile}
use local_cache_proxy.Server.{gate_path, is_gated, upload_allowed}
use local_cache_proxy.World.{Env, World}
use local_cache_proxy.World.Disk.{size_of, Bytes, Files, FileState, file, join, current_file_size}
use local_cache_proxy.World.Step.{done}

-- The name of a blob's file in the cache folder.
abbrev pub blob_name : Text → Text
blob_name hash = codes "cas__" ++ hash

module _ (env : Env) where
  -- An output file of the list has the digest.
  abbrev pub NamedIn : List (OutputFile env.wire) → Digest env.wire → Type 0
  NamedIn [] h = ⊥
  NamedIn (f ∷ fs) h = (f.digest ≡ some h) ⊎ NamedIn fs h

  -- The action result names the digest.
  abbrev pub IsNamed : ActionResult env.wire → Digest env.wire → Type 0
  IsNamed s h = NamedIn s.output_files h ⊎ (s.stdout_digest ≡ some h) ⊎ (s.stderr_digest ≡ some h)

  Opened-some :
      (folder : Text) (files : Files) (d : Option (Digest env.wire)) (h : Digest env.wire)
      → d ≡ some h
      → Opened env folder d files
      → IsPresent files (join folder (enable_name h.hash))
  Opened-some folder files d h e o = subst (λ x. Opened env folder x files) e o

  AllOpened-NamedIn :
      (folder : Text) (files : Files) (fs : List (OutputFile env.wire)) (h : Digest env.wire)
      → AllOpened env folder fs files
      → NamedIn fs h
      → IsPresent files (join folder (enable_name h.hash))
  AllOpened-NamedIn folder files [] h o n = absurd n
  AllOpened-NamedIn folder files (f ∷ fs) h o (inl e) = Opened-some folder files f.digest h e o.0
  AllOpened-NamedIn folder files (f ∷ fs) h o (inr n) = AllOpened-NamedIn folder files fs h o.1 n

  ResultOpened-IsNamed :
      (folder : Text) (files : Files) (s : ActionResult env.wire) (h : Digest env.wire)
      → ResultOpened env folder s files
      → IsNamed s h
      → IsPresent files (join folder (enable_name h.hash))
  ResultOpened-IsNamed folder files s h o (inl n) =
      AllOpened-NamedIn folder files s.output_files h o.0 n
  ResultOpened-IsNamed folder files s h o (inr (inl e)) =
      Opened-some folder files s.stdout_digest h e o.1
  ResultOpened-IsNamed folder files s h o (inr (inr e)) =
      Opened-some folder files s.stderr_digest h e o.2

  gate_path-enable_name :
      (folder hash : Text) → gate_path folder (blob_name hash) ≡ join folder (enable_name hash)
  unfolding gate_path enable_name join
  gate_path-enable_name folder hash = refl

  open_if_there :
      (st : FileState) (n : ℕ)
      → elim (or_option (size_of st) (some n)) [ none ↦ true | some _ ↦ false ] ≡ false
  unfolding or_option
  open_if_there (file b) n = refl
  open_if_there _ n = refl

  -- A blob whose gate is there is neither gated nor kept from its upload.
  pub opened :
      (config : AppConfig) (files : Files) (hash : Text)
      → IsPresent files (join config.cache_folder (enable_name hash))
      → (is_gated config files (blob_name hash) ≡ false)
        × (upload_allowed env config.cache_folder (blob_name hash) files ≡ true)
  unfolding or_option is_gated upload_allowed current_file_size gate_path enable_name join
      starts_with
  opened config files hash (b, e) =
      (rw e (open_if_there (files (join config.cache_folder (blob_name hash))) (length b)), rw e)

  -- If a file `ac__...` in the cache is read as an action result and its processing succeeds, then
  -- the blob of every digest that the result names, for an output file, the standard output or the
  -- standard error, is no longer gated for `GET` and its upload is allowed.
  pub process_opens :
      (config : AppConfig) (name : Text) (w : World env.Cache) (b : Bytes)
      (s : ActionResult env.wire) (h : Digest env.wire)
      → starts_with name (codes "ac__") ≡ true
      → w.files (join config.cache_folder name) ≡ file b
      → ActionResult.merge_from env.wire (ActionResult.new env.wire) b ≡ ok s
      → (process_action_cache_response env config name w).0 ≡ done tt
      → IsNamed s h
      → let w' = (process_action_cache_response env config name w).1 in
        (is_gated config w'.files (blob_name h.hash) ≡ false)
        × (upload_allowed env config.cache_folder (blob_name h.hash) w'.files ≡ true)
  process_opens config name w b s h ac at parse d n = opened config _ h.hash (
      ResultOpened-IsNamed config.cache_folder _ s h
        (process-ResultOpened env config name w b s ac at parse d) n)
