-- ===== src/Sessions/Alone.antt =====
-- src/net/downloader.rs: the steps of one client with no other between them are `save_file`.
use local_cache_proxy.Base.{
  ◌≡◌, refl, ap, sym, subst, if◌then◌else◌, ◌∙◌, ℕ, zero, suc, Bool, true, false, Option, none,
  List, [], ◌∷◌, ◌++◌, length, if-false, Bool-cases, inl, inr,
}
use local_cache_proxy.Base.Result.{Result, ok, err}
use local_cache_proxy.Base.Text.{Text}
use local_cache_proxy.Config.{AppConfig}
use local_cache_proxy.Downloader.{
  creates, body_bytes, save_file, receive_all, insert_saved, stored_as,
}
use local_cache_proxy.Sessions.{
  Handle, Disk, view, Client, waiting, receiving, finished, Saves, Inserting, to_phase, begin,
  inserted, keep, end_of, step_from, step, run,
}
use local_cache_proxy.Sessions.Files.{IsSound}
use local_cache_proxy.Sessions.Receiving.{phase_at, times, Received, all-Received, run-append}
use local_cache_proxy.World.{Env, World, Ending, complete, broken}
use local_cache_proxy.World.Disk.{file, write, join, path_exists}
use local_cache_proxy.World.Step.{Out, done, fail, panic}

-- The cache does to the disk what it does to the files by their paths.
abbrev pub IsInsert : (env : Env) → (env.Cache → Disk → Text → Text → Inserting env.Cache) → Type 0
IsInsert env insert =
    (cache : env.Cache) (d : Disk) (name path : Text)
    → let i = insert cache d name path in
      env.insert_file cache (view d) name path
      ≡ record { outcome = i.outcome; cache = i.cache; files = view i.disk }

module _ (env : Env) (config : AppConfig)
    (insert : env.Cache → Disk → Text → Text → Inserting env.Cache) (clients : ℕ → Client) (k : ℕ)
    (same : IsInsert env insert) (w : World env.Cache) where
  -- The world as the handlers see it.
  abbrev pub world_of : Saves env.Cache → World env.Cache
  world_of s = record w { files = view s.disk; lru_cache = s.lru_cache; poisoned = s.poisoned }

  -- The client has finished, with the outcome and the world of the action.
  pub record Ends (x : Out Text (Option Text) × World env.Cache) (s : Saves env.Cache)
      : Type 0 where
    pub phase : s.phases k ≡ finished x.0
    pub world : x.1 ≡ world_of s

  abbrev name : Text
  name = (clients k).name

  abbrev path : Text
  path = join env.tmp_download_root name

  inserted-Ends :
      (o : Result Text (Unit {0})) (i : Inserting env.Cache) (s : Saves env.Cache)
      → Ends
          (stored_as env name o
            (record { outcome = i.outcome; cache = i.cache; files = view i.disk })
            (world_of s))
          (inserted env config insert clients k o i s)
  unfolding stored_as inserted
  inserted-Ends (ok tt) i s = record {
    phase = phase_at k _ (record s { disk = i.disk; lru_cache = i.cache });
    world = refl;
  }
  inserted-Ends (err e) i s = record {
    phase = phase_at k _ (record s { disk = i.disk; lru_cache = i.cache; poisoned = true });
    world = refl;
  }

  if-Ends :
      (c : Bool) (x y : Out Text (Option Text) × World env.Cache) (s t : Saves env.Cache)
      → (c ≡ true → Ends x s)
      → (c ≡ false → Ends y t)
      → Ends (if c then x else y) (if c then s else t)
  if-Ends true x y s t h g = h refl
  if-Ends false x y s t h g = g refl

  keep-Ends :
      (s : Saves env.Cache)
      → Ends
          (insert_saved env name path (join config.cache_folder name) (world_of s))
          (keep env config insert clients k s)
  unfolding insert_saved keep
  keep-Ends s =
      let i = insert s.lru_cache s.disk name path in
      if-Ends s.poisoned _ _ _ _
        (λ _. record { phase = phase_at k (finished panic) s; world = refl })
        (λ _.
          if-Ends (path_exists (view s.disk) (join config.cache_folder name)) _ _ _ _
            (λ _. record { phase = phase_at k (finished (done none)) s; world = refl })
            (λ _.
              subst
                (λ j.
                  Ends (stored_as env name j.outcome j (world_of s))
                    (inserted env config insert clients k i.outcome i s))
                (sym (same s.lru_cache s.disk name path)) (inserted-Ends i.outcome i s)))

  end-Ends :
      (e : Ending) (s : Saves env.Cache)
      → Ends
          (receive_all env name path (join config.cache_folder name) e (world_of s))
          (end_of env config insert clients k e s)
  unfolding receive_all end_of
  end-Ends complete s = keep-Ends s
  end-Ends (broken e) s = record { phase = phase_at k (finished (fail e)) s; world = refl }

  last-Ends :
      (h : Handle) (s : Saves env.Cache)
      → s.phases k ≡ receiving h []
      → Ends
          (receive_all env name path
            (join config.cache_folder name)
            (clients k).body.ending
            (world_of s))
          (step env config insert clients k s)
  unfolding step step_from
  last-Ends h s p = rw p (end-Ends (clients k).body.ending s)

  step_finished :
      (o : Out Text (Option Text)) (s : Saves env.Cache)
      → s.phases k ≡ finished o
      → step env config insert clients k s ≡ s
  unfolding step step_from
  step_finished o s p = ap (λ x. step_from env config insert clients k x s) p

  -- A client that has finished makes no more steps.
  run_finished :
      (n : ℕ) (o : Out Text (Option Text)) (s : Saves env.Cache)
      → s.phases k ≡ finished o
      → run env config insert clients (times n k) s ≡ s
  unfolding run
  run_finished zero o s p = refl
  run_finished (suc n) o s p =
      ap (run env config insert clients (times n k)) (step_finished o s p) ∙ run_finished n o s p

  -- All steps of the client, one after the other.
  abbrev pub all_steps : List ℕ
  all_steps = times (suc (length (clients k).body.polls)) k ++ (k ∷ [])

  Received-world_of :
      (s t : Saves env.Cache)
      → Received k path [] (body_bytes (clients k).body.polls) s t
      → record (world_of s) {
        files = write (view s.disk) path (file (body_bytes (clients k).body.polls));
      }
        ≡ world_of t
  Received-world_of s t r =
      let files = sym r.files in
      let cache = sym r.cache in
      let lock = sym r.lock in
      λ i. record w { files = files i; lru_cache = cache i; poisoned = lock i }

  begin_refused :
      (s : Saves env.Cache)
      → s.phases k ≡ waiting
      → creates (env.can_create path) (view s.disk path) ≡ false
      → step env config insert clients k s ≡ to_phase k (finished panic) s
  unfolding step step_from begin
  begin_refused s p c = ap (λ x. step_from env config insert clients k x s) p ∙ if-false _ _ c

  -- The steps of one client that no other comes between have the outcome of `save_file` and leave
  -- the same files, cache and lock, errors and panics included, if the cache does to the disk what
  -- it does to the files by their paths, and no inode stands at two paths.
  pub save_file-run :
      (s : Saves env.Cache)
      → s.phases k ≡ waiting
      → IsSound s.disk
      → Ends
          (save_file env config name (clients k).body (world_of s))
          (run env config insert clients all_steps s)
  unfolding save_file run
  save_file-run s p sound = elim (Bool-cases (creates (env.can_create path) (view s.disk path))) [
    | inl c ↦
        let t = run env config insert clients (times (suc (length (clients k).body.polls)) k) s in
        let r = all-Received env config insert clients k s p c sound in
        rw
          (
            c,
            run-append env config insert clients (times (suc (length (clients k).body.polls)) k)
                (k ∷ []) s,
          )
          (subst
            (λ v.
              Ends
                (receive_all env name path (join config.cache_folder name) (clients k).body.ending
                  v)
                (step env config insert clients k t))
            (sym (Received-world_of s t r)) (last-Ends r.handle t r.phase))
    | inr c ↦
        let f = to_phase k (finished panic) s in
        let q = phase_at k (finished panic) s in
        let n = length (clients k).body.polls in
        let e : run env config insert clients all_steps s ≡ f =
          run-append env config insert clients (times (suc n) k) (k ∷ []) s
          ∙ ap
              (λ t.
                run env config insert clients (k ∷ [])
                  (run env config insert clients (times n k) t))
              (begin_refused s p c)
          ∙ ap (run env config insert clients (k ∷ [])) (run_finished n panic f q)
          ∙ run_finished 1 panic f q in
        subst
          (Ends
            (if creates (env.can_create path) (view s.disk path) then _ else (panic, world_of s)))
          (sym e) (rw c (record { phase = q; world = refl }))
  ]
