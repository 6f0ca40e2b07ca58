-- ===== src/Sessions/Race.antt =====
-- src/net/downloader.rs: two clients that `PUT` the same file at once.
use local_cache_proxy.Base.{
  ◌≡◌, ◌≢◌, refl, ap, sym, subst, ◌∙◌, ℕ, suc, true, false, some, List, [], ◌∷◌, ◌++◌, length,
  if-false,
}
use local_cache_proxy.Base.Result.{ok}
use local_cache_proxy.Base.Text.{Text}
use local_cache_proxy.Config.{AppConfig}
use local_cache_proxy.Downloader.{creates, body_bytes}
use local_cache_proxy.Downloader.Fetch.{Inserts}
use local_cache_proxy.Sessions.{
  Handle, Disk, view, create, Client, waiting, receiving, finished, Saves, Inserting, to_phase,
  begin, inserted, keep, end_of, step_from, step, run,
}
use local_cache_proxy.Sessions.Alone.{IsInsert}
use local_cache_proxy.Sessions.Files.{IsSound, create-Created}
use local_cache_proxy.Sessions.Receiving.{phase_at, phase_other, times, all-Received, run-append}
use local_cache_proxy.World.{Env, complete}
use local_cache_proxy.World.Disk.{absent, file, write_self, write_other, join, path_exists}
use local_cache_proxy.World.Step.{done}

module _ (env : Env) (config : AppConfig)
    (insert : env.Cache → Disk → Text → Text → Inserting env.Cache) (clients : ℕ → Client)
    (same : IsInsert env insert) (inserts : Inserts env config.cache_folder) (k j : ℕ) where
  abbrev name : Text
  name = (clients k).name

  abbrev pub path : Text
  path = join env.tmp_download_root name

  abbrev pub cached : Text
  cached = join config.cache_folder name

  -- All chunks of the one client, then the start of the other, then the end of the first.
  abbrev pub crossed : List ℕ
  crossed = times (suc (length (clients k).body.polls)) k ++ (j ∷ k ∷ [])

  begun :
      (s : Saves env.Cache)
      → (clients j).name ≡ name
      → s.phases j ≡ waiting
      → creates (env.can_create path) (view s.disk path) ≡ true
      → let x = create path s.disk in
        step env config insert clients j s
        ≡ to_phase j (receiving x.0 (clients j).body.polls) (record s { disk = x.1 })
  unfolding step step_from begin
  begun s n p c = rw p (rw n (rw c refl))

  kept :
      (s : Saves env.Cache) (h : Handle)
      → s.phases k ≡ receiving h []
      → (clients k).body.ending ≡ complete
      → s.poisoned ≡ false
      → path_exists (view s.disk) cached ≡ false
      → let i = insert s.lru_cache s.disk name path in
        i.outcome ≡ ok tt
        → step env config insert clients k s ≡ inserted env config insert clients k (ok tt) i s
  unfolding step step_from end_of keep
  kept s h p e l f a =
      let i = insert s.lru_cache s.disk name path in
      ap (λ x. step_from env config insert clients k x s) p
      ∙ ap (λ x. end_of env config insert clients k x s) e
      ∙ if-false _ _ l
      ∙ if-false _ _ f
      ∙ ap (λ o. inserted env config insert clients k o i s) a

  -- If a second client starts to `PUT` a file when a first one has sent the whole body for the same
  -- name and has not been answered yet, then the first is answered as if its file were stored, and
  -- the file in the cache is empty. Its body is complete and can be put in the temporary file, the
  -- cache has no such file and accepts it, the lock is not poisoned, and the file in the cache is
  -- not the temporary one.
  pub crossed_lost :
      (s : Saves env.Cache)
      → j ≢ k
      → (clients j).name ≡ (clients k).name
      → s.phases k ≡ waiting
      → s.phases j ≡ waiting
      → IsSound s.disk
      → creates (env.can_create path) (view s.disk path) ≡ true
      → (clients k).body.ending ≡ complete
      → s.poisoned ≡ false
      → cached ≢ path
      → view s.disk cached ≡ absent
      → ((d : Disk) → (insert s.lru_cache d name path).outcome ≡ ok tt)
      → let t = run env config insert clients crossed s in
        (t.phases k ≡ finished (done (some name))) × (view t.disk cached ≡ file [])
  unfolding run path_exists inserted
  crossed_lost s n m pk pj sound opens ends lock apart free accepts =
      let t1 = run env config insert clients (times (suc (length (clients k).body.polls)) k) s in
      let r = all-Received env config insert clients k s pk opens sound in
      let there : view t1.disk path ≡ file (body_bytes (clients k).body.polls) =
        ap (λ v. v path) r.files ∙ write_self (view s.disk) path _ in
      let x = create path t1.disk in
      let made = create-Created t1.disk path r.sound in
      let t2 = to_phase j (receiving x.0 (clients j).body.polls) (record t1 { disk = x.1 }) in
      let e2 : step env config insert clients j t1 ≡ t2 =
        begun t1 m (r.others j n ∙ pj) (rw there refl) in
      let p2 : t2.phases k ≡ receiving r.handle [] =
        phase_other j k (receiving x.0 (clients j).body.polls) (record t1 { disk = x.1 })
          (λ e. n (sym e))
        ∙ r.phase in
      let not_there : view x.1 cached ≡ absent =
        ap (λ v. v cached) made.files
        ∙ write_other (view t1.disk) path cached (file []) apart
        ∙ ap (λ v. v cached) r.files
        ∙ write_other (view s.disk) path cached _ apart
        ∙ free in
      let i = insert t1.lru_cache x.1 name path in
      let ok_i = ap (λ c. (insert c x.1 name path).outcome) r.cache ∙ accepts x.1 in
      let e3 = kept t2 r.handle p2 ends (r.lock ∙ lock) (rw not_there refl) ok_i in
      let f = inserted env config insert clients k (ok tt) i t2 in
      let all : run env config insert clients crossed s ≡ f =
        run-append env config insert clients (times (suc (length (clients k).body.polls)) k)
          (j ∷ k ∷ []) s
        ∙ ap (step env config insert clients k) e2
        ∙ e3 in
      let moved : view i.disk cached ≡ file [] =
        ap (λ y. y.files cached) (sym (same t1.lru_cache x.1 name path))
        ∙ inserts t1.lru_cache (view x.1) name path
            (ap (λ y. y.outcome) (same t1.lru_cache x.1 name path) ∙ ok_i)
        ∙ ap (λ v. v path) made.files
        ∙ write_self (view t1.disk) path (file []) in
      subst
        (λ (t : Saves env.Cache).
          (t.phases k ≡ finished (done (some name))) × (view t.disk cached ≡ file []))
        (sym all)
        (
          phase_at k (finished (done (some name)))
              (record t2 { disk = i.disk; lru_cache = i.cache }),
          moved,
        )
