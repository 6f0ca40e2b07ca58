-- ===== src/Sessions/Apart.antt =====
-- src/net/downloader.rs: clients that `PUT` files of different names, in any order of their steps.
use local_cache_proxy.Base.{
  ◌≡◌, ◌≢◌, ◌⊎◌, refl, ap, sym, subst, ◌∙◌, ℕ, some, List, [], ◌∷◌, ◌++◌, Bool-cases, inl, inr,
  ◌==◌, ==_iff,
}
use local_cache_proxy.Base.Text.{Text}
use local_cache_proxy.Config.{AppConfig}
use local_cache_proxy.Downloader.Kept.{AreApart}
use local_cache_proxy.Sessions.{Disk, view, Client, waiting, finished, Saves, Inserting, step, run}
use local_cache_proxy.Sessions.Files.{IsSound}
use local_cache_proxy.Sessions.Receiving.{phase_at, phase_other}
use local_cache_proxy.World.{Env}
use local_cache_proxy.World.Disk.{file, absent, join}
use local_cache_proxy.World.Step.{done}
use local_cache_proxy.Sessions.Fine.{
  IsMove, path, cached, whole, Fine, Fine-other, Inv, Stepped, step-Stepped,
}

append_cancel : (s a b : Text) → s ++ a ≡ s ++ b → a ≡ b
append_cancel [] a b e = e
append_cancel (c ∷ s) a b e = append_cancel s a b (cc)

cons_cancel : {c : ℕ} {a b : Text} → ◌≡◌ {A = Text} (c ∷ a) (c ∷ b) → a ≡ b
cons_cancel e = cc

module _ (env : Env) (config : AppConfig)
    (insert : env.Cache → Disk → Text → Text → Inserting env.Cache) (clients : ℕ → Client)
    (move : IsMove env config.cache_folder insert) where
  module _ (apart : AreApart env config.cache_folder)
      (distinct : (k j : ℕ) → (clients k).name ≡ (clients j).name → k ≡ j) where
    step-Inv :
        (j : ℕ) (s : Saves env.Cache)
        → Inv env config insert clients move s
        → Inv env config insert clients move (step env config insert clients j s)
    unfolding join
    step-Inv j s inv =
        let st = step-Stepped env config insert clients move j s inv in
        record { sound = st.still_sound; fine = fine (step env config insert clients j s) st }
      where
        fine :
            (t : Saves env.Cache)
            → Stepped env config insert clients move j s t
            → (k : ℕ) → Fine env config insert clients move k (t.phases k) t.disk
        fine t st k = elim (Bool-cases (k == j)) [
          | inl e ↦
              let same = (==_iff k j).0 e in
              subst (λ i. Fine env config insert clients move i (t.phases i) t.disk) (sym same)
                (subst (λ x. Fine env config insert clients move j x t.disk)
                  (sym (ap (λ f. f j) st.phases ∙ phase_at j st.phase s)) st.own)
          | inr e ↦
              let n : k ≢ j = λ same. let b = (==_iff k j).1 same in cc in
              subst (λ x. Fine env config insert clients move k x t.disk)
                (sym (ap (λ f. f k) st.phases ∙ phase_other j k st.phase s n))
                (Fine-other env config insert clients move k (s.phases k) s.disk t.disk
                  (st.keeps (path env config insert clients move k)
                    (λ h.
                      n (distinct k j (cons_cancel (append_cancel env.tmp_download_root _ _ h))))
                    (λ m h. apart (clients k).name m (sym h)))
                  (st.evicts (clients k).name (λ h. n (distinct k j h))
                    (apart (clients j).name (clients k).name))
                  (inv.fine k))
        ]

    run-Inv :
        (ks : List ℕ) (s : Saves env.Cache)
        → Inv env config insert clients move s
        → Inv env config insert clients move (run env config insert clients ks s)
    unfolding run
    run-Inv [] s inv = inv
    run-Inv (k ∷ ks) s inv = run-Inv ks _ (step-Inv k s inv)

    -- In any order of the steps of clients that `PUT` files of different names, each client that
    -- has stored its file has stored it whole: the cache folder has all bytes of its body, or the
    -- file no longer, if the cache has removed it to make room; never a part of it, whatever the
    -- others have done meanwhile. At the start no client has done anything and no inode stands at
    -- two paths; no file of the temporary folder is one of the cache folder, and the cache moves a
    -- file that it accepts to its name, and of other files may only remove those of its folder.
    pub run_keeps :
        (ks : List ℕ) (k : ℕ) (s : Saves env.Cache) (name : Text)
        → IsSound s.disk
        → ((i : ℕ) → s.phases i ≡ waiting)
        → let t = run env config insert clients ks s in
          t.phases k ≡ finished (done (some name))
          → let kept = view t.disk (cached env config insert clients move k) in
            (kept ≡ file (whole env config insert clients move k)) ⊎ (kept ≡ absent)
    unfolding view
    run_keeps ks k s name sound start e =
        let t = run env config insert clients ks s in
        let inv = run-Inv ks s (record {
          sound = sound;
          fine =
              λ i. subst (λ x. Fine env config insert clients move i x s.disk) (sym (start i)) tt;
        }) in
        let f : Fine env config insert clients move k (finished (done (some name))) t.disk =
          subst (λ x. Fine env config insert clients move k x t.disk) e (inv.fine k) in
        elim f [ inl gone ↦ inr (rw gone refl) | inr (i, o, w) ↦ inl (rw o (ap file w)) ]
