-- ===== src/Sessions/Fine.antt =====
-- src/net/downloader.rs: what one step does for the client that makes it, and for the others.
use mathlib.Core.Path.{fun_ext}
use mathlib.Core.List.{append_assoc, append-nil}
use local_cache_proxy.Base.{
  ◌≡◌, ◌≢◌, ◌⊎◌, refl, ap, sym, ◌∙◌, ℕ, Bool, true, false, none, some, List, [], ◌∷◌, ◌++◌, length,
  length-append, Bool-cases, inl, inr, ◌==◌, ==_iff, arith, if◌then◌else◌,
}
use local_cache_proxy.Base.Result.{Result, ok, err}
use local_cache_proxy.Base.Text.{Text}
use local_cache_proxy.Config.{AppConfig}
use local_cache_proxy.Downloader.{creates, body_bytes}
use local_cache_proxy.Sessions.{
  Handle, Disk, view, create, write_all, Client, Phase, waiting, receiving, finished, Saves,
  Inserting, to_phase, chunk_of, begin, inserted, keep, end_of, step_from, step,
}
use local_cache_proxy.Sessions.Kept.{
  KeepsAt, KeepsAt-refl, StaysOrGoes, create-KeepsAt, write_all-KeepsAt, create-StaysOrGoes,
  write_all-StaysOrGoes,
}
use local_cache_proxy.Sessions.Files.{
  IsSound, IsOpen, create-Created, write_all_content, write_all-IsSound,
}
use local_cache_proxy.World.{Env, BodyPoll, Ending, complete, broken}
use local_cache_proxy.World.Disk.{Bytes, join, path_exists}
use local_cache_proxy.World.Step.{done, fail, panic}

module _ (env : Env) (folder : Text)
    (insert : env.Cache → Disk → Text → Text → Inserting env.Cache) where
  -- The cache moves the file that it is given to the name. It may remove other files of its folder,
  -- and touches none outside it.
  pub record IsMove : Type 0 where
    pub sound :
        (c : env.Cache) (d : Disk) (name path : Text)
        → IsSound d
        → IsSound (insert c d name path).disk
    pub keeps :
        (c : env.Cache) (d : Disk) (name path q : Text)
        → q ≢ path
        → ((n : Text) → q ≢ join folder n)
        → KeepsAt d (insert c d name path).disk q
    pub evicts :
        (c : env.Cache) (d : Disk) (name path n : Text)
        → n ≢ name
        → join folder n ≢ path
        → StaysOrGoes d (insert c d name path).disk (join folder n)
    pub moves :
        (c : env.Cache) (d : Disk) (name path : Text) (i : ℕ)
        → d.directory path ≡ some i
        → (insert c d name path).outcome ≡ ok tt
        → let d' = (insert c d name path).disk in
          (d'.directory (join folder name) ≡ some i) × (d'.contents i ≡ d.contents i)

module _ (env : Env) (config : AppConfig)
    (insert : env.Cache → Disk → Text → Text → Inserting env.Cache) (clients : ℕ → Client)
    (move : IsMove env config.cache_folder insert) where
  abbrev pub path : ℕ → Text
  path k = join env.tmp_download_root (clients k).name

  abbrev pub cached : ℕ → Text
  cached k = join config.cache_folder (clients k).name

  abbrev pub whole : ℕ → Bytes
  whole k = body_bytes (clients k).body.polls

  -- How the disk stands to what the client has done.
  abbrev pub Fine : ℕ → Phase → Disk → Type 0
  Fine k waiting d = Unit
  Fine k (receiving h left) d =
      IsOpen (path k) h d
      × (h.offset ≡ length (d.contents h.inode))
      × (d.contents h.inode ++ body_bytes left ≡ whole k)
  Fine k (finished (done (some n))) d =
      (d.directory (cached k) ≡ none)
      ⊎ ((i : ℕ) × (d.directory (cached k) ≡ some i) × (d.contents i ≡ whole k))
  Fine k (finished (done none)) d = Unit
  Fine k (finished (fail e)) d = Unit
  Fine k (finished panic) d = Unit

  pub Fine-other :
      (k : ℕ) (x : Phase) (d d' : Disk)
      → KeepsAt d d' (path k)
      → StaysOrGoes d d' (cached k)
      → Fine k x d
      → Fine k x d'
  Fine-other k waiting d d' p c f = tt
  Fine-other k (receiving h left) d d' p c (o, e, w) =
      let (o', same) = p h.inode o in
      (o', e ∙ sym (ap length same), ap (λ y. y ++ body_bytes left) same ∙ w)
  Fine-other k (finished (done (some n))) d d' p (inl gone) f = inl gone
  Fine-other k (finished (done (some n))) d d' p (inr (same, c)) (inl none_there) =
      inl (same ∙ none_there)
  Fine-other k (finished (done (some n))) d d' p (inr (at, c)) (inr (i, o, w)) =
      let (o', same) = c i o in inr (i, o', same ∙ w)
  Fine-other k (finished (done none)) d d' p c f = tt
  Fine-other k (finished (fail e)) d d' p c f = tt
  Fine-other k (finished panic) d d' p c f = tt

  pub record Inv (s : Saves env.Cache) : Type 0 where
    pub sound : IsSound s.disk
    pub fine : (k : ℕ) → Fine k (s.phases k) s.disk

  -- What a step of the client `j` does: it is fine after it, and of the files of others it touches
  -- those of the cache folder only, which it may remove.
  pub record Stepped (j : ℕ) (s t : Saves env.Cache) : Type 0 where
    pub still_sound : IsSound t.disk
    pub phase : Phase
    pub own : Fine j phase t.disk
    pub keeps :
        (q : Text)
        → q ≢ path j
        → ((n : Text) → q ≢ join config.cache_folder n)
        → KeepsAt s.disk t.disk q
    pub evicts :
        (n : Text)
        → n ≢ (clients j).name
        → join config.cache_folder n ≢ path j
        → StaysOrGoes s.disk t.disk (join config.cache_folder n)
    pub phases : t.phases ≡ (to_phase j phase s).phases

  -- A step that ends the client's `PUT` without a file.
  stopped-Stepped :
      (j : ℕ) (x : Phase) (s : Saves env.Cache)
      → Inv s
      → Fine j x s.disk
      → Stepped j s (to_phase j x s)
  stopped-Stepped j x s inv f = record {
    still_sound = inv.sound;
    phase = x;
    own = f;
    keeps = λ q _ _. KeepsAt-refl s.disk q;
    evicts = λ n _ _. inr (refl, KeepsAt-refl s.disk _);
    phases = refl;
  }

  if-Stepped :
      (j : ℕ) (s t u : Saves env.Cache) (c : Bool)
      → (c ≡ true → Stepped j s t)
      → (c ≡ false → Stepped j s u)
      → Stepped j s (if c then t else u)
  if-Stepped j s t u true h g = h refl
  if-Stepped j s t u false h g = g refl

  begin-Stepped :
      (j : ℕ) (s : Saves env.Cache) → Inv s → Stepped j s (begin env config insert clients j s)
  unfolding begin
  begin-Stepped j s inv =
      let x = create (path j) s.disk in
      let made = create-Created s.disk (path j) inv.sound in
      if-Stepped j s _ _ (creates (env.can_create (path j)) (view s.disk (path j)))
        (λ _. record {
          still_sound = made.sound;
          phase = receiving x.0 (clients j).body.polls;
          own = (
            made.opened,
            made.at_start ∙ sym (ap length made.empty),
            ap (λ y. y ++ whole j) made.empty,
          );
          keeps = λ q n _. create-KeepsAt s.disk (path j) q inv.sound n;
          evicts = λ n _ m. create-StaysOrGoes s.disk (path j) _ inv.sound m;
          phases = refl;
        })
        (λ _. stopped-Stepped j (finished panic) s inv tt)

  chunk-Stepped :
      (j : ℕ) (h : Handle) (p : BodyPoll) (ps : List BodyPoll) (s : Saves env.Cache)
      → Inv s
      → Fine j (receiving h (p ∷ ps)) s.disk
      → Stepped j s (step_from env config insert clients j (receiving h (p ∷ ps)) s)
  unfolding step_from write_all
  chunk-Stepped j h p ps s inv (o, e, w) =
      let c = write_all_content s.disk h (chunk_of p) e in
      record {
        still_sound = write_all-IsSound s.disk h (chunk_of p) inv.sound;
        phase = receiving (write_all h (chunk_of p) s.disk).0 ps;
        own = (
          o,
          omega (arith, e, ap length c, length-append (s.disk.contents h.inode) (chunk_of p)),
          ap (λ y. y ++ body_bytes ps) c
              ∙ append_assoc (s.disk.contents h.inode) (chunk_of p) (body_bytes ps)
              ∙ w,
        );
        keeps = λ q n _. write_all-KeepsAt s.disk (path j) q h (chunk_of p) inv.sound o n;
        evicts = λ n _ m. write_all-StaysOrGoes s.disk (path j) _ h (chunk_of p) inv.sound o m;
        phases = refl;
      }

  inserted-Stepped :
      (j : ℕ) (h : Handle) (o : Result Text (Unit {0})) (s : Saves env.Cache)
      → Inv s
      → Fine j (receiving h []) s.disk
      → let i = insert s.lru_cache s.disk (clients j).name (path j) in
        i.outcome ≡ o → Stepped j s (inserted env config insert clients j o i s)
  unfolding inserted
  inserted-Stepped j h (ok tt) s inv (p, e, w) a =
      let (q, same) = move.moves s.lru_cache s.disk (clients j).name (path j) h.inode p a in
      record {
        still_sound = move.sound s.lru_cache s.disk (clients j).name (path j) inv.sound;
        phase = finished (done (some (clients j).name));
        own = inr (h.inode, q, same ∙ sym (append-nil (s.disk.contents h.inode)) ∙ w);
        keeps = move.keeps s.lru_cache s.disk (clients j).name (path j);
        evicts = move.evicts s.lru_cache s.disk (clients j).name (path j);
        phases = refl;
      }
  inserted-Stepped j h (err d) s inv f a = record {
    still_sound = move.sound s.lru_cache s.disk (clients j).name (path j) inv.sound;
    phase = finished panic;
    own = tt;
    keeps = move.keeps s.lru_cache s.disk (clients j).name (path j);
    evicts = move.evicts s.lru_cache s.disk (clients j).name (path j);
    phases = refl;
  }

  end-Stepped :
      (j : ℕ) (h : Handle) (e : Ending) (s : Saves env.Cache)
      → Inv s
      → Fine j (receiving h []) s.disk
      → Stepped j s (end_of env config insert clients j e s)
  unfolding end_of keep
  end-Stepped j h complete s inv f =
      if-Stepped j s _ _ s.poisoned (λ _. stopped-Stepped j (finished panic) s inv tt)
        (λ _.
          if-Stepped j s _ _ (path_exists (view s.disk) (cached j))
            (λ _. stopped-Stepped j (finished (done none)) s inv tt)
            (λ _. inserted-Stepped j h _ s inv f refl))
  end-Stepped j h (broken e) s inv f = stopped-Stepped j (finished (fail e)) s inv tt

  step_from-Stepped :
      (j : ℕ) (x : Phase) (s : Saves env.Cache)
      → Inv s
      → s.phases j ≡ x
      → Fine j x s.disk
      → Stepped j s (step_from env config insert clients j x s)
  unfolding step_from
  step_from-Stepped j waiting s inv e f = begin-Stepped j s inv
  step_from-Stepped j (receiving h (p ∷ ps)) s inv e f = chunk-Stepped j h p ps s inv f
  step_from-Stepped j (receiving h []) s inv e f = end-Stepped j h (clients j).body.ending s inv f
  step_from-Stepped j (finished o) s inv e f = record {
    still_sound = inv.sound;
    phase = finished o;
    own = f;
    keeps = λ q _ _. KeepsAt-refl s.disk q;
    evicts = λ n _ _. inr (refl, KeepsAt-refl s.disk _);
    phases = fun_ext (λ i. at i);
  }
    where
      at : (i : ℕ) → s.phases i ≡ (to_phase j (finished o) s).phases i
      at i = elim (Bool-cases (i == j)) [
        | inl k ↦ rw k (ap s.phases ((==_iff i j).0 k) ∙ e)
        | inr k ↦ rw k refl
      ]

  pub step-Stepped :
      (j : ℕ) (s : Saves env.Cache) → Inv s → Stepped j s (step env config insert clients j s)
  unfolding step
  step-Stepped j s inv = step_from-Stepped j (s.phases j) s inv refl (inv.fine j)
