-- ===== src/Sessions/Receiving.antt =====
-- src/net/downloader.rs: the chunks of one client's body, with no other client between them.
use mathlib.Core.List.{append_assoc, append-nil}
use local_cache_proxy.Base.{
  ◌≡◌, ◌≢◌, refl, ap, sym, subst, ◌∙◌, ℕ, zero, suc, true, List, [], ◌∷◌, ◌++◌, arith, length,
  length-append, ◌==◌, ==_iff, Bool-cases, inl, inr,
}
use local_cache_proxy.Base.Text.{Text}
use local_cache_proxy.Config.{AppConfig}
use local_cache_proxy.Downloader.{creates, body_bytes}
use local_cache_proxy.Sessions.{
  Handle, Disk, view, write_all, create, Client, Phase, waiting, receiving, Saves, Inserting,
  to_phase, chunk_of, begin, step_from, step, run,
}
use local_cache_proxy.Sessions.Files.{
  IsSound, IsOpen, view-write_all, write_all_content, write_all-IsSound, write_twice,
  create-Created,
}
use local_cache_proxy.World.{Env, BodyPoll}
use local_cache_proxy.World.Disk.{Bytes, file, write, join}

pub phase_at : {C : Type 0} (k : ℕ) (x : Phase) (s : Saves C) → (to_phase k x s).phases k ≡ x
phase_at k x s = rw ((==_iff k k).1 refl) refl

pub phase_other :
    {C : Type 0} (k j : ℕ) (x : Phase) (s : Saves C)
    → j ≢ k
    → (to_phase k x s).phases j ≡ s.phases j
phase_other k j x s n = elim (Bool-cases (j == k)) [
  | inl e ↦ absurd (n ((==_iff j k).0 e))
  | inr e ↦ rw e refl
]

-- Some steps of one client.
abbrev pub times : ℕ → ℕ → List ℕ
times zero k = []
times (suc n) k = k ∷ times n k

-- A client has its file open, whose bytes are these; all else is as it was.
pub record Received {C : Type 0} (k : ℕ) (path : Text) (left : List BodyPoll) (b : Bytes)
    (s t : Saves C) : Type 0 where
  pub handle : Handle
  pub phase : t.phases k ≡ receiving handle left
  pub sound : IsSound t.disk
  pub opened : IsOpen path handle t.disk
  pub at_end : handle.offset ≡ length (t.disk.contents handle.inode)
  pub content : t.disk.contents handle.inode ≡ b
  pub files : view t.disk ≡ write (view s.disk) path (file b)
  pub cache : t.lru_cache ≡ s.lru_cache
  pub lock : t.poisoned ≡ s.poisoned
  pub others : (j : ℕ) → j ≢ k → t.phases j ≡ s.phases j

module _ (env : Env) (config : AppConfig)
    (insert : env.Cache → Disk → Text → Text → Inserting env.Cache) (clients : ℕ → Client) where
  pub run-append :
      (xs ys : List ℕ) (s : Saves env.Cache)
      → run env config insert clients (xs ++ ys) s
        ≡ run env config insert clients ys (run env config insert clients xs s)
  unfolding run
  run-append [] ys s = refl
  run-append (x ∷ xs) ys s = run-append xs ys (step env config insert clients x s)

module _ (env : Env) (config : AppConfig)
    (insert : env.Cache → Disk → Text → Text → Inserting env.Cache) (clients : ℕ → Client)
    (k : ℕ) where
  receive_one :
      (path : Text) (p : BodyPoll) (ps : List BodyPoll) (b : Bytes) (s t : Saves env.Cache)
      → Received k path (p ∷ ps) b s t
      → Received k path ps (b ++ chunk_of p) s (step env config insert clients k t)
  unfolding step step_from write_all
  receive_one path p ps b s t r =
      let x = write_all r.handle (chunk_of p) t.disk in
      let c = write_all_content t.disk r.handle (chunk_of p) r.at_end in
      rw (r.phase) (record {
        handle = x.0;
        phase = phase_at k (receiving x.0 ps) (record t { disk = x.1 });
        sound = write_all-IsSound t.disk r.handle (chunk_of p) r.sound;
        opened = r.opened;
        at_end = omega (
          arith,
          r.at_end,
          ap length c,
          length-append (t.disk.contents r.handle.inode) (chunk_of p),
        );
        content = c ∙ ap (λ y. y ++ chunk_of p) r.content;
        files =
            view-write_all t.disk path r.handle (chunk_of p) r.sound r.opened r.at_end
            ∙ ap (λ v. write v path (file (t.disk.contents r.handle.inode ++ chunk_of p))) r.files
            ∙ write_twice (view s.disk) path _ _
            ∙ ap (λ y. write (view s.disk) path (file (y ++ chunk_of p))) r.content;
        cache = r.cache;
        lock = r.lock;
        others =
            λ j n. phase_other k j (receiving x.0 ps) (record t { disk = x.1 }) n ∙ r.others j n;
      })

  receive_times :
      (path : Text) (ps : List BodyPoll) (b : Bytes) (s t : Saves env.Cache)
      → Received k path ps b s t
      → Received k path []
          (b ++ body_bytes ps)
          s
          (run env config insert clients (times (length ps) k) t)
  unfolding run
  receive_times path [] b s t r = subst (λ y. Received k path [] y s t) (sym (append-nil b)) r
  receive_times path (p ∷ ps) b s t r =
      subst
        (λ y. Received k path [] y s (
          run env config insert clients (times (length ps) k) (step env config insert clients k t)))
        (append_assoc b (chunk_of p) (body_bytes ps))
        (receive_times path ps (b ++ chunk_of p) s (step env config insert clients k t)
          (receive_one path p ps b s t r))

  -- The client starts with its file made, or emptied.
  begin-Received :
      (s : Saves env.Cache)
      → let c = clients k in
        let path = join env.tmp_download_root c.name in
        s.phases k ≡ waiting
        → creates (env.can_create path) (view s.disk path) ≡ true
        → IsSound s.disk
        → Received k path c.body.polls [] s (step env config insert clients k s)
  unfolding step step_from begin
  begin-Received s w o sound =
      let path = join env.tmp_download_root (clients k).name in
      let x = create path s.disk in
      let made = create-Created s.disk path sound in
      let ph = receiving x.0 (clients k).body.polls in
      rw w (
        rw o (record {
          handle = x.0;
          phase = phase_at k ph (record s { disk = x.1 });
          sound = made.sound;
          opened = made.opened;
          at_end = made.at_start ∙ sym (ap length made.empty);
          content = made.empty;
          files = made.files;
          cache = refl;
          lock = refl;
          others = λ j n. phase_other k j ph (record s { disk = x.1 }) n;
        }))

  -- The client has received its whole body.
  pub all-Received :
      (s : Saves env.Cache)
      → let c = clients k in
        let path = join env.tmp_download_root c.name in
        s.phases k ≡ waiting
        → creates (env.can_create path) (view s.disk path) ≡ true
        → IsSound s.disk
        → Received k path []
            (body_bytes c.body.polls)
            s
            (run env config insert clients (times (suc (length c.body.polls)) k) s)
  unfolding run
  all-Received s w o sound =
      receive_times (join env.tmp_download_root (clients k).name) (clients k).body.polls [] s _
        (begin-Received s w o sound)
