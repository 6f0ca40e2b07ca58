-- ===== src/ActionCache/Gates.antt =====
-- src/net/process_action_cache.rs: the files that the processing of an action result makes.
use local_cache_proxy.Base.{
  ◌≡◌, refl, ◌⊎◌, inl, inr, Option, none, some, List, [], ◌∷◌, arith, Bool-cases,
}
use local_cache_proxy.Base.Text.{Text, text_eq, text_eq_iff}
use local_cache_proxy.Message.ActionResult.{ActionResult}
use local_cache_proxy.Message.Digest.{Digest}
use local_cache_proxy.Message.OutputFile.{OutputFile}
use local_cache_proxy.World.{Env, World}
use local_cache_proxy.World.Disk.{
  Bytes, Files, FileState, absent, file, denied, unreadable, write, join, write_self,
}
use local_cache_proxy.World.Step.{Out, done, fail, panic, Act, and_then_from}
use local_cache_proxy.ActionCache.{enable_name, touch_state, enable, enable_outputs, enable_all}

-- The path of a gate.
abbrev pub IsGate : Text → Text → Type 0
IsGate folder q = (hash : Text) × (q ≡ join folder (enable_name hash))

-- Empty files have appeared at gates where there was none, and nothing else has changed.
abbrev pub Grown : {C : Type 0} → Text → World C → World C → Type 0
Grown folder w w' =
    (w' ≡ record w { files = w'.files })
    × ((q : Text)
        → (w'.files q ≡ w.files q)
          ⊎ (IsGate folder q × (w.files q ≡ absent) × (w'.files q ≡ file [])))

abbrev pub IsPresent : Files → Text → Type 0
IsPresent files q = (b : Bytes) × (files q ≡ file b)

module _ {C : Type 0} (folder : Text) where
  pub Grown-refl : (w : World C) → Grown folder w w
  Grown-refl w = (refl, λ q. inl refl)

  pub Grown-trans : (u v w : World C) → Grown folder u v → Grown folder v w → Grown folder u w
  Grown-trans u v w (e, g) (f, h) = (ground arith, λ q. ground (arith, g q, h q))

  pub Grown-IsPresent :
      (u v : World C) (q : Text) → Grown folder u v → IsPresent u.files q → IsPresent v.files q
  Grown-IsPresent u v q (e, g) (b, p) = (b, ground (arith, g q))

module _ (env : Env) (folder : Text) where
  created-Grown :
      (hash : Text) (w : World env.Cache)
      → let path = join folder (enable_name hash) in
        w.files path ≡ absent → Grown folder w (record w { files = write w.files path (file []) })
  unfolding write
  created-Grown hash w h = (
    refl,
    λ q. elim (Bool-cases (text_eq q (join folder (enable_name hash)))) [
      | inl e ↦ let same = (text_eq_iff q _).0 e in inr ((hash, same), rw same h, rw e)
      | inr e ↦ inl (rw e)
    ],
  )

  touch_state-Grown :
      (st : FileState) (hash : Text) (w : World env.Cache)
      → w.files (join folder (enable_name hash)) ≡ st
      → Grown folder w (touch_state env st (join folder (enable_name hash)) w).1
  unfolding touch_state
  touch_state-Grown absent hash w h =
      elim (Bool-cases (env.can_create (join folder (enable_name hash)))) [
        | inl e ↦ rw e (created-Grown hash w h)
        | inr e ↦ rw e (Grown-refl folder w)
      ]
  touch_state-Grown _ hash w h = Grown-refl folder w

  touch_state-IsPresent :
      (st : FileState) (path : Text) (w : World env.Cache)
      → w.files path ≡ st
      → (touch_state env st path w).0 ≡ done tt
      → IsPresent (touch_state env st path w).1.files path
  unfolding touch_state
  touch_state-IsPresent absent path w h e = elim (Bool-cases (env.can_create path)) [
    | inl c ↦ ([], rw c (write_self w.files path (file [])))
    | inr c ↦ absurd (ground arith)
  ]
  touch_state-IsPresent (file b) path w h e = (b, h)
  touch_state-IsPresent denied path w h e = absurd (cc)
  touch_state-IsPresent unreadable path w h e = absurd (cc)

  -- The blob that a digest names.
  abbrev pub Opened : Option (Digest env.wire) → Files → Type 0
  Opened none files = Unit
  Opened (some h) files = IsPresent files (join folder (enable_name h.hash))

  abbrev pub AllOpened : List (OutputFile env.wire) → Files → Type 0
  AllOpened [] files = Unit
  AllOpened (f ∷ fs) files = Opened f.digest files × AllOpened fs files

  enable-Grown :
      (d : Option (Digest env.wire)) (w : World env.Cache)
      → Grown folder w (enable env folder d w).1
  unfolding enable
  enable-Grown none w = Grown-refl folder w
  enable-Grown (some h) w = touch_state-Grown _ h.hash w refl

  enable-Opened :
      (d : Option (Digest env.wire)) (w : World env.Cache)
      → (enable env folder d w).0 ≡ done tt
      → Opened d (enable env folder d w).1.files
  unfolding enable
  enable-Opened none w h = tt
  enable-Opened (some d) w h = touch_state-IsPresent _ _ w refl h

  Opened-Grown :
      (d : Option (Digest env.wire)) (v w : World env.Cache)
      → Grown folder v w
      → Opened d v.files
      → Opened d w.files
  Opened-Grown none v w g o = tt
  Opened-Grown (some h) v w g o = Grown-IsPresent folder v w _ g o

  AllOpened-Grown :
      (fs : List (OutputFile env.wire)) (v w : World env.Cache)
      → Grown folder v w
      → AllOpened fs v.files
      → AllOpened fs w.files
  AllOpened-Grown [] v w g o = tt
  AllOpened-Grown (f ∷ fs) v w g o = (Opened-Grown f.digest v w g o.0, AllOpened-Grown fs v w g o.1)

  -- Two steps in a row: the second runs if the first has succeeded.
  then-Grown :
      (x : Out Text (Unit {0}) × World env.Cache) (k : Act (World env.Cache) Text (Unit {0}))
      (w : World env.Cache)
      → Grown folder w x.1
      → ((v : World env.Cache) → Grown folder v (k v).1)
      → Grown folder w (and_then_from x (λ _. k)).1
  then-Grown (done a, v) k w g h = Grown-trans folder w v _ g (h v)
  then-Grown (fail e, v) k w g h = g
  then-Grown (panic, v) k w g h = g

  then-done :
      (x : Out Text (Unit {0}) × World env.Cache) (k : Act (World env.Cache) Text (Unit {0}))
      → (and_then_from x (λ _. k)).0 ≡ done tt
      → (x.0 ≡ done tt) × ((k x.1).0 ≡ done tt) × ((and_then_from x (λ _. k)).1 ≡ (k x.1).1)
  then-done (done tt, v) k h = (refl, h, refl)
  then-done (fail e, v) k h = absurd (cc)
  then-done (panic, v) k h = absurd (cc)

  enable_outputs-Grown :
      (fs : List (OutputFile env.wire)) (w : World env.Cache)
      → Grown folder w (enable_outputs env folder fs w).1
  unfolding enable_outputs
  enable_outputs-Grown [] w = Grown-refl folder w
  enable_outputs-Grown (f ∷ fs) w =
      then-Grown _ (enable_outputs env folder fs) w (enable-Grown f.digest w)
        (enable_outputs-Grown fs)

  enable_outputs-AllOpened :
      (fs : List (OutputFile env.wire)) (w : World env.Cache)
      → (enable_outputs env folder fs w).0 ≡ done tt
      → AllOpened fs (enable_outputs env folder fs w).1.files
  unfolding enable_outputs
  enable_outputs-AllOpened [] w h = tt
  enable_outputs-AllOpened (f ∷ fs) w h =
      let v = (enable env folder f.digest w).1 in
      let (d, ds, e) = then-done (enable env folder f.digest w) (enable_outputs env folder fs) h in
      rw e (
        Opened-Grown f.digest v _ (enable_outputs-Grown fs v) (enable-Opened f.digest w d),
        enable_outputs-AllOpened fs v ds,
      )

  -- Every blob that the action result names by a digest of an output file, of its standard output
  -- or of its standard error.
  abbrev pub ResultOpened : ActionResult env.wire → Files → Type 0
  ResultOpened s files =
      AllOpened s.output_files files × Opened s.stdout_digest files × Opened s.stderr_digest files

  digests : ActionResult env.wire → Act (World env.Cache) Text (Unit {0})
  digests s w =
      and_then_from (enable env folder s.stdout_digest w) (λ _. enable env folder s.stderr_digest)

  digests-Grown : (s : ActionResult env.wire) (w : World env.Cache) → Grown folder w (digests s w).1
  unfolding digests
  digests-Grown s w =
      then-Grown _ (enable env folder s.stderr_digest) w (enable-Grown s.stdout_digest w)
        (enable-Grown s.stderr_digest)

  enable_all-digests :
      (s : ActionResult env.wire) (w : World env.Cache)
      → enable_all env folder s w
        ≡ and_then_from (enable_outputs env folder s.output_files w) (λ _. digests s)
  unfolding enable_all digests
  enable_all-digests s w = refl

  pub enable_all-Grown :
      (s : ActionResult env.wire) (w : World env.Cache)
      → Grown folder w (enable_all env folder s w).1
  enable_all-Grown s w =
      rw (enable_all-digests s w)
        (then-Grown _ (digests s) w (enable_outputs-Grown s.output_files w) (digests-Grown s))

  digests-Opened :
      (s : ActionResult env.wire) (w : World env.Cache)
      → (digests s w).0 ≡ done tt
      → Opened s.stdout_digest (digests s w).1.files × Opened s.stderr_digest (digests s w).1.files
  unfolding digests
  digests-Opened s w h =
      let v = (enable env folder s.stdout_digest w).1 in
      let (d, d', e) =
        then-done (enable env folder s.stdout_digest w) (enable env folder s.stderr_digest) h in
      rw e (
        Opened-Grown s.stdout_digest v _ (enable-Grown s.stderr_digest v)
            (enable-Opened s.stdout_digest w d),
        enable-Opened s.stderr_digest v d',
      )

  pub enable_all-ResultOpened :
      (s : ActionResult env.wire) (w : World env.Cache)
      → (enable_all env folder s w).0 ≡ done tt
      → ResultOpened s (enable_all env folder s w).1.files
  enable_all-ResultOpened s w h =
      let v = (enable_outputs env folder s.output_files w).1 in
      let (d, d', e) =
        then-done (enable_outputs env folder s.output_files w) (digests s)
          (rw (enable_all-digests s w) at h) in
      let o = enable_outputs-AllOpened s.output_files w d in
      let p = digests-Opened s v d' in
      rw (enable_all-digests s w, e)
        (AllOpened-Grown s.output_files v _ (digests-Grown s v) o, p.0, p.1)
