-- ===== src/Tests/Together.antt =====
-- Several clients at once, on a disk whose cache moves files or is full.
use local_cache_proxy.Sessions.{write_all}
use local_cache_proxy.World.Disk.{path_exists}
use local_cache_proxy.Sessions.{create}
use local_cache_proxy.Sessions.{step}
use mathlib.Core.Path.{fun_ext}
use local_cache_proxy.Base.{
  ◌≡◌, ◌≢◌, refl, sym, ◌∙◌, ◌⊎◌, inl, inr, ℕ, ◌<◌, none, some, Bool, true, false, List, [], ◌∷◌,
  arith, Bool-cases, if◌then◌else◌,
}
use local_cache_proxy.Base.Result.{ok, err}
use local_cache_proxy.Base.Text.{Text, codes, text_eq, text_eq_iff}
use local_cache_proxy.Downloader.{save_file}
use local_cache_proxy.Downloader.Kept.{AreApart}
use local_cache_proxy.Sessions.{Disk, Client, waiting, finished, Saves, Inserting, view, run}
use local_cache_proxy.Sessions.Alone.{IsInsert, Ends, world_of, all_steps, save_file-run}
use local_cache_proxy.Sessions.Apart.{run_keeps}
use local_cache_proxy.Sessions.Fine.{IsMove, cached}
use local_cache_proxy.Sessions.Kept.{KeepsAt}
use local_cache_proxy.Sessions.Files.{IsSound}
use local_cache_proxy.Sessions.Race
use local_cache_proxy.Sessions.Race.{crossed, crossed_lost}
use local_cache_proxy.Tests.Fixtures.{
  env_of, config, folder, move_in-Inserts, world_with, no_files, abc, whole_body, found_reply,
}
use local_cache_proxy.World.{Env}
use local_cache_proxy.World.Disk.{absent, file, join, write}
use local_cache_proxy.World.Step.{done}

abbrev env : Env
env = env_of found_reply

-- The inode at the path goes to the name, and the files that have to go are removed.
abbrev moved : (Text → Bool) → Disk → Text → Text → Disk
moved goes d name path = record d {
  directory = λ q.
      if text_eq q (join folder name)
      then d.directory path
      else if text_eq q path
      then none
      else if goes q
      then none
      else d.directory q;
}

-- Nothing has to go.
abbrev stays : Text → Bool
stays q = false

abbrev insert : Bool → Disk → Text → Text → Inserting Bool
insert true d name path = record { outcome = err (codes "full"); cache = true; disk = d }
insert false d name path = record { outcome = ok tt; cache = false; disk = moved stays d name path }

insert-IsInsert : IsInsert env insert
unfolding view write
insert-IsInsert true d name path = refl
insert-IsInsert false d name path =
    λ i. record { outcome = ok tt; cache = false; files = fun_ext same i }
  where
    same :
        (q : Text)
        → write (write (view d) path absent) (join folder name) (view d path) q
          ≡ view (moved stays d name path) q
    same q = elim (Bool-cases (text_eq q (join folder name))) [
      | inl e ↦ rw e refl
      | inr e ↦ elim (Bool-cases (text_eq q path)) [
        | inl f ↦ rw (e, f) refl
        | inr f ↦ rw (e, f) refl
      ]
    ]

-- Where an inode has been before the move.
Source : Disk → Text → Text → Text → ℕ → Type 0
Source d name path q i =
    ((q ≡ join folder name) × (d.directory path ≡ some i)) ⊎ ((q ≢ path) × (d.directory q ≡ some i))

source :
    (goes : Text → Bool) (d : Disk) (name path q : Text) (i : ℕ)
    → (moved goes d name path).directory q ≡ some i
    → Source d name path q i
unfolding Source
source goes d name path q i e = elim (Bool-cases (text_eq q (join folder name))) [
  | inl t ↦ inl ((text_eq_iff q _).0 t, rw t at e)
  | inr t ↦ elim (Bool-cases (text_eq q path)) [
    | inl u ↦ absurd (ground (arith, e))
    | inr u ↦ elim (Bool-cases (goes q)) [
      | inl g ↦ absurd (ground (arith, e))
      | inr g ↦ inr ((λ h. let b = (text_eq_iff q path).1 h in cc), rw (t, u, g) at e)
    ]
  ]
]

moved-IsSound :
    (goes : Text → Bool) (d : Disk) (name path : Text)
    → IsSound d
    → IsSound (moved goes d name path)
unfolding Source
moved-IsSound goes d name path s = record {
  single = λ p q i e f. both p q i (source goes d name path p i e) (source goes d name path q i f);
  used = λ p i e. below p i (source goes d name path p i e);
}
  where
    both : (p q : Text) (i : ℕ) → Source d name path p i → Source d name path q i → p ≡ q
    both p q i (inl (a, e)) (inl (b, f)) = a ∙ sym b
    both p q i (inl (a, e)) (inr (n, f)) = absurd (n (s.single q path i f e))
    both p q i (inr (n, e)) (inl (b, f)) = absurd (n (s.single p path i e f))
    both p q i (inr (n, e)) (inr (m, f)) = s.single p q i e f

    below : (p : Text) (i : ℕ) → Source d name path p i → i < d.free
    below p i (inl (a, e)) = s.used path i e
    below p i (inr (n, e)) = s.used p i e

-- The cache removes the file of the client 0 to make room for another.
abbrev first : Text
first = join folder (0 ∷ [])

abbrev insert_full : Bool → Disk → Text → Text → Inserting Bool
insert_full c d name path = record {
  outcome = ok tt;
  cache = c;
  disk = moved (λ q. text_eq q first) d name path;
}

moved-StaysOrGoes :
    (goes : Text → Bool) (d : Disk) (name path q : Text)
    → q ≢ path
    → q ≢ join folder name
    → ((goes q ≡ true) × ((moved goes d name path).directory q ≡ none))
      ⊎ (((moved goes d name path).directory q ≡ d.directory q)
          × KeepsAt d (moved goes d name path) q)
moved-StaysOrGoes goes d name path q n m = elim (Bool-cases (text_eq q (join folder name))) [
  | inl t ↦ absurd (m ((text_eq_iff q _).0 t))
  | inr t ↦ elim (Bool-cases (text_eq q path)) [
    | inl u ↦ absurd (n ((text_eq_iff q _).0 u))
    | inr u ↦ elim (Bool-cases (goes q)) [
      | inl g ↦ inl (g, rw (t, u, g) refl)
      | inr g ↦ inr (rw (t, u, g) refl, λ i e. (rw (t, u, g) e, refl))
    ]
  ]
]

join_injective : (a b : Text) → join folder a ≡ join folder b → a ≡ b
unfolding join
join_injective a b h = cc

insert_full-IsMove : IsMove env folder insert_full
insert_full-IsMove = record {
  sound = λ c d name path s. moved-IsSound (λ q. text_eq q first) d name path s;
  keeps = λ c d name path q n out.
      elim (moved-StaysOrGoes (λ q. text_eq q first) d name path q n (out name)) [
        | inl (g, _) ↦ absurd (out (0 ∷ []) ((text_eq_iff q first).0 g))
        | inr (_, k) ↦ k
      ];
  evicts = λ c d name path n m other.
      elim (moved-StaysOrGoes (λ q. text_eq q first) d name path (join folder n) other
        (λ h. m (join_injective n name h))) [ inl (_, gone) ↦ inl gone | inr k ↦ inr k ];
  moves = λ c d name path i e o.
      let t = (text_eq_iff (join folder name) (join folder name)).1 refl in (rw t e, refl);
}

abbrev empty_disk : Disk
empty_disk = record { contents = λ _. []; directory = λ _. none; free = 0 }

empty_disk-IsSound : IsSound empty_disk
empty_disk-IsSound = record { single = λ p q i e f. absurd (cc); used = λ p i e. absurd (cc) }

abbrev start : Saves Bool
start = record { disk = empty_disk; lru_cache = false; poisoned = false; phases = λ _. waiting }

-- Each client puts the same bytes under one name.
abbrev same_name : ℕ → Client
same_name _ = record { name = codes "ac__12"; body = whole_body }

save_file-run_example :
    Ends env config insert same_name 0 insert-IsInsert
      (world_with false no_files)
      (save_file env config
        (codes "ac__12")
        whole_body
        (world_of env config insert same_name 0 insert-IsInsert (world_with false no_files) start))
      (run env config insert same_name
        (all_steps env config insert same_name 0 insert-IsInsert (world_with false no_files))
        start)
save_file-run_example =
    save_file-run env config insert same_name 0 insert-IsInsert (world_with false no_files) start
      refl empty_disk-IsSound

race_apart :
    Race.cached env config insert same_name insert-IsInsert (move_in-Inserts found_reply) 0 1
    ≢ Race.path env config insert same_name insert-IsInsert (move_in-Inserts found_reply) 0 1
unfolding join
race_apart h = cc

crossed_lost_example :
    let t =
      run env config insert same_name
        (crossed env config insert same_name insert-IsInsert (move_in-Inserts found_reply) 0 1)
        start in
    (t.phases 0 ≡ finished (done (some (codes "ac__12"))))
    × (view t.disk (codes "/c/ac__12") ≡ file [])
unfolding join view
crossed_lost_example =
    crossed_lost env config insert same_name insert-IsInsert (move_in-Inserts found_reply) 0 1 start
      (λ h. cc) refl refl refl empty_disk-IsSound refl refl refl race_apart refl (λ d. refl)

-- Each client has a name of its own.
abbrev own_name : ℕ → Client
own_name k = record { name = k ∷ []; body = whole_body }

-- The two clients in turns.
abbrev in_turns : List ℕ
in_turns = 0 ∷ 1 ∷ 1 ∷ 0 ∷ 0 ∷ 1 ∷ []

apart : AreApart env folder
unfolding join text_eq
apart a b h =
    let e : text_eq (join folder b) (join (codes "/tmp") a) ≡ true = (text_eq_iff _ _).1 h in
    absurd (cc)

distinct : (k j : ℕ) → (own_name k).name ≡ (own_name j).name → k ≡ j
distinct k j h = cc

done_in_turns :
    (run env config insert_full own_name in_turns start).phases 0 ≡ finished (done (some (0 ∷ [])))
unfolding run step view create text_eq join path_exists write_all
done_in_turns = refl

run_keeps_example :
    let kept =
      view
        (run env config insert_full own_name in_turns start).disk
        (cached env config insert_full own_name insert_full-IsMove 0) in
    (kept ≡ file abc) ⊎ (kept ≡ absent)
run_keeps_example =
    run_keeps env config insert_full own_name insert_full-IsMove apart distinct in_turns 0 start
      (0 ∷ []) empty_disk-IsSound (λ i. refl) done_in_turns

-- The other client's file has taken its place.
removed : view (run env config insert_full own_name in_turns start).disk first ≡ absent
unfolding run step view create text_eq join path_exists write_all
removed = refl
