-- ===== src/Sessions/Files.antt =====
-- src/net/downloader.rs: open files, seen as files by their paths.
use mathlib.Core.Path.{fun_ext}
use local_cache_proxy.Base.{
  ◌≡◌, refl, ap, sym, ◌∙◌, ℕ, suc, ◌<◌, Option, none, some, [], ◌∷◌, ◌++◌, arith, length, ◌==◌,
  ==_iff, if◌then◌else◌, Bool-cases, ◌⊎◌, inl, inr,
}
use local_cache_proxy.Base.Text.{Text, text_eq, text_eq_iff, text_eq_refl}
use local_cache_proxy.Sessions.{
  Handle, Disk, content_at, view, put_content, link, create_at, create, write_at, write_all,
}
use local_cache_proxy.World.Disk as Disks
use local_cache_proxy.World.Disk.{Bytes, FileState, absent, file, write}

-- No inode stands at two paths, and those that are free stand at none.
pub record IsSound (d : Disk) : Type 0 where
  pub single : (p q : Text) (i : ℕ) → d.directory p ≡ some i → d.directory q ≡ some i → p ≡ q
  pub used : (p : Text) (i : ℕ) → d.directory p ≡ some i → i < d.free

-- A handle that is open for the path.
abbrev pub IsOpen : Text → Handle → Disk → Type 0
IsOpen path h d = d.directory path ≡ some h.inode

content-put :
    (d : Disk) (path q : Text) (i : ℕ) (b : Bytes) (o : Option ℕ)
    → IsSound d
    → d.directory path ≡ some i
    → d.directory q ≡ o
    → content_at (put_content i b d) o ≡ (if text_eq q path then file b else content_at d o)
unfolding put_content
content-put d path q i b none s e f = elim (Bool-cases (text_eq q path)) [
  | inl t ↦ absurd (
      let same = (text_eq_iff q path).0 t in
      let g : d.directory path ≡ none = ap d.directory (sym same) ∙ f in cc)
  | inr t ↦ rw t refl
]
content-put d path q i b (some j) s e f = elim (Bool-cases (text_eq q path)) [
  | inl t ↦
      let same = (text_eq_iff q path).0 t in
      let g : d.directory path ≡ some j = ap d.directory (sym same) ∙ f in
      let k : j ≡ i = cc in rw (t, (==_iff j i).1 k) refl
  | inr t ↦ elim (Bool-cases (j == i)) [
    | inl k ↦ absurd (
        let l : d.directory q ≡ some i = f ∙ ap some ((==_iff j i).0 k) in
        let same = (text_eq_iff q path).1 (s.single q path i l e) in cc)
    | inr k ↦ rw (t, k) refl
  ]
]

pub view-put :
    (d : Disk) (path : Text) (i : ℕ) (b : Bytes)
    → IsSound d
    → d.directory path ≡ some i
    → view (put_content i b d) ≡ write (view d) path (file b)
unfolding view write put_content
view-put d path i b s e = fun_ext (λ q. content-put d path q i b (d.directory q) s e refl)

write_at_end : (old chunk : Bytes) → write_at old (length old) chunk ≡ old ++ chunk
write_at_end [] [] = refl
write_at_end [] (c ∷ cs) = refl
write_at_end (b ∷ old) chunk = ap (λ t. b ∷ t) (write_at_end old chunk)

-- A write at the end of an open file.
pub view-write_all :
    (d : Disk) (path : Text) (h : Handle) (chunk : Bytes)
    → IsSound d
    → IsOpen path h d
    → h.offset ≡ length (d.contents h.inode)
    → view (write_all h chunk d).1 ≡ write (view d) path (file (d.contents h.inode ++ chunk))
unfolding write_all
view-write_all d path h chunk s e o =
    view-put d path h.inode _ s e
    ∙ ap (λ t. write (view d) path (file t))
        (ap (λ n. write_at (d.contents h.inode) n chunk) o
          ∙ write_at_end (d.contents h.inode) chunk)

pub write_all_content :
    (d : Disk) (h : Handle) (chunk : Bytes)
    → h.offset ≡ length (d.contents h.inode)
    → (write_all h chunk d).1.contents h.inode ≡ d.contents h.inode ++ chunk
unfolding write_all put_content
write_all_content d h chunk o =
    rw ((==_iff h.inode h.inode).1 refl)
      (ap (λ n. write_at (d.contents h.inode) n chunk) o ∙ write_at_end (d.contents h.inode) chunk)

pub write_all-IsSound :
    (d : Disk) (h : Handle) (chunk : Bytes) → IsSound d → IsSound (write_all h chunk d).1
unfolding write_all put_content
write_all-IsSound d h chunk s = record { single = s.single; used = s.used }

pub write_twice :
    (f : Disks.Files) (path : Text) (a b : FileState)
    → write (write f path a) path b ≡ write f path b
unfolding write
write_twice f path a b = fun_ext (λ q. ground arith)

-- A file that has just been made, or emptied.
pub record Created (path : Text) (d : Disk) (x : Handle × Disk) : Type 0 where
  pub sound : IsSound x.1
  pub opened : IsOpen path x.0 x.1
  pub empty : x.1.contents x.0.inode ≡ []
  pub at_start : x.0.offset ≡ 0
  pub files : view x.1 ≡ write (view d) path (file [])

content-fresh :
    (d : Disk) (q : Text) (o : Option ℕ) (b : Bytes)
    → IsSound d
    → d.directory q ≡ o
    → content_at (put_content d.free b d) o ≡ content_at d o
unfolding put_content
content-fresh d q none b s e = refl
content-fresh d q (some j) b s e =
    let l = s.used q j e in
    elim (Bool-cases (j == d.free)) [ inl k ↦ absurd (ground arith) | inr k ↦ rw k refl ]

linked : (d : Disk) (path : Text) → Disk
linked d path = record (link path d.free (put_content d.free [] d)) { free = suc d.free }

linked-IsSound : (d : Disk) (path : Text) → IsSound d → IsSound (linked d path)
unfolding linked link put_content
linked-IsSound d path s = record {
  single = λ p q i. single p q i;
  used = λ p i e. elim (Bool-cases (text_eq p path)) [
    | inl t ↦ ground (arith, e, t)
    | inr t ↦ let l = s.used p i (rw t at e) in omega (arith, l)
  ];
}
  where
    at :
        (p : Text) (i : ℕ)
        → (linked d path).directory p ≡ some i
        → ((p ≡ path) × (i ≡ d.free)) ⊎ (d.directory p ≡ some i)
    at p i e = elim (Bool-cases (text_eq p path)) [
      | inl t ↦ inl ((text_eq_iff p path).0 t, ground (arith, e, t))
      | inr t ↦ inr (rw t at e)
    ]

    single :
        (p q : Text) (i : ℕ)
        → (linked d path).directory p ≡ some i
        → (linked d path).directory q ≡ some i
        → p ≡ q
    single p q i e f = elim (at p i e) [
      | inl (a, b) ↦ elim (at q i f) [
        | inl (c, g) ↦ a ∙ sym c
        | inr c ↦ absurd (let l = s.used q i c in omega (arith, b, l))
      ]
      | inr a ↦ elim (at q i f) [
        | inl (c, g) ↦ absurd (let l = s.used p i a in omega (arith, g, l))
        | inr c ↦ s.single p q i a c
      ]
    ]

create_at-Created :
    (d : Disk) (path : Text) (o : Option ℕ)
    → IsSound d
    → d.directory path ≡ o
    → Created path d (create_at o path d)
unfolding create_at put_content linked link view write
create_at-Created d path (some i) s e = record {
  sound = record { single = s.single; used = s.used };
  opened = e;
  empty = rw ((==_iff i i).1 refl) refl;
  at_start = refl;
  files = view-put d path i [] s e;
}
create_at-Created d path none s e = record {
  sound = linked-IsSound d path s;
  opened = linked_at;
  empty = rw ((==_iff d.free d.free).1 refl) refl;
  at_start = refl;
  files = fun_ext linked_view;
}
  where
    linked_at : (linked d path).directory path ≡ some d.free
    linked_at = rw (text_eq_refl path) refl

    linked_view : (q : Text) → view (linked d path) q ≡ write (view d) path (file []) q
    linked_view q = elim (Bool-cases (text_eq q path)) [
      | inl t ↦ rw t (rw ((==_iff d.free d.free).1 refl) refl)
      | inr t ↦ rw t (content-fresh d q (d.directory q) [] s refl)
    ]

pub create-Created : (d : Disk) (path : Text) → IsSound d → Created path d (create path d)
unfolding create
create-Created d path s = create_at-Created d path (d.directory path) s refl
