-- ===== src/Sessions/Kept.antt =====
-- src/net/downloader.rs: what the opening and the writing of a file leave alone.
use local_cache_proxy.Base.{
  ◌≡◌, ◌≢◌, ◌⊎◌, refl, ap, ◌∙◌, ℕ, Option, none, some, [], arith, ◌==◌, ==_iff, Bool-cases, inl,
  inr,
}
use local_cache_proxy.Base.Text.{Text, text_eq, text_eq_iff}
use local_cache_proxy.Sessions.{Handle, Disk, put_content, link, create_at, create, write_all}
use local_cache_proxy.World.Disk.{Bytes}
use local_cache_proxy.Sessions.Files.{IsSound, IsOpen}

-- What stands at the path stands there still, with the same bytes.
abbrev pub KeepsAt : Disk → Disk → Text → Type 0
KeepsAt d d' q =
    (i : ℕ) → d.directory q ≡ some i → (d'.directory q ≡ some i) × (d'.contents i ≡ d.contents i)

-- What stands at the path stands there still, with the same bytes, or it has been removed; and
-- nothing comes to a path at which there is nothing.
abbrev pub StaysOrGoes : Disk → Disk → Text → Type 0
StaysOrGoes d d' q = (d'.directory q ≡ none) ⊎ ((d'.directory q ≡ d.directory q) × KeepsAt d d' q)

pub KeepsAt-refl : (d : Disk) (q : Text) → KeepsAt d d q
KeepsAt-refl d q i e = (e, refl)

put_content-KeepsAt :
    (d : Disk) (path q : Text) (i : ℕ) (b : Bytes)
    → IsSound d
    → d.directory path ≡ some i
    → q ≢ path
    → KeepsAt d (put_content i b d) q
unfolding put_content
put_content-KeepsAt d path q i b s e n j f = elim (Bool-cases (j == i)) [
  | inl k ↦ absurd (n (s.single q path i (f ∙ ap some ((==_iff j i).0 k)) e))
  | inr k ↦ (f, rw k refl)
]

pub write_all-KeepsAt :
    (d : Disk) (path q : Text) (h : Handle) (chunk : Bytes)
    → IsSound d
    → IsOpen path h d
    → q ≢ path
    → KeepsAt d (write_all h chunk d).1 q
unfolding write_all
write_all-KeepsAt d path q h chunk s e n = put_content-KeepsAt d path q h.inode _ s e n

create_at-KeepsAt :
    (d : Disk) (path q : Text) (o : Option ℕ)
    → IsSound d
    → d.directory path ≡ o
    → q ≢ path
    → KeepsAt d (create_at o path d).1 q
unfolding create_at put_content link
create_at-KeepsAt d path q (some i) s e n j f = put_content-KeepsAt d path q i [] s e n j f
create_at-KeepsAt d path q none s e n j f =
    let l = s.used q j f in
    elim (Bool-cases (text_eq q path)) [
      | inl t ↦ absurd (n ((text_eq_iff q path).0 t))
      | inr t ↦ elim (Bool-cases (j == d.free)) [
        | inl k ↦ absurd (ground arith)
        | inr k ↦ (rw t f, rw k refl)
      ]
    ]

pub create-KeepsAt :
    (d : Disk) (path q : Text) → IsSound d → q ≢ path → KeepsAt d (create path d).1 q
unfolding create
create-KeepsAt d path q s n = create_at-KeepsAt d path q (d.directory path) s refl n

create_at_directory :
    (d : Disk) (path q : Text) (o : Option ℕ)
    → q ≢ path
    → (create_at o path d).1.directory q ≡ d.directory q
unfolding create_at put_content link
create_at_directory d path q (some i) n = refl
create_at_directory d path q none n = elim (Bool-cases (text_eq q path)) [
  | inl t ↦ absurd (n ((text_eq_iff q path).0 t))
  | inr t ↦ rw t refl
]

pub create-StaysOrGoes :
    (d : Disk) (path q : Text) → IsSound d → q ≢ path → StaysOrGoes d (create path d).1 q
unfolding create
create-StaysOrGoes d path q s n =
    inr (create_at_directory d path q (d.directory path) n, create-KeepsAt d path q s n)

pub write_all-StaysOrGoes :
    (d : Disk) (path q : Text) (h : Handle) (chunk : Bytes)
    → IsSound d
    → IsOpen path h d
    → q ≢ path
    → StaysOrGoes d (write_all h chunk d).1 q
unfolding write_all put_content
write_all-StaysOrGoes d path q h chunk s e n = inr (refl, write_all-KeepsAt d path q h chunk s e n)
