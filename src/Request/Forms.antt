-- ===== src/Request/Forms.antt =====
-- src/net/proxy_request.rs: the paths of the two forms, of a query, and below `/bazel-cache`.
use local_cache_proxy.Base.{◌≡◌, ◌≢◌, refl, ◌∙◌, some, false, List, [], ◌∷◌, ◌++◌, arith}
use local_cache_proxy.Base.Text.{
  Text, codes, text_eq, starts_with, contains, split, replace, trim_matches, trim_right_matches,
  trim_left_matches,
}
use local_cache_proxy.Request.{ProxyRequest, from_elements, strip_prefix, new, unknown}
use local_cache_proxy.Request.Safe.{Free}
use local_cache_proxy.Request.Pieces.{
  Kept, Kept-Free, Kept-append, trim_right-append_Free, split-Free, split-append, replace-Free_self,
  replace-append, trim_slash, split-append_Free,
}

abbrev pub repo_path : Text → Text → Text → Text
repo_path repo tpe digest = codes "repo=" ++ (repo ++ (b'/' ∷ (tpe ++ (b'/' ∷ digest))))

slashed-Kept :
    (tpe digest : Text)
    → digest ≢ []
    → Free b'/' digest
    → Kept b'/' (b'/' ∷ (tpe ++ (b'/' ∷ digest)))
slashed-Kept tpe digest h f =
    Kept-append b'/' (b'/' ∷ tpe) _ (Kept-append b'/' (b'/' ∷ []) _ (Kept-Free b'/' digest f h))

repo_path_trim :
    (repo tpe digest : Text)
    → digest ≢ []
    → Free b'/' digest
    → trim_matches b'/' (b'/' ∷ repo_path repo tpe digest) ≡ repo_path repo tpe digest
unfolding trim_matches
repo_path_trim repo tpe digest h f =
    (Kept-append b'/' (codes "repo=" ++ repo) _ (slashed-Kept tpe digest h f)).0

split-repo_path :
    (repo tpe digest : Text)
    → Free b'/' repo
    → Free b'/' tpe
    → Free b'/' digest
    → split b'/' (repo_path repo tpe digest) ≡ (codes "repo=" ++ repo) ∷ tpe ∷ digest ∷ []
unfolding contains
split-repo_path repo tpe digest r t d =
    split-append b'/' (codes "repo=" ++ repo) _ r
    ∙ rw (split-append b'/' tpe digest t, split-Free b'/' digest d)

-- A path `/repo=R/T/D` is read as the request for type `T` and digest `D` of the repo `R`, if `D`
-- is not empty, none of the three has a `/`, and the name `R` has no `=`.
pub new-repo :
    (repo tpe digest : Text)
    → Free b'/' repo
    → Free b'=' repo
    → Free b'/' tpe
    → Free b'/' digest
    → digest ≢ []
    → new (b'/' ∷ repo_path repo tpe digest)
      ≡ some (record { repo = repo; tpe = tpe; digest = digest })
unfolding new starts_with contains
new-repo repo tpe digest r e t d h =
    rw (repo_path_trim repo tpe digest h d, split-repo_path repo tpe digest r t d)
      (rw (split-append b'=' (codes "repo") repo refl, split-Free b'=' repo e))

abbrev pub plain_path : Text → Text → Text
plain_path tpe digest = tpe ++ (b'/' ∷ digest)

plain_path-Kept :
    (tpe digest : Text) → Free b'/' digest → digest ≢ [] → Kept b'/' (plain_path tpe digest)
plain_path-Kept tpe digest f h =
    Kept-append b'/' tpe _ (Kept-append b'/' (b'/' ∷ []) _ (Kept-Free b'/' digest f h))

-- The types of the two stores.
pub data IsTyped : Text → Type 0 where
  ac : {t : Text} → t ≡ codes "ac" → IsTyped t
  cas : {t : Text} → t ≡ codes "cas" → IsTyped t

-- A path `/ac/D` or `/cas/D` with a digest that is not empty and has no `/` is read as the request
-- for that digest, of the repo `unknown`.
pub new-plain :
    (tpe digest : Text)
    → IsTyped tpe
    → Free b'/' digest
    → digest ≢ []
    → new (b'/' ∷ plain_path tpe digest)
      ≡ some (record { repo = unknown; tpe = tpe; digest = digest })
unfolding new starts_with text_eq contains trim_left_matches
new-plain tpe digest (ac e) d h = rw (
  e,
  trim_slash (plain_path (codes "ac") digest) refl (plain_path-Kept (codes "ac") digest d h),
  split-append b'/' (codes "ac") digest refl,
  split-Free b'/' digest d,
)
new-plain tpe digest (cas e) d h = rw (
  e,
  trim_slash (plain_path (codes "cas") digest) refl (plain_path-Kept (codes "cas") digest d h),
  split-append b'/' (codes "cas") digest refl,
  split-Free b'/' digest d,
)

-- The path of the query that `build_query_uri` makes, below the upstream's own path.
abbrev pub query_path : Text → Text → Text → Text
query_path tpe repo digest = tpe ++ (b'/' ∷ ((codes "repo=" ++ repo) ++ (b'/' ∷ digest)))

query_path-Kept :
    (tpe repo digest : Text)
    → Free b'/' digest
    → digest ≢ []
    → Kept b'/' (query_path tpe repo digest)
query_path-Kept tpe repo digest d h =
    Kept-append b'/' tpe _ (slashed-Kept (codes "repo=" ++ repo) digest h d)

split-query_path :
    (tpe repo digest : Text)
    → Free b'/' tpe
    → Free b'/' repo
    → Free b'/' digest
    → split b'/' (query_path tpe repo digest) ≡ tpe ∷ (codes "repo=" ++ repo) ∷ digest ∷ []
unfolding contains
split-query_path tpe repo digest t r d =
    split-append b'/' tpe _ t
    ∙ rw (split-append b'/' (codes "repo=" ++ repo) digest r, split-Free b'/' digest d)

replace-query_path :
    (tpe repo digest : Text)
    → Free b'/' tpe
    → Free b'/' repo
    → Free b'/' digest
    → replace b'/' (codes "__") (query_path tpe repo digest)
      ≡ tpe ++ (codes "__repo=" ++ (repo ++ (codes "__" ++ digest)))
unfolding replace
replace-query_path tpe repo digest t r d =
    replace-append b'/' tpe _ (codes "__")
    ∙ rw (
      replace-Free_self b'/' (codes "__") tpe t,
      replace-append b'/' repo (b'/' ∷ digest) (codes "__"),
      replace-Free_self b'/' (codes "__") repo r,
      replace-Free_self b'/' (codes "__") digest d,
    )

-- The path `/T/repo=R/D` of a query that this proxy sends upstream for the type `ac` or `cas` is
-- read by another proxy as a request of unknown type, whose digest is the whole path with `__` for
-- each `/`, if `R` and `D` have no `/` and `D` is not empty.
pub new-query_path :
    (tpe repo digest : Text)
    → IsTyped tpe
    → Free b'/' repo
    → Free b'/' digest
    → digest ≢ []
    → new (b'/' ∷ query_path tpe repo digest)
      ≡ some (record {
        repo = unknown;
        tpe = unknown;
        digest = tpe ++ (codes "__repo=" ++ (repo ++ (codes "__" ++ digest)));
      })
unfolding new starts_with text_eq contains trim_left_matches
new-query_path tpe repo digest (ac e) p d h =
    let q = codes "ac" in
    rw (
      e,
      trim_slash (query_path q repo digest) refl (query_path-Kept q repo digest d h),
      split-query_path q repo digest refl p d,
      replace-query_path q repo digest refl p d,
    )
new-query_path tpe repo digest (cas e) p d h =
    let q = codes "cas" in
    rw (
      e,
      trim_slash (query_path q repo digest) refl (query_path-Kept q repo digest d h),
      split-query_path q repo digest refl p d,
      replace-query_path q repo digest refl p d,
    )

bazel_elements :
    (path w : Text) (ws : List Text) {r : ProxyRequest}
    → text_eq path (codes "/") ≡ false
    → from_elements path (strip_prefix ((codes "bazel-cache" ++ w) ∷ ws)) ≡ some r
    → r ≡ record { repo = unknown; tpe = unknown; digest = replace b'/' (codes "__") path }
unfolding from_elements strip_prefix starts_with text_eq
bazel_elements path w [] n h = cc
bazel_elements path w (x ∷ []) n h = ground arith
bazel_elements path w (x ∷ y ∷ []) n h = ground arith
bazel_elements path w (x ∷ y ∷ z ∷ ws) n h = ground arith

bazel_path_trim :
    (suffix : Text)
    → trim_matches b'/' (codes "/bazel-cache" ++ suffix)
      ≡ codes "bazel-cache" ++ trim_right_matches b'/' suffix
unfolding trim_matches contains
bazel_path_trim suffix = trim_right-append_Free b'/' (codes "bazel-cache") suffix refl

-- A path that begins with `/bazel-cache` is never read as one of the two forms, whatever follows: a
-- request that comes of it has unknown repo and type, and the trimmed path with `__` for each `/`
-- as its digest.
pub new-bazel-cache :
    (suffix : Text) {r : ProxyRequest}
    → new (codes "/bazel-cache" ++ suffix) ≡ some r
    → r ≡ record {
      repo = unknown;
      tpe = unknown;
      digest = replace b'/' (codes "__") (codes "bazel-cache" ++ trim_right_matches b'/' suffix);
    }
unfolding new contains text_eq
new-bazel-cache suffix h =
    let t = trim_right_matches b'/' suffix in
    let path = codes "bazel-cache" ++ t in
    let (w, ws, p) = split-append_Free b'/' (codes "bazel-cache") t refl in
    bazel_elements path w ws refl (rw (bazel_path_trim suffix, p) at h)
