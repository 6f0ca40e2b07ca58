-- ===== src/Request.antt =====
-- src/net/proxy_request.rs: what the path of a request asks for, the file that holds it in the
-- cache folder, and the URI that asks the upstream for it. A path is `uri.path()`, a text.
-- `none` is a panic of the source (an index out of bounds).
mod Pieces
pub mod Safe
pub mod Forms
use local_cache_proxy.Base.{
  Option, none, some, Bool, true, false, ◌&&◌, ◌||◌, List, [], ◌∷◌, ◌++◌, get_elem?, drop_last,
  if◌then◌else◌, ◌>>=?◌,
}
use local_cache_proxy.Base.Result.{Result}
use local_cache_proxy.Base.Text.{
  Text, codes, text_eq, starts_with, split, trim_matches, trim_right_matches, replace,
}

pub record ProxyRequest : Type 0 where
  pub repo : Text
  pub tpe : Text
  pub digest : Text

unfoldable pub file_name : ProxyRequest → Text
file_name r = r.tpe ++ (codes "__" ++ r.digest)

-- The text of the query, before it is parsed as a URI.
unfoldable pub query_text : ProxyRequest → Text → Text
query_text r upstream =
    trim_right_matches b'/' upstream
    ++ (b'/' ∷ (r.tpe ++ (codes "/repo=" ++ (r.repo ++ (b'/' ∷ r.digest)))))

-- `str::parse::<Uri>` of the crate `http` is a parameter.
unfoldable pub build_query_uri {ℓ κ} :
    {Uri : Type ℓ} {E : Type κ} → (Text → Result E Uri) → ProxyRequest → Text → Result E Uri
build_query_uri parse r upstream = parse (query_text r upstream)

-- The first branch: the elements after `repo=...` are the type and the digest.
unfoldable pub repo_request : Text → List Text → Option ProxyRequest
repo_request first rest = get_elem? (split b'=' first) 1 >>=? λ repo_name.
    get_elem? rest 0 >>=? λ tpe.
    get_elem? rest 1 >>=? λ digest. some (record { repo = repo_name; tpe = tpe; digest = digest })

abbrev pub unknown : Text
unknown = codes "unknown"

abbrev pub is_typed : Text → Bool
is_typed e = text_eq e (codes "ac") || text_eq e (codes "cas")

-- The last two branches: neither of the known forms.
unfoldable pub other_request : Text → Option ProxyRequest
other_request path =
    if text_eq path (codes "/")
    then some (record { repo = unknown; tpe = unknown; digest = codes "index.html" })
    else some (record { repo = unknown; tpe = unknown; digest = replace b'/' (codes "__") path })

unfoldable pub plain_request : Text → Text → List Text → Option ProxyRequest
unfolding other_request
plain_request path tpe (digest ∷ []) =
    if is_typed tpe
    then some (record { repo = unknown; tpe = tpe; digest = digest })
    else other_request path
plain_request path tpe _ = other_request path

unfoldable pub from_elements : Text → List Text → Option ProxyRequest
unfolding repo_request plain_request
from_elements path [] = none
from_elements path (first ∷ rest) =
    if starts_with first (codes "repo=")
    then repo_request first rest
    else plain_request path first rest

-- `if elements[0].starts_with("bazel-cache") { elements.pop(); }`
unfoldable pub strip_prefix : List Text → List Text
strip_prefix [] = []
strip_prefix (first ∷ rest) =
    if starts_with first (codes "bazel-cache") then drop_last (first ∷ rest) else first ∷ rest

-- `ProxyRequest::new`
unfoldable pub new : Text → Option ProxyRequest
unfolding from_elements strip_prefix
new uri_path =
    let path = trim_matches b'/' uri_path in from_elements path (strip_prefix (split b'/' path))
