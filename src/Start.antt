-- ===== src/Start.antt =====
-- src/net/server_start.rs, src/net/client_proxy_server.rs, src/net/remote_cache_server.rs: where a
-- server is bound. The parts of a URI, name resolution and sockets are third-party code, in `Net`.
pub mod Binds
use local_cache_proxy.Base.{Option, none, some, Bool, List, [], ◌∷◌, ◌++◌, if◌then◌else◌, ◌>>=?◌}
use local_cache_proxy.Base.Result.{Result, ok, err}
use local_cache_proxy.Base.Text.{Text, codes, text_eq}
use local_cache_proxy.Config.{AppConfig}
use local_cache_proxy.World.Disk.{Files}
use local_cache_proxy.World.Step.{Out, done, fail, panic, Act}

pub data IpAddr : Type 0 where
  v4 v6 : Text → IpAddr

pub record Net : Type 0 where
  -- `Uri::scheme`, `authority`, `host` and `port`, of the text of a URI.
  pub scheme : Text → Option Text
  pub authority : Text → Option Text
  pub host : Text → Option Text
  pub port : Text → Option Text
  -- `(host, 0).to_socket_addrs()`; `none` is an error.
  pub to_socket_addrs : Text → Option (List IpAddr)
  -- `str::parse::<SocketAddr>`
  pub parse_addr : Text → Option Text
  -- Whether `Server::bind` gets the address; it panics otherwise.
  pub bind : Text → Bool
  -- `fs::remove_file`
  pub remove_file : Files → Text → Result Text Files

pub data StartError : Type 0 where
  not_removed : Text → StartError
  invalid_input : Text → StartError

-- `.filter(|e| e.is_ipv4())`, with the texts that `format!` makes of the addresses.
unfoldable pub only_ipv4 : List IpAddr → List Text
only_ipv4 [] = []
only_ipv4 (v4 a ∷ l) = a ∷ only_ipv4 l
only_ipv4 (v6 a ∷ l) = only_ipv4 l

-- `resolved_bind_host[0]`
abbrev pub first : List Text → Option Text
first [] = none
first (a ∷ l) = some a

module _ (net : Net) where
  unfoldable pub resolve : Text → Option (List Text)
  unfolding only_ipv4
  resolve host = net.to_socket_addrs host >>=? λ l. some (only_ipv4 l)

  -- The address to bind to; `none` is a panic.
  unfoldable pub socket_addr : Text → Option Text
  unfolding resolve
  socket_addr target = net.host target >>=? λ host. resolve host >>=? λ l.
      first l >>=? λ a. net.port target >>=? λ port. net.parse_addr (a ++ (b':' ∷ port))

  bound : Option Text → Act Files StartError Text
  bound none files = (panic, files)
  bound (some addr) files = if net.bind addr then (done addr, files) else (panic, files)

  -- The address on which the server that is started listens.
  unfoldable pub start_http_server_impl : Text → Act Files StartError Text
  unfolding bound socket_addr
  start_http_server_impl target files = bound (socket_addr target) files

  -- `unimplemented!()`
  unfoldable pub start_unix_server_impl : Text → Act Files StartError Text
  start_unix_server_impl target files = (panic, files)

  removed : Result Text Files → Text → Act Files StartError Text
  removed (ok files') target files = start_unix_server_impl target files'
  removed (err e) target files = (fail (not_removed e), files)

  start_unix : Option Text → Text → Act Files StartError Text
  start_unix none target files = (panic, files)
  start_unix (some path) target files = removed (net.remove_file files path) target files

  start_by_scheme : Option Text → Text → Act Files StartError Text
  start_by_scheme none target files = (fail (invalid_input target), files)
  start_by_scheme (some s) target files =
      if text_eq s (codes "unix")
      then start_unix (net.authority target) target files
      else if text_eq s (codes "http")
      then start_http_server_impl target files
      else (fail (invalid_input target), files)

  -- The end of `start_server` of the client-side proxy.
  unfoldable pub start_server : AppConfig → Act Files StartError Text
  unfolding start_by_scheme start_unix removed start_unix_server_impl start_http_server_impl
  start_server config = start_by_scheme (net.scheme config.bind_target) config.bind_target

  started_remote : Option Text → Text → Act Files StartError Text
  started_remote none target files = (panic, files)
  started_remote (some port) target files = start_http_server_impl target files

  -- The end of `start_server` of the server-side proxy, whose log line unwraps the port first.
  unfoldable pub start_remote_server : AppConfig → Act Files StartError Text
  unfolding started_remote start_http_server_impl
  start_remote_server config = started_remote (net.port config.bind_target) config.bind_target
