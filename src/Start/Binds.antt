-- ===== src/Start/Binds.antt =====
-- src/net/server_start.rs, src/net/client_proxy_server.rs: which bind targets are served.
use local_cache_proxy.Base.{
  ◌≡◌, ◌≢◌, refl, ap, sym, subst, ◌∙◌, ◌↔◌, inl, inr, Option, none, some, Bool-cases, true, List,
  [], ◌∷◌, ◌++◌, arith, ◌>>=?◌,
}
use local_cache_proxy.Base.Result.{Result, ok, err}
use local_cache_proxy.Base.Text.{Text, codes, text_eq, text_eq_iff}
use local_cache_proxy.Config.{AppConfig}
use local_cache_proxy.Start.{
  Net, IpAddr, v4, v6, only_ipv4, first, socket_addr, start_server, start_http_server_impl,
  start_unix_server_impl, bound, start_unix, removed, start_by_scheme, resolve,
}
use local_cache_proxy.World.Disk.{Files}
use local_cache_proxy.World.Step.{done}

-- The first address of version 4 comes after addresses of version 6 only.
pub data FirstV4 (a : Text) : List IpAddr → Type 0 where
  at_head : {l : List IpAddr} → FirstV4 a (v4 a ∷ l)
  later : {b : Text} {l : List IpAddr} → FirstV4 a l → FirstV4 a (v6 b ∷ l)

first-FirstV4 : (a : Text) (l : List IpAddr) → first (only_ipv4 l) ≡ some a → FirstV4 a l
unfolding only_ipv4
first-FirstV4 a [] h = absurd (cc)
first-FirstV4 a (v4 b ∷ l) h =
    let e : b ≡ a = cc in subst (λ c. FirstV4 a (v4 c ∷ l)) (sym e) at_head
first-FirstV4 a (v6 b ∷ l) h = later (first-FirstV4 a l h)

FirstV4-first : (a : Text) {l : List IpAddr} → FirstV4 a l → first (only_ipv4 l) ≡ some a
unfolding only_ipv4
FirstV4-first a at_head = refl
FirstV4-first a (later f) = FirstV4-first a f

module _ (net : Net) where
  -- What a target has that is served at the address.
  pub record IsServed (target addr : Text) : Type 0 where
    pub http : net.scheme target ≡ some (codes "http")
    pub host : Text
    pub has_host : net.host target ≡ some host
    pub addresses : List IpAddr
    pub resolved : net.to_socket_addrs host ≡ some addresses
    pub chosen : Text
    pub is_first : FirstV4 chosen addresses
    pub port : Text
    pub has_port : net.port target ≡ some port
    pub parsed : net.parse_addr (chosen ++ (b':' ∷ port)) ≡ some addr
    pub is_free : net.bind addr ≡ true

  ask :
      {A B : Type 0} (x : Option A) (f : A → Option B) (b : B)
      → (x >>=? f) ≡ some b
      → (a : A) × (x ≡ some a) × (f a ≡ some b)
  ask none f b h = absurd (cc)
  ask (some a) f b h = (a, refl, h)

  socket_addr-some :
      (target addr : Text)
      → socket_addr net target ≡ some addr
      → net.scheme target ≡ some (codes "http")
      → net.bind addr ≡ true
      → IsServed target addr
  unfolding socket_addr resolve
  socket_addr-some target addr h http free =
      let (host, e, h1) = ask (net.host target) _ addr h in
      let (texts, r, h2) = ask (resolve net host) _ addr h1 in
      let (l, d, r') = ask (net.to_socket_addrs host) _ texts r in
      let (chosen, f, h3) = ask (first texts) _ addr h2 in
      let (port, p, h4) = ask (net.port target) _ addr h3 in
      let same : only_ipv4 l ≡ texts = cc in
      record {
        http = http;
        host = host;
        has_host = e;
        addresses = l;
        resolved = d;
        chosen = chosen;
        is_first = first-FirstV4 chosen l (ap first same ∙ f);
        port = port;
        has_port = p;
        parsed = h4;
        is_free = free;
      }

  http-served :
      (target addr : Text) (files : Files)
      → IsServed target addr
      → start_http_server_impl net target files ≡ (done addr, files)
  unfolding start_http_server_impl socket_addr resolve bound
  http-served target addr files s = rw (s.has_host) (
      rw (s.resolved) (
        rw (FirstV4-first s.chosen s.is_first)
          (rw (s.has_port) (rw (s.parsed) (rw (s.is_free) refl)))))

  bound-done :
      (x : Option Text) (addr : Text) (files : Files)
      → (bound net x files).0 ≡ done addr
      → (x ≡ some addr) × (net.bind addr ≡ true)
  unfolding bound
  bound-done none addr files h = absurd (cc)
  bound-done (some a) addr files h = elim (Bool-cases (net.bind a)) [
    | inl e ↦
        let same : a ≡ addr = ground (arith, h) in
        (ap some same, subst (λ b. net.bind b ≡ true) same e)
    | inr e ↦ absurd (ground (arith, h))
  ]

  unix_done :
      (a : Option Text) (target addr : Text) (files : Files)
      → (start_unix net a target files).0 ≢ done addr
  unfolding start_unix removed start_unix_server_impl
  unix_done none target addr files h = cc
  unix_done (some path) target addr files h = removed-done (net.remove_file files path) h
    where
      removed-done : (r : Result Text Files) → (removed net r target files).0 ≢ done addr
      removed-done (ok f) k = cc
      removed-done (err e) k = cc

  scheme_done :
      (s : Option Text) (target addr : Text) (files : Files)
      → net.scheme target ≡ s
      → (start_by_scheme net s target files).0 ≡ done addr
      → IsServed target addr
  unfolding start_by_scheme start_http_server_impl
  scheme_done none target addr files e h = absurd (cc)
  scheme_done (some s) target addr files e h = elim (Bool-cases (text_eq s (codes "unix"))) [
    | inl u ↦ absurd (unix_done (net.authority target) target addr files (rw u at h))
    | inr u ↦ elim (Bool-cases (text_eq s (codes "http"))) [
      | inl t ↦
          let (a, b) = bound-done (socket_addr net target) addr files (rw (u, t) at h) in
          socket_addr-some target addr a (e ∙ ap some ((text_eq_iff s _).0 t)) b
      | inr t ↦ absurd (ground (arith, h))
    ]
  ]

  -- The start of the client-side proxy ends with a server that listens on an address exactly when
  -- the scheme of the bind target is `http`, its host resolves to addresses of which the first of
  -- version 4, with the port of the target, is that address, and the address can be bound.
  pub start_server-IsServed :
      (config : AppConfig) (addr : Text) (files : Files)
      → ((start_server net config files).0 ≡ done addr) ↔ IsServed config.bind_target addr
  unfolding start_server start_by_scheme text_eq
  start_server-IsServed config addr files = (
    λ h. scheme_done (net.scheme config.bind_target) config.bind_target addr files refl h,
    λ s. rw (s.http) (ap (λ x. x.0) (http-served config.bind_target addr files s)),
  )
