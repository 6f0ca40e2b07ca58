-- ===== src/Programs/Configs.antt =====
-- src/bin/client_side_proxy.rs, src/bin/server_side_proxy.rs: the configurations that are made.
use local_cache_proxy.Base.{
  ◌≡◌, ◌≢◌, refl, ◌++◌, subst, arith, ℕ, ◌<◌, ◌^◌, Option, none, some, ◌>>=?◌,
}
use local_cache_proxy.Base.Result.{Result}
use local_cache_proxy.Base.Text.{Text, codes, parse_u64-bound}
use local_cache_proxy.Config.{AppConfig, State, str_to_ms}
use local_cache_proxy.Programs.{
  Matches, given, number, parsed_uri, client_config, server_config, cache_folder,
}
use local_cache_proxy.Terminator
use local_cache_proxy.Terminator.{Terminator, panicked}

stops :
    {A B : Type 0} (x : Option A) (f : A → Option B) → ((a : A) → f a ≡ none) → (x >>=? f) ≡ none
stops none f h = refl
stops (some a) f h = h a

-- Without a home folder neither of the two proxies starts, also where a cache folder is given.
no_home :
    (parse : Text → Result Text Text) (matches : Matches)
    → (client_config parse none matches ≡ none) × (server_config parse none matches ≡ none)
unfolding client_config server_config cache_folder
no_home parse matches =
    let uri = parsed_uri parse none matches in
    let size = number parse none matches "cache_folder_size" "32212254720" in
    (
      stops (matches (codes "upstream")) _ (λ u. stops (uri u) _ (λ _.
          stops (uri (given parse none matches "bind_target" "http://localhost:10487")) _
            (λ _. stops size _ (λ _. refl)))),
      stops (uri (codes "http://local:123")) _ (λ _.
          stops (matches (codes "port")) _
            (λ p. stops (uri (codes "http://127.0.0.1:" ++ p)) _ (λ _. stops size _ (λ _. refl)))),
    )

-- What a chain has come from.
from :
    {A B : Type 0} {P : Type 0} (x : Option A) (f : A → Option B) (b : B)
    → ((a : A) → x ≡ some a → f a ≡ some b → P)
    → (x >>=? f) ≡ some b
    → P
from none f b k h = absurd (cc)
from (some a) f b k h = k a refl h

-- A configuration with an idle time and with sizes that are numbers of the machine.
record IsComplete (c : AppConfig) : Type 0 where
  idle : ℕ
  has_idle : c.idle_time_terminate ≡ some idle
  idle_bound : idle < 2 ^ 64
  folder_bound : c.cache_folder_size < 2 ^ 64
  download_bound : c.maximum_download_size < 2 ^ 64
  upload_bound : c.maximum_upload_size < 2 ^ 64

some_injective : {A : Type 0} {a b : A} → some a ≡ some b → a ≡ b
some_injective e = cc

never :
    (idle : ℕ) (s : State) (now : ℕ) (t : Terminator)
    → (Terminator.poll (some idle) s now t).0 ≢ panicked
unfolding Terminator.poll
never idle s now t = ground arith

module _ (parse : Text → Result Text Text) (home : Option Text) (matches : Matches) where
  -- What client_side_proxy makes of a command line, if it does not panic, is complete.
  client_config-IsComplete :
      (c : AppConfig) → client_config parse home matches ≡ some c → IsComplete c
  unfolding client_config str_to_ms
  client_config-IsComplete c =
      let uri = parsed_uri parse home matches in
      let n = number parse home matches in
      let all = given parse home matches in
      from (matches (codes "upstream")) _ c (λ u _. from (uri u) _ c (λ upstream _.
        from (uri (all "bind_target" "http://localhost:10487")) _ c (λ target _.
          from (n "cache_folder_size" "32212254720") _ c (λ size s.
            from (cache_folder parse home matches) _ c (λ folder _.
              from (n "maximum_upload_size" "10485760") _ c (λ up p.
                from (n "maximum_download_size" "10485760") _ c (λ down d.
                  from (str_to_ms (all "idle_time_terminate" "600000")) _ c (λ idle i e.
                    subst IsComplete (some_injective e) (record {
                      idle = idle;
                      has_idle = refl;
                      idle_bound = parse_u64-bound (all "idle_time_terminate" "600000") idle i;
                      folder_bound = parse_u64-bound (all "cache_folder_size" "32212254720") size s;
                      download_bound =
                          parse_u64-bound (all "maximum_download_size" "10485760") down d;
                      upload_bound = parse_u64-bound (all "maximum_upload_size" "10485760") up p;
                    })))))))))

  -- The terminator that client_side_proxy starts with its configuration never panics.
  client_terminator :
      (c : AppConfig) (s : State) (now : ℕ) (t : Terminator)
      → client_config parse home matches ≡ some c
      → (Terminator.poll c.idle_time_terminate s now t).0 ≢ panicked
  client_terminator c s now t e h =
      let i = client_config-IsComplete c e in
      never i.idle s now t (subst (λ x. (Terminator.poll x s now t).0 ≡ panicked) i.has_idle h)
