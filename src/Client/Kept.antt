-- ===== src/Client/Kept.antt =====
-- src/net/client.rs: what the loops of retries keep.
use local_cache_proxy.Base.{ℕ, zero, suc, ◌*◌, [], ◌∷◌}
use local_cache_proxy.Base.Text.{Text}
use local_cache_proxy.Client.{with_retries, request, connect_for_file}
use local_cache_proxy.World.{Env, World, Method, get}
use local_cache_proxy.World.Disk.{Bytes}
use local_cache_proxy.World.Step.{Act}
use local_cache_proxy.World.Keeps.{Keeps, else-I}

pub with_retries-Keeps {ℓ κ} :
    {C : Type 0} {A : Type ℓ} (I : World C → Type κ) (once : Act (World C) Text A)
    → ((w : World C) (t : ℕ) → I w → I (record w { now = t }))
    → Keeps I once
    → (tries sleep multiplier : ℕ) → Keeps I (with_retries once tries sleep multiplier)
unfolding with_retries
with_retries-Keeps I once clock keeps zero sleep multiplier = keeps
with_retries-Keeps I once clock keeps (suc tries) sleep multiplier = λ w i.
    else-I {F = Text} I (once w) _ (keeps w i) (λ _ v j.
      with_retries-Keeps I once clock keeps tries (sleep * multiplier) multiplier _ (clock v _ j))

module _ (env : Env) (I : World env.Cache → Type 0)
    (clock : (w : World env.Cache) (t : ℕ) → I w → I (record w { now = t })) where
  pub request-Keeps :
      (method : Method) (uri : Text) (payload : Bytes)
      → ((w : World env.Cache)
          → I w
          → I (record w {
            sent = record { method = method; uri = uri; payload = payload } ∷ w.sent;
          }))
      → Keeps I (request env method uri payload)
  unfolding request
  request-Keeps method uri payload asks w i = clock _ _ (asks w i)

  pub connect_for_file-Keeps :
      ((uri : Text) (w : World env.Cache)
        → I w
        → I (record w { sent = record { method = get; uri = uri; payload = [] } ∷ w.sent }))
      → (uri : Text) (tries sleep multiplier : ℕ)
      → Keeps I (connect_for_file env uri tries sleep multiplier)
  unfolding connect_for_file
  connect_for_file-Keeps asks uri =
      with_retries-Keeps I (request env get uri []) clock (request-Keeps get uri [] (asks uri))
