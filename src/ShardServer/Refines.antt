-- ===== src/ShardServer/Refines.antt =====
-- The server as a content-addressed store, whose clients see a map from names to shards.
use peertopeer.Prelude.{ℕ, refl, List, [], ◌∷◌}
use peertopeer.Prelude.Text.{Bytes}
use peertopeer.AtomicFile.{Dir}
use peertopeer.Digest.{Sha256}
use peertopeer.LocalStore.{Env}
use peertopeer.LocalStore.View.{View, view, Step, same, put_owned-Step, delete_owned-Step}
use peertopeer.ShardServer.{Options, Request, Response, handle}
use peertopeer.ShardServer.Cases.{Handled, handle-Handled}
use peertopeer.ShardServer.Sequences.{serve}

-- Any number of steps.
pub data Reach (sha : Sha256) : View → View → Type 0 where
  here : {v : View} → Reach sha v v
  next : {v v' v'' : View} → Step sha v v' → Reach sha v' v'' → Reach sha v v''

module _ (sha : Sha256) (o : Options) (quota : ℕ) (os arch : Bytes) where
  -- A request is one step of the store that the clients see.
  handle-Step :
      (env : Env) (r : Request) (d : Dir)
      → Step sha (view d) (view (handle sha o quota os arch env r d).1)
  handle-Step env r d = go (handle-Handled sha o quota env r d os arch)
    where
      go :
          {x : Response} {d' : Dir} → Handled sha o quota env r d x d' → Step sha (view d) (view d')
      go (Handled.answered _ _ e) = same (λ h. rw e refl)
      go (Handled.uploaded caller s _ _ _ _ _ e _) = rw e (put_owned-Step sha quota env s caller d)
      go (Handled.deleted caller h _ _ _ _ e _ _) = rw e (delete_owned-Step sha env h caller d)

  -- Any requests, whichever system calls fail, take the shards that clients see through steps of a
  -- content-addressed store: each adds a shard under its own hash where there was none, removes one,
  -- or changes nothing.
  pub serve-Reach :
      (requests : List (Env × Request)) (d : Dir)
      → Reach sha (view d) (view (serve sha o quota os arch requests d))
  unfolding serve
  serve-Reach [] d = here
  serve-Reach ((env, r) ∷ requests) d = next (handle-Step env r d) (serve-Reach requests _)
