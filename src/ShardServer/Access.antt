-- ===== src/ShardServer/Access.antt =====
-- Who is served, and who may change the store.
use peertopeer.Prelude.{◌≡◌, ◌≢◌, ◌⊎◌, inl, inr, true, false, none, some}
use peertopeer.Prelude.{ℕ, [], ◌++◌}
use peertopeer.Prelude.Text.{Bytes, text}
use peertopeer.AtomicFile.{Dir}
use peertopeer.Digest.{Sha256, hash}
use peertopeer.LocalStore.{Env}
use peertopeer.ShardServer.{
  Options, Request, Response, full, caller_of, is_member, handle, shards_prefix,
}
use peertopeer.ShardServer.Cases.{Handled, handle-Handled}

-- A caller that the options keep out: one with no identity on the mesh, one that is no member where
-- membership is required, or one that names another sharing group.
pub data IsOutsider (o : Options) (r : Request) : Type 0 where
  unknown : caller_of o r ≡ none → IsOutsider o r
  stranger :
      (caller : Bytes)
      → caller_of o r ≡ some caller
      → o.restrict_members ≡ true
      → is_member o.members caller ≡ false
      → IsOutsider o r
  other_group : o.share_id ≢ [] → r.share ≢ o.share_id → IsOutsider o r

-- Only two requests change the store: an upload to a device that contributes storage, at the path
-- of the body's own hash, and a deletion where the mesh identifies the callers.
pub handle-changes :
    (sha : Sha256) (o : Options) (quota : ℕ) (os arch : Bytes) (env : Env) (r : Request) (d : Dir)
    → (handle sha o quota os arch env r d).1 ≢ d
    → ((s : Bytes) × (r.method ≡ text "PUT")
        × (o.read_only ≡ false)
        × (r.body ≡ full s)
        × (r.path ≡ shards_prefix ++ hash sha s))
      ⊎ ((r.method ≡ text "DELETE") × (o.identify ≢ none))
handle-changes sha o quota os arch env r d n = go (handle-Handled sha o quota env r d os arch) n
  where
    go :
        {x : Response} {d' : Dir}
        → Handled sha o quota env r d x d'
        → d' ≢ d
        → ((s : Bytes) × (r.method ≡ text "PUT")
            × (o.read_only ≡ false)
            × (r.body ≡ full s)
            × (r.path ≡ shards_prefix ++ hash sha s))
          ⊎ ((r.method ≡ text "DELETE") × (o.identify ≢ none))
    go (Handled.answered _ _ e) n = absurd (n e)
    go (Handled.uploaded _ s _ m w b p _ _) n = inl (s, m, w, b, p)
    go (Handled.deleted _ _ _ m i _ _ _ _) n = inr (m, i)
