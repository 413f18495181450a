-- ===== src/Dstore/Chosen.antt =====
-- The loop of `shardPeers` of internal/dstore/dstore.go over its candidates.
pub mod Assigned
use peertopeer.Prelude.{
  ◌≡◌, true, false, ◌||◌, not, arith, List, [], ◌∷◌, All, Bool-cases, inl, inr,
}
use peertopeer.Prelude.Text.{Bytes, equal}
use peertopeer.Peer.{Peer}
use peertopeer.Dstore.Placement.{Policy, may_hold, domain, seen_before, select}

-- No two devices of the list share a failure domain.
abbrev pub Distinct : Policy → List Peer → Type 0
Distinct c [] = Unit
Distinct c (p ∷ peers) = All (λ q. equal (domain c p) (domain c q) ≡ false) peers × Distinct c peers

module _ (c : Policy) where
  -- A device that may hold shards, in a failure domain that was not seen.
  pub record IsNew (seen : List Bytes) (p : Peer) : Type 0 where
    pub allowed : may_hold c p ≡ true
    pub unseen : seen_before (domain c p) seen ≡ false

  seen_before-cons :
      (d : Bytes) (seen : List Bytes) (p : Peer)
      → IsNew (d ∷ seen) p
      → IsNew seen p × (equal d (domain c p) ≡ false)
  unfolding seen_before
  seen_before-cons d seen p n =
      (record { allowed = n.allowed; unseen = ground (arith, n.unseen) }, ground (arith, n.unseen))

  earlier :
      (d : Bytes) (seen : List Bytes) (peers : List Peer)
      → All (IsNew (d ∷ seen)) peers
      → All (IsNew seen) peers
  earlier d seen [] n = tt
  earlier d seen (p ∷ peers) (n, ns) = ((seen_before-cons d seen p n).0, earlier d seen peers ns)

  apart :
      (d : Bytes) (seen : List Bytes) (peers : List Peer)
      → All (IsNew (d ∷ seen)) peers
      → All (λ q. equal d (domain c q) ≡ false) peers
  apart d seen [] n = tt
  apart d seen (p ∷ peers) (n, ns) = ((seen_before-cons d seen p n).1, apart d seen peers ns)

  pub select-IsNew :
      (seen : List Bytes) (candidates : List Peer)
      → All (IsNew seen) (select c seen candidates) × Distinct c (select c seen candidates)
  unfolding select
  select-IsNew seen [] = (tt, tt)
  select-IsNew seen (p ∷ candidates) =
      elim (Bool-cases (not (may_hold c p) || seen_before (domain c p) seen)) [
        | inl skip ↦ simp skip (select-IsNew seen candidates)
        | inr take ↦
            let (n, distinct) = select-IsNew (domain c p ∷ seen) candidates in
            let first : IsNew seen p = record { allowed = ground arith; unseen = ground arith } in
            simp take
              ((first, earlier (domain c p) seen _ n), (apart (domain c p) seen _ n, distinct))
      ]
