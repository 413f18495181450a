-- ===== src/Prelude/Dict.antt =====
-- Maps keyed by strings, as association lists.
use mathlib.Core.Path.{◌≡◌, refl}
use mathlib.Core.Option.{Option, none, some}
use mathlib.Core.List.{List, [], ◌∷◌}
use native.Mathlib.Omega.{arith}
use peertopeer.Prelude.Tests.{if◌then◌else◌}
use peertopeer.Prelude.Text.{Bytes, equal, equal_iff}

abbrev pub Dict {ℓ} : Type ℓ → Type ℓ
Dict V = List (Bytes × V)

module _ {ℓ} {V : Type ℓ} where
  unfoldable pub lookup : Bytes → Dict V → Option V
  lookup k [] = none
  lookup k ((j, v) ∷ d) = if equal j k then some v else lookup k d

  unfoldable pub erase : Bytes → Dict V → Dict V
  erase k [] = []
  erase k ((j, v) ∷ d) = let rest = erase k d in if equal j k then rest else (j, v) ∷ rest

  pub lookup-cons :
      (k j : Bytes) (v : V) (d : Dict V)
      → lookup k ((j, v) ∷ d) ≡ (if equal j k then some v else lookup k d)
  unfolding lookup
  lookup-cons k j v d = refl

  pub lookup-erase :
      (k j : Bytes) (d : Dict V) → lookup k (erase j d) ≡ (if equal j k then none else lookup k d)
  unfolding lookup erase
  lookup-erase k j [] = ground arith
  lookup-erase k j ((i, v) ∷ d) =
      ground (arith, lookup-erase k j d, equal_iff i j, equal_iff i k, equal_iff j k)

  -- Removing a name that is not there changes nothing.
  pub erase-absent : (k : Bytes) (d : Dict V) → lookup k d ≡ none → erase k d ≡ d
  unfolding lookup erase
  erase-absent k [] h = refl
  erase-absent k ((j, v) ∷ d) h = ground (arith, erase-absent k d)
