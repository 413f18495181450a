-- ===== src/Erasure/Layouts.antt =====
-- Which layouts are accepted.
use peertopeer.Prelude.{ℕ, ◌+◌, ◌^◌, ◌≤◌, ◌<◌, ◌≡◌, ◌↔◌, ok, arith, refl, ap, Bool, ◌||◌}
use peertopeer.Prelude.{true, false}
use peertopeer.Prelude.Int.{ℤ, pos, negsuc, pos_part, ltb_ℤ, eq_ℤ, add64-pos}
use peertopeer.Erasure.{Layout, validate, new_layout, total_shards}

abbrev pub layout : ℕ → ℕ → Layout
layout k p = record { data_shards = pos k; parity_shards = pos p }

-- The numbers of shards of a usable layout.
abbrev pub IsGeometry : ℕ → ℕ → Type 0
IsGeometry k p = (1 ≤ k) × (1 ≤ p) × (k + p ≤ 64)

abbrev is_negative : Layout → Bool
is_negative l = ltb_ℤ l.data_shards (pos 0) || ltb_ℤ l.parity_shards (pos 0)

-- Where the sum does not overflow, exactly the layouts with at least one data shard, at least one
-- parity shard, and at most 64 shards in all are valid; a negative number of either is refused.
pub validate_iff :
    (l : Layout)
    → pos_part l.data_shards + pos_part l.parity_shards < 2 ^ 63
    → (validate l ≡ ok tt) ↔ ((k p : ℕ) × (l ≡ layout k p) × IsGeometry k p)
unfolding validate
validate_iff l h = go l.data_shards l.parity_shards h
  where
    go :
        (a b : ℤ)
        → pos_part a + pos_part b < 2 ^ 63
        → let l : Layout = record { data_shards = a; parity_shards = b } in
          (validate l ≡ ok tt) ↔ ((k p : ℕ) × (l ≡ layout k p) × IsGeometry k p)
    go (pos k) (pos p) h = (λ e. (k, p, refl, ground arith), λ (k', p', e, g). fits k p k' p' h e g)
      where
        fits :
            (k p k' p' : ℕ)
            → k + p < 2 ^ 63
            → layout k p ≡ layout k' p'
            → IsGeometry k' p'
            → validate (layout k p) ≡ ok tt
        fits k p k' p' h e g =
            let first : k ≡ k' = ap (λ (l : Layout). pos_part l.data_shards) e in
            let second : p ≡ p' = ap (λ (l : Layout). pos_part l.parity_shards) e in
            ground (arith, first, second)
    go (negsuc k) b h = (λ e. ground arith, λ (k', p', e, g). cc (ap is_negative e))
    go (pos k) (negsuc p) h = (λ e. ground arith, λ (k', p', e, g). cc (ap is_negative e))

-- A sum that overflows is negative, so the layout is accepted with a negative number of shards.
pub validate_overflow :
    (k p : ℕ)
    → 1 ≤ k
    → 1 ≤ p
    → k < 2 ^ 63
    → p < 2 ^ 63
    → 2 ^ 63 ≤ k + p
    → (validate (layout k p) ≡ ok tt) × (ltb_ℤ (total_shards (layout k p)) (pos 0) ≡ true)
unfolding validate total_shards
validate_overflow k p h₁ h₂ h₃ h₄ h₅ = (ground arith, ground arith)

pub validate-layout : (k p : ℕ) → IsGeometry k p → validate (layout k p) ≡ ok tt
validate-layout k p g = (validate_iff (layout k p) (omega arith)).1 (k, p, refl, g)

pub total_shards-layout : (k p : ℕ) → IsGeometry k p → total_shards (layout k p) ≡ pos (k + p)
unfolding total_shards
total_shards-layout k p g = add64-pos k p (omega arith)

pub new_layout-layout : (k p : ℕ) → IsGeometry k p → new_layout (pos k) (pos p) ≡ ok (layout k p)
unfolding new_layout
new_layout-layout k p g = ground (arith, validate-layout k p g)

-- A valid layout is given back by `NewLayout`; the default for 0+0 does not hide it.
pub new_layout-valid :
    (l : Layout) → validate l ≡ ok tt → new_layout l.data_shards l.parity_shards ≡ ok l
new_layout-valid l h = unfold new_layout in ground (arith, h, positive)
  where
    positive : eq_ℤ l.data_shards (pos 0) ≡ false
    positive = unfold validate in ground arith
