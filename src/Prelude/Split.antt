-- ===== src/Prelude/Split.antt =====
-- What the program uses of the package strings to take texts apart.
use Prim.Native.Nat.{ℕ}
use mathlib.Core.Path.{◌≡◌, refl, ap}
use mathlib.Core.Bool.{Bool, true, false, ◌||◌}
use mathlib.Core.Option.{Option, none, some}
use mathlib.Core.List.{List, [], ◌∷◌, ◌++◌}
use native.Mathlib.Omega.{arith}
use peertopeer.Prelude.Tests.{◌==◌, if◌then◌else◌}
use peertopeer.Prelude.Lists.{All}
use peertopeer.Prelude.Text.{Bytes, contains_byte, has_suffix}
use peertopeer.Prelude.Lists.{length, take}
use Prim.Native.Nat.{◌-◌}

abbrev pub cons_head : ℕ → List Bytes → List Bytes
cons_head c [] = (c ∷ []) ∷ []
cons_head c (part ∷ parts) = (c ∷ part) ∷ parts

-- `strings.Split(s, sep)` at a separator of one byte.
unfoldable pub split : ℕ → Bytes → List Bytes
split sep [] = [] ∷ []
split sep (c ∷ s) = let rest = split sep s in if c == sep then [] ∷ rest else cons_head c rest

abbrev cut_after : ℕ → Option (Bytes × Bytes) → Option (Bytes × Bytes)
cut_after c none = none
cut_after c (some (before, after)) = some (c ∷ before, after)

-- `strings.Cut(s, sep)`: the parts before and after the first separator, if there is one.
unfoldable pub cut : ℕ → Bytes → Option (Bytes × Bytes)
cut sep [] = none
cut sep (c ∷ s) = let rest = cut sep s in if c == sep then some ([], s) else cut_after c rest

abbrev or_here : Bool → ℕ → Bytes → Option (Bytes × Bytes) → Option (Bytes × Bytes)
or_here here c s (some (before, after)) = some (c ∷ before, after)
or_here true c s none = some ([], s)
or_here false c s none = none

-- The parts before and after the last separator, as `strings.LastIndexByte` finds it.
unfoldable pub cut_last : ℕ → Bytes → Option (Bytes × Bytes)
cut_last sep [] = none
cut_last sep (c ∷ s) = or_here (c == sep) c s (cut_last sep s)

-- `strings.Join(parts, sep)` at a separator of one byte.
unfoldable pub join : ℕ → List Bytes → Bytes
join sep [] = []
join sep (part ∷ []) = part
join sep (part ∷ next ∷ parts) = part ++ sep ∷ join sep (next ∷ parts)

-- `strings.TrimSuffix(s, suffix)`.
unfoldable pub trim_suffix : Bytes → Bytes → Bytes
trim_suffix s suffix = if has_suffix s suffix then take (length s - length suffix) s else s

pub contains_byte-append :
    (c : ℕ) (s t : Bytes) → contains_byte c (s ++ t) ≡ contains_byte c s || contains_byte c t
unfolding contains_byte
contains_byte-append c [] t = refl
contains_byte-append c (x ∷ s) t = ground (arith, contains_byte-append c s t)

pub cut-append :
    (c : ℕ) (s t : Bytes) → contains_byte c s ≡ false → cut c (s ++ c ∷ t) ≡ some (s, t)
unfolding cut contains_byte
cut-append c [] t h = ground arith
cut-append c (x ∷ s) t h = ground (arith, cut-append c s t)

pub cut_last-none : (c : ℕ) (s : Bytes) → contains_byte c s ≡ false → cut_last c s ≡ none
unfolding cut_last contains_byte
cut_last-none c [] h = refl
cut_last-none c (x ∷ s) h = ground (arith, cut_last-none c s)

pub cut_last-append :
    (c : ℕ) (s t : Bytes) → contains_byte c t ≡ false → cut_last c (s ++ c ∷ t) ≡ some (s, t)
unfolding cut_last
cut_last-append c [] t h = ground (arith, cut_last-none c t)
cut_last-append c (x ∷ s) t h = rw (cut_last-append c s t h) refl

-- Splitting a part with no separator, and what follows the separator behind it.
pub split-append :
    (c : ℕ) (s t : Bytes) → contains_byte c s ≡ false → split c (s ++ c ∷ t) ≡ s ∷ split c t
unfolding split contains_byte
split-append c [] t h = ground arith
split-append c (x ∷ s) t h = ground (arith, split-append c s t)

pub split-whole : (c : ℕ) (s : Bytes) → contains_byte c s ≡ false → split c s ≡ s ∷ []
unfolding split contains_byte
split-whole c [] h = refl
split-whole c (x ∷ s) h = ground (arith, split-whole c s)

-- Parts with no separator are split as they were joined.
pub split-join :
    (c : ℕ) (part : Bytes) (parts : List Bytes)
    → All (λ s. contains_byte c s ≡ false) (part ∷ parts)
    → split c (join c (part ∷ parts)) ≡ part ∷ parts
unfolding join
split-join c part [] (h, _) = split-whole c part h
split-join c part (next ∷ parts) (h, hs) =
    rw (split-append c part (join c (next ∷ parts)) h)
      (ap (λ ps. part ∷ ps) (split-join c next parts hs))

-- No part of a split holds the separator.
pub split-All : (c : ℕ) (s : Bytes) → All (λ part. contains_byte c part ≡ false) (split c s)
unfolding split contains_byte
split-All c [] = (refl, tt)
split-All c (x ∷ s) = go (split c s) (split-All c s)
  where
    go :
        (parts : List Bytes)
        → All (λ part. contains_byte c part ≡ false) parts
        → All
            (λ part. contains_byte c part ≡ false)
            (if x == c then [] ∷ parts else cons_head x parts)
    go [] h = ground arith
    go (part ∷ parts) h = ground arith
