-- ===== src/Prelude/Text.antt =====
-- Go strings and byte slices, as lists of byte values, and what the program uses of the packages
-- strings and encoding/hex. Names and headers are ASCII, on which Unicode folding is letter case.
use Prim.Native.Char.{code}
use Prim.Native.Nat.{ℕ, ◌+◌}
use Prim.Native.String.{String}
use mathlib.Core.Path.{◌≡◌, refl}
use mathlib.Core.Logic.{◌↔◌}
use mathlib.Core.Bool.{Bool, true, false, ◌&&◌, ◌||◌}
use mathlib.Core.List.{List, [], ◌∷◌, ◌++◌, map, reverse, reverse-append}
use native.Mathlib.Omega.{arith}
use peertopeer.Prelude.Tests.{leb, ◌==◌, if◌then◌else◌}
use peertopeer.Prelude.Lists.{length, drop}

abbrev pub Bytes : Type 0
Bytes = List ℕ

-- The bytes of an ASCII literal.
abbrev pub text : String → Bytes
text String.[] = []
text (String.◌∷◌ c s) = code c ∷ text s

-- `a == b` on strings.
unfoldable pub equal : Bytes → Bytes → Bool
equal [] [] = true
equal (x ∷ xs) (y ∷ ys) = (x == y) && equal xs ys
equal _ _ = false

equal-eq : (a b : Bytes) → equal a b ≡ true → a ≡ b
unfolding equal
equal-eq [] [] h = refl
equal-eq [] (y ∷ ys) h = cc
equal-eq (x ∷ xs) [] h = cc
equal-eq (x ∷ xs) (y ∷ ys) h = ground (arith, equal-eq xs ys)

pub equal_refl : (a : Bytes) → equal a a ≡ true
unfolding equal
equal_refl [] = refl
equal_refl (x ∷ xs) = ground (arith, equal_refl xs)

pub equal_iff : (a b : Bytes) → (equal a b ≡ true) ↔ (a ≡ b)
equal_iff a b = (equal-eq a b, λ e. rw e (equal_refl b))

abbrev pub is_empty : Bytes → Bool
is_empty [] = true
is_empty (_ ∷ _) = false

-- `strings.HasPrefix(s, prefix)`.
unfoldable pub has_prefix : Bytes → Bytes → Bool
has_prefix s [] = true
has_prefix [] (_ ∷ _) = false
has_prefix (x ∷ s) (y ∷ p) = (x == y) && has_prefix s p

pub has_prefix-append : (p s : Bytes) → has_prefix (p ++ s) p ≡ true
unfolding has_prefix
has_prefix-append [] s = refl
has_prefix-append (x ∷ p) s = ground (arith, has_prefix-append p s)

-- `strings.TrimPrefix(s, prefix)`.
unfoldable pub trim_prefix : Bytes → Bytes → Bytes
unfolding has_prefix
trim_prefix s prefix = if has_prefix s prefix then drop (length prefix) s else s

-- `strings.ContainsAny(s, chars)`.
unfoldable pub contains_byte : ℕ → Bytes → Bool
contains_byte c [] = false
contains_byte c (x ∷ s) = (c == x) || contains_byte c s

unfoldable pub contains_any : Bytes → Bytes → Bool
unfolding contains_byte
contains_any [] chars = false
contains_any (x ∷ s) chars = contains_byte x chars || contains_any s chars

-- `strings.ToLower`.
unfoldable pub lower_byte : ℕ → ℕ
lower_byte c = if leb b'A' c && leb c b'Z' then c + 32 else c

unfoldable pub to_lower : Bytes → Bytes
unfolding lower_byte
to_lower s = map lower_byte s

-- `strings.EqualFold`.
unfoldable pub equal_fold : Bytes → Bytes → Bool
unfolding to_lower equal
equal_fold a b = equal (to_lower a) (to_lower b)

-- `strings.TrimSpace`: tab to carriage return, and the space.
unfoldable pub is_space : ℕ → Bool
is_space c = (leb 9 c && leb c 13) || (c == 32)

unfoldable pub trim_left : Bytes → Bytes
unfolding is_space
trim_left [] = []
trim_left (c ∷ s) = elim (is_space c) [ true ↦ trim_left s | false ↦ c ∷ s ]

unfoldable pub trim_space : Bytes → Bytes
unfolding trim_left
trim_space s = reverse (trim_left (reverse (trim_left s)))

-- A text with a prefix is the prefix and the rest.
pub has_prefix-eq : (s p : Bytes) → has_prefix s p ≡ true → s ≡ p ++ drop (length p) s
unfolding has_prefix
has_prefix-eq s [] h = refl
has_prefix-eq [] (y ∷ p) h = cc
has_prefix-eq (x ∷ s) (y ∷ p) h = ground (arith, has_prefix-eq s p)

pub trim_prefix-eq : (s p : Bytes) → has_prefix s p ≡ true → s ≡ p ++ trim_prefix s p
unfolding trim_prefix
trim_prefix-eq s p h = rw h (has_prefix-eq s p h)

-- `strings.HasSuffix(s, suffix)`.
unfoldable pub has_suffix : Bytes → Bytes → Bool
has_suffix s suffix = has_prefix (reverse s) (reverse suffix)

pub has_suffix-append : (s suffix : Bytes) → has_suffix (s ++ suffix) suffix ≡ true
unfolding has_suffix
has_suffix-append s suffix =
    rw (reverse-append s suffix) (has_prefix-append (reverse suffix) (reverse s))
