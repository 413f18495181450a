-- ===== src/FilePath/Within.antt =====
-- One path is within another exactly if its elements begin with the other's.
use peertopeer.Prelude.{Bool, true, false, ◌&&◌, not, if◌then◌else◌}
use peertopeer.Prelude.{
  List, [], ◌∷◌, ◌++◌, is_nil, All, ◌≡◌, ◌≢◌, ◌↔◌, refl, arith, ap, Bool-cases, inl, inr, ◌∙◌,
  subst,
}
use peertopeer.Prelude.Text.{Bytes, text, equal, has_prefix, equal_iff, equal_refl, contains_byte}
use peertopeer.Prelude.Split.{split, join, split-All}
use peertopeer.FilePath.{
  is_abs, push_element, push_elements, elements, strip, goes_up, ups, downs, rel, rel_rest, below,
  stays_below, path_within,
}
use mathlib.Core.List.{reverse_aux}

-- An element holds no slash.
abbrev pub NoSlash : Bytes → Type 0
NoSlash s = contains_byte b'/' s ≡ false

up_prefix :
    (s t : Bytes) → NoSlash s → has_prefix (s ++ b'/' ∷ t) (text "../") ≡ equal s (text "..")
unfolding has_prefix equal contains_byte
up_prefix [] t h = ground arith
up_prefix (a ∷ []) t h = ground arith
up_prefix (a ∷ b ∷ []) t h = ground arith
up_prefix (a ∷ b ∷ c ∷ s) t h = ground arith

up_alone : (s : Bytes) → NoSlash s → has_prefix s (text "../") ≡ false
unfolding has_prefix contains_byte
up_alone [] h = refl
up_alone (a ∷ []) h = ground arith
up_alone (a ∷ b ∷ []) h = ground arith
up_alone (a ∷ b ∷ c ∷ s) h = ground arith

up_whole : (s t : Bytes) → NoSlash s → equal (s ++ b'/' ∷ t) (text "..") ≡ false
unfolding equal contains_byte
up_whole [] t h = ground arith
up_whole (a ∷ []) t h = ground arith
up_whole (a ∷ b ∷ []) t h = ground arith
up_whole (a ∷ b ∷ c ∷ s) t h = ground arith

-- The test on the text of a relative path is one on its first element.
stays_below-join :
    (path : List Bytes) → All NoSlash path → stays_below (join b'/' path) ≡ not (goes_up path)
unfolding stays_below join
stays_below-join [] h = unfold equal has_prefix in refl
stays_below-join (s ∷ []) (h, _) = ground (arith, up_alone s h)
stays_below-join (s ∷ t ∷ path) (h, _) =
    rw (up_whole s (join b'/' (t ∷ path)) h, up_prefix s (join b'/' (t ∷ path)) h) refl

push_element-All :
    (rooted : Bool) (before : List Bytes) (e : Bytes)
    → All NoSlash before
    → NoSlash e
    → All NoSlash (push_element rooted before e)
unfolding push_element
push_element-All rooted [] e h n = ground arith
push_element-All rooted (last ∷ before) e h n = ground arith

push_elements-All :
    (rooted : Bool) (before path : List Bytes)
    → All NoSlash before
    → All NoSlash path
    → All NoSlash (push_elements rooted before path)
unfolding push_elements
push_elements-All rooted before [] h p = h
push_elements-All rooted before (e ∷ path) h (n, p) =
    push_elements-All rooted (push_element rooted before e) path
      (push_element-All rooted before e h n) p

All-reverse_onto {κ} :
    (P : Bytes → Type κ) (xs ys : List Bytes) → All P xs → All P ys → All P (reverse_aux xs ys)
All-reverse_onto P [] ys h k = k
All-reverse_onto P (x ∷ xs) ys (p, h) k = All-reverse_onto P xs (x ∷ ys) h (p, k)

elements-NoSlash : (path : Bytes) → All NoSlash (elements path)
unfolding elements
elements-NoSlash path =
    All-reverse_onto NoSlash _ []
      (push_elements-All (is_abs path) [] (split b'/' path) tt (split-All b'/' path)) tt

strip-append : (base rest : List Bytes) → strip base (base ++ rest) ≡ ([], rest)
unfolding strip
strip-append [] rest = refl
strip-append (b ∷ base) rest = rw (equal_refl b) (strip-append base rest)

-- Where nothing of the base is left, the other path is the base and what is left of itself.
strip-down :
    (base targ : List Bytes) → (strip base targ).0 ≡ [] → targ ≡ base ++ (strip base targ).1
unfolding strip
strip-down [] targ h = refl
strip-down (b ∷ base) [] h = cc
strip-down (b ∷ base) (t ∷ targ) h = elim (Bool-cases (equal b t)) [
  | inl e ↦ let same : b ≡ t = (equal_iff b t).0 e in ground (arith, same, strip-down base targ)
  | inr e ↦ ground arith
]

strip-All {κ} :
    (P : Bytes → Type κ) (base targ : List Bytes) → All P targ → All P (strip base targ).1
unfolding strip
strip-All P [] targ h = h
strip-All P (b ∷ base) [] h = tt
strip-All P (b ∷ base) (t ∷ targ) (p, h) = go (equal b t) (strip-All P base targ h)
  where
    go :
        (same : Bool)
        → All P (strip base targ).1
        → All P (if same then strip base targ else (b ∷ base, t ∷ targ)).1
    go true k = k
    go false k = (p, h)

ups-NoSlash : (up down : List Bytes) → All NoSlash down → All NoSlash (ups up ++ down)
unfolding contains_byte
ups-NoSlash [] down h = h
ups-NoSlash (u ∷ up) down h = (refl, ups-NoSlash up down h)

downs-NoSlash :
    (rooted : Bool) (targ down : List Bytes)
    → All NoSlash down
    → All NoSlash (downs rooted targ down)
unfolding contains_byte
downs-NoSlash rooted targ down h = go (is_nil targ && not rooted)
  where
    go : (b : Bool) → All NoSlash (if b then text "." ∷ [] else down)
    go true = (refl, tt)
    go false = h

-- A relative path that must first go up does not stay below.
up-below :
    (b t : Bool) (targ : List Bytes) (u : Bytes) (up down : List Bytes)
    → All NoSlash down
    → below (rel_rest b t targ (u ∷ up) down) ≡ false
unfolding rel_rest
up-below b t targ u up down h =
    let s : stays_below (join b'/' (text ".." ∷ (ups up ++ downs t targ down))) ≡ false =
      stays_below-join (text ".." ∷ (ups up ++ downs t targ down))
        (ups-NoSlash (u ∷ up) (downs t targ down) (downs-NoSlash t targ down h))
      ∙ up_up in
    ground arith
  where
    up_up : not (goes_up (text ".." ∷ (ups up ++ downs t targ down))) ≡ false
    up_up = rw (equal_refl (text "..")) refl

-- A path that need not go up first stays below unless it begins with `..`.
down-below :
    (rooted : Bool) (targ down : List Bytes)
    → (is_nil down ≡ false → is_nil targ ≡ false)
    → All NoSlash down
    → below (rel_rest rooted rooted targ [] down) ≡ not (goes_up down)
unfolding rel_rest stays_below
down-below rooted targ [] n h = unfold equal has_prefix in ground arith
down-below rooted targ (d ∷ down) n h =
    let s : stays_below (join b'/' (d ∷ down)) ≡ not (goes_up (d ∷ down)) =
      unfold stays_below in stays_below-join (d ∷ down) h in
    ground (arith, s, n refl)

abs-apart :
    (b t : Bool) (targ up down : List Bytes) → b ≢ t → below (rel_rest b t targ up down) ≡ false
unfolding rel_rest
abs-apart true true targ up down n = absurd (n refl)
abs-apart true false targ up down n = refl
abs-apart false true targ up down n = refl
abs-apart false false targ up down n = absurd (n refl)

not_nil : (base down : List Bytes) → is_nil down ≡ false → is_nil (base ++ down) ≡ false
not_nil [] down h = h
not_nil (b ∷ base) down h = refl

-- What containment of paths means: both are absolute or neither is, and the child's elements are the
-- parent's and some more, which do not go up.
pub record IsWithin (parent child : Bytes) : Type 0 where
  pub rest : List Bytes
  pub abs : is_abs parent ≡ is_abs child
  pub begins : elements child ≡ elements parent ++ rest
  pub not_up : goes_up rest ≡ false

eq_bool : Bool → Bool → Bool
eq_bool true b = b
eq_bool false b = not b

eq_bool-eq : (a b : Bool) → eq_bool a b ≡ true → a ≡ b
unfolding eq_bool
eq_bool-eq a b h = ground arith

eq_bool-ne : (a b : Bool) → eq_bool a b ≡ false → a ≢ b
unfolding eq_bool
eq_bool-ne a b h = λ e. ground arith

module _ (parent child : Bytes) where
  path_within-IsWithin : path_within parent child ≡ true → IsWithin parent child
  unfolding path_within rel
  path_within-IsWithin h = go _ refl h
    where
      down : List Bytes
      down = (strip (elements parent) (elements child)).1

      slashes : All NoSlash down
      slashes = strip-All NoSlash (elements parent) (elements child) (elements-NoSlash child)

      go :
          (up : List Bytes)
          → (strip (elements parent) (elements child)).0 ≡ up
          → below (rel_rest (is_abs parent) (is_abs child) (elements child) up down) ≡ true
          → IsWithin parent child
      go (u ∷ up) e w =
          cc (up-below (is_abs parent) (is_abs child) (elements child) u up down slashes)
      go [] e w =
          let begins = strip-down (elements parent) (elements child) e in
          elim (Bool-cases (eq_bool (is_abs parent) (is_abs child))) [
            | inr apart ↦ cc (
                abs-apart (is_abs parent) (is_abs child) (elements child) [] down
                  (eq_bool-ne (is_abs parent) (is_abs child) apart))
            | inl same ↦
                let abs = eq_bool-eq (is_abs parent) (is_abs child) same in
                let below_down =
                  down-below (is_abs child) (elements child) down
                    (λ n. rw begins (not_nil (elements parent) down n)) slashes in
                record {
                  rest = down;
                  abs = abs;
                  begins = begins;
                  not_up = ground (arith, rw abs at w, below_down);
                }
          ]

  IsWithin-path_within : IsWithin parent child → path_within parent child ≡ true
  unfolding path_within rel
  IsWithin-path_within w =
      let stripped : strip (elements parent) (elements child) ≡ ([], w.rest) =
        rw w.begins (strip-append (elements parent) w.rest) in
      let slashes : All NoSlash w.rest =
        subst (λ (r : List Bytes × List Bytes). All NoSlash r.1) stripped
          (strip-All NoSlash (elements parent) (elements child) (elements-NoSlash child)) in
      let low =
        down-below (is_abs child) (elements child) w.rest
          (λ n. rw w.begins (not_nil (elements parent) w.rest n)) slashes in
      rw (stripped, w.abs) (low ∙ ap not w.not_up)

-- `pathWithin` says exactly that the child lies at or below the parent.
pub path_within_iff :
    (parent child : Bytes) → (path_within parent child ≡ true) ↔ IsWithin parent child
path_within_iff parent child =
    (path_within-IsWithin parent child, IsWithin-path_within parent child)
