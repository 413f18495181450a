-- ===== src/Cli/Lists.antt =====
-- The lists that the command line takes.
use peertopeer.Prelude.{
  ◌≡◌, refl, Bool, true, false, ◌||◌, not, List, [], ◌∷◌, ◌++◌, All, arith, if◌then◌else◌, subst,
}
use peertopeer.Prelude.{ok, Bool-cases, inl, inr, append-nil, Result-cases}
use peertopeer.Prelude.Text.{Bytes, is_empty, is_space, trim_left, trim_space, contains_byte}
use peertopeer.Prelude.Split.{split, join, split-join}
use peertopeer.Prelude.Dict.{Dict}
use peertopeer.HostPort.{split_host_port}
use peertopeer.Peer.{Peer}
use peertopeer.Cli.{
  keep_names, parse_exclude_list, split_peer_spec, trim_brackets, host_of, with_port, parse_specs,
  parse_peers,
}
use mathlib.Core.List.{reverse, reverse-append, reverse-cons, reverse-reverse}

-- A text that begins with no space.
abbrev pub begins : Bytes → Bool
begins [] = false
begins (c ∷ s) = not (is_space c)

trim_left-append : (s t : Bytes) → begins s ≡ true → trim_left (s ++ t) ≡ s ++ t
unfolding trim_left
trim_left-append [] t h = cc
trim_left-append (c ∷ s) t h = ground arith

-- A name that has no space around it, is not empty, and holds no comma.
pub record IsName (s : Bytes) : Type 0 where
  pub start : begins s ≡ true
  pub end_ : begins (reverse s) ≡ true
  pub no_comma : contains_byte b',' s ≡ false

trim_space-trimmed : (s : Bytes) → begins s ≡ true → begins (reverse s) ≡ true → trim_space s ≡ s
unfolding trim_space
trim_space-trimmed s h k =
    let left : trim_left s ≡ s =
      subst (λ t. trim_left t ≡ t) (append-nil s) (trim_left-append s [] h) in
    let right : trim_left (reverse s) ≡ reverse s =
      subst (λ t. trim_left t ≡ t) (append-nil (reverse s)) (trim_left-append (reverse s) [] k) in
    rw (left, right) (reverse-reverse s)

begins-append : (s t : Bytes) → begins s ≡ true → begins (s ++ t) ≡ true
begins-append [] t h = cc
begins-append (c ∷ s) t h = h

begins-join :
    (name : Bytes) (names : List Bytes)
    → All IsName (name ∷ names)
    → begins (join b',' (name ∷ names)) ≡ true
unfolding join
begins-join name [] (n, _) = n.start
begins-join name (next ∷ names) (n, _) =
    begins-append name (b',' ∷ join b',' (next ∷ names)) n.start

begins-reverse_join :
    (name : Bytes) (names : List Bytes)
    → All IsName (name ∷ names)
    → begins (reverse (join b',' (name ∷ names))) ≡ true
unfolding join
begins-reverse_join name [] (n, _) = n.end_
begins-reverse_join name (next ∷ names) (n, ns) =
    rw
      (
        reverse-append name (b',' ∷ join b',' (next ∷ names)),
        reverse-cons b',' (join b',' (next ∷ names)),
      )
      (begins-append (reverse (join b',' (next ∷ names)) ++ b',' ∷ []) (reverse name) (
        begins-append (reverse (join b',' (next ∷ names))) (b',' ∷ [])
          (begins-reverse_join next names ns)))

keep_names-All : (names : List Bytes) → All IsName names → keep_names names ≡ names
unfolding keep_names
keep_names-All [] h = refl
keep_names-All (name ∷ names) (n, ns) =
    let same = trim_space-trimmed name n.start n.end_ in
    rw (same, keep_names-All names ns) (kept name n.start)
  where
    kept : (s : Bytes) → begins s ≡ true → (if is_empty s then names else s ∷ names) ≡ s ∷ names
    kept [] h = cc
    kept (c ∷ s) h = refl

no_commas : (names : List Bytes) → All IsName names → All (λ s. contains_byte b',' s ≡ false) names
no_commas [] h = tt
no_commas (name ∷ names) (n, ns) = (n.no_comma, no_commas names ns)

not_blank : (s : Bytes) → begins s ≡ true → is_empty s ≡ false
not_blank [] h = cc
not_blank (c ∷ s) h = refl

-- A list of names that was joined by commas is read back, if no name is empty, has space around it
-- or holds a comma.
pub parse_exclude_list-join :
    (names : List Bytes) → All IsName names → parse_exclude_list (join b',' names) ≡ names
unfolding parse_exclude_list
parse_exclude_list-join [] h = unfold join trim_space trim_left in refl
parse_exclude_list-join (name ∷ names) h =
    let s = begins-join name names h in
    let same = trim_space-trimmed (join b',' (name ∷ names)) s (begins-reverse_join name names h) in
    rw
      (
        same,
        not_blank (join b',' (name ∷ names)) s,
        split-join b',' name names (no_commas (name ∷ names) h),
      )
      (keep_names-All (name ∷ names) h)

-- A device that may be asked: it has a name and an address.
abbrev pub IsTarget : Peer → Type 0
IsTarget p = (is_empty p.host_name ≡ false) × (is_empty p.tail_ip ≡ false) × (p.online ≡ true)

parse_specs-All :
    (specs : List Bytes) (ports : Dict Bytes) (peers : List Peer) (ports' : Dict Bytes)
    → parse_specs specs ports ≡ ok (peers, ports')
    → All IsTarget peers
unfolding parse_specs
parse_specs-All [] ports peers ports' h =
    let none_left : [] ≡ peers = ground arith in subst (All IsTarget) none_left tt
parse_specs-All (spec ∷ specs) ports peers ports' h =
    let (name, addr) = split_peer_spec (trim_space spec) in
    let host = trim_brackets (host_of addr (split_host_port addr)) in
    elim (Bool-cases (is_empty (trim_space spec))) [
      | inl skip ↦ parse_specs-All specs ports peers ports' (ground arith)
      | inr named ↦ elim (Bool-cases (is_empty name || is_empty host)) [
        | inl bad ↦ ground arith
        | inr good ↦
            elim (Result-cases (parse_specs specs (with_port name (split_host_port addr) ports))) [
              | inr (e, failed_) ↦ ground arith
              | inl ((more, ports₂), rest) ↦
                  let p : Peer = record {
                    host_name = name;
                    tail_ip = host;
                    online = true;
                    os = [];
                  } in
                  let all : p ∷ more ≡ peers = ground arith in
                  subst (All IsTarget) all
                    ((ground arith, ground arith, refl), parse_specs-All specs _ more ports₂ rest)
            ]
      ]
    ]

-- Every peer that the flag names has a name and an address, and counts as online.
pub parse_peers-All :
    (s : Bytes) (peers : List Peer) (ports : Dict Bytes)
    → parse_peers s ≡ ok (peers, ports)
    → All IsTarget peers
unfolding parse_peers
parse_peers-All s peers ports h = elim (Bool-cases (is_empty (trim_space s))) [
  | inl blank ↦ let none_left : [] ≡ peers = ground arith in subst (All IsTarget) none_left tt
  | inr named ↦ parse_specs-All (split b',' s) [] peers ports (ground arith)
]
