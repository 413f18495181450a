-- ===== src/HostPort.antt =====
-- `net.JoinHostPort` and `net.SplitHostPort`, as the program uses them.
use peertopeer.Prelude.{ℕ, ◌+◌, ◌≡◌, Bool, true, false, ◌||◌, not, Option, none, some, arith}
use peertopeer.Prelude.{[], ◌∷◌, ◌++◌, length, drop, ◌==◌, if◌then◌else◌, length-append, Bool-cases}
use peertopeer.Prelude.{inl, inr, ap, ◌∙◌, subst, append_assoc}
use peertopeer.Prelude.Text.{Bytes, contains_byte}
use peertopeer.Prelude.Split.{cut, cut_last, cut-append, cut_last-append, contains_byte-append}

-- A host with a colon stands in brackets.
unfoldable pub join_host_port : Bytes → Bytes → Bytes
join_host_port host port =
    if contains_byte b':' host then b'[' ∷ (host ++ (b']' ∷ b':' ∷ port)) else host ++ (b':' ∷ port)

-- The part after the bracket: the port must follow the closing bracket at once.
abbrev pub split_bracketed : Bytes → Bytes → Bytes → Option (Bytes × Bytes) → Option (Bytes × Bytes)
split_bracketed s before port none = none
split_bracketed s before port (some (opened, after)) =
    if not (length opened + 1 == length before) || contains_byte b'[' s || contains_byte b']' after
    then none
    else some (opened, port)

-- The parts before and behind the last colon of `c ∷ s`.
abbrev pub split_found : ℕ → Bytes → Option (Bytes × Bytes) → Option (Bytes × Bytes)
split_found c s none = none
split_found c s (some (before, port)) =
    if c == b'['
    then split_bracketed s (drop 1 before) port (cut b']' s)
    else if contains_byte b':' before || contains_byte b'[' (c ∷ s) || contains_byte b']' (c ∷ s)
    then none
    else some (before, port)

-- The host ends at the last colon.
unfoldable pub split_host_port : Bytes → Option (Bytes × Bytes)
split_host_port [] = none
split_host_port (c ∷ s) = split_found c s (cut_last b':' (c ∷ s))

-- No colon, and no bracket.
abbrev pub plain : Bytes → Bool
plain s = not (contains_byte b':' s || contains_byte b'[' s || contains_byte b']' s)

bracketed :
    (host port : Bytes)
    → contains_byte b'[' host ≡ false
    → contains_byte b']' host ≡ false
    → plain port ≡ true
    → split_host_port (b'[' ∷ (host ++ (b']' ∷ b':' ∷ port))) ≡ some (host, port)
unfolding split_host_port contains_byte
bracketed host port open_ close p =
    let assoc : (host ++ (b']' ∷ [])) ++ (b':' ∷ port) ≡ host ++ (b']' ∷ b':' ∷ port) =
      append_assoc host (b']' ∷ []) (b':' ∷ port) in
    let last : cut_last b':' (b'[' ∷ (host ++ (b']' ∷ b':' ∷ port)))
        ≡ some (b'[' ∷ (host ++ (b']' ∷ [])), port) =
      subst (λ t. cut_last b':' (b'[' ∷ t) ≡ some (b'[' ∷ (host ++ (b']' ∷ [])), port)) assoc
        (cut_last-append b':' (b'[' ∷ (host ++ (b']' ∷ []))) port (ground arith)) in
    let s : Bytes = host ++ (b']' ∷ b':' ∷ port) in
    ap (split_found b'[' s) last
    ∙ ap (split_bracketed s (host ++ (b']' ∷ [])) port) (cut-append b']' host (b':' ∷ port) close)
    ∙ ground
        (arith, contains_byte-append b'[' host (b']' ∷ b':' ∷ port), length-append host (b']' ∷ []))

direct :
    (host port : Bytes)
    → contains_byte b':' host ≡ false
    → contains_byte b'[' host ≡ false
    → contains_byte b']' host ≡ false
    → plain port ≡ true
    → split_host_port (host ++ (b':' ∷ port)) ≡ some (host, port)
unfolding split_host_port contains_byte
direct [] port colon open_ close p =
    ap (split_found b':' port) (cut_last-append b':' [] port (ground arith)) ∙ ground arith
direct (c ∷ host) port colon open_ close p =
    ap (split_found c (host ++ (b':' ∷ port))) (cut_last-append b':' (c ∷ host) port (ground arith))
    ∙ ground (
      arith,
      contains_byte-append b'[' host (b':' ∷ port),
      contains_byte-append b']' host (b':' ∷ port),
    )

-- A host and a port with no brackets, the port with no colon either, are split as they were joined.
pub split_host_port-join_host_port :
    (host port : Bytes)
    → contains_byte b'[' host ≡ false
    → contains_byte b']' host ≡ false
    → plain port ≡ true
    → split_host_port (join_host_port host port) ≡ some (host, port)
unfolding join_host_port
split_host_port-join_host_port host port open_ close p =
    elim (Bool-cases (contains_byte b':' host)) [
      | inl v6 ↦ rw v6 (bracketed host port open_ close p)
      | inr v4 ↦ rw v4 (direct host port v4 open_ close p)
    ]
