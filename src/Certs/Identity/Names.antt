-- ===== src/Certs/Identity/Names.antt =====
-- The names that krabitls/src/identity.rs matches.
use krabitls_rs.Base.{
  ℕ, suc, ◌+◌, ◌-◌, ◌≤◌, ◌≡◌, ◌≢◌, ◌↔◌, ◌⊎◌, inl, inr, refl, sym, ap, ap₂, ◌∙◌, List, [], ◌∷◌, ◌++◌,
  length, take, drop, leb, ◌==◌, ◌&&◌, ◌||◌, not, if◌then◌else◌, Bool, true, false, arith,
  Bool-cases, append_assoc,
}
use krabitls_rs.Base.Lists.{
  length-append, length-take, take-append, drop-append, get_or-take, take-take, split_at_lem,
  get_or_past,
}
use krabitls_rs.Base.Bytes.{byte_at}
use krabitls_rs.Certs.Identity.{
  contains, to_ascii_lowercase, ascii_eq_ignore_case, wildcard_matches, dns_name_matches,
}

abbrev pub lowercase : List ℕ → List ℕ
lowercase [] = []
lowercase (x ∷ xs) = to_ascii_lowercase x ∷ lowercase xs

-- A wildcard pattern with the host name that it covers: the first label is one label that is not
-- empty, and what follows it is the rest of the pattern.
pub record IsWildcard (suffix hostname : List ℕ) : Type 0 where
  pub label : List ℕ
  pub tail : List ℕ
  pub some_suffix : suffix ≢ []
  pub no_star : contains 42 suffix ≡ false
  pub some_label : label ≢ []
  pub one_label : contains 46 label ≡ false
  pub whole : hostname ≡ label ++ (46 ∷ tail)
  pub same : lowercase tail ≡ lowercase suffix

ascii_eq_iff :
    (xs ys : List ℕ) → (ascii_eq_ignore_case xs ys ≡ true) ↔ (lowercase xs ≡ lowercase ys)
unfolding ascii_eq_ignore_case
ascii_eq_iff [] [] = ground arith
ascii_eq_iff [] (y ∷ ys) = ground arith
ascii_eq_iff (x ∷ xs) [] = ground arith
ascii_eq_iff (x ∷ xs) (y ∷ ys) = ground (arith, ascii_eq_iff xs ys)

length-lowercase : (xs : List ℕ) → length (lowercase xs) ≡ length xs
length-lowercase [] = refl
length-lowercase (x ∷ xs) = ap suc (length-lowercase xs)

not_empty : (xs : List ℕ) → (length xs == 0) ≡ false → xs ≢ []
not_empty [] h e = absurd (cc h)
not_empty (x ∷ xs) h e = absurd (cc e)

has_length : (xs : List ℕ) → xs ≢ [] → (length xs == 0) ≡ false
has_length [] h = absurd (h refl)
has_length (x ∷ xs) h = ground arith

-- The tests of a wildcard pattern, as they are.
tests :
    (a b c d e : Bool)
    → ((if a
          then false
          else if b
          then false
          else if not c
          then false
          else if not d
          then false
          else if e
          then false
          else true)
        ≡ true)
      ↔ ((a ≡ false) × (b ≡ false) × (c ≡ true) × (d ≡ true) × (e ≡ false))
tests a b c d e = ground arith

neither : (a b : Bool) → ((a || b) ≡ false) ↔ ((a ≡ false) × (b ≡ false))
neither a b = ground arith

wildcard_matches-eq-true :
    (suffix hostname : List ℕ)
    → wildcard_matches suffix hostname ≡ true
    → IsWildcard suffix hostname
unfolding wildcard_matches
wildcard_matches-eq-true suffix hostname h =
    let k = length hostname - length suffix in
    let front = take k hostname in
    let tail = drop k hostname in
    let label = take (length front - 1) front in
    let (a, b, c, d, e) =
      (tests (length suffix == 0 || contains 42 suffix) (leb (length hostname) (length suffix + 1))
          (ascii_eq_ignore_case tail suffix) (byte_at front (length front - 1) == 46)
          (length label == 0 || contains 46 label)).0
        h in
    let (a0, a1) = (neither (length suffix == 0) (contains 42 suffix)).0 a in
    let (e0, e1) = (neither (length label == 0) (contains 46 label)).0 e in
    let long : length suffix + 2 ≤ length hostname = ground (arith, b) in
    let front_len : length front ≡ k = omega (arith, length-take k hostname) in
    let dot : byte_at front (length front - 1) ≡ 46 = ground (arith, d) in
    let dot' : byte_at hostname (k - 1) ≡ 46 =
      sym (get_or-take k (k - 1) hostname 0 (omega arith))
      ∙ ap (byte_at front) (omega arith)
      ∙ dot in
    let label_eq : take (k - 1) hostname ≡ label =
      sym (take-take (k - 1) k hostname (omega arith)) ∙ ap (λ n. take n front) (omega arith) in
    let last : suc (k - 1) ≡ k = omega arith in
    record {
      label = label;
      tail = tail;
      some_suffix = not_empty suffix a0;
      no_star = a1;
      some_label = not_empty label e0;
      one_label = e1;
      whole =
          split_at_lem hostname (k - 1) 0 (omega arith)
          ∙ ap₂ ◌++◌ label_eq (ap₂ ◌∷◌ dot' (ap (λ n. drop n hostname) last));
      same = (ascii_eq_iff tail suffix).0 c;
    }

IsWildcard-wildcard_matches :
    (suffix hostname : List ℕ)
    → IsWildcard suffix hostname
    → wildcard_matches suffix hostname ≡ true
unfolding wildcard_matches
IsWildcard-wildcard_matches suffix hostname w =
    let label = w.label in
    let tail = w.tail in
    let front = label ++ (46 ∷ []) in
    let tail_len : length tail ≡ length suffix =
      sym (length-lowercase tail) ∙ ap length w.same ∙ length-lowercase suffix in
    let whole : hostname ≡ front ++ tail = w.whole ∙ sym (append_assoc label (46 ∷ []) tail) in
    let front_len : length front ≡ length label + 1 = length-append label (46 ∷ []) in
    let host_len : length hostname ≡ length front + length tail =
      ap length whole ∙ length-append front tail in
    let k = length hostname - length suffix in
    let k_eq : k ≡ length front = omega arith in
    let front_eq : take k hostname ≡ front = ap (take k) whole ∙ take-append front tail k k_eq in
    let tail_eq : drop k hostname ≡ tail = ap (drop k) whole ∙ drop-append front tail k k_eq in
    let label_eq : take (length front - 1) front ≡ label =
      take-append label (46 ∷ []) (length front - 1) (omega arith) in
    let dot : byte_at front (length front - 1) ≡ 46 =
      get_or_past label (46 ∷ []) (length front - 1) 0 0 (omega arith) in
    let label_some = has_length label w.some_label in
    let one : 1 ≤ length label = ground (arith, label_some) in
    let a : (length suffix == 0 || contains 42 suffix) ≡ false =
      (neither (length suffix == 0) (contains 42 suffix)).1
        (has_length suffix w.some_suffix, w.no_star) in
    let b : leb (length hostname) (length suffix + 1) ≡ false = ground arith in
    let c = (ascii_eq_iff tail suffix).1 w.same in
    let d : (byte_at front (length front - 1) == 46) ≡ true = ground (arith, dot) in
    let e : (length label == 0 || contains 46 label) ≡ false =
      (neither (length label == 0) (contains 46 label)).1 (label_some, w.one_label) in
    rw (a, b, tail_eq, c, front_eq, d, label_eq, e) refl

-- What it is for a host name to match a name of a certificate: they are equal up to the case of
-- letters and have no star, or the name is a wildcard that covers the host name.
abbrev pub IsMatch : List ℕ → List ℕ → Type 0
IsMatch pattern hostname =
    ((contains 42 pattern ≡ false) × (lowercase pattern ≡ lowercase hostname))
    ⊎ ((suffix : List ℕ) × (pattern ≡ 42 ∷ 46 ∷ suffix) × IsWildcard suffix hostname)

abbrev starts : List ℕ → Bool
starts pattern = (byte_at pattern 0 == 42) && (byte_at pattern 1 == 46)

starts_lem :
    (pattern : List ℕ)
    → starts pattern ≡ true
    → (pattern ≡ 42 ∷ 46 ∷ drop 2 pattern) × (contains 42 pattern ≡ true)
unfolding drop contains
starts_lem [] h = absurd (cc h)
starts_lem (p ∷ []) h = absurd (ground arith)
starts_lem (p ∷ q ∷ suffix) h =
    let p_eq : p ≡ 42 = ground arith in
    let q_eq : q ≡ 46 = ground arith in
    let star : (p == 42) ≡ true = ground arith in
    (ap₂ (λ x y. x ∷ y ∷ suffix) p_eq q_eq, rw star refl)

drop-two : (suffix : List ℕ) → drop 2 (42 ∷ 46 ∷ suffix) ≡ suffix
unfolding drop
drop-two suffix = refl

exact_name :
    (pattern hostname : List ℕ)
    → ((if contains 42 pattern then false else ascii_eq_ignore_case pattern hostname) ≡ true)
      ↔ ((contains 42 pattern ≡ false) × (ascii_eq_ignore_case pattern hostname ≡ true))
exact_name pattern hostname = ground arith

-- A name of a certificate matches a host name exactly when they are equal up to the case of ASCII
-- letters and the name has no star, or the name is `*.` and a suffix that is not empty and has no
-- star, and the host name is one label that is not empty, a dot, and the suffix up to case.
pub dns_name_matches_iff :
    (pattern hostname : List ℕ)
    → (dns_name_matches pattern hostname ≡ true) ↔ IsMatch pattern hostname
unfolding dns_name_matches
dns_name_matches_iff pattern hostname = elim (Bool-cases (starts pattern)) [
  | inl wild ↦
      let (whole, star) = starts_lem pattern wild in
      (
        λ h.
            let run : wildcard_matches (drop 2 pattern) hostname ≡ true =
              sym (
                ap
                  (λ (b : Bool).
                    if b
                    then wildcard_matches (drop 2 pattern) hostname
                    else if contains 42 pattern
                    then false
                    else ascii_eq_ignore_case pattern hostname)
                  wild)
              ∙ h in
            inr (drop 2 pattern, whole, wildcard_matches-eq-true (drop 2 pattern) hostname run),
        λ m. elim m [
          | inl exact ↦ absurd (ground (arith, exact.0))
          | inr found ↦
              let (suffix, shape, w) = found in
              let same : drop 2 pattern ≡ suffix = ap (drop 2) shape ∙ drop-two suffix in
              rw wild (
                ap (λ s. wildcard_matches s hostname) same
                ∙ IsWildcard-wildcard_matches suffix hostname w)
        ],
      )
  | inr plain ↦ (
    λ h.
        let run =
          sym (
            ap
              (λ (b : Bool).
                if b
                then wildcard_matches (drop 2 pattern) hostname
                else if contains 42 pattern
                then false
                else ascii_eq_ignore_case pattern hostname)
              plain)
          ∙ h in
        let (clean, same) = (exact_name pattern hostname).0 run in
        inl (clean, (ascii_eq_iff pattern hostname).0 same),
    λ m. elim m [
      | inl exact ↦
          rw plain
            ((exact_name pattern hostname).1 (exact.0, (ascii_eq_iff pattern hostname).1 exact.1))
      | inr found ↦ let shape = ap starts found.1 in absurd (cc (shape, plain))
    ],
  )
]
