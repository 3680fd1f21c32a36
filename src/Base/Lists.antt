-- ===== src/Base/Lists.antt =====
-- Lists measured and cut by native numbers, under the library's names.
use Prim.Native.Nat.{ℕ, zero, suc, ◌+◌, ◌-◌, ◌≤◌, min}
use mathlib.Core.Path.{◌≡◌, refl, sym, ap, ◌∙◌}
use mathlib.Core.List.{List, [], ◌∷◌, ◌++◌}
use mathlib.Core.Option.{Option, none, some}
use native.Mathlib.Omega.{arith}

module _ {ℓ} {A : Type ℓ} where
  abbrev pub length : List A → ℕ
  length [] = 0
  length (x ∷ xs) = suc (length xs)

  abbrev pub get_elem? : List A → ℕ → Option A
  get_elem? [] i = none
  get_elem? (x ∷ xs) zero = some x
  get_elem? (x ∷ xs) (suc i) = get_elem? xs i

  abbrev pub get_or : List A → ℕ → A → A
  get_or [] i d = d
  get_or (x ∷ xs) zero d = x
  get_or (x ∷ xs) (suc i) d = get_or xs i d

  unfoldable pub take : ℕ → List A → List A
  take zero xs = []
  take (suc n) [] = []
  take (suc n) (x ∷ xs) = x ∷ take n xs

  unfoldable pub drop : ℕ → List A → List A
  drop zero xs = xs
  drop (suc n) [] = []
  drop (suc n) (x ∷ xs) = drop n xs

  abbrev pub replicate : ℕ → A → List A
  replicate zero a = []
  replicate (suc n) a = a ∷ replicate n a

  -- Every element satisfies the predicate.
  abbrev pub All {κ} : (A → Type κ) → List A → Type κ
  All P [] = Unit {κ}
  All P (x ∷ xs) = P x × All P xs

  pub length-append : (xs ys : List A) → length (xs ++ ys) ≡ length xs + length ys
  length-append [] ys = omega arith
  length-append (x ∷ xs) ys = omega (arith, length-append xs ys)

module _ {ℓ} {A : Type ℓ} where
  pub take-append-drop : (n : ℕ) (xs : List A) → take n xs ++ drop n xs ≡ xs
  unfolding take drop
  take-append-drop zero xs = refl
  take-append-drop (suc n) [] = refl
  take-append-drop (suc n) (x ∷ xs) = ap (◌∷◌ x) (take-append-drop n xs)

  pub length-take : (n : ℕ) (xs : List A) → length (take n xs) ≡ min n (length xs)
  unfolding take
  length-take zero xs = omega arith
  length-take (suc n) [] = omega arith
  length-take (suc n) (x ∷ xs) = omega (arith, length-take n xs)

  pub length-drop : (n : ℕ) (xs : List A) → length (drop n xs) ≡ length xs - n
  unfolding drop
  length-drop zero xs = omega arith
  length-drop (suc n) [] = omega arith
  length-drop (suc n) (x ∷ xs) = omega (arith, length-drop n xs)

  pub length-replicate : (n : ℕ) (a : A) → length (replicate n a) ≡ n
  length-replicate zero a = refl
  length-replicate (suc n) a = ap suc (length-replicate n a)

  -- Cutting an appended list at the seam.
  pub take-append : (xs ys : List A) (n : ℕ) → n ≡ length xs → take n (xs ++ ys) ≡ xs
  unfolding take
  take-append [] ys zero h = refl
  take-append [] ys (suc n) h = absurd (omega arith)
  take-append (x ∷ xs) ys zero h = absurd (omega arith)
  take-append (x ∷ xs) ys (suc n) h = ap (◌∷◌ x) (take-append xs ys n (omega arith))

  pub drop-append : (xs ys : List A) (n : ℕ) → n ≡ length xs → drop n (xs ++ ys) ≡ ys
  unfolding drop
  drop-append [] ys zero h = refl
  drop-append [] ys (suc n) h = absurd (omega arith)
  drop-append (x ∷ xs) ys zero h = absurd (omega arith)
  drop-append (x ∷ xs) ys (suc n) h = drop-append xs ys n (omega arith)

  pub take_all : (xs : List A) (n : ℕ) → length xs ≤ n → take n xs ≡ xs
  unfolding take
  take_all [] zero h = refl
  take_all [] (suc n) h = refl
  take_all (x ∷ xs) zero h = absurd (omega arith)
  take_all (x ∷ xs) (suc n) h = ap (◌∷◌ x) (take_all xs n (omega arith))

  -- A property of all elements holds of a joined list when it holds of both parts.
  pub append-All {κ} :
      (P : A → Type κ) (left right : List A) → All P left → All P right → All P (left ++ right)
  append-All P [] right l r = r
  append-All P (x ∷ left) right l r =
      let (first, others) = l in (first, append-All P left right others r)

  -- Past the first part of a joined list the second part is read.
  pub drop_past :
      (front back : List A) (n k : ℕ) → n ≡ length front + k → drop n (front ++ back) ≡ drop k back
  unfolding drop
  drop_past [] back n k e = ap (λ t. drop t back) (omega arith)
  drop_past (x ∷ front) back zero k e = absurd (omega arith)
  drop_past (x ∷ front) back (suc n) k e = drop_past front back n k (omega arith)

  pub get_or_past :
      (front back : List A) (n k : ℕ) (other : A)
      → n ≡ length front + k
      → get_or (front ++ back) n other ≡ get_or back k other
  get_or_past [] back n k other e = ap (λ t. get_or back t other) (omega arith)
  get_or_past (x ∷ front) back zero k other e = absurd (omega arith)
  get_or_past (x ∷ front) back (suc n) k other e = get_or_past front back n k other (omega arith)

  pub take_front :
      (n : ℕ) (front back : List A) → n ≤ length front → take n (front ++ back) ≡ take n front
  unfolding take
  take_front zero front back h = refl
  take_front (suc n) [] back h = absurd (omega arith)
  take_front (suc n) (x ∷ front) back h = ap (◌∷◌ x) (take_front n front back (omega arith))

  drop_none : (n : ℕ) → drop {A = A} n [] ≡ []
  unfolding drop
  drop_none zero = refl
  drop_none (suc n) = refl

  pub drop-drop : (n k : ℕ) (xs : List A) → drop k (drop n xs) ≡ drop (n + k) xs
  unfolding drop
  drop-drop zero k xs = ap (λ t. drop t xs) (omega arith)
  drop-drop (suc n) k [] = drop_none k ∙ sym (drop_none (suc n + k))
  drop-drop (suc n) k (x ∷ xs) =
      let more : suc (n + k) ≡ suc n + k = omega arith in
      drop-drop n k xs ∙ ap (λ t. drop t (x ∷ xs)) more

  -- Joined lists with first parts of one length are equal in both parts.
  pub append_cancel :
      (xs ys us vs : List A) → length xs ≡ length ys → xs ++ us ≡ ys ++ vs → (xs ≡ ys) × (us ≡ vs)
  append_cancel [] [] us vs same h = (refl, h)
  append_cancel [] (y ∷ ys) us vs same h = absurd (omega arith)
  append_cancel (x ∷ xs) [] us vs same h = absurd (omega arith)
  append_cancel (x ∷ xs) (y ∷ ys) us vs same h =
      let head : x ≡ y = cc h in
      let tail : xs ++ us ≡ ys ++ vs = cc h in
      let (front, back) = append_cancel xs ys us vs (omega arith) tail in (cc (head, front), back)

  -- Reading behind a cut.
  pub get_or-drop :
      (n k : ℕ) (xs : List A) (other : A) → get_or (drop n xs) k other ≡ get_or xs (n + k) other
  unfolding drop
  get_or-drop zero k xs other = ap (λ t. get_or xs t other) (omega arith)
  get_or-drop (suc n) k [] other = refl
  get_or-drop (suc n) k (x ∷ xs) other =
      let more : suc (n + k) ≡ suc n + k = omega arith in
      get_or-drop n k xs other ∙ ap (λ t. get_or (x ∷ xs) t other) more

  -- A property of all elements of a joined list holds of all elements of both parts.
  pub All-append {κ} :
      (P : A → Type κ) (left right : List A) → All P (left ++ right) → All P left × All P right
  All-append P [] right h = (tt, h)
  All-append P (x ∷ left) right h =
      let (first, others) = h in let (l, r) = All-append P left right others in ((first, l), r)

  pub take-All {κ} : (P : A → Type κ) (n : ℕ) (xs : List A) → All P xs → All P (take n xs)
  unfolding take
  take-All P zero xs h = tt
  take-All P (suc n) [] h = tt
  take-All P (suc n) (x ∷ xs) h = (h.0, take-All P n xs h.1)

  -- Reading and cutting before a cut.
  pub get_or-take :
      (n i : ℕ) (xs : List A) (other : A)
      → suc i ≤ n
      → get_or (take n xs) i other ≡ get_or xs i other
  unfolding take
  get_or-take zero i xs other h = absurd (omega arith)
  get_or-take (suc n) i [] other h = refl
  get_or-take (suc n) zero (x ∷ xs) other h = refl
  get_or-take (suc n) (suc i) (x ∷ xs) other h = get_or-take n i xs other (omega arith)

  pub take-take : (m n : ℕ) (xs : List A) → m ≤ n → take m (take n xs) ≡ take m xs
  unfolding take
  take-take zero n xs h = refl
  take-take (suc m) zero xs h = absurd (omega arith)
  take-take (suc m) (suc n) [] h = refl
  take-take (suc m) (suc n) (x ∷ xs) h = ap (◌∷◌ x) (take-take m n xs (omega arith))

  -- A list around one of its elements.
  pub split_at_lem :
      (xs : List A) (n : ℕ) (other : A)
      → suc n ≤ length xs
      → xs ≡ take n xs ++ (get_or xs n other ∷ drop (suc n) xs)
  unfolding take drop
  split_at_lem [] n other h = absurd (omega arith)
  split_at_lem (x ∷ xs) zero other h = refl
  split_at_lem (x ∷ xs) (suc n) other h = ap (◌∷◌ x) (split_at_lem xs n other (omega arith))
