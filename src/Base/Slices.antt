-- ===== src/Base/Slices.antt =====
-- The first elements of a list and the rest.
use Prim.Native.Nat.{ℕ, zero, suc, ◌+◌, ◌-◌, ◌≤◌, ◌<◌}
use mathlib.Core.Path.{◌≡◌, refl, ap, sym}
use mathlib.Core.List.{List, [], ◌∷◌, ◌++◌}
use native.Mathlib.Omega.{arith}
use vector_search_engine.Base.Lists.{length, take, drop, set, replicate}

module _ {ℓ} {A : Type ℓ} where
  pub take_nil : (n : ℕ) → take {A = A} n [] ≡ []
  take_nil zero = refl
  take_nil (suc n) = refl

  pub drop_nil : (n : ℕ) → drop {A = A} n [] ≡ []
  drop_nil zero = refl
  drop_nil (suc n) = refl

  pub take-append : (xs ys : List A) (n : ℕ) → length xs ≡ n → take n (xs ++ ys) ≡ xs
  take-append [] ys zero e = refl
  take-append [] ys (suc n) e = absurd (omega arith)
  take-append (x ∷ xs) ys zero e = absurd (omega arith)
  take-append (x ∷ xs) ys (suc n) e = ap (◌∷◌ x) (take-append xs ys n (omega arith))

  pub drop-append : (xs ys : List A) (n : ℕ) → length xs ≡ n → drop n (xs ++ ys) ≡ ys
  drop-append [] ys zero e = refl
  drop-append [] ys (suc n) e = absurd (omega arith)
  drop-append (x ∷ xs) ys zero e = absurd (omega arith)
  drop-append (x ∷ xs) ys (suc n) e = drop-append xs ys n (omega arith)

  pub take-length_add :
      (xs ys : List A) (n k : ℕ) → length xs ≡ n → take (n + k) (xs ++ ys) ≡ xs ++ take k ys
  take-length_add [] ys zero k e = let z : 0 + k ≡ k = omega arith in rw z
  take-length_add [] ys (suc n) k e = absurd (omega arith)
  take-length_add (x ∷ xs) ys zero k e = absurd (omega arith)
  take-length_add (x ∷ xs) ys (suc n) k e =
      let z : suc n + k ≡ suc (n + k) = omega arith in
      rw z (ap (◌∷◌ x) (take-length_add xs ys n k (omega arith)))

  pub drop-length_add :
      (xs ys : List A) (n k : ℕ) → length xs ≡ n → drop (n + k) (xs ++ ys) ≡ drop k ys
  drop-length_add [] ys zero k e = let z : 0 + k ≡ k = omega arith in rw z
  drop-length_add [] ys (suc n) k e = absurd (omega arith)
  drop-length_add (x ∷ xs) ys zero k e = absurd (omega arith)
  drop-length_add (x ∷ xs) ys (suc n) k e =
      let z : suc n + k ≡ suc (n + k) = omega arith in
      rw z (drop-length_add xs ys n k (omega arith))

  pub take_self : (xs : List A) → take (length xs) xs ≡ xs
  take_self [] = refl
  take_self (x ∷ xs) = ap (◌∷◌ x) (take_self xs)

  pub append-take-drop : (n : ℕ) (xs : List A) → take n xs ++ drop n xs ≡ xs
  append-take-drop zero xs = refl
  append-take-drop (suc n) [] = refl
  append-take-drop (suc n) (x ∷ xs) = ap (◌∷◌ x) (append-take-drop n xs)

  pub length-drop : (n : ℕ) (xs : List A) → length (drop n xs) ≡ length xs - n
  length-drop zero xs = omega arith
  length-drop (suc n) [] = omega arith
  length-drop (suc n) (x ∷ xs) = omega (arith, length-drop n xs)

  pub drop-replicate : (n : ℕ) (a : A) → drop n (replicate n a) ≡ []
  drop-replicate zero a = refl
  drop-replicate (suc n) a = drop-replicate n a

  pub nil_of_length : (xs : List A) → length xs ≡ 0 → xs ≡ []
  nil_of_length [] e = refl
  nil_of_length (x ∷ xs) e = absurd (omega arith)

  pub set-append :
      (xs : List A) (y : A) (ys : List A) (i : ℕ) (v : A)
      → length xs ≡ i
      → set (xs ++ y ∷ ys) i v ≡ xs ++ v ∷ ys
  set-append [] y ys zero v e = refl
  set-append [] y ys (suc i) v e = absurd (omega arith)
  set-append (x ∷ xs) y ys zero v e = absurd (omega arith)
  set-append (x ∷ xs) y ys (suc i) v e = ap (◌∷◌ x) (set-append xs y ys i v (omega arith))

  -- a write before the cut
  pub drop-set : (n : ℕ) (xs : List A) (i : ℕ) (v : A) → i < n → drop n (set xs i v) ≡ drop n xs
  drop-set zero xs i v lt = absurd (omega arith)
  drop-set (suc n) [] i v lt = refl
  drop-set (suc n) (x ∷ xs) zero v lt = refl
  drop-set (suc n) (x ∷ xs) (suc i) v lt = drop-set n xs i v (omega arith)

  drop_add : (n k : ℕ) (xs : List A) → drop (n + k) xs ≡ drop k (drop n xs)
  drop_add zero k xs = let z : 0 + k ≡ k = omega arith in rw z
  drop_add (suc n) k [] = let z : suc n + k ≡ suc (n + k) = omega arith in rw z (sym (drop_nil k))
  drop_add (suc n) k (x ∷ xs) =
      let z : suc n + k ≡ suc (n + k) = omega arith in rw z (drop_add n k xs)

  -- what agrees from one place on agrees from a later one on
  pub drop_later :
      (n k : ℕ) (xs ys : List A) → n ≤ k → drop n xs ≡ drop n ys → drop k xs ≡ drop k ys
  drop_later n k xs ys le e =
      let z : k ≡ n + (k - n) = omega arith in
      rw (z, drop_add n (k - n) xs, drop_add n (k - n) ys, e)
