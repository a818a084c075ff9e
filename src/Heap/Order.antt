-- ===== src/Heap/Order.antt =====
-- What a queue keeps: its elements, their number, and the order in which they come out.
use vector_search_engine.Base.{
  ℕ, suc, Bool, true, false, ◌||◌, ◌==◌, has, map, List, [], ◌∷◌, length, All, All-imp, Pairs, ◌≡◌,
  refl, arith, Bool-cases, inl, inr, ap, ◌∙◌,
}
use mathlib.Core.List.{Perm}
use mathlib.Core.List.Perm
use vector_search_engine.Platform.{Platform, IsOrdered}
use vector_search_engine.Heap.{emplace, sort, farther_first, closer_first, pair_less}

-- a strict weak order
pub record IsLess {ℓ} {A : Type ℓ} (less : A → A → Bool) : Type ℓ where
  pub irrefl : (a : A) → less a a ≡ false
  pub trans : (a b c : A) → less a b ≡ true → less b c ≡ true → less a c ≡ true
  pub weak : (a b c : A) → less a b ≡ false → less b c ≡ false → less a c ≡ false

-- No element is above one that comes out before it.
abbrev pub IsQueue {ℓ} : {A : Type ℓ} → (A → A → Bool) → List A → Type 0
IsQueue less xs = Pairs (λ x y. less x y ≡ false) xs

module _ {ℓ} {A : Type ℓ} (less : A → A → Bool) where
  pub length-emplace : (c : A) (h : List A) → length (emplace less c h) ≡ suc (length h)
  unfolding emplace
  length-emplace c [] = refl
  length-emplace c (e ∷ h) = ground (arith, length-emplace c h)

  pub emplace-perm : (c : A) (h : List A) → Perm (emplace less c h) (c ∷ h)
  unfolding emplace
  emplace-perm c [] = Perm.refl (c ∷ [])
  emplace-perm c (e ∷ h) = elim (Bool-cases (less c e)) [
    | inl below ↦ rw below (Perm.trans (Perm.cons e (emplace-perm c h)) (Perm.swap c e h))
    | inr above ↦ rw above (Perm.refl (c ∷ e ∷ h))
  ]

  pub All-emplace {κ} :
      (Q : A → Type κ) (c : A) (h : List A) → Q c → All Q h → All Q (emplace less c h)
  unfolding emplace
  All-emplace Q c [] q k = (q, tt)
  All-emplace Q c (e ∷ h) q k = elim (Bool-cases (less c e)) [
    | inl below ↦ rw below (k.0, All-emplace Q c h q k.1)
    | inr above ↦ rw above (q, k)
  ]

  pub emplace-IsQueue :
      (c : A) (h : List A) → IsLess less → IsQueue less h → IsQueue less (emplace less c h)
  unfolding emplace
  emplace-IsQueue c [] o k = (tt, tt)
  emplace-IsQueue c (e ∷ h) o k = elim (Bool-cases (less c e)) [
    | inl below ↦ rw below (
      All-emplace (λ y. less e y ≡ false) c h (ground (arith, o.trans e c e, o.irrefl e)) k.0,
      emplace-IsQueue c h o k.1,
    )
    | inr above ↦ rw above (
      (
        above,
        All-imp (λ y. less e y ≡ false) (λ y. less c y ≡ false) h (λ y f. o.weak c e y above f) k.0,
      ),
      k,
    )
  ]

module _ {ℓ} {A : Type ℓ} (less : A → A → Bool) where
  pub length-sort : (cs : List A) → length (sort less cs) ≡ length cs
  unfolding sort
  length-sort [] = refl
  length-sort (c ∷ cs) = length-emplace (λ a b. less b a) c (sort less cs) ∙ ap suc (length-sort cs)

  pub sort-perm : (cs : List A) → Perm (sort less cs) cs
  unfolding sort
  sort-perm [] = Perm.refl []
  sort-perm (c ∷ cs) =
      Perm.trans (emplace-perm (λ a b. less b a) c (sort less cs)) (Perm.cons c (sort-perm cs))

  pub All-sort {κ} : (Q : A → Type κ) (cs : List A) → All Q cs → All Q (sort less cs)
  unfolding sort
  All-sort Q [] h = tt
  All-sort Q (c ∷ cs) h = All-emplace (λ a b. less b a) Q c (sort less cs) h.0 (All-sort Q cs h.1)

  pub sort-IsQueue : (cs : List A) → IsLess less → IsQueue (λ a b. less b a) (sort less cs)
  unfolding sort
  sort-IsQueue [] o = tt
  sort-IsQueue (c ∷ cs) o =
      emplace-IsQueue (λ a b. less b a) c (sort less cs)
        (record {
          irrefl = o.irrefl;
          trans = λ a b d h k. o.trans d b a k h;
          weak = λ a b d h k. o.weak d b a k h;
        })
        (sort-IsQueue cs o)

-- the numbers that a key gives of the elements
module _ {ℓ} {A : Type ℓ} (key : A → ℕ) (less : A → A → Bool) where
  pub has-emplace :
      (c : A) (h : List A) (i : ℕ)
      → has i (map key (emplace less c h)) ≡ ((key c == i) || has i (map key h))
  unfolding emplace
  has-emplace c [] i = refl
  has-emplace c (e ∷ h) i = ground (arith, has-emplace c h i)

pub has-sort {ℓ} :
    {A : Type ℓ} (key : A → ℕ) (less : A → A → Bool) (cs : List A) (i : ℕ)
    → has i (map key (sort less cs)) ≡ has i (map key cs)
unfolding sort
has-sort key less [] i = refl
has-sort key less (c ∷ cs) i =
    has-emplace key (λ a b. less b a) c (sort less cs) i
    ∙ ap (λ b. (key c == i) || b) (has-sort key less cs i)

module _ (P : Platform) (o : IsOrdered P) where
  pub farther_first-IsLess : IsLess (farther_first P)
  unfolding farther_first
  farther_first-IsLess = record {
    irrefl = λ a. o.irrefl a.0;
    trans = λ a b c. o.trans a.0 b.0 c.0;
    weak = λ a b c. o.weak a.0 b.0 c.0;
  }

  pub closer_first-IsLess : IsLess (closer_first P)
  unfolding closer_first
  closer_first-IsLess = record {
    irrefl = λ a. o.irrefl a.0;
    trans = λ a b c h k. o.trans c.0 b.0 a.0 k h;
    weak = λ a b c h k. o.weak c.0 b.0 a.0 k h;
  }

  pub pair_less-IsLess : IsLess (pair_less P)
  unfolding pair_less
  pair_less-IsLess = record {
    irrefl = λ a. ground (arith, o.irrefl a.0);
    trans = λ a b c h k. ground (
      arith,
      o.trans a.0 b.0 c.0,
      o.trans b.0 c.0 a.0,
      o.trans c.0 a.0 b.0,
      o.weak c.0 b.0 a.0,
      o.weak a.0 b.0 c.0,
      o.weak a.0 c.0 b.0,
      o.weak b.0 a.0 c.0,
      o.irrefl a.0,
    );
    weak = λ a b c h k. ground (
      arith,
      o.weak a.0 b.0 c.0,
      o.weak a.0 c.0 b.0,
      o.weak b.0 a.0 c.0,
      o.weak b.0 c.0 a.0,
      o.weak c.0 a.0 b.0,
      o.weak c.0 b.0 a.0,
      o.trans b.0 c.0 a.0,
    );
  }
