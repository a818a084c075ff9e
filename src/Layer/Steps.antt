-- ===== src/Layer/Steps.antt =====
-- Queues of candidates: distinct ids, and what pushing a result keeps.
use vector_search_engine.Base.{
  ℕ, ◌+◌, ◌≤◌, ◌<◌, max, Bool, List, [], ◌∷◌, ltb, length, All, Pairs, ◌≡◌, ◌≢◌, sym, arith,
  Bool-cases, inl, inr, ◌⊎◌,
}
use vector_search_engine.Platform.{Platform, IsOrdered}
use vector_search_engine.Heap.{Cand, emplace, farther_first}
use vector_search_engine.Heap.Order.{
  All-emplace, emplace-IsQueue, IsQueue, farther_first-IsLess, length-emplace,
}
use vector_search_engine.Layer.{pop, push_result}

module _ (P : Platform) where
  -- no id occurs twice
  abbrev pub Distinct : List (Cand P) → Type 0
  Distinct cs = Pairs (λ x y. x.1 ≢ y.1) cs

  pub emplace-Distinct :
      (less : Cand P → Cand P → Bool) (c : Cand P) (h : List (Cand P))
      → All (λ y. c.1 ≢ y.1) h
      → Distinct h
      → Distinct (emplace less c h)
  unfolding emplace
  emplace-Distinct less c [] a d = (tt, tt)
  emplace-Distinct less c (e ∷ h) a d = elim (Bool-cases (less c e)) [
    | inl below ↦ rw below (
      All-emplace less (λ y. e.1 ≢ y.1) c h (λ q. a.0 (sym q)) d.0,
      emplace-Distinct less c h a.1 d.1,
    )
    | inr above ↦ rw above (a, d)
  ]

  pop-Distinct : (h : List (Cand P)) → Distinct h → Distinct (pop h)
  unfolding pop
  pop-Distinct [] d = tt
  pop-Distinct (c ∷ h) d = d.1

  pop-IsQueue :
      (less : Cand P → Cand P → Bool) (h : List (Cand P)) → IsQueue less h → IsQueue less (pop h)
  unfolding pop
  pop-IsQueue less [] d = tt
  pop-IsQueue less (c ∷ h) d = d.1

  All-pop : (Q : Cand P → Type 0) (h : List (Cand P)) → All Q h → All Q (pop h)
  unfolding pop
  All-pop Q [] d = tt
  All-pop Q (c ∷ h) d = d.1

  length-pop : (h : List (Cand P)) → length (pop h) + 1 ≤ max 1 (length h)
  unfolding pop
  length-pop [] = omega arith
  length-pop (c ∷ h) = omega arith

-- The result queue is the longer one, or that with its top popped.
module _ (P : Platform) (ef : ℕ) where
  push_result-cases :
      (c : Cand P) (h : List (Cand P))
      → let more = emplace (farther_first P) c h in
        let out = push_result P ef c h in
        (out ≡ more) × (length more ≤ ef) ⊎ (out ≡ pop more) × (ef < length more)
  unfolding push_result
  push_result-cases c h = elim (Bool-cases (ltb ef (length (emplace (farther_first P) c h)))) [
    | inl over ↦ inr (rw over, ground arith)
    | inr fits ↦ inl (rw fits, ground arith)
  ]

  -- What a push keeps: order, distinct ids, the bound, and what holds of all elements.
  pub push_result_keeps :
      (c : Cand P) (h : List (Cand P)) (R : List (Cand P) → Type 0)
      → (R (emplace (farther_first P) c h))
      → (R (pop (emplace (farther_first P) c h)))
      → R (push_result P ef c h)
  push_result_keeps c h R a b = elim (push_result-cases c h) [
    | inl (e, fits) ↦ rw e a
    | inr (e, over) ↦ rw e b
  ]

  module _ (c : Cand P) (h : List (Cand P)) where
    pub push_result-IsQueue :
        IsOrdered P → IsQueue (farther_first P) h → IsQueue (farther_first P) (push_result P ef c h)
    push_result-IsQueue o q =
        let k = emplace-IsQueue (farther_first P) c h (farther_first-IsLess P o) q in
        push_result_keeps c h (IsQueue (farther_first P)) k (pop-IsQueue P (farther_first P) _ k)

    pub push_result-Distinct :
        All (λ y. c.1 ≢ y.1) h → Distinct P h → Distinct P (push_result P ef c h)
    push_result-Distinct a d =
        let k = emplace-Distinct P (farther_first P) c h a d in
        push_result_keeps c h (Distinct P) k (pop-Distinct P _ k)

    pub All-push_result : (Q : Cand P → Type 0) → Q c → All Q h → All Q (push_result P ef c h)
    All-push_result Q q a =
        let k = All-emplace (farther_first P) Q c h q a in
        push_result_keeps c h (All Q) k (All-pop P Q _ k)

    pub length-push_result : length h ≤ max 1 ef → length (push_result P ef c h) ≤ max 1 ef
    length-push_result b = elim (push_result-cases c h) [
      | inl (e, fits) ↦ rw e (omega arith)
      | inr (e, over) ↦ rw e (
          omega (
            arith,
            length-pop P (emplace (farther_first P) c h),
            length-emplace (farther_first P) c h,
          ))
    ]
