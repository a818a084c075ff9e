-- ===== src/Layer/Marks.antt =====
-- What searchLayer finds does not depend on the visited list that it is given: two runs on lists with
-- the same indices in them go the same way.
use vector_search_engine.Base.{
  ℕ, zero, suc, ◌≤◌, Bool, true, ◌&&◌, ◌||◌, List, [], ◌∷◌, ltb, leb, length, get_elem?, some, none,
  ◌≡◌, refl, sym, ap, ◌∙◌, arith, Bool-cases, List-cases, inl, inr, ◌⊎◌, subst, ◌==◌,
}
use vector_search_engine.Platform.{Platform}
use vector_search_engine.Visited.{VisitedList, test_and_set}
use vector_search_engine.Visited.Refinement.{IsValid, visits, test_and_set-Tests}
use vector_search_engine.Layer.{Layer, enter, offer, scan, next, loop, start}

get_elem?-beyond : (xs : List ℕ) (i : ℕ) → length xs ≤ i → get_elem? xs i ≡ none
get_elem?-beyond [] i le = refl
get_elem?-beyond (x ∷ xs) zero le = absurd (omega arith)
get_elem?-beyond (x ∷ xs) (suc i) le = get_elem?-beyond xs i (omega arith)

-- two valid lists with the same indices
pub record Alike (n : ℕ) (v w : VisitedList) : Type 0 where
  pub left : IsValid n v
  pub right : IsValid n w
  pub same : (j : ℕ) → visits v j ≡ visits w j

test_and_set-beyond :
    (n : ℕ) (v : VisitedList) (i : ℕ) → IsValid n v → n ≤ i → test_and_set v i ≡ (true, v)
unfolding test_and_set
test_and_set-beyond n v i h le =
    rw (get_elem?-beyond v.marks i (omega (arith, h.size)), test_and_set) refl

test_and_set-Alike :
    (n : ℕ) (v w : VisitedList) (i : ℕ)
    → Alike n v w
    → ((test_and_set v i).0 ≡ (test_and_set w i).0)
      × Alike n (test_and_set v i).1 (test_and_set w i).1
test_and_set-Alike n v w i a = elim (Bool-cases (ltb i n)) [
  | inl inside ↦
      let t = test_and_set-Tests n v i a.left (ground arith) in
      let u = test_and_set-Tests n w i a.right (ground arith) in
      (
        t.answer ∙ a.same i ∙ sym u.answer,
        record {
          left = t.valid;
          right = u.valid;
          same = λ j. t.adds j ∙ ap (λ b. (j == i) || b) (a.same j) ∙ sym (u.adds j);
        },
      )
  | inr beyond ↦
      rw
        (
          test_and_set-beyond n v i a.left (ground arith),
          test_and_set-beyond n w i a.right (ground arith),
        )
        (refl, a)
]

module _ (P : Platform) (dist : ℕ → P.F) (links : ℕ → List ℕ) (admits : ℕ → Bool) (ef n : ℕ) where
  -- a state over another visited list
  abbrev pub relist : Layer P → VisitedList → Layer P
  relist s v = record s { visited = v }

  offer-relist :
      (s : Layer P) (w : VisitedList) (i : ℕ)
      → Alike n s.visited w
      → let w' = (test_and_set w i).1 in
        Alike n (offer P dist links admits ef s i).visited w'
        × (offer P dist links admits ef (relist s w) i
            ≡ relist (offer P dist links admits ef s i) w')
  unfolding offer enter
  offer-relist s w i a =
      let (same, b) = test_and_set-Alike n s.visited w i a in
      elim (Bool-cases (test_and_set s.visited i).0) [
        | inl old ↦ rw (sym same ∙ old, old) (b, refl)
        | inr new ↦ elim (Bool-cases (ltb (length s.results) ef || P.flt (dist i) s.worst)) [
          | inl near ↦ rw (sym same ∙ new, new, near) (b, refl)
          | inr far ↦ rw (sym same ∙ new, new, far) (b, refl)
        ]
      ]

  scan-relist :
      (s : Layer P) (w : VisitedList) (is : List ℕ)
      → Alike n s.visited w
      → (w' : VisitedList) × Alike n (scan P dist links admits ef s is).visited w'
        × (scan P dist links admits ef (relist s w) is
            ≡ relist (scan P dist links admits ef s is) w')
  unfolding scan
  scan-relist s w [] a = (w, a, refl)
  scan-relist s w (i ∷ is) a =
      let (b, e) = offer-relist s w i a in
      let (w', c, e') = scan-relist (offer P dist links admits ef s i) (test_and_set w i).1 is b in
      (w', c, ap (λ u. scan P dist links admits ef u is) e ∙ e')

  -- a round ends the loop over both lists, or takes both to states that are alike
  next-relist :
      (s : Layer P) (w : VisitedList)
      → Alike n s.visited w
      → ((next P dist links admits ef s ≡ none) × (next P dist links admits ef (relist s w) ≡ none))
        ⊎ ((t : Layer P) × (w' : VisitedList) × Alike n t.visited w'
            × (next P dist links admits ef s ≡ some t)
            × (next P dist links admits ef (relist s w) ≡ some (relist t w')))
  unfolding next
  next-relist s w a = elim (List-cases s.frontier) [
    | inl empty ↦ inl (rw empty refl, rw empty refl)
    | inr (best, rest, f) ↦ elim (Bool-cases (P.flt s.worst best.0 && leb ef (length s.results))) [
      | inl full ↦ inl (rw (f, full) refl, rw (f, full) refl)
      | inr more ↦
          let (w', b, e) = scan-relist (record s { frontier = rest }) w (links best.1) a in
          let t = scan P dist links admits ef (record s { frontier = rest }) (links best.1) in
          inr (t, w', b, rw (f, more) refl, rw (f, more) (ap some e))
    ]
  ]

  loop-relist :
      (fuel : ℕ) (s : Layer P) (w : VisitedList)
      → Alike n s.visited w
      → (t : Layer P) → loop P dist links admits ef fuel s ≡ some t
      → (w' : VisitedList) × Alike n t.visited w'
        × (loop P dist links admits ef fuel (relist s w) ≡ some (relist t w'))
  unfolding loop
  loop-relist zero s w a t run = absurd (ground arith)
  loop-relist (suc fuel) s w a t run = elim (next-relist s w a) [
    | inl (e, f) ↦
        let same : s ≡ t = ground arith in
        (
          w,
          subst (λ u. Alike n u.visited w) same a,
          rw (f, loop) (ap (λ u. some (relist u w)) same),
        )
    | inr (u, w', b, e, f) ↦
        let opened : loop P dist links admits ef (suc fuel) s ≡ loop P dist links admits ef fuel u =
          rw (e, loop) refl in
        let (w'', c, g) = loop-relist fuel u w' b t (sym opened ∙ run) in (w'', c, rw (f, loop) g)
  ]

  -- From fresh lists the searches end with the same results.
  pub loop-fresh :
      (fuel entry : ℕ) (v w : VisitedList)
      → Alike n v w
      → (t : Layer P)
      → loop P dist links admits ef fuel (start P dist links admits ef v entry) ≡ some t
      → (w' : VisitedList) × Alike n t.visited w'
        × (loop P dist links admits ef fuel (start P dist links admits ef w entry)
            ≡ some (relist t w'))
  unfolding start
  loop-fresh fuel entry v w a t run =
      let (same, b) = test_and_set-Alike n v w entry a in
      loop-relist fuel (start P dist links admits ef v entry) (test_and_set w entry).1 b t run
