-- ===== src/Shards/Gather.antt =====
-- Scatter and gather: the first k of every shard against all answers.
use vector_search_engine.Base.{
  ℕ, zero, suc, ◌+◌, ◌≤◌, min, Bool, false, List, [], ◌∷◌, ◌++◌, length, take, map, if◌then◌else◌,
  ltb, Bool-cases, inl, inr, All, All-imp, Pairs, Pairs-imp, ◌≡◌, refl, ap, sym, ◌∙◌, arith,
}
use vector_search_engine.Platform.{Platform, IsOrdered}
use vector_search_engine.Heap.{emplace, sort}
use vector_search_engine.Heap.Order.{IsLess, sort-IsQueue}
use vector_search_engine.Search.{SearchResult}
use vector_search_engine.Shards.{Scored, scored, scored_less, gather_pool, gather}

module _ {ℓ} {A : Type ℓ} (near : A → Bool) where
  -- how many elements are near
  pub nearer : List A → ℕ
  nearer [] = 0
  nearer (x ∷ xs) = (if near x then 1 else 0) + nearer xs

  nearer-append : (xs ys : List A) → nearer (xs ++ ys) ≡ nearer xs + nearer ys
  unfolding nearer
  nearer-append [] ys = omega arith
  nearer-append (x ∷ xs) ys = omega (arith, nearer-append xs ys)

  nearer-none : (xs : List A) → All (λ x. near x ≡ false) xs → nearer xs ≡ 0
  unfolding nearer
  nearer-none [] h = refl
  nearer-none (x ∷ xs) h = ground (arith, nearer-none xs h.1, h.0)

  nearer-emplace :
      (less : A → A → Bool) (c : A) (h : List A) → nearer (emplace less c h) ≡ nearer (c ∷ h)
  unfolding nearer emplace
  nearer-emplace less c [] = refl
  nearer-emplace less c (e ∷ h) = ground (arith, nearer-emplace less c h)

  nearer-sort : (less : A → A → Bool) (cs : List A) → nearer (sort less cs) ≡ nearer cs
  unfolding nearer sort
  nearer-sort less [] = refl
  nearer-sort less (c ∷ cs) =
      nearer-emplace (λ a b. less b a) c (sort less cs)
      ∙ ap (λ n. (if near c then 1 else 0) + n) (nearer-sort less cs)

  -- a list in which the near elements come first, cut
  nearer-take :
      (k : ℕ) (xs : List A)
      → Pairs (λ x y. near x ≡ false → near y ≡ false) xs
      → nearer (take k xs) ≡ min k (nearer xs)
  unfolding nearer
  nearer-take zero xs h = omega arith
  nearer-take (suc k) [] h = omega arith
  nearer-take (suc k) (x ∷ xs) h = elim (Bool-cases (near x)) [
    | inl close ↦ rw close (omega (arith, nearer-take k xs h.1))
    | inr far ↦
        let z = nearer-none xs (
          All-imp (λ y. near x ≡ false → near y ≡ false) (λ y. near y ≡ false) xs (λ y f. f far)
            h.0) in
        rw (far, nearer-take k xs h.1, z) (omega arith)
  ]

module _ {ℓ} {A : Type ℓ} where
  take_all : (k : ℕ) (xs : List A) → length xs ≤ k → take k xs ≡ xs
  take_all zero [] le = refl
  take_all zero (x ∷ xs) le = absurd (omega arith)
  take_all (suc k) [] le = refl
  take_all (suc k) (x ∷ xs) le = ap (◌∷◌ x) (take_all k xs (omega arith))

  cut_all : (k : ℕ) (xs : List A) → (if ltb k (length xs) then take k xs else xs) ≡ take k xs
  cut_all k xs = elim (Bool-cases (ltb k (length xs))) [
    | inl over ↦ rw over refl
    | inr fits ↦ rw fits (sym (take_all k xs (ground arith)))
  ]

module _ {P : Platform} where
  -- how many scored results are nearer than d
  abbrev pub nearer_than : P.F → List (Scored P) → ℕ
  nearer_than d = nearer (λ s. P.flt s.distance d)

  -- how many results of a shard are nearer than d
  abbrev pub found_nearer : P.F → List (SearchResult P) → ℕ
  found_nearer d = nearer (λ r. P.flt r.distance d)

  pub found_in : P.F → List (List (SearchResult P)) → ℕ
  found_in d [] = 0
  found_in d (res ∷ rest) = found_nearer d res + found_in d rest

  -- the nearest first
  abbrev pub IsRanked : List (SearchResult P) → Type 0
  IsRanked = Pairs (λ a b. P.flt b.distance a.distance ≡ false)

  module _ (d : P.F) where
    nearer-scored :
        (res : List (SearchResult P)) → nearer_than d (map (scored P) res) ≡ found_nearer d res
    unfolding nearer
    nearer-scored [] = refl
    nearer-scored (r ∷ res) =
        ap (λ n. (if P.flt r.distance d then 1 else 0) + n) (nearer-scored res)

    nearer-gather_pool :
        (answers : List (List (SearchResult P))) (pool : List (Scored P))
        → nearer_than d (gather_pool P pool answers) ≡ nearer_than d pool + found_in d answers
    unfolding gather_pool found_in
    nearer-gather_pool [] pool = omega arith
    nearer-gather_pool (res ∷ rest) pool =
        nearer-gather_pool rest (pool ++ map (scored P) res)
        ∙ omega (
          arith,
          nearer-append (λ s. P.flt s.distance d) pool (map (scored P) res),
          nearer-scored res,
        )

  module _ (o : IsOrdered P) (d : P.F) (k : ℕ) where
    scored_less-IsLess : IsLess (scored_less P)
    unfolding scored_less
    scored_less-IsLess = record {
      irrefl = λ a. o.irrefl a.distance;
      trans = λ a b c. o.trans a.distance b.distance c.distance;
      weak = λ a b c. o.weak a.distance b.distance c.distance;
    }

    nearer-gather :
        (answers : List (List (SearchResult P)))
        → nearer_than d (gather P k answers) ≡ min k (found_in d answers)
    unfolding gather scored_less
    nearer-gather answers =
        let near = λ (s : Scored P). P.flt s.distance d in
        let pool = gather_pool P [] answers in
        let sorted = sort (scored_less P) pool in
        let first =
          Pairs-imp (λ a b. P.flt b.distance a.distance ≡ false)
            (λ a b. near a ≡ false → near b ≡ false) sorted
            (λ a b later far. o.weak b.distance a.distance d later far)
            (sort-IsQueue (scored_less P) pool scored_less-IsLess) in
        ap (nearer near) (cut_all k sorted)
        ∙ nearer-take near k sorted first
        ∙ ap (min k) (
            nearer-sort near (scored_less P) pool
            ∙ nearer-gather_pool d answers []
            ∙ unfold nearer in omega arith)

    -- the first k of every shard
    found_in-take :
        (fulls : List (List (SearchResult P)))
        → All IsRanked fulls
        → min k (found_in d (map (take k) fulls)) ≡ min k (found_in d fulls)
    unfolding found_in
    found_in-take [] h = refl
    found_in-take (full ∷ fulls) h =
        let near = λ (r : SearchResult P). P.flt r.distance d in
        let first =
          Pairs-imp (λ a b. P.flt b.distance a.distance ≡ false)
            (λ a b. near a ≡ false → near b ≡ false) full
            (λ a b later far. o.weak b.distance a.distance d later far) h.0 in
        omega (arith, nearer-take near k full first, found_in-take fulls h.1)

    -- Where distances are ordered and the answers of the shards are ranked, the nearest first,
    -- gathering the first k of each shard yields for every distance d as many results nearer than
    -- d as gathering all of every answer: min(k, the number of results nearer than d in all
    -- answers).
    pub nearer-gather-take :
        (fulls : List (List (SearchResult P)))
        → All IsRanked fulls
        → (nearer_than d (gather P k (map (take k) fulls)) ≡ min k (found_in d fulls))
          × (nearer_than d (gather P k fulls) ≡ min k (found_in d fulls))
    nearer-gather-take fulls h =
        (nearer-gather (map (take k) fulls) ∙ found_in-take fulls h, nearer-gather fulls)
