-- ===== src/Shards/Balance.antt =====
-- How the vectors are spread over the shards.
use native.Mathlib.Nat.{mod-lt}
use vector_search_engine.Base.{
  Pairs, Pairs-snoc, All-has_not, ℕ, zero, suc, ◌+◌, ◌<◌, true, false, ◌||◌, ◌&&◌, ◌==◌, ==_iff,
  ltb, List, [], ◌∷◌, ◌++◌, length, length-append, length-set, length-replicate, set, get_or,
  get_or-set_self, get_or-set_ne, get_or-replicate, has, ◌≡◌, ◌≢◌, sym, ap, subst, ◌∙◌, Bool-cases,
  inl, inr, arith,
}
use vector_search_engine.Shards.{hash_key, shard_for, Placement, no_members, place, distribute}

has-snoc : (xs : List ℕ) (j i : ℕ) → has i (xs ++ j ∷ []) ≡ (has i xs || (j == i))
has-snoc [] j i = ground arith
has-snoc (x ∷ xs) j i = ground (arith, has-snoc xs j i)

module _ (client_ids : List ℕ) (num_shards : ℕ) (pos : 0 < num_shards) where
  -- the shard of vector i
  abbrev pub home : ℕ → ℕ
  home i = shard_for (get_or client_ids i 0) i num_shards

  home-lt : (i : ℕ) → home i < num_shards
  unfolding shard_for
  home-lt i = mod-lt (hash_key (get_or client_ids i 0) i) pos

  -- the vectors before n are in the lists of their shards, and nothing else is
  pub record IsPlaced (n : ℕ) (p : Placement) : Type 0 where
    pub counts_size : length p.counts ≡ num_shards
    pub members_size : length p.members ≡ num_shards
    pub counted : (s : ℕ) → s < num_shards → get_or p.counts s 0 ≡ length (get_or p.members s [])
    pub placed :
        (s i : ℕ) → s < num_shards → has i (get_or p.members s []) ≡ (ltb i n && (home i == s))
    pub distinct : (s : ℕ) → s < num_shards → Pairs (λ i j. i ≢ j) (get_or p.members s [])

  no_members-IsPlaced : IsPlaced 0 (no_members num_shards)
  unfolding no_members
  no_members-IsPlaced = record {
    counts_size = length-replicate {A = ℕ} num_shards 0;
    members_size = length-replicate {A = List ℕ} num_shards [];
    counted = λ s lt.
        get_or-replicate {A = ℕ} num_shards s 0
        ∙ ap length (sym (get_or-replicate {A = List ℕ} num_shards s []));
    placed = λ s i lt. ap (has i) (get_or-replicate {A = List ℕ} num_shards s []) ∙ ground arith;
    distinct = λ s lt.
        subst (Pairs (λ i j. i ≢ j)) (sym (get_or-replicate {A = List ℕ} num_shards s [])) tt;
  }

  module _ (n : ℕ) (p : Placement) (h : IsPlaced n p) where
    t : ℕ
    t = home n

    old : List ℕ
    old = get_or p.members t []

    new_members : List (List ℕ)
    new_members = set p.members t (old ++ n ∷ [])

    members_home : get_or new_members t [] ≡ old ++ n ∷ []
    unfolding t new_members
    members_home =
        get_or-set_self p.members t (old ++ n ∷ []) [] (omega (arith, home-lt n, h.members_size))

    members_other : (s : ℕ) → t ≢ s → get_or new_members s [] ≡ get_or p.members s []
    unfolding new_members
    members_other s ne = get_or-set_ne p.members t s (old ++ n ∷ []) [] ne

    counted_home :
        get_or (set p.counts t (get_or p.counts t 0 + 1)) t 0 ≡ length (get_or new_members t [])
    unfolding old t
    counted_home =
        get_or-set_self p.counts t (get_or p.counts t 0 + 1) 0
          (omega (arith, home-lt n, h.counts_size))
        ∙ omega (arith, h.counted t (home-lt n), length-append old (n ∷ []))
        ∙ ap length (sym members_home)

    placed_home : (i : ℕ) → has i (get_or new_members t []) ≡ (ltb i (suc n) && (home i == t))
    unfolding old t
    placed_home i = ap (has i) members_home ∙ has-snoc old n i ∙ elim (Bool-cases (n == i)) [
      | inl same ↦
          let e : (home i == home n) ≡ true =
            (==_iff (home i) (home n)).1 (ap home (sym ((==_iff n i).0 same))) in
          ground (arith, e, same)
      | inr other ↦ ground (arith, h.placed (home n) i (home-lt n), other)
    ]

    placed_other :
        (s i : ℕ)
        → s < num_shards
        → t ≢ s
        → has i (get_or new_members s []) ≡ (ltb i (suc n) && (home i == s))
    unfolding t
    placed_other s i lt ne = ap (has i) (members_other s ne) ∙ elim (Bool-cases (n == i)) [
      | inl same ↦
          let e : (home i == s) ≡ false = ground (arith, ap home ((==_iff n i).0 same)) in
          ground (arith, h.placed s i lt, e)
      | inr other ↦ ground (arith, h.placed s i lt, other)
    ]

    distinct_home : Pairs (λ i j. i ≢ j) (get_or new_members t [])
    unfolding old t
    distinct_home =
        let new : has n old ≡ false = ground (arith, h.placed (home n) n (home-lt n)) in
        subst (Pairs (λ i j. i ≢ j)) (sym members_home)
          (Pairs-snoc old n (h.distinct (home n) (home-lt n)) (All-has_not old n new))

    place-IsPlaced : IsPlaced (suc n) (place client_ids num_shards p n)
    unfolding place t old new_members
    place-IsPlaced = record {
      counts_size = length-set p.counts t (get_or p.counts t 0 + 1) ∙ h.counts_size;
      members_size = length-set p.members t (old ++ n ∷ []) ∙ h.members_size;
      counted = λ s lt. elim (Bool-cases (t == s)) [
        | inl same ↦
            subst
              (λ s.
                get_or (set p.counts t (get_or p.counts t 0 + 1)) s 0
                ≡ length (get_or new_members s []))
              ((==_iff t s).0 same) counted_home
        | inr other ↦
            let ne : t ≢ s = λ e. ground (arith, (==_iff t s).1 e) in
            get_or-set_ne p.counts t s (get_or p.counts t 0 + 1) 0 ne
            ∙ h.counted s lt
            ∙ ap length (sym (members_other s ne))
      ];
      placed = λ s i lt. elim (Bool-cases (t == s)) [
        | inl same ↦
            subst (λ s. has i (get_or new_members s []) ≡ (ltb i (suc n) && (home i == s)))
              ((==_iff t s).0 same) (placed_home i)
        | inr other ↦ placed_other s i lt (λ e. ground (arith, (==_iff t s).1 e))
      ];
      distinct = λ s lt. elim (Bool-cases (t == s)) [
        | inl same ↦
            subst (λ s. Pairs (λ i j. i ≢ j) (get_or new_members s [])) ((==_iff t s).0 same)
              distinct_home
        | inr other ↦
            subst (Pairs (λ i j. i ≢ j))
              (sym (members_other s (λ e. ground (arith, (==_iff t s).1 e)))) (h.distinct s lt)
      ];
    }

  distribute_keeps :
      (m n : ℕ) (p : Placement)
      → IsPlaced n p
      → IsPlaced (n + m) (distribute client_ids num_shards p m n)
  unfolding distribute
  distribute_keeps zero n p h = let z : n + 0 ≡ n = omega arith in rw z h
  distribute_keeps (suc m) n p h =
      let z : n + suc m ≡ suc n + m = omega arith in
      rw z (distribute_keeps m (suc n) (place client_ids num_shards p n) (place-IsPlaced n p h))

  -- For at least one shard, the loop that spreads the first n vectors puts exactly the vectors
  -- below n whose key hashes to a shard into the list of that shard, none twice, and counts as
  -- many as the list has.
  pub distribute-IsPlaced :
      (n : ℕ) → IsPlaced n (distribute client_ids num_shards (no_members num_shards) n 0)
  distribute-IsPlaced n =
      let z : 0 + n ≡ n = omega arith in
      subst (λ k. IsPlaced k (distribute client_ids num_shards (no_members num_shards) n 0)) z
        (distribute_keeps n 0 (no_members num_shards) no_members-IsPlaced)
