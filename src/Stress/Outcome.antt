-- ===== src/Stress/Outcome.antt =====
-- The writers of src/stress.cpp from the empty index to the end of their loops.
use vector_search_engine.Base.{
  ℕ, zero, suc, ◌+◌, ◌^◌, ◌≤◌, ◌<◌, List, [], ◌∷◌, none, some, length, get_or, map, replicate, All,
  ◌≡◌, ◌≢◌, refl, ap, sym, ◌∙◌, subst, arith, length-replicate, get_or-replicate,
}
use vector_search_engine.Platform.{Platform}
use vector_search_engine.Index.{Index, Space, initial_index, find_id}
use vector_search_engine.Threads.{idle, count_down, at_rest}
use vector_search_engine.Threads.Invariant.{IsRun}
use vector_search_engine.Threads.Moves.{at_rest-IsRun}
use vector_search_engine.Stress.{
  Writer, fetching, joined, crashed, phase_of, Stress, writer, acts, StressRuns, begun, then,
  stress_start,
}
use vector_search_engine.Stress.Invariant.{task, slotless, total, Fine, IsStress}
use vector_search_engine.Stress.Steps.{Act-IsStress, pending-Fine}

map-replicate :
    (P : Platform) (k : ℕ) → replicate k idle ≡ map (phase_of {P = P}) (replicate k fetching)
map-replicate P zero = refl
map-replicate P (suc k) = ap (◌∷◌ idle) (map-replicate P k)

total-fetching : (P : Platform) (k : ℕ) → total {P = P} slotless (replicate k fetching) ≡ 0
total-fetching P zero = refl
total-fetching P (suc k) = omega (arith, total-fetching P k)

total-joined :
    {P : Platform} (xs : List (Writer P)) → All (λ x. x ≡ joined) xs → total slotless xs ≡ 0
total-joined [] h = refl
total-joined (x ∷ xs) h = rw (h.0) (omega (arith, total-joined xs h.1))

first_joined :
    {P : Platform} (xs : List (Writer P))
    → 0 < length xs
    → All (λ x. x ≡ joined) xs
    → get_or xs 0 fetching ≡ joined
first_joined [] lt h = absurd (omega arith)
first_joined (x ∷ xs) lt h = h.0

module _ (P : Platform) (space : Space) (dim n m ef_construction seed num_writers : ℕ)
    (few : n + num_writers < 2 ^ 32) where
  abbrev empty_index : Index P
  empty_index = initial_index P space dim n m ef_construction seed

  start-IsStress : IsStress n (stress_start empty_index num_writers)
  unfolding initial_index stress_start find_id at_rest
  start-IsStress =
      let resting : (w : ℕ)
          → get_or (replicate {A = Writer P} num_writers fetching) w fetching ≡ fetching =
        λ w. get_or-replicate num_writers w fetching in
      record {
        run =
            subst (λ ts. IsRun (record { index = empty_index; threads = ts; given = [] }))
              (map-replicate P num_writers)
              (at_rest-IsRun empty_index num_writers (length-replicate n _) (omega arith)
                (omega arith));
        room = refl;
        taken = omega (arith, total-fetching P num_writers);
        bounded = omega arith;
        fine = λ w. subst (Fine n 0 []) (sym (resting w)) tt;
        distinct =
            λ v w i e e'. absurd (let q : none ≡ some i = sym (ap task (resting v)) ∙ e in cc);
        unseen = λ i le. refl;
      }

  module _ (base : List P.F) (s : Stress P)
      (runs : StressRuns base dim n (stress_start empty_index num_writers) s) where
    reached-IsStress :
        (t : Stress P)
        → StressRuns base dim n (stress_start empty_index num_writers) t
        → IsStress n t
    reached-IsStress _ begun = start-IsStress
    reached-IsStress _ (then {a} r (acts w lt act)) =
        Act-IsStress base dim n a (reached-IsStress a r) w lt refl act

    -- Where the number n of vectors and the number of writers together stay below 2 ^ 32: at no
    -- moment of a run of the writers of the stress program on the empty index of n slots that the
    -- constructor builds has an exception left a writer, so no call finds its label taken or the
    -- index full.
    pub no_exception : (w : ℕ) → writer s w ≢ crashed
    no_exception w e =
        let h = reached-IsStress s runs in
        omega (arith, subst (Fine n s.next s.index.label_to_id) e (h.fine w))

    -- Where the number n of vectors and the number of writers together stay below 2 ^ 32: in
    -- every run of the writers of the stress program on the empty index of n slots that the
    -- constructor builds, when all writers (at least one) have left their loops, the index counts
    -- n elements, and the ids given out are those below n, each once.
    pub all_inserted :
        0 < length s.writers
        → All (λ x. x ≡ joined) s.writers
        → (s.index.count ≡ n) × (s.given ≡ count_down n)
    all_inserted some_writer done =
        let h = reached-IsStress s runs in
        let through : n ≤ s.next =
          subst (Fine n s.next s.index.label_to_id) (first_joined s.writers some_writer done)
            (h.fine 0) in
        let all : length s.given ≡ n = omega (arith, h.taken, total-joined s.writers done) in
        let quiet = pending-Fine n s.next s.index.label_to_id s.writers h.fine in
        (omega (arith, h.run.counted), h.run.ordered ∙ ap count_down all)
