-- ===== src/Tests/Threads.antt =====
-- Two threads at an index with three slots, one between two steps of addPoint, and one thread at a
-- full index.
use vector_search_engine.Base.{ℕ, ◌+◌, ◌≤◌, [], ◌∷◌, some, ◌≡◌, refl, arith, get_or, length}
use vector_search_engine.Index.{find_id, label_eq, initial_index, normalize_in_place}
use vector_search_engine.Index.Labels.{no_label}
use vector_search_engine.Insert.{store, stored_vector}
use vector_search_engine.Delete.{mark_deleted}
use vector_search_engine.Threads.{
  System, Runs, here, later, moves, idle, reserved, filled, named, overfull, check, reserve,
  overrun, give_back, fill, at_rest, count_down,
}
use vector_search_engine.Threads.Invariant.{pending}
use vector_search_engine.Threads.Safety.{ids_in_order, slots_apart, full_when_thrown, label_stays}
use vector_search_engine.Threads.Race.{accepted_twice}
use vector_search_engine.Tests.Samples.{counting, client_label, empty, three}

-- thread 0 has filled slot 0, thread 1 has reserved slot 1
abbrev racing : System counting
racing = record {
  index = record empty {
    count = 2;
    vectors = 5 ∷ 0 ∷ 0 ∷ [];
    labels = client_label 5 ∷ no_label ∷ no_label ∷ [];
  };
  threads = filled (client_label 5) 0 ∷ reserved (9 ∷ []) (client_label 9) 1 ∷ [];
  given = 1 ∷ 0 ∷ [];
}

racing-Runs : Runs (at_rest empty 2) racing
unfolding at_rest find_id label_eq initial_index store stored_vector normalize_in_place
racing-Runs =
    let s1 : Runs (at_rest empty 2) _ =
      later here (moves 0 (omega arith) (check {vec = 5 ∷ []} {label = client_label 5} refl)) in
    let s2 =
      later s1 (moves 1 (omega arith) (check {vec = 9 ∷ []} {label = client_label 9} refl)) in
    let s3 = later s2 (moves 0 (omega arith) (reserve (omega arith))) in
    let s4 = later s3 (moves 1 (omega arith) (reserve (omega arith))) in
    later s4 (moves 0 (omega arith) fill)

-- a thread that found the index full, before and after it gives its id back
abbrev turned_away : System counting
turned_away = record {
  index = record three { count = 4 };
  threads = overfull ∷ [];
  given = 2 ∷ 1 ∷ 0 ∷ [];
}

turned_away-Runs : Runs (at_rest three 1) turned_away
unfolding at_rest find_id label_eq initial_index
turned_away-Runs =
    let s1 : Runs (at_rest three 1) _ =
      later here (moves 0 (omega arith) (check {vec = 4 ∷ []} {label = client_label 4} refl)) in
    later s1 (moves 0 (omega arith) (overrun (omega arith)))

abbrev returned : System counting
returned = record { index = three; threads = idle ∷ []; given = 2 ∷ 1 ∷ 0 ∷ [] }

returned-Runs : Runs (at_rest three 1) returned
unfolding initial_index
returned-Runs = later turned_away-Runs (moves 0 (omega arith) give_back)

ids_in_order_example :
    (racing.given ≡ count_down (length racing.given))
    × (length racing.given ≤ racing.index.max_elements)
    × (racing.index.count ≡ length racing.given + pending racing.threads)
unfolding initial_index
ids_in_order_example = ids_in_order empty 2 refl (omega arith) (omega arith) racing racing-Runs

slots_apart_example : (◌≡◌ {A = ℕ} 1 1) × (1 + 1 ≤ racing.index.max_elements)
unfolding initial_index
slots_apart_example =
    slots_apart empty 2 refl (omega arith) (omega arith) racing racing-Runs 1 1 1 refl refl

label_stays_example : get_or racing.index.labels 0 no_label ≡ client_label 5
unfolding initial_index
label_stays_example =
    label_stays empty 2 refl (omega arith) (omega arith) racing racing-Runs 0 0 (client_label 5)
      refl

full_when_thrown_example : turned_away.given ≡ count_down turned_away.index.max_elements
unfolding initial_index
full_when_thrown_example =
    full_when_thrown three 1 refl (omega arith) (omega arith) turned_away turned_away-Runs 0
      (omega arith) refl

accepted_twice_example :
    (s : System counting) × Runs (at_rest empty 2) s
    × (s.threads ≡ named (client_label 5) 0 ∷ named (client_label 5) 1 ∷ [])
    × (get_or s.index.labels 0 no_label ≡ client_label 5)
    × (get_or s.index.labels 1 no_label ≡ client_label 5)
    × (find_id (client_label 5) s.index.label_to_id ≡ some 1)
    × (get_or (mark_deleted s.index (client_label 5)).1.deleted 0 0 ≡ 0)
unfolding initial_index find_id
accepted_twice_example =
    accepted_twice empty (5 ∷ []) (7 ∷ []) (client_label 5) refl (omega arith) (omega arith) refl
      refl
