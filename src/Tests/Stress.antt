-- ===== src/Tests/Stress.antt =====
-- One writer that inserts one vector and finds no other.
use vector_search_engine.Base.{◌≤◌, ◌<◌, [], ◌∷◌, replicate, ◌≡◌, ◌≢◌, refl, arith}
use vector_search_engine.Index.{
  Index, initial_index, l2, find_id, assign_id, label_eq, normalize_in_place,
}
use vector_search_engine.Insert.{attach, assign_row, random_level, store, stored_vector}
use vector_search_engine.Recall.{row}
use vector_search_engine.Threads.{count_down, reserve, fill, enter, draw_level}
use vector_search_engine.Stress.{
  Stress, joined, crashed, writer, StressRuns, begun, then, acts, fetch, begin, go, return, finish,
  stress_start, stress_label,
}
use vector_search_engine.Stress.Outcome.{no_exception, all_inserted}
use vector_search_engine.Tests.Samples.{counting}

abbrev slot : Index counting
slot = initial_index counting l2 1 1 2 4 7

abbrev through : Stress counting
through = record {
  index = record slot {
    vectors = 5 ∷ [];
    levels = 1 ∷ [];
    labels = stress_label 0 ∷ [];
    links = record {
      max_m = 2;
      max_m0 = 4;
      stride_l0 = 5;
      stride_upper = 3;
      links_l0 = replicate 5 0;
      links_upper = (0 ∷ 0 ∷ 0 ∷ []) ∷ [];
    };
    count = 1;
    entry_point = 0;
    max_level = 1;
    label_to_id = (stress_label 0, 0) ∷ [];
    rng = 8;
  };
  next = 2;
  writers = joined ∷ [];
  given = 0 ∷ [];
}

zero_lt_one : 0 < 1
zero_lt_one = omega arith

one_le_one : 1 ≤ 1
one_le_one = omega arith

through_run : StressRuns (5 ∷ []) 1 1 (stress_start slot 1) through
unfolding stress_start initial_index find_id assign_id label_eq normalize_in_place attach assign_row
    random_level store stored_vector row
through_run =
    let s1 : StressRuns (5 ∷ []) 1 1 (stress_start slot 1) _ =
      then begun (acts 0 zero_lt_one (fetch zero_lt_one)) in
    let s2 = then s1 (acts 0 zero_lt_one (begin refl)) in
    let s3 = then s2 (acts 0 zero_lt_one (go refl refl (reserve zero_lt_one))) in
    let s4 = then s3 (acts 0 zero_lt_one (go refl refl fill)) in
    let s5 = then s4 (acts 0 zero_lt_one (go refl refl enter)) in
    let s6 = then s5 (acts 0 zero_lt_one (go refl refl draw_level)) in
    let s7 = then s6 (acts 0 zero_lt_one (return refl)) in
    then s7 (acts 0 zero_lt_one (finish one_le_one))

no_exception_example : writer through 0 ≢ crashed
no_exception_example =
    no_exception counting l2 1 1 2 4 7 1 (omega arith) (5 ∷ []) through through_run 0

all_inserted_example : (through.index.count ≡ 1) × (through.given ≡ count_down 1)
all_inserted_example =
    all_inserted counting l2 1 1 2 4 7 1 (omega arith) (5 ∷ []) through through_run (omega arith)
      (refl, tt)
