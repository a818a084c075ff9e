-- ===== src/Shards/Build.antt =====
-- The loops of src/shard_sim.cpp that build the index of a shard and put its vectors in.
use vector_search_engine.Base.{
  max, ℕ, ◌+◌, ◌*◌, ◌^◌, ◌≤◌, ◌<◌, false, ◌==◌, List, [], ◌∷◌, Option, none, some, length, take,
  drop, get_or, All, All-imp, All-unit, All_of_has, length-below, All-zip, Pairs, ◌≡◌, ◌≢◌, refl,
  ap, ◌∙◌, inl, inr, arith,
}
use vector_search_engine.Platform.{Platform, IsOrdered}
use vector_search_engine.Result.{Result, ok, throw}
use vector_search_engine.Index.{Index, Label, cosine, new_index, initial_index, find_id, label_eq}
use vector_search_engine.Index.Construction.{Accepts, new_index-returns}
use vector_search_engine.Index.Labels.{find_id-assign_id}
use vector_search_engine.Search.{◌>>=◌}
use vector_search_engine.Insert.{add_point}
use vector_search_engine.Insert.Outcome.{Added, add_point-Outcome}
use vector_search_engine.Lifetime.{IsIndex, adds}
use vector_search_engine.Lifetime.Preservation.{Step-IsIndex, initial-IsIndex}
use vector_search_engine.Shards.{Placement, shard_capacity, distribute, no_members}
use vector_search_engine.Shards.Balance.{distribute-IsPlaced}

abbrev pub key : List ℕ → ℕ → Label
key client_ids i = record { client_id = get_or client_ids i 0; label = i }

module _ {P : Platform} (base : List P.F) (dim : ℕ) (client_ids : List ℕ) where
  -- The loop over the members of a shard. An exception of addPoint ends it, and the program.
  unfoldable pub add_members : Index P → List ℕ → Option (Result (Index P))
  add_members idx [] = some (ok idx)
  add_members idx (i ∷ is) =
      add_point idx (take dim (drop (i * dim) base)) (key client_ids i) >>= λ r. elim r.0 [
        | ok id ↦ add_members r.1 is
        | throw msg ↦ some (throw msg)
      ]

  unfoldable pub build_shard : Placement → ℕ → ℕ → ℕ → Option (Result (Index P))
  build_shard p m ef_construction s =
      elim (new_index P cosine dim (shard_capacity p s) m ef_construction 100) [
        | ok idx ↦ add_members idx (get_or p.members s [])
        | throw msg ↦ some (throw msg)
      ]

  build_shard-built :
      (p : Placement) (m ef_construction s : ℕ) (idx : Index P)
      → new_index P cosine dim (shard_capacity p s) m ef_construction 100 ≡ ok idx
      → build_shard p m ef_construction s ≡ add_members idx (get_or p.members s [])
  unfolding build_shard
  build_shard-built p m ef_construction s idx e = rw (e, build_shard) refl

  -- no label of the members is there yet
  abbrev Fresh : Index P → List ℕ → Type 0
  Fresh idx is = All (λ i. find_id (key client_ids i) idx.label_to_id ≡ none) is

  Fresh-Added :
      (idx r : Index P) (vec : List P.F) (i : ℕ) (is : List ℕ)
      → Added idx vec (key client_ids i) r
      → All (λ j. i ≢ j) is
      → Fresh idx is
      → Fresh r is
  unfolding label_eq
  Fresh-Added idx r vec i is a ne fresh =
      All-imp (λ j. (i ≢ j) × (find_id (key client_ids j) idx.label_to_id ≡ none))
        (λ j. find_id (key client_ids j) r.label_to_id ≡ none) is
        (λ j h.
          let other : (i == j) ≡ false = ground (arith, h.0) in
          ap (find_id (key client_ids j)) a.ids
          ∙ find_id-assign_id (key client_ids i) (key client_ids j) idx.count idx.label_to_id
          ∙ ground (arith, other, h.1))
        (All-zip (λ j. i ≢ j) (λ j. find_id (key client_ids j) idx.label_to_id ≡ none) is ne fresh)

  module _ (o : IsOrdered P) where
    -- an addPoint of a fresh label where there is room
    added :
        (idx : Index P) (vec : List P.F) (label : Label)
        → IsIndex idx
        → find_id label idx.label_to_id ≡ none
        → idx.count < idx.max_elements
        → (r : Index P) × (add_point idx vec label ≡ some (ok idx.count, r))
          × IsIndex r
          × Added idx vec label r
    added idx vec label h free room =
        let (r, run, g, out) = add_point-Outcome idx vec label o h.graph in
        elim out [
          | inl (j, taken, e) ↦ absurd (ground (arith, taken, free))
          | inr (inl (f, full, e)) ↦ absurd (omega arith)
          | inr (inr (f, space, e, a)) ↦ (
            r.1,
            run ∙ ap (λ x. some (x, r.1)) e,
            Step-IsIndex idx o h r.1 (adds vec label r run),
            a,
          )
        ]

    add_members-returns :
        (idx : Index P) (is : List ℕ)
        → IsIndex idx
        → Pairs (λ i j. i ≢ j) is
        → Fresh idx is
        → idx.count + length is ≤ idx.max_elements
        → (r : Index P) × (add_members idx is ≡ some (ok r))
          × IsIndex r
          × (r.count ≡ idx.count + length is)
    unfolding add_members
    add_members-returns idx [] h d f le = (idx, refl, h, omega arith)
    add_members-returns idx (i ∷ is) h d f le =
        let (r, run, h', a) =
          added idx (take dim (drop (i * dim) base)) (key client_ids i) h f.0 (omega arith) in
        let (r', run', h'', size) =
          add_members-returns r is h' d.1 (Fresh-Added idx r _ i is a d.0 f.1)
            (omega (arith, a.count, a.max_elements)) in
        (r', rw (run, ◌>>=◌) run', h'', omega (arith, a.count))

-- the placement of the first n vectors
abbrev pub placement : List ℕ → ℕ → ℕ → Placement
placement client_ids num_shards n = distribute client_ids num_shards (no_members num_shards) n 0

module _ {P : Platform} (o : IsOrdered P) (base : List P.F) (client_ids : List ℕ) (num_shards : ℕ)
    (pos : 0 < num_shards) where
  capacity-le :
      (n s : ℕ) → s < num_shards → shard_capacity (placement client_ids num_shards n) s ≤ max n 1
  unfolding shard_capacity
  capacity-le n s lt =
      let h = distribute-IsPlaced client_ids num_shards pos n in
      let members = get_or (placement client_ids num_shards n).members s [] in
      let below : All (λ i. i < n) members =
        All_of_has (λ i. i < n) members (λ i m. ground (arith, h.placed s i lt, m)) in
      omega (arith, length-below n members (h.distinct s lt) below, h.counted s lt)

  -- Where distances are ordered, for at least one shard, fewer than 2 ^ 32 vectors, fewer than 2
  -- ^ 64 floats in as many vectors (and in one vector, where there is none), all of them and
  -- their client ids given, a dimension above 0 and an M from 2 to 128, building a shard of the
  -- capacity that the placement counted raises no exception: it ends with an index in order that
  -- has as many elements as the placement has members of the shard.
  pub build_shard-returns :
      (dim m ef_construction n s : ℕ)
      → s < num_shards
      → n < 2 ^ 32
      → max n 1 * dim < 2 ^ 64
      → n * dim ≤ length base
      → n ≤ length client_ids
      → 0 < dim
      → 1 < m
      → m ≤ 128
      → (r : Index P) × (build_shard base dim client_ids
            (placement client_ids num_shards n)
            m
            ef_construction
            s
          ≡ some (ok r))
        × IsIndex r
        × (r.count ≡ length (get_or (placement client_ids num_shards n).members s []))
  unfolding shard_capacity initial_index find_id
  build_shard-returns dim m ef_construction n s lt small room _ _ pos_dim pos_m le =
      let h = distribute-IsPlaced client_ids num_shards pos n in
      let members = get_or (placement client_ids num_shards n).members s [] in
      let capacity = shard_capacity (placement client_ids num_shards n) s in
      let ok_args : Accepts P cosine dim capacity m ef_construction 100 =
        (pos_dim, omega arith, omega arith, omega arith) in
      let start = initial_index P cosine dim capacity m ef_construction 100 in
      let built = (new_index-returns P cosine dim capacity m ef_construction 100).1 ok_args in
      let (r, run, i, size) =
        add_members-returns base dim client_ids o start members
          (initial-IsIndex P cosine dim capacity m ef_construction 100 ok_args (omega arith)
            (omega (arith, capacity-le n s lt))
            (let p : capacity * dim ≤ max n 1 * dim = grind (arith, capacity-le n s lt) in
              omega arith))
          (h.distinct s lt)
          (All-imp (λ i. Unit {0}) (λ i. find_id (key client_ids i) start.label_to_id ≡ none)
            members (λ i u. refl) (All-unit members))
          (omega (arith, h.counted s lt)) in
      (
        r,
        build_shard-built base dim client_ids (placement client_ids num_shards n) m ef_construction
              s start built
            ∙ run,
        i,
        size ∙ omega arith,
      )
