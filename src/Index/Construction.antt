-- ===== src/Index/Construction.antt =====
-- The constructor of hnsw::Index: what it accepts, and the empty index that it builds.
use vector_search_engine.Base.{
  ℕ, ◌+◌, ◌*◌, ◌%◌, ◌^◌, ◌≤◌, ◌<◌, [], none, some, ◌≡◌, refl, ◌∙◌, arith, length-replicate,
  get_or-replicate, ◌↔◌, ◌⊎◌, inl, inr, Bool-cases, ltb,
}
use vector_search_engine.Platform.{Platform}
use vector_search_engine.Result.{ok}
use vector_search_engine.Visited.Refinement.{new_pool-IsPool}
use vector_search_engine.Index.{Index, Space, new_index, initial_index, find_id, max_degree}
use vector_search_engine.Links.{link_count, link_at}
use vector_search_engine.Index.Invariant.{IsGraph}
use vector_search_engine.Index.Labels.{IsLabelled}

module _ (P : Platform) (space : Space) (dim max_elements m ef_construction seed : ℕ) where
  abbrev built : Index P
  built = initial_index P space dim max_elements m ef_construction seed

  -- the three guards of the constructor
  abbrev pub Accepts : Type 0
  Accepts = (0 < dim) × (0 < max_elements) × (0 < m) × ((m * 2) % 2 ^ 64 ≤ max_degree)

  pub new_index-returns :
      (new_index P space dim max_elements m ef_construction seed ≡ ok built) ↔ Accepts
  unfolding new_index
  new_index-returns = (λ e. ground arith, λ a. ground arith)

  -- For an M below 2 ^ 64 the constructor returns, and does not throw, exactly when the dimension
  -- and the capacity are above 0 and M is from 1 to 128, or from 2 ^ 63 to 2 ^ 63 + 128, where M
  -- * 2 wraps round.
  pub new_index-accepts :
      m < 2 ^ 64
      → (new_index P space dim max_elements m ef_construction seed ≡ ok built) ↔ (
          (0 < dim)
          × (0 < max_elements)
          × (((0 < m) × (m ≤ 128)) ⊎ ((2 ^ 63 ≤ m) × (m ≤ 2 ^ 63 + 128))))
  new_index-accepts wide = (
    λ e.
        let a = new_index-returns.0 e in
        (
          a.0,
          a.1,
          elim (Bool-cases (ltb m (2 ^ 63))) [
            | inl lt ↦ let s : m < 2 ^ 63 = ground arith in inl (omega arith, omega arith)
            | inr ge ↦ let s : 2 ^ 63 ≤ m = ground arith in inr (omega arith, omega arith)
          ],
        ),
    λ c. new_index-returns.1 elim c.2 [
      | inl low ↦ (c.0, c.1, omega arith, omega arith)
      | inr wrapped ↦ (c.0, c.1, omega arith, omega arith)
    ],
  )

  module _ (a : Accepts) (no_wrap : m < 2 ^ 63) (small : max_elements < 2 ^ 32)
      (room : max_elements * dim < 2 ^ 64) where
    m-le : m ≤ 128
    m-le = omega arith

    size-fits : (s : ℕ) → s ≤ 257 → (max_elements * s) % 2 ^ 64 ≡ max_elements * s
    size-fits s le = let bound : max_elements * s ≤ max_elements * 257 = grind arith in omega arith

    -- An accepted call with M below 2 ^ 63 and fewer than 2 ^ 32 slots, of fewer than 2 ^ 64 floats, builds a well-formed index,
    -- which has no element yet and whose label map agrees with its labels.
    pub initial-IsGraph : IsGraph built × IsLabelled built
    unfolding initial_index link_count link_at find_id
    initial-IsGraph =
        let stride = ((m * 2) % 2 ^ 64 + 1) % 2 ^ 64 in
        (
          record {
            store = record {
              shaped = record {
                layer0 = omega (arith, m-le);
                upper = omega (arith, m-le);
                small0 = omega (arith, m-le);
                small = omega (arith, m-le);
              };
              degree = omega (arith, m-le);
              degree_upper = omega (arith, m-le);
              sized = record {
                vectors = length-replicate ((max_elements * dim) % 2 ^ 64) P.fzero ∙ omega arith;
                layer0 =
                    length-replicate ((max_elements * stride) % 2 ^ 64) 0
                    ∙ size-fits stride (omega (arith, m-le));
                upper = length-replicate max_elements [];
                levels = length-replicate max_elements 0;
                labels = length-replicate max_elements (record { client_id = 0; label = 0 });
                deleted = length-replicate max_elements 0;
              };
              capacity = omega arith;
              small = small;
              blocks = λ id l nd. absurd (omega (arith, nd.0));
              unused = λ id lo hi.
                  get_or-replicate ((max_elements * stride) % 2 ^ 64) (id * stride + 0) 0;
              pool = new_pool-IsPool 1 max_elements;
            };
            entry = λ pos. absurd (omega arith);
            top = λ pos. absurd (omega arith);
            none_yet = λ z. refl;
          },
          record {
            known = λ l id f. (let none_some : none ≡ some id = f in cc);
            listed = λ id lt. absurd (omega arith);
          },
        )
