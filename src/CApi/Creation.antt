-- ===== src/CApi/Creation.antt =====
-- hnsw_new: when it gives an index, and what it says when it does not.
use Prim.Native.String.{String}
use vector_search_engine.Base.{
  ℕ, ◌*◌, ◌%◌, ◌^◌, ◌<◌, ◌==◌, ltb, ◌||◌, some, none, if◌then◌else◌, ◌≡◌, ◌⊎◌, refl, inl, inr,
  Bool-cases, arith,
}
use vector_search_engine.Platform.{Platform}
use vector_search_engine.Result.{ok, throw}
use vector_search_engine.Index.{Space, l2, cosine, initial_index, new_index, max_degree}
use vector_search_engine.Index.Construction.{Accepts, new_index-returns}
use vector_search_engine.CApi.{hnsw_new}

-- what is wrong with the arguments, the first of the three guards that fails
abbrev pub Refuses : ℕ → ℕ → ℕ → String → Type 0
Refuses dim max_elements m msg =
    ((dim ≡ 0) × (msg ≡ "dim must be > 0"))
    ⊎ (0 < dim) × (max_elements ≡ 0) × (msg ≡ "maxElements must be > 0")
    ⊎ (0 < dim)
      × (0 < max_elements)
      × ((m ≡ 0) ⊎ (max_degree < (m * 2) % 2 ^ 64))
      × (msg ≡ "M must be in 1..kMaxDegree/2")

module _ (P : Platform) (err : String) (code dim max_elements m ef_construction seed : ℕ) where
  abbrev space : Space
  space = if code == 1 then l2 else cosine

  refused :
      (msg : String)
      → new_index P space dim max_elements m ef_construction seed ≡ throw msg
      → hnsw_new {P = P} err code dim max_elements m ef_construction seed
        ≡ record { returned = tt; last_error = msg; index = none }
  unfolding hnsw_new
  refused msg e = rw (e, hnsw_new)

  accepted :
      new_index P space dim max_elements m ef_construction seed
        ≡ ok (initial_index P space dim max_elements m ef_construction seed)
      → hnsw_new {P = P} err code dim max_elements m ef_construction seed ≡ record {
        returned = tt;
        last_error = err;
        index = some (initial_index P space dim max_elements m ef_construction seed);
      }
  unfolding hnsw_new
  accepted e = rw (e, hnsw_new)

  -- hnsw_new either accepts its arguments, leaves the text of the last error and gives the
  -- initial index, or gives null and sets the text that belongs to the first guard of the
  -- constructor that fails.
  pub hnsw_new-cases :
      let call = hnsw_new err code dim max_elements m ef_construction seed in
      (Accepts P space dim max_elements m ef_construction seed
        × (call.last_error ≡ err)
        × (call.index ≡ some (initial_index P space dim max_elements m ef_construction seed)))
      ⊎ Refuses dim max_elements m call.last_error × (call.index ≡ none)
  unfolding hnsw_new
  hnsw_new-cases = elim (Bool-cases (dim == 0)) [
    | inl z ↦
        let n = refused "dim must be > 0" (unfold new_index in rw z refl) in
        inr (rw n (inl (ground arith, refl)), rw n refl)
    | inr d ↦ elim (Bool-cases (max_elements == 0)) [
      | inl z ↦
          let n = refused "maxElements must be > 0" (unfold new_index in rw (d, z) refl) in
          inr (rw n (inr (inl (ground arith, ground arith, refl))), rw n refl)
      | inr e ↦ elim (Bool-cases (m == 0 || ltb max_degree ((m * 2) % 2 ^ 64))) [
        | inl bad ↦
            let n =
              refused "M must be in 1..kMaxDegree/2" (unfold new_index in rw (d, e, bad) refl) in
            inr (rw n (inr (inr (ground arith, ground arith, ground arith, refl))), rw n refl)
        | inr fine ↦
            let a : Accepts P space dim max_elements m ef_construction seed =
              (ground arith, ground arith, ground arith, ground arith) in
            let n =
              accepted ((new_index-returns P space dim max_elements m ef_construction seed).1 a) in
            inl (a, rw n refl, rw n refl)
      ]
    ]
  ]
