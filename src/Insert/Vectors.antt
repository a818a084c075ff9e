-- ===== src/Insert/Vectors.antt =====
-- The copy of a vector into the array of vectors: where it can be read back, and what stays.
use vector_search_engine.Base.{
  ℕ, zero, suc, ◌+◌, ◌*◌, ◌≤◌, ◌<◌, List, [], ◌∷◌, ◌++◌, length, set, take, drop, length-map,
  length-take, take-append, drop-set, ◌≡◌, refl, ap, inl, inr, some, sym, ◌∙◌, subst, arith,
}
use vector_search_engine.Platform.{Platform, IsOrdered}
use vector_search_engine.Result.{ok, throw}
use vector_search_engine.Index.Invariant.{IsGraph}
use vector_search_engine.Index.Labels.{find_id-assign_id, label_eq_iff}
use vector_search_engine.Index.{find_id, Index, Label, get_data, normalize_in_place}
use vector_search_engine.Insert.{add_point, store, stored_vector}
use vector_search_engine.Insert.Outcome.{Added, add_point-Outcome}

module _ {ℓ} {A : Type ℓ} where
  store-nil : (n : ℕ) (v : List A) → store [] n v ≡ []
  unfolding store
  store-nil n [] = refl
  store-nil n (y ∷ v) = store-nil (suc n) v

  store-suc :
      (x : A) (xs : List A) (n : ℕ) (v : List A) → store (x ∷ xs) (suc n) v ≡ x ∷ store xs n v
  unfolding store
  store-suc x xs n [] = refl
  store-suc x xs n (y ∷ v) = store-suc x (set xs n y) (suc n) v

  -- what lies behind the copy stays
  pub drop-store_end :
      (m : ℕ) (xs : List A) (n : ℕ) (v : List A)
      → n + length v ≤ m
      → drop m (store xs n v) ≡ drop m xs
  unfolding store
  drop-store_end m xs n [] le = refl
  drop-store_end m xs n (y ∷ v) le =
      drop-store_end m (set xs n y) (suc n) v (omega arith) ∙ drop-set m xs n y (omega arith)

  -- a copy to the front
  pub store-zero : (xs v : List A) → length v ≤ length xs → store xs 0 v ≡ v ++ drop (length v) xs
  unfolding store
  store-zero xs [] le = refl
  store-zero [] (y ∷ v) le = absurd (omega arith)
  store-zero (x ∷ xs) (y ∷ v) le = store-suc y xs 0 v ∙ ap (◌∷◌ y) (store-zero xs v (omega arith))

  drop-store :
      (n : ℕ) (xs v : List A)
      → n + length v ≤ length xs
      → drop n (store xs n v) ≡ v ++ drop (n + length v) xs
  drop-store zero xs v le =
      let e : 0 + length v ≡ length v = omega arith in rw e (store-zero xs v (omega arith))
  drop-store (suc n) [] v le = absurd (omega arith)
  drop-store (suc n) (x ∷ xs) v le =
      let e : suc n + length v ≡ suc (n + length v) = omega arith in
      rw (store-suc x xs n v, e) (drop-store n xs v (omega arith))

  take-store : (m k : ℕ) (xs v : List A) → m ≤ k → take m (store xs k v) ≡ take m xs
  take-store zero k xs v le = refl
  take-store (suc m) zero xs v le = absurd (omega arith)
  take-store (suc m) (suc k) [] v le = rw store-nil refl
  take-store (suc m) (suc k) (x ∷ xs) v le =
      rw (store-suc x xs k v) (ap (◌∷◌ x) (take-store m k xs v (omega arith)))

  -- what lies before the copy stays
  take-drop-store :
      (n m k : ℕ) (xs v : List A) → n + m ≤ k → take m (drop n (store xs k v)) ≡ take m (drop n xs)
  take-drop-store zero m k xs v le = take-store m k xs v (omega arith)
  take-drop-store (suc n) m zero xs v le = absurd (omega arith)
  take-drop-store (suc n) m (suc k) [] v le = rw store-nil refl
  take-drop-store (suc n) m (suc k) (x ∷ xs) v le =
      rw (store-suc x xs k v) (take-drop-store n m k xs v (omega arith))

module _ {P : Platform} (idx : Index P) (vec : List P.F) where
  pub length-stored_vector-le : length (stored_vector idx vec) ≤ idx.dim
  unfolding stored_vector normalize_in_place
  length-stored_vector-le = grind (arith, length-take idx.dim vec, length-map)

  length-stored_vector : idx.dim ≤ length vec → length (stored_vector idx vec) ≡ idx.dim
  unfolding stored_vector normalize_in_place
  length-stored_vector le = grind (arith, length-take idx.dim vec, length-map)

  module _ (label : Label) (r : Index P) (a : Added idx vec label r)
      (sized : length idx.vectors ≡ idx.max_elements * idx.dim)
      (space : idx.count < idx.max_elements) (le : idx.dim ≤ length vec) where
    get_data-new : get_data r idx.count ≡ stored_vector idx vec
    unfolding get_data
    get_data-new =
        let v = stored_vector idx vec in
        let n = idx.count * idx.dim in
        let len = length-stored_vector le in
        let fits : n + length v ≤ length idx.vectors = grind arith in
        rw (a.dim, a.vectors, drop-store n idx.vectors v fits)
          (ap (λ d. take d (v ++ drop (n + length v) idx.vectors)) (sym len)
            ∙ take-append v (drop (n + length v) idx.vectors) (length v) refl)

    get_data-old : (j : ℕ) → j < idx.count → get_data r j ≡ get_data idx j
    unfolding get_data
    get_data-old j lt =
        rw (a.dim, a.vectors)
          (take-drop-store (j * idx.dim) idx.dim (idx.count * idx.dim) idx.vectors
            (stored_vector idx vec) (grind arith))

  -- Where distances are ordered, on a well-formed index, after an addPoint of at least dim
  -- numbers that returned an id the label map finds this id under the label, getData of the id is
  -- the stored form of the vector (normalised for cosine), and the vectors of the elements before
  -- it are what they were.
  pub get_data-add_point :
      (label : Label) (id : ℕ) (r : Index P)
      → IsOrdered P
      → IsGraph idx
      → idx.dim ≤ length vec
      → add_point idx vec label ≡ some (ok id, r)
      → (find_id label r.label_to_id ≡ some id)
        × (get_data r id ≡ stored_vector idx vec)
        × ((j : ℕ) → j < idx.count → get_data r j ≡ get_data idx j)
  get_data-add_point label id r o g le run =
      let sized = g.store.sized.vectors in
      let (out, run', h, cases) = add_point-Outcome idx vec label o g in
      let same : out ≡ (ok id, r) = cc in
      elim cases [
        | inl (j, taken, e) ↦ (let q : throw _ ≡ ok id = ap (λ p. p.0) (sym e ∙ same) in cc)
        | inr (inl (free, full, e)) ↦ (let q : throw _ ≡ ok id = ap (λ p. p.0) (sym e ∙ same) in cc)
        | inr (inr (free, space, e, a)) ↦
            let i : ok idx.count ≡ ok id = sym e ∙ ap (λ p. p.0) same in
            let k : idx.count ≡ id = cc in
            let a' : Added idx vec label r = subst (λ x. Added idx vec label x.1) same a in
            (
              rw
                  (
                    a'.ids,
                    find_id-assign_id label label idx.count idx.label_to_id,
                    (label_eq_iff label label).1 refl,
                  )
                  (ap some k),
              rw (← k) (get_data-new label r a' sized space le),
              get_data-old label r a' sized space le,
            )
      ]
