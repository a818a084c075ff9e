-- ===== src/Snapshot/Restored.antt =====
-- The arrays of an index, read over those that the constructor made.
use mathlib.Core.List.{append-nil}
use vector_search_engine.Base.{
  ℕ, zero, suc, ◌+◌, ◌*◌, ◌%◌, ◌^◌, ◌≤◌, ◌<◌, List, [], ◌∷◌, ◌++◌, length, length-map,
  length-replicate, append-take-drop, take, drop, replicate, map, All, All-map, All-imp,
  All-replicate, ◌≡◌, refl, ap, sym, ◌∙◌, arith,
}
use vector_search_engine.Platform.{Platform}
use vector_search_engine.Bytes.{array_bytes}
use vector_search_engine.Bytes.Arrays.{Fits, Fits-uint32, Fits-uint64, Fits-byte}
use vector_search_engine.Index.{Index, Label, initial_index}
use vector_search_engine.Index.Invariant.{IsStore}
use vector_search_engine.Snapshot.{Encoding, loaded, label_words, save_rows, read_array, load_rows}
use vector_search_engine.Snapshot.Reading.{at, read_array-saved, load_rows-save_rows}
use vector_search_engine.Snapshot.Labels.{
  IsLabel, length-label_words, drop-label_words, label_words-All-Fits,
}
use vector_search_engine.Snapshot.Conditions.{IsFloat, IsTyped, IsBuilt, IsBlank, fresh}

map-take {ℓ κ} :
    {A : Type ℓ} {B : Type κ} (f : A → B) (n : ℕ) (xs : List A)
    → take n (map f xs) ≡ map f (take n xs)
map-take f zero xs = refl
map-take f (suc n) [] = refl
map-take f (suc n) (x ∷ xs) = ap (◌∷◌ (f x)) (map-take f n xs)

map-drop {ℓ κ} :
    {A : Type ℓ} {B : Type κ} (f : A → B) (n : ℕ) (xs : List A)
    → drop n (map f xs) ≡ map f (drop n xs)
map-drop f zero xs = refl
map-drop f (suc n) [] = refl
map-drop f (suc n) (x ∷ xs) = map-drop f n xs

-- a restored array: the first part from the file and the rest from the constructor
joined {ℓ} :
    {A : Type ℓ} (k : ℕ) (old xs : List A) → drop k old ≡ drop k xs → take k xs ++ drop k old ≡ xs
joined k old xs e = ap (λ r. take k xs ++ r) e ∙ append-take-drop k xs

module _ (w k : ℕ) (old xs : List ℕ) (le : k ≤ length old) (le' : k ≤ length xs)
    (h : All (Fits w) old) (h' : All (Fits w) xs) (same : drop k old ≡ drop k xs) where
  restored :
      (n : ℕ) (r : List ℕ)
      → n ≡ k * w
      → read_array w n old (at (take n (array_bytes w xs) ++ r)) ≡ loaded (xs, at r)
  restored n r e =
      read_array-saved w k old xs le le' h h' n r e
      ∙ ap (λ (ys : List ℕ). loaded (ys, at r)) (joined k old xs same)

module _ {P : Platform} (enc : Encoding P) (idx : Index P) (g : IsStore idx) (t : IsTyped enc idx)
    (b : IsBuilt idx) (blank : IsBlank idx) where
  size-fits : (idx.max_elements * idx.dim) % 2 ^ 64 ≡ idx.max_elements * idx.dim
  size-fits = omega (arith, t.bytes)

  pub stride-eq : ((idx.m * 2) % 2 ^ 64 + 1) % 2 ^ 64 ≡ idx.links.stride_l0
  stride-eq = sym (rw (← b.max_m0) b.stride_l0)

  stride-fits : (n : ℕ) → n ≤ idx.max_elements → n * idx.links.stride_l0 * 4 < 2 ^ 64
  stride-fits n le =
      let s : idx.links.stride_l0 ≤ 257 = omega (arith, g.shaped.layer0, g.degree) in
      let c : n < 2 ^ 32 = omega (arith, g.small) in
      let p : n * idx.links.stride_l0 ≤ n * 257 = grind arith in omega arith

  room : idx.count * idx.dim ≤ idx.max_elements * idx.dim
  room = let c = g.capacity in grind arith

  bits_replicate : (n : ℕ) → All (Fits 4) (map enc.bits (replicate n P.fzero))
  bits_replicate n =
      All-map enc.bits (Fits 4) (replicate n P.fzero)
        (All-replicate (λ x. Fits 4 (enc.bits x)) n P.fzero t.zero.0)

  pub read_vectors :
      (r : List ℕ)
      → let n = (idx.count * idx.dim * 4) % 2 ^ 64 in
        read_array 4 n
          (map enc.bits (fresh idx).vectors)
          (at (take n (array_bytes 4 (map enc.bits idx.vectors)) ++ r))
        ≡ loaded (map enc.bits idx.vectors, at r)
  unfolding initial_index
  read_vectors r =
      let size : length (replicate {A = P.F} (idx.max_elements * idx.dim) P.fzero)
          ≡ idx.max_elements * idx.dim =
        length-replicate {A = P.F} (idx.max_elements * idx.dim) P.fzero in
      rw size-fits (
        restored 4 (idx.count * idx.dim) _ (map enc.bits idx.vectors) (rw (length-map, size) room)
          (rw (length-map, b.vectors) room) (bits_replicate (idx.max_elements * idx.dim))
          (All-map enc.bits (Fits 4) idx.vectors
            (All-imp (IsFloat enc) (λ x. Fits 4 (enc.bits x)) idx.vectors (λ x f. f.0) t.vectors))
          (map-drop enc.bits (idx.count * idx.dim) _
            ∙ ap (map enc.bits) blank.vectors
            ∙ sym (map-drop enc.bits (idx.count * idx.dim) idx.vectors))
          _ r (let c = room in omega (arith, t.bytes)))

  pub read_levels :
      (r : List ℕ)
      → let n = (idx.count * 4) % 2 ^ 64 in
        read_array 4 n (fresh idx).levels (at (take n (array_bytes 4 idx.levels) ++ r))
        ≡ loaded (idx.levels, at r)
  unfolding initial_index
  read_levels r =
      let z : ℕ = 0 in
      restored 4 idx.count (replicate idx.max_elements 0) idx.levels
        (omega (arith, length-replicate idx.max_elements z, g.capacity))
        (omega (arith, g.sized.levels, g.capacity))
        (All-replicate (Fits 4) idx.max_elements 0 (Fits-uint32 0 (omega arith))) t.levels
        blank.levels _ r (omega (arith, g.capacity, g.small))

  pub read_labels :
      (r : List ℕ)
      → let n = (idx.count * 16) % 2 ^ 64 in
        read_array 8 n
          (label_words (fresh idx).labels)
          (at (take n (array_bytes 8 (label_words idx.labels)) ++ r))
        ≡ loaded (label_words idx.labels, at r)
  unfolding initial_index
  read_labels r =
      let none : Label = record { client_id = 0; label = 0 } in
      let f0 = Fits-uint64 0 (omega arith) in
      restored 8 (idx.count * 2) (label_words (replicate idx.max_elements none))
        (label_words idx.labels)
        (omega (
          arith,
          length-label_words (replicate idx.max_elements none),
          length-replicate idx.max_elements none,
          g.capacity,
        ))
        (omega (arith, length-label_words idx.labels, g.sized.labels, g.capacity))
        (label_words-All-Fits _ (All-replicate IsLabel idx.max_elements none (f0, f0)))
        (label_words-All-Fits _ t.labels)
        (drop-label_words idx.count _
          ∙ ap label_words blank.labels
          ∙ sym (drop-label_words idx.count idx.labels))
        _ r (omega (arith, g.capacity, g.small))

  pub read_deleted :
      (r : List ℕ)
      → read_array 1 idx.count
          (fresh idx).deleted
          (at (take idx.count (array_bytes 1 idx.deleted) ++ r))
        ≡ loaded (idx.deleted, at r)
  unfolding initial_index
  read_deleted r =
      let z : ℕ = 0 in
      restored 1 idx.count (replicate idx.max_elements 0) idx.deleted
        (omega (arith, length-replicate idx.max_elements z, g.capacity))
        (omega (arith, g.sized.deleted, g.capacity))
        (All-replicate (Fits 1) idx.max_elements 0 (Fits-byte 0 (omega arith))) t.deleted
        blank.deleted _ r (omega arith)

  pub read_links_l0 :
      (r : List ℕ)
      → let n = (idx.count * (fresh idx).links.stride_l0 * 4) % 2 ^ 64 in
        let n' = (idx.count * idx.links.stride_l0 * 4) % 2 ^ 64 in
        read_array 4 n
          (fresh idx).links.links_l0
          (at (take n' (array_bytes 4 idx.links.links_l0) ++ r))
        ≡ loaded (idx.links.links_l0, at r)
  unfolding initial_index
  read_links_l0 r =
      let s = idx.links.stride_l0 in
      let whole : (idx.max_elements * s) % 2 ^ 64 ≡ idx.max_elements * s =
        omega (arith, stride-fits idx.max_elements (omega arith)) in
      let size = length-replicate {A = ℕ} (idx.max_elements * s) 0 in
      let c = g.capacity in
      let p : idx.count * s ≤ idx.max_elements * s = grind arith in
      rw (stride-eq, whole)
        (restored 4 (idx.count * s) (replicate (idx.max_elements * s) 0) idx.links.links_l0
          (omega (arith, size)) (omega (arith, g.sized.layer0))
          (All-replicate (Fits 4) (idx.max_elements * s) 0 (Fits-uint32 0 (omega arith))) t.links_l0
          blank.links_l0 _ r (omega (arith, stride-fits idx.count g.capacity)))

  pub read_upper :
      load_rows idx.count 0
        (fresh idx).links.links_upper
        (at (save_rows idx.count idx.links.links_upper))
      ≡ loaded (idx.links.links_upper, at [])
  unfolding initial_index
  read_upper =
      let none : List ℕ = [] in
      ap (λ bs. load_rows idx.count 0 (fresh idx).links.links_upper (at bs))
        (sym (append-nil (save_rows idx.count idx.links.links_upper)))
      ∙ load_rows-save_rows idx.count 0 [] (replicate idx.max_elements none) idx.links.links_upper
          [] refl (omega (arith, length-replicate idx.max_elements none, g.capacity))
          (omega (arith, g.sized.upper, g.capacity)) t.links_upper
      ∙ ap (λ (x : List (List ℕ)). loaded (x, at []))
          (joined idx.count _ idx.links.links_upper blank.links_upper)
