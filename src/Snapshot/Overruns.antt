-- ===== src/Snapshot/Overruns.antt =====
-- The reads of Index::load that fail or do not fit, over the arrays of any index.
use Prim.Native.String.{String}
use native.Mathlib.Nat.{add-zero}
use vector_search_engine.Base.{
  ℕ, zero, suc, ◌+◌, ◌*◌, ◌%◌, ◌^◌, ◌≤◌, ◌<◌, min, true, false, ltb, leb, List, ◌++◌, length,
  length-drop, length-map, take, drop, map, ◌≡◌, ◌⊎◌, inl, inr, Bool-cases, arith,
}
use vector_search_engine.Platform.{Platform}
use vector_search_engine.Bytes.{array_bytes, words}
use vector_search_engine.Index.{Index}
use vector_search_engine.Snapshot.{
  Encoding, Reader, loaded, undefined, label_words, advance, scalar, read_array, load_row,
  load_rows, load_body,
}
use vector_search_engine.Snapshot.Reading.{at}
use vector_search_engine.Snapshot.Labels.{length-label_words}

-- the stream failed, or has fewer than n bytes left
abbrev pub Short : ℕ → Reader → Type 0
Short n s = (s.good ≡ false) ⊎ (length s.rest < n)

advance-Short : (n k : ℕ) (s : Reader) → Short (n + k) s → Short k (advance n s)
unfolding advance
advance-Short n k s (inl bad) = inl (ground arith)
advance-Short n k s (inr few) = elim (Bool-cases (leb n (length s.rest))) [
  | inl enough ↦ inr (ground (arith, length-drop n s.rest))
  | inr short ↦ inl (ground arith)
]

scalar-Short : (w : ℕ) (s : Reader) → s.good ≡ false → scalar w s ≡ undefined
unfolding scalar advance
scalar-Short w s bad = rw bad

-- A read into an array that has the room goes on, whatever the stream holds.
read_array-goes_on :
    (w n : ℕ) (xs : List ℕ) (s : Reader)
    → n ≤ length xs * w
    → (ys : List ℕ) × (read_array w n xs s ≡ loaded (ys, advance n s))
unfolding read_array
read_array-goes_on w n xs s le =
    let room : ltb (length xs * w) (min n (length s.rest)) ≡ false = ground arith in
    (
      words w (length xs) (take n s.rest ++ drop (min n (length s.rest)) (array_bytes w xs)),
      rw room,
    )

load_rows-Short :
    (n i : ℕ) (rows : List (List ℕ)) (s : Reader)
    → 0 < n
    → s.good ≡ false
    → load_rows n i rows s ≡ undefined
unfolding load_rows load_row
load_rows-Short zero i rows s pos bad = absurd (omega arith)
load_rows-Short (suc n) i rows s pos bad = rw (scalar-Short 4 s bad)

module _ {P : Platform} (enc : Encoding P) (to_string : ℕ → String) (path : String) (idx : Index P)
    (dim cnt ndel ml ep : ℕ) where
  -- how many bytes load reads into each of the five arrays
  abbrev vectors_size : ℕ
  vectors_size = (cnt * dim * 4) % 2 ^ 64

  abbrev levels_size : ℕ
  levels_size = (cnt * 4) % 2 ^ 64

  abbrev labels_size : ℕ
  labels_size = (cnt * 16) % 2 ^ 64

  abbrev links_size : ℕ
  links_size = (cnt * idx.links.stride_l0 * 4) % 2 ^ 64

  -- the arrays have room for the elements that the file announces
  pub record HasRoom : Type 0 where
    pub vectors : vectors_size ≤ length idx.vectors * 4
    pub levels : levels_size ≤ length idx.levels * 4
    pub labels : labels_size ≤ length idx.labels * 16
    pub deleted : cnt ≤ length idx.deleted
    pub links_l0 : links_size ≤ length idx.links.links_l0 * 4

  pub load_body-truncated :
      (bytes : List ℕ)
      → HasRoom
      → 0 < cnt
      → length bytes < vectors_size + (levels_size + (labels_size + (cnt + links_size)))
      → load_body enc to_string path idx dim cnt ndel ml ep (at bytes) ≡ undefined
  unfolding load_body
  load_body-truncated bytes h pos few =
      let s1 = advance vectors_size (at bytes) in
      let s2 = advance levels_size s1 in
      let s3 = advance labels_size s2 in
      let s4 = advance cnt s3 in
      let (xs1, e1) =
        read_array-goes_on 4 vectors_size (map enc.bits idx.vectors) (at bytes)
          (rw length-map h.vectors) in
      let (xs2, e2) = read_array-goes_on 4 levels_size idx.levels s1 h.levels in
      let (xs3, e3) =
        read_array-goes_on 8 labels_size (label_words idx.labels) s2
          (omega (arith, length-label_words idx.labels, h.labels)) in
      let (xs4, e4) = read_array-goes_on 1 cnt idx.deleted s3 (omega (arith, h.deleted)) in
      let (xs5, e5) = read_array-goes_on 4 links_size idx.links.links_l0 s4 h.links_l0 in
      let short = advance-Short links_size 0 s4 (
        rw add-zero (
          advance-Short cnt links_size s3 (
            advance-Short labels_size (cnt + links_size) s2 (
              advance-Short levels_size (labels_size + (cnt + links_size)) s1 (
                advance-Short vectors_size (levels_size + (labels_size + (cnt + links_size)))
                  (at bytes) (inr few)))))) in
      let bad : (advance links_size s4).good ≡ false = elim short [
        | inl b ↦ b
        | inr lt ↦ absurd (omega arith)
      ] in
      rw (
        e1,
        e2,
        e3,
        e4,
        e5,
        load_rows-Short cnt 0 idx.links.links_upper (advance links_size s4) pos bad,
      )

  -- A file that announces more elements than its capacity, and has more bytes than the vectors hold,
  -- makes load write past the vectors.
  pub load_body-overfull :
      (s : Reader)
      → length idx.vectors * 4 < vectors_size
      → length idx.vectors * 4 < length s.rest
      → load_body enc to_string path idx dim cnt ndel ml ep s ≡ undefined
  unfolding load_body read_array
  load_body-overfull s over more =
      let size = length-map enc.bits idx.vectors in
      let room : ltb (length (map enc.bits idx.vectors) * 4) (min vectors_size (length s.rest))
          ≡ true =
        ground (arith, size) in
      rw room
