-- ===== src/Snapshot/Labels.antt =====
-- The labels of a snapshot: their memory, and the label map that load builds from them.
use vector_search_engine.Base.{
  ℕ, zero, suc, ◌+◌, ◌*◌, ◌%◌, ◌^◌, ◌<◌, false, List, [], ◌∷◌, ◌++◌, length, take, drop, get_or,
  All, Bool-cases, inl, inr, some, none, ◌≡◌, ◌≢◌, refl, ap, ◌∙◌, arith,
}
use vector_search_engine.Bytes.Arrays.{Fits}
use vector_search_engine.Index.{Label, label_eq, find_id, assign_id}
use vector_search_engine.Index.Labels.{no_label, find_id-assign_id, label_eq_iff}
use vector_search_engine.Snapshot.{label_words, labels_of, index_labels}

-- std::vector<Label> read back from its memory
pub labels_of-label_words : (ls : List Label) → labels_of (label_words ls) ≡ ls
unfolding labels_of label_words
labels_of-label_words [] = refl
labels_of-label_words (l ∷ ls) = ap (◌∷◌ l) (labels_of-label_words ls)

pub length-label_words : (ls : List Label) → length (label_words ls) ≡ length ls * 2
unfolding label_words
length-label_words [] = omega arith
length-label_words (l ∷ ls) = omega (arith, length-label_words ls)

pub take-label_words :
    (k : ℕ) (ls : List Label) → take (k * 2) (label_words ls) ≡ label_words (take k ls)
unfolding label_words
take-label_words zero ls = refl
take-label_words (suc k) [] = let e : suc k * 2 ≡ suc (suc (k * 2)) = omega arith in rw e
take-label_words (suc k) (l ∷ ls) =
    let e : suc k * 2 ≡ suc (suc (k * 2)) = omega arith in
    rw e (ap (λ ws. l.client_id ∷ l.label ∷ ws) (take-label_words k ls))

pub drop-label_words :
    (k : ℕ) (ls : List Label) → drop (k * 2) (label_words ls) ≡ label_words (drop k ls)
unfolding label_words
drop-label_words zero ls = refl
drop-label_words (suc k) [] = let e : suc k * 2 ≡ suc (suc (k * 2)) = omega arith in rw e
drop-label_words (suc k) (l ∷ ls) =
    let e : suc k * 2 ≡ suc (suc (k * 2)) = omega arith in rw e (drop-label_words k ls)

pub label_words-append :
    (ks ls : List Label) → label_words (ks ++ ls) ≡ label_words ks ++ label_words ls
unfolding label_words
label_words-append [] ls = refl
label_words-append (k ∷ ks) ls = ap (λ ws. k.client_id ∷ k.label ∷ ws) (label_words-append ks ls)

-- a label of two 64-bit numbers
abbrev pub IsLabel : Label → Type 0
IsLabel l = Fits 8 l.client_id × Fits 8 l.label

pub label_words-All-Fits : (ls : List Label) → All IsLabel ls → All (Fits 8) (label_words ls)
unfolding label_words
label_words-All-Fits [] h = tt
label_words-All-Fits (l ∷ ls) h = (h.0.0, (h.0.1, label_words-All-Fits ls h.1))

-- The map that the loop of load leaves: a label of the first n is found under its last position,
-- every other one as before.
index_labels-other :
    (n i : ℕ) (ls : List Label) (ids : List (Label × ℕ)) (l : Label)
    → ((j : ℕ) → j < n → j < length ls → get_or ls j no_label ≢ l)
    → find_id l (index_labels n i ls ids) ≡ find_id l ids
unfolding index_labels
index_labels-other zero i ls ids l h = refl
index_labels-other (suc n) i [] ids l h = refl
index_labels-other (suc n) i (k ∷ ls) ids l h =
    let e : label_eq k l ≡ false = elim (Bool-cases (label_eq k l)) [
      | inl same ↦ absurd (h 0 (omega arith) (omega arith) ((label_eq_iff k l).0 same))
      | inr other ↦ other
    ] in
    index_labels-other n (suc i) ls (assign_id k (i % 2 ^ 32) ids) l
      (λ j lt lt'. h (suc j) (omega arith) (omega arith))
    ∙ find_id-assign_id k l (i % 2 ^ 32) ids
    ∙ rw e

pub index_labels-at :
    (n i : ℕ) (ls : List Label) (ids : List (Label × ℕ)) (j : ℕ)
    → j < n
    → j < length ls
    → i + n < 2 ^ 32
    → ((a b : ℕ) → a < n → b < n → get_or ls a no_label ≡ get_or ls b no_label → a ≡ b)
    → find_id (get_or ls j no_label) (index_labels n i ls ids) ≡ some (i + j)
unfolding index_labels
index_labels-at zero i ls ids j lt lt' small apart = absurd (omega arith)
index_labels-at (suc n) i [] ids j lt lt' small apart = absurd (omega arith)
index_labels-at (suc n) i (k ∷ ls) ids zero lt lt' small apart =
    let w : i % 2 ^ 32 ≡ i + 0 = omega arith in
    index_labels-other n (suc i) ls (assign_id k (i % 2 ^ 32) ids) k (λ a la lb same.
      let z : suc a ≡ 0 = apart (suc a) 0 (omega arith) (omega arith) same in omega arith)
    ∙ find_id-assign_id k k (i % 2 ^ 32) ids
    ∙ rw ((label_eq_iff k k).1 refl, w)
index_labels-at (suc n) i (k ∷ ls) ids (suc j) lt lt' small apart =
    let w : suc i + j ≡ i + suc j = omega arith in
    index_labels-at n (suc i) ls (assign_id k (i % 2 ^ 32) ids) j (omega arith) (omega arith)
      (omega arith)
      (λ a b la lb same.
        let s : suc a ≡ suc b = apart (suc a) (suc b) (omega arith) (omega arith) same in
        omega arith)
    ∙ ap some w

pub index_labels-none :
    (n : ℕ) (ls : List Label) (l : Label)
    → ((j : ℕ) → j < n → j < length ls → get_or ls j no_label ≢ l)
    → find_id l (index_labels n 0 ls []) ≡ none
unfolding find_id
index_labels-none n ls l h = index_labels-other n 0 ls [] l h
