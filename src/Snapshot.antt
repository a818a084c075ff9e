-- ===== src/Snapshot.antt =====
-- Index::save and Index::load of include/hnsw.hpp. A file is a list of bytes. What the file system
-- does is a parameter: whether the stream opens, whether every write reaches the file, and what the
-- file holds. What the vectors' floats look like in memory is a parameter too (`Encoding`).
pub mod Reading
pub mod Labels
pub mod Conditions
pub mod Restored
pub mod Header
pub mod RoundTrip
pub mod Reloaded
pub mod Overruns
pub mod Damaged
pub mod Answers
pub mod Reached
pub mod Restart
use Prim.Native.String.{String, ◌++◌ as append_text}
use vector_search_engine.Base.{
  ℕ, zero, suc, ◌+◌, ◌-◌, ◌*◌, ◌%◌, ◌^◌, min, Bool, true, false, ◌&&◌, not, List, [], ◌∷◌, ◌++◌,
  Option, none, some, if◌then◌else◌, ltb, leb, ◌==◌, length, get_or, set, take, drop, replicate,
  map,
}
use vector_search_engine.Platform.{Platform}
use vector_search_engine.Result.{Result, ok, throw}
use vector_search_engine.Bytes.{le_bytes, word_of, array_bytes, words}
use vector_search_engine.Index.{Index, Label, Space, cosine, l2, assign_id, new_index}

-- a float as the number of its four bytes, and back
pub record Encoding (P : Platform) : Type 0 where
  pub bits : P.F → ℕ
  pub of_bits : ℕ → P.F

abbrev pub magic_number : ℕ
magic_number = 0x484e5357

abbrev pub version_number : ℕ
version_number = 2

abbrev pub space_code : Space → ℕ
space_code cosine = 0
space_code l2 = 1

-- static_cast<Space>: every other code is treated like L2 wherever the source tests it
abbrev pub space_of : ℕ → Space
space_of code = if code == 0 then cosine else l2

-- std::vector<Label> as the numbers of its memory, and back
unfoldable pub label_words : List Label → List ℕ
label_words [] = []
label_words (l ∷ ls) = l.client_id ∷ l.label ∷ label_words ls

unfoldable pub labels_of : List ℕ → List Label
labels_of (c ∷ k ∷ ws) = record { client_id = c; label = k } ∷ labels_of ws
labels_of ws = []

-- a row of upper links: its length and its numbers
unfoldable pub save_row : List ℕ → List ℕ
save_row row =
    let len = length row % 2 ^ 32 in
    le_bytes 4 len ++ (if len == 0 then [] else take (len * 4) (array_bytes 4 row))

-- the loop over the rows of upper links, `n` of them
unfoldable pub save_rows : ℕ → List (List ℕ) → List ℕ
save_rows zero rows = []
save_rows (suc n) [] = []
save_rows (suc n) (row ∷ rows) = save_row row ++ save_rows n rows

module _ {P : Platform} (enc : Encoding P) (idx : Index P) where
  unfoldable pub header_bytes : List ℕ
  header_bytes =
      le_bytes 4 magic_number
      ++ (le_bytes 4 version_number
          ++ (le_bytes 4 (space_code idx.space)
              ++ (le_bytes 8 idx.dim
                  ++ (le_bytes 8 idx.max_elements
                      ++ (le_bytes 8 idx.m
                          ++ (le_bytes 8 idx.ef_construction
                              ++ (le_bytes 8 idx.count
                                  ++ (le_bytes 8 idx.num_deleted
                                      ++ (le_bytes 4 idx.max_level
                                          ++ le_bytes 4 idx.entry_point)))))))))

  -- the writes of the five arrays, each of the bytes of the first `cnt` elements
  unfoldable pub body_bytes : List ℕ
  body_bytes =
      let cnt = idx.count in
      take ((cnt * idx.dim * 4) % 2 ^ 64) (array_bytes 4 (map enc.bits idx.vectors))
      ++ (take ((cnt * 4) % 2 ^ 64) (array_bytes 4 idx.levels)
          ++ (take ((cnt * 16) % 2 ^ 64) (array_bytes 8 (label_words idx.labels))
              ++ (take cnt (array_bytes 1 idx.deleted)
                  ++ take ((cnt * idx.links.stride_l0 * 4) % 2 ^ 64)
                      (array_bytes 4 idx.links.links_l0))))

  unfoldable pub snapshot : List ℕ
  snapshot = header_bytes ++ (body_bytes ++ save_rows idx.count idx.links.links_upper)

  -- The bytes that the file then holds, or the exception. `opens` and `written` are the two tests
  -- of the stream.
  unfoldable pub save : Bool → Bool → String → Result (List ℕ)
  save opens written path =
      if not opens
      then throw (append_text "cannot open " (append_text path " for writing"))
      else if written
      then ok snapshot
      else throw (append_text "write failed for " path)

-- What load may come to. `undefined` is no result: the source then uses a variable that a failed
-- read left without a value, or writes past the end of an array.
pub data Loaded {ℓ} (A : Type ℓ) : Type ℓ where
  loaded : A → Loaded A
  rejects : String → Loaded A
  undefined : Loaded A

infixl 5 ◌>>=◌
abbrev pub ◌>>=◌ {ℓ κ} : {A : Type ℓ} {B : Type κ} → Loaded A → (A → Loaded B) → Loaded B
loaded a >>= f = f a
rejects e >>= f = rejects e
undefined >>= f = undefined

abbrev pub of_result {ℓ} : {A : Type ℓ} → Result A → Loaded A
of_result (ok a) = loaded a
of_result (throw e) = rejects e

-- std::ifstream: the bytes that are left, and whether every read was complete
pub record Reader : Type 0 where
  pub rest : List ℕ
  pub good : Bool

-- f.read of `n` bytes: it takes what there is, and fails where that is less
unfoldable pub advance : ℕ → Reader → Reader
advance n s = record { rest = drop n s.rest; good = s.good && leb n (length s.rest) }

-- a read into a variable that is used whatever comes of the read
unfoldable pub scalar : ℕ → Reader → Loaded (ℕ × Reader)
scalar w s =
    let s' = advance w s in if s'.good then loaded (word_of (take w s.rest), s') else undefined

-- a read into a variable that is used only after the last test of the stream
unfoldable pub late_scalar : ℕ → Reader → ℕ × Reader
late_scalar w s = (word_of (take w s.rest), advance w s)

-- A read of `n` bytes into an array of numbers of `w` bytes, over what it holds: the stream stores
-- the bytes that it still has, at most `n`.
unfoldable pub read_array : ℕ → ℕ → List ℕ → Reader → Loaded (List ℕ × Reader)
read_array w n xs s =
    if ltb (length xs * w) (min n (length s.rest))
    then undefined
    else loaded (
      words w (length xs) (take n s.rest ++ drop (min n (length s.rest)) (array_bytes w xs)),
      advance n s,
    )

unfoldable pub load_row : Reader → Loaded (List ℕ × Reader)
load_row s = do
  (len, s1) ← scalar 4 s
  (if len == 0 then loaded ([], s1) else read_array 4 (len * 4) (replicate len 0) s1)

-- the loop over the rows of upper links from `i` on, `n` of them
unfoldable pub load_rows : ℕ → ℕ → List (List ℕ) → Reader → Loaded (List (List ℕ) × Reader)
load_rows zero i rows s = loaded (rows, s)
load_rows (suc n) i rows s = do
  (row, s1) ← load_row s
  (if ltb i (length rows) then load_rows n (suc i) (set rows i row) s1 else undefined)

-- the loop that enters the first labels into the map, from the id `i` on
unfoldable pub index_labels : ℕ → ℕ → List Label → List (Label × ℕ) → List (Label × ℕ)
index_labels zero i ls ids = ids
index_labels (suc n) i [] ids = ids
index_labels (suc n) i (l ∷ ls) ids = index_labels n (suc i) ls (assign_id l (i % 2 ^ 32) ids)

module _ {P : Platform} (enc : Encoding P) (to_string : ℕ → String) (path : String) where
  -- what follows the constructor in load: the arrays, the test of the stream and the scalars
  unfoldable pub load_body : Index P → ℕ → ℕ → ℕ → ℕ → ℕ → Reader → Loaded (Index P)
  load_body idx dim cnt ndel ml ep s = do
    (vectors, s1) ← read_array 4 ((cnt * dim * 4) % 2 ^ 64) (map enc.bits idx.vectors) s
    (levels, s2) ← read_array 4 ((cnt * 4) % 2 ^ 64) idx.levels s1
    (labels, s3) ← read_array 8 ((cnt * 16) % 2 ^ 64) (label_words idx.labels) s2
    (deleted, s4) ← read_array 1 cnt idx.deleted s3
    (links_l0, s5) ← read_array 4 ((cnt * idx.links.stride_l0 * 4) % 2 ^ 64) idx.links.links_l0 s4
    (upper, s6) ← load_rows cnt 0 idx.links.links_upper s5
    (if s6.good
        then loaded (record idx {
          vectors = map enc.of_bits vectors;
          levels = levels;
          labels = labels_of labels;
          deleted = deleted;
          links = record idx.links { links_l0 = links_l0; links_upper = upper };
          count = cnt;
          num_deleted = ndel;
          max_level = ml;
          entry_point = ep;
          label_to_id = index_labels cnt 0 (labels_of labels) idx.label_to_id;
        })
        else rejects (append_text "truncated index file " path))

  abbrev pub version_message : ℕ → String
  version_message version = append_text "index snapshot version " (
      append_text (to_string version) (
        append_text " is not supported (expected " (
          append_text (to_string version_number)
            "); this is a breaking format change (Label is now a 16-byte {clientId, label} pair, not an 8-byte uint64) -- old snapshots cannot be loaded and must be rebuilt")))

  -- The reads between the version and the end of the file. The last three scalars are used after
  -- the test of the stream; the constructor takes its default seed.
  unfoldable pub load_index : Reader → Loaded (Index P)
  load_index s = do
    (sp, s1) ← scalar 4 s
    (dim, s2) ← scalar 8 s1
    (max_elements, s3) ← scalar 8 s2
    (m, s4) ← scalar 8 s3
    (efc, s5) ← scalar 8 s4
    let (cnt_read, s6) = late_scalar 8 s5
    let (ndel, s7) = late_scalar 8 s6
    let (ml, s8) = late_scalar 4 s7
    let (ep, s9) = late_scalar 4 s8
    idx ← of_result (new_index P (space_of sp) dim max_elements m efc 100)
    (cnt, _) ← scalar 8 s5
    load_body idx dim cnt ndel ml ep s9

  -- `none` is a file that does not open.
  unfoldable pub load : Option (List ℕ) → Loaded (Index P)
  load none = rejects (append_text "cannot open " (append_text path " for reading"))
  load (some bytes) = do
    (magic, s1) ← scalar 4 (record { rest = bytes; good = true })
    (if magic == magic_number
        then (scalar 4 s1 >>= λ (v : ℕ × Reader).
            if v.0 == version_number then load_index v.1 else rejects (version_message v.0))
        else rejects "not an hnsw index file")
