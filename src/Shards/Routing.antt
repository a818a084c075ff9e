-- ===== src/Shards/Routing.antt =====
-- The bytes of a key that hashKey hashes, read back.
use vector_search_engine.Base.{ℕ, ◌^◌, ◌<◌, take, drop, ◌≡◌, arith}
use vector_search_engine.Bytes.{word_of}
use vector_search_engine.Shards.{byte_at, word_bytes, key_bytes}

word_of-word_bytes : (x : ℕ) → x < 2 ^ 64 → word_of (word_bytes x) ≡ x
unfolding word_of word_bytes byte_at
word_of-word_bytes x lt = omega arith

-- The sixteen bytes that hashKey hashes determine the key: of a client id and a label below 2 ^
-- 64 the first eight bytes read back, the lowest first, as the client id, and the last eight as
-- the label.
pub key_bytes-word_of :
    (client_id label : ℕ)
    → client_id < 2 ^ 64
    → label < 2 ^ 64
    → (word_of (take 8 (key_bytes client_id label)) ≡ client_id)
      × (word_of (drop 8 (key_bytes client_id label)) ≡ label)
unfolding key_bytes word_bytes word_of-word_bytes
key_bytes-word_of client_id label small small' =
    (word_of-word_bytes client_id small, word_of-word_bytes label small')
