-- ===== src/Shards.antt =====
-- src/shard_sim.cpp: the hash that routes a key to its shard, the spreading of the vectors over the
-- shards, and the gathering of their answers. The rest of the program drives them with random data and prints what it counts.
pub mod Routing
pub mod Gather
pub mod Balance
pub mod Build
use Prim.Native.Nat.{bit_xor}
use vector_search_engine.Base.{
  ℕ, zero, suc, ◌+◌, ◌*◌, ◌/◌, ◌%◌, ◌^◌, Bool, List, [], ◌∷◌, ◌++◌, length, take, map,
  if◌then◌else◌, ltb, replicate, set, get_or, max,
}
use vector_search_engine.Platform.{Platform}
use vector_search_engine.Heap.{sort}
use vector_search_engine.Search.{SearchResult}

-- the loop of fnv1a64 over the bytes
unfoldable pub fnv_loop : ℕ → List ℕ → ℕ
fnv_loop h [] = h
fnv_loop h (b ∷ bs) = fnv_loop ((bit_xor h b * 1099511628211) % 2 ^ 64) bs

unfoldable pub fnv1a64 : List ℕ → ℕ
fnv1a64 = fnv_loop 14695981039346656037

-- static_cast<uint8_t>(x >> (8 * i))
unfoldable pub byte_at : ℕ → ℕ → ℕ
byte_at x i = (x / 2 ^ (8 * i)) % 2 ^ 8

-- eight bytes of a word, the lowest first
unfoldable pub word_bytes : ℕ → List ℕ
word_bytes x =
    byte_at x 0
    ∷ byte_at x 1
    ∷ byte_at x 2
    ∷ byte_at x 3
    ∷ byte_at x 4
    ∷ byte_at x 5
    ∷ byte_at x 6
    ∷ byte_at x 7
    ∷ []

-- `buf`
unfoldable pub key_bytes : ℕ → ℕ → List ℕ
key_bytes client_id label = word_bytes client_id ++ word_bytes label

unfoldable pub hash_key : ℕ → ℕ → ℕ
hash_key client_id label = fnv1a64 (key_bytes client_id label)

unfoldable pub shard_for : ℕ → ℕ → ℕ → ℕ
shard_for client_id label num_shards = hash_key client_id label % num_shards

pub record Scored (P : Platform) : Type 0 where
  pub distance : P.F
  pub client_id : ℕ
  pub label : ℕ

module _ (P : Platform) where
  unfoldable pub scored_less : Scored P → Scored P → Bool
  scored_less a b = P.flt a.distance b.distance

  abbrev pub scored : SearchResult P → Scored P
  scored r = record { distance = r.distance; client_id = r.label.client_id; label = r.label.label }

  -- the loop that collects the answers of the shards
  unfoldable pub gather_pool : List (Scored P) → List (List (SearchResult P)) → List (Scored P)
  gather_pool pool [] = pool
  gather_pool pool (res ∷ rest) = gather_pool (pool ++ map scored res) rest

  -- the sort and the cut to the first k
  unfoldable pub gather : ℕ → List (List (SearchResult P)) → List (Scored P)
  unfolding gather_pool
  gather k answers =
      let pool = sort scored_less (gather_pool [] answers) in
      if ltb k (length pool) then take k pool else pool

-- `counts` and `shardMembers`
pub record Placement : Type 0 where
  pub counts : List ℕ
  pub members : List (List ℕ)

unfoldable pub no_members : ℕ → Placement
no_members num_shards = record {
  counts = replicate num_shards 0;
  members = replicate num_shards [];
}

-- the body of the loop that places vector i
unfoldable pub place : List ℕ → ℕ → Placement → ℕ → Placement
place client_ids num_shards p i =
    let s = shard_for (get_or client_ids i 0) i num_shards in
    record {
      counts = set p.counts s (get_or p.counts s 0 + 1);
      members = set p.members s (get_or p.members s [] ++ i ∷ []);
    }

-- the loop over the vectors from i on, n of them
unfoldable pub distribute : List ℕ → ℕ → Placement → ℕ → ℕ → Placement
distribute client_ids num_shards p zero i = p
distribute client_ids num_shards p (suc n) i =
    distribute client_ids num_shards (place client_ids num_shards p i) n (suc i)

-- the capacity of the index of a shard
unfoldable pub shard_capacity : Placement → ℕ → ℕ
shard_capacity p s = max (get_or p.counts s 0) 1
