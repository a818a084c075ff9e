-- ===== src/Greedy/Descent.antt =====
-- The loop of greedyDescend: its end, and the node at which it ends.
use vector_search_engine.Base.{
  ℕ, zero, suc, ◌+◌, ◌≤◌, ◌<◌, true, false, List, [], ◌∷◌, some, if◌then◌else◌, ltb, ◌≡◌, refl, ap,
  sym, ◌∙◌, arith, Bool-cases, inl, inr, ◌⊎◌, All, subst,
}
use vector_search_engine.Platform.{Platform, IsOrdered}
use vector_search_engine.Greedy.{Walk, visit_link, visit_links, round, walk, descend}

module _ (P : Platform) (dist : ℕ → P.F) (links : ℕ → List ℕ) (n : ℕ) (N : ℕ → Type 0) where
  -- how many of the first k slots are nearer than d
  nearer : ℕ → P.F → ℕ
  nearer zero d = 0
  nearer (suc k) d = (if P.flt (dist k) d then 1 else 0) + nearer k d

  nearer-le : (k : ℕ) (d : P.F) → nearer k d ≤ k
  unfolding nearer
  nearer-le zero d = omega arith
  nearer-le (suc k) d = ground (arith, nearer-le k d)

  module _ (o : IsOrdered P) (c d : P.F) (h : P.flt c d ≡ true) where
    nearer_mono : (k : ℕ) → nearer k c ≤ nearer k d
    unfolding nearer
    nearer_mono zero = omega arith
    nearer_mono (suc k) = ground (arith, nearer_mono k, o.trans (dist k) c d)

    nearer_strict : (k i : ℕ) → i < k → dist i ≡ c → nearer k c < nearer k d
    unfolding nearer
    nearer_strict zero i lt e = absurd (omega arith)
    nearer_strict (suc k) i lt e = elim (Bool-cases (ltb i k)) [
      | inl below ↦ ground (arith, nearer_strict k i, o.trans (dist k) c d)
      | inr top ↦
          let s : i ≡ k = ground arith in
          let f : dist k ≡ c = ap dist (sym s) ∙ e in ground (arith, nearer_mono k, o.irrefl c)
    ]

  -- a node with its distance; `N` says which ids are nodes of the layer
  pub record IsWalk (w : Walk P) : Type 0 where
    pub node : N w.cur
    pub exact : w.cur_dist ≡ dist w.cur

  -- What a scan of links leads to: a node as near or nearer, and if it is the same nothing moved.
  record Scans (w r : Walk P) (is : List ℕ) : Type 0 where
    valid : IsWalk r
    moved :
        (r.changed ≡ w.changed) × (r.cur ≡ w.cur) × (r.cur_dist ≡ w.cur_dist)
        ⊎ (r.changed ≡ true) × (P.flt r.cur_dist w.cur_dist ≡ true)
    minimal : All (λ i. P.flt (dist i) r.cur_dist ≡ false) is

  module _ (o : IsOrdered P) where
    visit_links-Scans :
        (is : List ℕ) (w : Walk P)
        → All N is
        → IsWalk w
        → Scans w (visit_links P dist links w is) is
    unfolding visit_links visit_link
    visit_links-Scans [] w lt h = record { valid = h; moved = inl (refl, refl, refl); minimal = tt }
    visit_links-Scans (i ∷ is) w lt h = elim (Bool-cases (P.flt (dist i) w.cur_dist)) [
      | inl near ↦
          let w' : Walk P = record { cur = i; cur_dist = dist i; changed = true } in
          let t = visit_links-Scans is w' lt.1 (record { node = lt.0; exact = refl }) in
          rw near record {
            valid = t.valid;
            moved = inr (
                ground (
                  arith,
                  t.moved,
                  o.trans (visit_links P dist links w' is).cur_dist (dist i) w.cur_dist,
                ));
            minimal = (
              ground (
                arith,
                t.moved,
                o.irrefl (dist i),
                o.trans (dist i) (visit_links P dist links w' is).cur_dist (dist i),
              ),
              t.minimal,
            );
          }
      | inr far ↦
          let t = visit_links-Scans is w lt.1 h in
          rw far record {
            valid = t.valid;
            moved = t.moved;
            minimal = (
              ground (
                arith,
                t.moved,
                o.trans (dist i) (visit_links P dist links w is).cur_dist w.cur_dist,
              ),
              t.minimal,
            );
          }
    ]

    -- What the walk ends with: a node in range and its distance, no farther than the entry, and no
    -- nearer one among its links.
    pub record Settles (entry : Walk P) (r : Walk P) : Type 0 where
      pub valid : IsWalk r
      pub nearer_end : P.flt entry.cur_dist r.cur_dist ≡ false
      pub local_min : All (λ i. P.flt (dist i) r.cur_dist ≡ false) (links r.cur)

    module _ (bound : (i : ℕ) → N i → i < n) (inside : (i : ℕ) → N i → All N (links i)) where
      walk-Settles :
          (fuel : ℕ) (w : Walk P)
          → nearer n w.cur_dist < fuel
          → IsWalk w
          → (r : Walk P) × (walk P dist links fuel w ≡ some r) × Settles w r
      unfolding walk round
      walk-Settles zero w f h = absurd (omega arith)
      walk-Settles (suc fuel) w f h =
          let w0 : Walk P = record w { changed = false } in
          let r = visit_links P dist links w0 (links w.cur) in
          let t =
            visit_links-Scans (links w.cur) w0 (inside w.cur h.node)
              (record { node = h.node; exact = h.exact }) in
          elim t.moved [
            | inl (stays, same, dist_same) ↦ (
              r,
              rw (stays, walk),
              record {
                valid = t.valid;
                nearer_end = rw dist_same (o.irrefl w.cur_dist);
                local_min =
                    subst (λ c. All (λ i. P.flt (dist i) r.cur_dist ≡ false) (links c)) (sym same)
                      t.minimal;
              },
            )
            | inr (moves, near) ↦
                let less =
                  nearer_strict o r.cur_dist w.cur_dist near n r.cur (bound r.cur t.valid.node)
                    (sym t.valid.exact) in
                let (r', run, s) = walk-Settles fuel r (omega arith) t.valid in
                (
                  r',
                  rw (moves, walk) run,
                  record {
                    valid = s.valid;
                    nearer_end = ground (
                      arith,
                      s.nearer_end,
                      o.trans w.cur_dist r'.cur_dist r.cur_dist,
                      o.weak w.cur_dist r.cur_dist r'.cur_dist,
                      o.irrefl r.cur_dist,
                      o.trans r.cur_dist w.cur_dist r.cur_dist,
                    );
                    local_min = s.local_min;
                  },
                )
          ]

      -- Where distances are ordered, the nodes are ids below n and links lead from nodes to
      -- nodes, greedyDescend from a node ends within n + 1 rounds: at a node with its distance,
      -- no farther than the entry, none of whose links is nearer.
      pub descend-Settles :
          (entry : ℕ)
          → N entry
          → (r : Walk P) × (descend P dist links (n + 1) entry ≡ some r)
            × Settles (record { cur = entry; cur_dist = dist entry; changed = true }) r
      unfolding descend
      descend-Settles entry nd =
          walk-Settles (n + 1) _ (omega (arith, nearer-le n (dist entry)))
            (record { node = nd; exact = refl })
