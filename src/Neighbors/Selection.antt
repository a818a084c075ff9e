-- ===== src/Neighbors/Selection.antt =====
-- The two loops of the neighbour selection, counted: how many ids each keeps, and which.
use vector_search_engine.Base.{
  ℕ, suc, ◌+◌, ◌≤◌, min, Bool, List, [], ◌∷◌, ◌++◌, if◌then◌else◌, leb, length, map, ◌==◌, ◌≡◌,
  refl, ap, sym, ◌∙◌, arith, Bool-cases, inl, inr, ◌⊎◌, All, length-append,
}
use mathlib.Core.List.{append_assoc, append-nil}
use vector_search_engine.Platform.{Platform}
use vector_search_engine.Heap.{Cand, sort, emplace}
use vector_search_engine.Neighbors.{second, too_close, spread, backfill}

-- how often an id occurs
unfoldable pub occurs : ℕ → List ℕ → ℕ
occurs x [] = 0
occurs x (y ∷ ys) = (if y == x then 1 else 0) + occurs x ys

pub occurs-append : (x : ℕ) (ys zs : List ℕ) → occurs x (ys ++ zs) ≡ occurs x ys + occurs x zs
unfolding occurs
occurs-append x [] zs = omega arith
occurs-append x (y ∷ ys) zs = omega (arith, occurs-append x ys zs)

pub occurs-cons : (x y : ℕ) (ys : List ℕ) → occurs x (y ∷ ys) ≡ occurs x (y ∷ []) + occurs x ys
unfolding occurs
occurs-cons x y ys = omega arith

module _ (P : Platform) where
  -- the ids of candidates
  abbrev pub ids : List (Cand P) → List ℕ
  ids [] = []
  ids (c ∷ cs) = c.1 ∷ ids cs

  pub map-ids : (cs : List (Cand P)) → map second cs ≡ ids cs
  map-ids [] = refl
  map-ids (c ∷ cs) = ap (◌∷◌ c.1) (map-ids cs)

  pub ids-append : (cs ds : List (Cand P)) → ids (cs ++ ds) ≡ ids cs ++ ids ds
  ids-append [] ds = refl
  ids-append (c ∷ cs) ds = ap (◌∷◌ c.1) (ids-append cs ds)

  pub length-ids : (cs : List (Cand P)) → length (ids cs) ≡ length cs
  length-ids [] = refl
  length-ids (c ∷ cs) = ap suc (length-ids cs)

  pub All-ids : (Q : ℕ → Type 0) (cs : List (Cand P)) → All (λ c. Q c.1) cs → All Q (ids cs)
  All-ids Q [] h = tt
  All-ids Q (c ∷ cs) h = (h.0, All-ids Q cs h.1)

  occurs-emplace :
      (less : Cand P → Cand P → Bool) (x : ℕ) (c : Cand P) (h : List (Cand P))
      → occurs x (ids (emplace less c h)) ≡ occurs x (ids (c ∷ h))
  unfolding emplace occurs
  occurs-emplace less x c [] = refl
  occurs-emplace less x c (e ∷ h) = elim (Bool-cases (less c e)) [
    | inl below ↦ rw below (omega (arith, occurs-emplace less x c h))
    | inr above ↦ rw above
  ]

  pub occurs-sort :
      (less : Cand P → Cand P → Bool) (x : ℕ) (cs : List (Cand P))
      → occurs x (ids (sort less cs)) ≡ occurs x (ids cs)
  unfolding sort occurs
  occurs-sort less x [] = refl
  occurs-sort less x (c ∷ cs) =
      omega (arith, occurs-emplace (λ a b. less b a) x c (sort less cs), occurs-sort less x cs)

  module _ (between : ℕ → ℕ → P.F) (m : ℕ) where
    -- `spread` keeps at most m ids, drops none before it has m, repeats none, and appends.
    pub record Splits (kept : List ℕ) (discarded cands : List (Cand P)) (r : List ℕ × List (Cand P))
        : Type 0 where
      pub most : length r.0 ≤ m
      pub all :
          (length r.0 ≡ m)
          ⊎ (length r.0 + length r.1 ≡ length kept + length discarded + length cands)
      pub none_new :
          (x : ℕ)
          → occurs x r.0 + occurs x (ids r.1)
            ≤ occurs x kept + occurs x (ids discarded) + occurs x (ids cands)
      pub prefix : (tl : List ℕ) × (r.0 ≡ kept ++ tl)

    pub spread-Splits :
        (cands : List (Cand P)) (kept : List ℕ) (discarded : List (Cand P))
        → length kept ≤ m
        → Splits kept discarded cands (spread P between m cands kept discarded)
    unfolding spread
    spread-Splits [] kept discarded h = record {
      most = h;
      all = inr (omega arith);
      none_new = λ x. omega arith;
      prefix = ([], sym (append-nil kept));
    }
    spread-Splits (c ∷ cands) kept discarded h = elim (Bool-cases (leb m (length kept))) [
      | inl full ↦ rw full record {
        most = h;
        all = inl (ground arith);
        none_new = λ x. omega arith;
        prefix = ([], sym (append-nil kept));
      }
      | inr room ↦ elim (Bool-cases (too_close P between c kept)) [
        | inl close ↦
            let t = spread-Splits cands kept (discarded ++ c ∷ []) h in
            rw (room, close)
              record {
                most = t.most;
                all = omega (arith, t.all, length-append discarded (c ∷ []));
                none_new = λ x. omega (
                  arith,
                  t.none_new x,
                  ap (occurs x) (ids-append discarded (c ∷ [])),
                  occurs-append x (ids discarded) (c.1 ∷ []),
                  occurs-cons x c.1 (ids cands),
                );
                prefix = t.prefix;
              }
        | inr far ↦
            let t =
              spread-Splits cands (kept ++ c.1 ∷ []) discarded
                (ground (arith, length-append kept (c.1 ∷ []))) in
            rw (room, far)
              record {
                most = t.most;
                all = omega (arith, t.all, length-append kept (c.1 ∷ []));
                none_new = λ x. omega (
                  arith,
                  t.none_new x,
                  occurs-append x kept (c.1 ∷ []),
                  occurs-cons x c.1 (ids cands),
                );
                prefix = (c.1 ∷ t.prefix.0, t.prefix.1 ∙ append_assoc kept (c.1 ∷ []) t.prefix.0);
              }
      ]
    ]

    -- `backfill` takes as many of the discarded as there is room for.
    pub record Fills (kept : List ℕ) (ds : List (Cand P)) (r : List ℕ) : Type 0 where
      pub size : length r ≡ min m (length kept + length ds)
      pub none_new : (x : ℕ) → occurs x r ≤ occurs x kept + occurs x (ids ds)
      pub prefix : (tl : List ℕ) × (r ≡ kept ++ tl)

    pub backfill-Fills :
        (ds : List (Cand P)) (kept : List ℕ)
        → length kept ≤ m
        → Fills kept ds (backfill P between m ds kept)
    unfolding backfill
    backfill-Fills [] kept h = record {
      size = omega arith;
      none_new = λ x. omega arith;
      prefix = ([], sym (append-nil kept));
    }
    backfill-Fills (d ∷ ds) kept h = elim (Bool-cases (leb m (length kept))) [
      | inl full ↦ rw full record {
        size = ground arith;
        none_new = λ x. omega arith;
        prefix = ([], sym (append-nil kept));
      }
      | inr room ↦
          let t =
            backfill-Fills ds (kept ++ d.1 ∷ []) (ground (arith, length-append kept (d.1 ∷ []))) in
          rw room record {
            size = omega (arith, t.size, length-append kept (d.1 ∷ []));
            none_new = λ x.
                omega (
                  arith,
                  t.none_new x,
                  occurs-append x kept (d.1 ∷ []),
                  occurs-cons x d.1 (ids ds),
                );
            prefix = (d.1 ∷ t.prefix.0, t.prefix.1 ∙ append_assoc kept (d.1 ∷ []) t.prefix.0);
          }
    ]
