-- ===== src/Heavy/Correct.antt =====
-- The heavy matching is a matching, made of edges of the two it joins; by exact sums it is no lighter
-- than either.
use cpp_suitor_and_local_dom.Base.{
  ℕ, ◌<◌, ◌≤◌, ◌≡◌, refl, sym, subst, ◌⊎◌, inl, inr, Bool, true, false, some, Bool-cases, arith, ap,
  ◌∙◌, total, total_ext,
}
use cpp_suitor_and_local_dom.Suitor.Protocol.{Proposals}
use cpp_suitor_and_local_dom.Heavy.{Twin, visit_path, visit_cycle, counter_edges, join_matchings}
use cpp_suitor_and_local_dom.Heavy.Pairing.{IsPairing, weight_in}
use cpp_suitor_and_local_dom.Heavy.Track.{along, weight_along, IsTwin, IsExact, pairing}
use cpp_suitor_and_local_dom.Heavy.Joined.{Entry, IsJoined, mate_of, weight_of}
use cpp_suitor_and_local_dom.Heavy.Passes.{
  Paths, Cycles, each_node_ends, visit_path_ends, visit_cycle_ends,
}
use cpp_suitor_and_local_dom.Heavy.Mirrored.{IsMirrored, counter_edges_Entry}

-- The choice is a matching where every node has been processed.
joined-IsPairing :
    {m : Twin} (twin : IsTwin m) {processed : ℕ → Bool} {t : Proposals} {chosen : ℕ → Bool}
    → IsJoined m processed t chosen
    → ((x : ℕ) → x < m.null → processed x ≡ true)
    → IsPairing m.null (mate_of m chosen) (weight_of m chosen)
joined-IsPairing {m} twin {chosen = chosen} j all = record {
  bound = λ x. (pairing twin (chosen x)).bound x;
  inside = inside;
  symmetric = λ x lt.
      ap (λ c. along m c (mate_of m chosen x)) (agreed x lt)
      ∙ (pairing twin (chosen x)).symmetric x lt;
  loopless = λ x lt. (pairing twin (chosen x)).loopless x lt;
  weighs = λ x lt.
      ap (λ c. weight_along m c (mate_of m chosen x)) (agreed x lt)
      ∙ (pairing twin (chosen x)).weighs x lt;
  lone = λ x e. (pairing twin (chosen x)).lone x e;
}
  where
    inside : (x : ℕ) → mate_of m chosen x < m.null → x < m.null
    inside x lt = (pairing twin (chosen x)).inside x lt

    agreed : (x : ℕ) → mate_of m chosen x < m.null → chosen (mate_of m chosen x) ≡ chosen x
    agreed x lt = j.agreed x (all x (inside x lt)) lt

IsPairing_ext :
    {n : ℕ} {f w : ℕ → ℕ}
    → IsPairing n f w
    → (t : Proposals) → ((x : ℕ) → Entry f w t x)
    → IsPairing n t.suitor t.ws
IsPairing_ext {n} {f} {w} p t is =
    subst (λ g. IsPairing n g t.ws) (λ i x. sym (is x).0 i)
      (subst (IsPairing n f) (λ i x. sym (is x).1 i) p)

-- Where nothing has been processed.
empty-IsJoined :
    {m : Twin} → IsJoined m (λ _. false) (record { suitor = λ _. m.null; ws = λ _. 0 }) λ _. true
empty-IsJoined {m} = record {
  closed = record { closes = λ b x e. absurd (ground (arith, e)) };
  inside = λ x e. absurd (ground (arith, e));
  fresh = λ x _. (refl, refl);
  entry = λ x e. absurd (ground (arith, e));
  placed = λ x e. absurd (ground (arith, e));
  agreed = λ x e. absurd (ground (arith, e));
  heavier = λ _ c. omega arith;
}

module _ {m : Twin} (twin : IsTwin m) where
  abbrev fresh_table : Proposals
  fresh_table = record { suitor = λ _. m.null; ws = λ _. 0 }

  start-IsMirrored :
      {processed : ℕ → Bool} {t : Proposals} {chosen : ℕ → Bool}
      → IsJoined m processed t chosen
      → ((x : ℕ) → x < m.null → processed x ≡ true)
      → IsMirrored m.null (mate_of m chosen) (weight_of m chosen) 0 t
  start-IsMirrored {processed} {chosen = chosen} j all = record {
    entry = λ x. elim (Bool-cases (processed x)) [
      | inl old ↦ j.entry x old
      | inr new ↦ inl (j.fresh x new)
    ];
    placed = λ x lt. j.placed x (all x ((pairing twin (chosen x)).inside x lt)) lt;
    mirrored = λ x lt. absurd (omega arith);
  }

  weight_all :
      (processed : ℕ → Bool) (w : ℕ → ℕ)
      → ((x : ℕ) → x < m.null → processed x ≡ true)
      → weight_in m.null processed w ≡ total m.null w
  weight_all processed w all = total_ext m.null _ _ λ x lt. rw (all x lt) refl

  -- A matching, in which each node has its mate in one of the two.
  abbrev pub Joint : Proposals → Type 0
  Joint t =
      IsPairing m.null t.suitor t.ws
      × ((x : ℕ) → Entry m.mate m.weight t x ⊎ Entry m.mate2 m.weight2 t x)

  abbrev pub NoLighter : Proposals → Type 0
  NoLighter t =
      (total m.null m.weight ≤ total m.null t.ws) × (total m.null m.weight2 ≤ total m.null t.ws)

  counter_edges-Joint :
      {processed : ℕ → Bool} {chosen : ℕ → Bool} (t : Proposals)
      → IsJoined m processed t chosen
      → ((x : ℕ) → x < m.null → processed x ≡ true)
      → Joint (counter_edges m m.null t) × (IsExact m → NoLighter (counter_edges m m.null t))
  counter_edges-Joint {processed} {chosen} t j all =
      let p = joined-IsPairing twin j all in
      let is = counter_edges_Entry m p t (start-IsMirrored j all) in
      let weighed = total_ext m.null _ _ (λ x _. (is x).1) in
      (
        (
          IsPairing_ext p (counter_edges m m.null t) is,
          λ x. made (counter_edges m m.null t) x (chosen x) (is x),
        ),
        λ exact. (
          omega (
            arith,
            weighed,
            j.heavier exact true,
            weight_all processed m.weight all,
            weight_all processed (weight_of m chosen) all,
          ),
          omega (
            arith,
            weighed,
            j.heavier exact false,
            weight_all processed m.weight2 all,
            weight_all processed (weight_of m chosen) all,
          ),
        ),
      )
    where
      made :
          (s : Proposals) (x : ℕ) (c : Bool)
          → Entry (along m c) (weight_along m c) s x
          → Entry m.mate m.weight s x ⊎ Entry m.mate2 m.weight2 s x
      made s x true en = inl en
      made s x false en = inr en

  pub join_matchings_run :
      (t : Proposals) × (join_matchings m m.null fresh_table ≡ some t)
      × Joint t
      × (IsExact m → NoLighter t)
  unfolding join_matchings
  join_matchings_run =
      let (s1, ran1, (j1, lacking)) =
        each_node_ends (Paths twin) (visit_path m m.null) m.null (visit_path_ends twin)
          ((λ _. false), fresh_table) ((_, empty-IsJoined), λ x b lt. absurd (omega arith)) in
      let (s2, ran2, ((chosen, j), _, all)) =
        each_node_ends (Cycles twin) (visit_cycle m m.null) m.null (visit_cycle_ends twin) s1
          (j1, lacking, λ x lt. absurd (omega arith)) in
      let (joint, heavier) = counter_edges-Joint s2.1 j all in
      (counter_edges m m.null s2.1, rw (ran1, ran2) refl, joint, heavier)

  -- For two matchings given as tables of mates with weights, and whatever the additions of weights
  -- return: the paths, cycles and counter edges of `improved_procedure` end from an empty table, with
  -- as much fuel for each walk as there are nodes. The result is a matching, and each node has in it
  -- its mate, and the weight, of one of the two.
  pub join_matchings_ends :
      (t : Proposals) × (join_matchings m m.null fresh_table ≡ some t) × Joint t
  join_matchings_ends = let (t, ran, joint, _) = join_matchings_run in (t, ran, joint)
