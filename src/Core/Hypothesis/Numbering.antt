-- ===== src/Core/Hypothesis/Numbering.antt =====
-- The identifiers of a population: the nodes are numbered from 1 on, in their order.
use cautreo.Base.{
  ℕ, zero, suc, ◌+◌, ◌≤◌, ◌≡◌, refl, sym, ap, ◌∙◌, Option, none, some, List, [], ◌∷◌, ◌++◌, length,
  Bool-cases, Option-cases, arith, length-append, inl, sym, inr, leb,
}
use cautreo.Base.Float.{FloatOps}
use cautreo.Core.Contracts.{HypothesisState, EvidencePacket, outside_unit}
use cautreo.Core.Hypothesis.{
  HypothesisNode, Population, population_create, population_add, population_normalize,
  population_merge, population_prune, population_apply_evidence, update_node, pruned, last_with,
  set_last, new_node, absorb, dedup_loop, normalize_loop, merged, weigh, with_uncertainty,
}

-- The numbers from `i` on.
abbrev pub numbers : ℕ → ℕ → List ℕ
numbers i zero = []
numbers i (suc n) = i ∷ numbers (i + 1) n

numbers-suc : (i n : ℕ) → numbers i n ++ ((i + n) ∷ []) ≡ numbers i (n + 1)
numbers-suc i zero = ground arith
numbers-suc i (suc n) = ground (arith, numbers-suc (i + 1) n)

module _ {F : Type 0} where
  abbrev pub ids : List (HypothesisNode F) → List ℕ
  ids [] = []
  ids (n ∷ ns) = n.state.id ∷ ids ns

  pub length-ids : (ns : List (HypothesisNode F)) → length (ids ns) ≡ length ns
  length-ids [] = refl
  length-ids (n ∷ ns) = ap suc (length-ids ns)

  ids-append : (ns ms : List (HypothesisNode F)) → ids (ns ++ ms) ≡ ids ns ++ ids ms
  ids-append [] ms = refl
  ids-append (n ∷ ns) ms = ap (◌∷◌ n.state.id) (ids-append ns ms)

  ids-update_node :
      (id : ℕ) (f : HypothesisNode F → HypothesisNode F)
      → ((n : HypothesisNode F) → (f n).state.id ≡ n.state.id)
      → (ns : List (HypothesisNode F)) → ids (update_node id f ns).0 ≡ ids ns
  unfolding update_node
  ids-update_node id f keeps [] = refl
  ids-update_node id f keeps (n ∷ ns) = ground (arith, keeps n, ids-update_node id f keeps ns)

  pub last_with-id :
      (id : ℕ) (ns : List (HypothesisNode F)) (h : HypothesisState F)
      → last_with id ns ≡ some h
      → h.id ≡ id
  unfolding last_with
  last_with-id id [] h e = absurd (ground arith)
  last_with-id id (n ∷ ns) h e = elim (Option-cases (last_with id ns)) [
    | inl p ↦ ground arith
    | inr (g, p) ↦ ground (arith, last_with-id id ns g p)
  ]

  ids-set_last :
      (id : ℕ) (h : HypothesisState F) (ns : List (HypothesisNode F))
      → h.id ≡ id
      → ids (set_last id h ns) ≡ ids ns
  unfolding set_last
  ids-set_last id h [] e = refl
  ids-set_last id h (n ∷ ns) e = ground (arith, ids-set_last id h ns e)

module _ (fl : FloatOps) where
  open fl use {F, lt}

  absorb-id : (a b : HypothesisNode F) → (absorb fl a b).state.id ≡ a.state.id
  unfolding absorb
  absorb-id a b = ground arith

  ids-dedup_loop :
      (a : HypothesisNode F) (ns : List (HypothesisNode F))
      → ids ((dedup_loop fl a ns).0 ∷ (dedup_loop fl a ns).1) ≡ ids (a ∷ ns)
  unfolding dedup_loop
  ids-dedup_loop a [] = refl
  ids-dedup_loop a (b ∷ ns) =
      ground (arith, ids-dedup_loop a ns, ids-dedup_loop (absorb fl a b) ns, absorb-id a b)

  ids-normalize_loop :
      (k : ℕ) (ns : List (HypothesisNode F)) → ids (normalize_loop fl k ns) ≡ ids ns
  unfolding normalize_loop
  ids-normalize_loop zero ns = refl
  ids-normalize_loop (suc k) [] = refl
  ids-normalize_loop (suc k) (a ∷ ns) = ground (
    arith,
    ids-normalize_loop k ns,
    ids-normalize_loop k (dedup_loop fl a ns).1,
    ids-dedup_loop a ns,
  )

  pub weigh-id :
      (e : EvidencePacket F) (h : HypothesisState F)
      → (with_uncertainty fl (weigh fl e h)).id ≡ h.id
  unfolding weigh with_uncertainty
  weigh-id e h = ground arith

  pub data Op : Type 0 where
    add_op : Option (List ℕ) → F → Op
    normalize_op : Op
    merge_op : ℕ → ℕ → Op
    prune_op : ℕ → Op
    evidence_op : Option (EvidencePacket F) → Op

  abbrev pub step : Population F → Op → Population F
  step pop (add_op claim prior) = (population_add fl pop claim prior).0
  step pop normalize_op = population_normalize fl pop
  step pop (merge_op a b) = (population_merge fl pop a b).0
  step pop (prune_op id) = (population_prune pop id).0
  step pop (evidence_op e) = (population_apply_evidence fl pop e).0

  abbrev pub run : Population F → List Op → Population F
  run pop [] = pop
  run pop (op ∷ ops) = run (step pop op) ops

  -- The nodes are numbered from 1 on, and there is room for 40 of them.
  pub record Inv (pop : Population F) : Type 0 where
    pub numbered : ids pop.nodes ≡ numbers 1 (length pop.nodes)
    pub next : pop.next_id ≡ suc (length pop.nodes)
    pub room : length pop.nodes ≤ pop.capacity
    pub capacity : pop.capacity ≡ 40

  -- Other nodes with the same identifiers.
  same_ids-Inv :
      (pop : Population F) (ns : List (HypothesisNode F))
      → Inv pop
      → ids ns ≡ ids pop.nodes
      → Inv (record pop { nodes = ns })
  same_ids-Inv pop ns v e =
      let len : length ns ≡ length pop.nodes =
        sym (length-ids ns) ∙ ap length e ∙ length-ids pop.nodes in
      record {
        numbered = e ∙ v.numbered ∙ ap (numbers 1) (sym len);
        next = v.next ∙ ap suc (sym len);
        room = omega (arith, v.room);
        capacity = v.capacity;
      }

  population_add-Inv :
      (pop : Population F) (claim : Option (List ℕ)) (prior : F)
      → Inv pop
      → Inv (population_add fl pop claim prior).0
  unfolding population_add new_node
  population_add-Inv pop none prior v = v
  population_add-Inv pop (some claim) prior v = elim (Bool-cases (outside_unit fl prior)) [
    | inl out ↦ rw out v
    | inr unit ↦ elim (Bool-cases (leb pop.capacity (length pop.nodes))) [
      | inl full ↦ rw (unit, full) v
      | inr free ↦
          let l = length-append pop.nodes (new_node fl pop.next_id claim prior ∷ []) in
          rw (unit, free)
            (record {
              numbered =
                  ids-append pop.nodes _
                  ∙ ground (arith, v.numbered, v.next, numbers-suc 1 (length pop.nodes), l);
              next = ground (arith, v.next, v.room, v.capacity, l);
              room = ground (arith, v.room, l);
              capacity = v.capacity;
            })
    ]
  ]

  step-Inv : (pop : Population F) (op : Op) → Inv pop → Inv (step pop op)
  unfolding population_normalize population_merge population_prune population_apply_evidence merged
      pruned
  step-Inv pop (add_op claim prior) v = population_add-Inv pop claim prior v
  step-Inv pop normalize_op v = same_ids-Inv pop _ v (ids-normalize_loop _ pop.nodes)
  step-Inv pop (merge_op a b) v = elim (Option-cases (last_with a pop.nodes)) [
    | inl p ↦ rw (p, step) v
    | inr (ha, p) ↦ elim (Option-cases (last_with b pop.nodes)) [
      | inl q ↦ rw (p, q, step) v
      | inr (hb, q) ↦
          rw (p, q, step)
            (same_ids-Inv pop _ v
              (ids-set_last a (merged fl ha hb) pop.nodes (last_with-id a pop.nodes ha p)))
    ]
  ]
  step-Inv pop (prune_op id) v =
      same_ids-Inv pop _ v (ids-update_node id pruned (λ n. refl) pop.nodes)
  step-Inv pop (evidence_op none) v = v
  step-Inv pop (evidence_op (some e)) v =
      same_ids-Inv pop _ v (ids-update_node e.hypothesis_id _ (λ n. weigh-id e n.state) pop.nodes)

  -- After any operations on a new population its nodes are numbered from 1 on in their order, the
  -- next identifier is one more than their number, and there are at most 40 of them.
  pub run-population_create-Inv : (ops : List Op) → Inv (run population_create ops)
  unfolding population_create
  run-population_create-Inv ops =
      run-Inv ops population_create
        (record { numbered = refl; next = refl; room = omega arith; capacity = refl })
    where
      run-Inv : (ops : List Op) (pop : Population F) → Inv pop → Inv (run pop ops)
      run-Inv [] pop v = v
      run-Inv (op ∷ ops) pop v = run-Inv ops (step pop op) (step-Inv pop op v)
