-- ===== src/Consensus/Witnesses/Choice.antt =====
-- On what selectWitnesses returns.
use synpeer.Prelude.{
  ℕ, ◌+◌, ◌≤◌, String, Bool, true, false, some, List, [], ◌∷◌, ◌≡◌, refl, sym, ap, ◌∙◌, All,
  Bool-cases, inl, inr, arith, if◌then◌else◌, length, filter, ltb, min,
}
use synpeer.Prelude.Sort.{sort}
use synpeer.Prelude.Sorted.{sort-All, length-sort}
use synpeer.Dict.{get, values}
use synpeer.Consensus.Witnesses.{
  Witness, Criteria, Witnesses, Texts, make, includes, is_eligible, get_eligible_witnesses,
  peer_ids, precedes, order_witnesses, next_counter, choose, select_witnesses,
}
use synpeer.Consensus.Witnesses.Keyed.{
  Call, perform_all, IsKeyed, perform_all-IsKeyed, found_values,
}
use synpeer.Consensus.Witnesses.Selection.{
  choose_in_order, IsUnique, values-IsUnique, filter-IsUnique, sort-IsUnique, take-IsUnique,
  take-All, length-take, length-peer_ids,
}

-- A registered peer that is trusted enough, not excluded, and was seen in the last 24 hours.
pub record IsSuitable (m : Witnesses) (excluded : List String) (now : String → ℕ) (p : String)
    : Type 0 where
  pub witness : Witness
  pub registered : get m.known p ≡ some witness
  pub trusted : m.criteria.min_trust_score ≤ witness.trust_score
  pub allowed : includes excluded p ≡ false
  pub recent : now p ≤ witness.last_seen + 86400000

eligible-IsSuitable :
    (m : Witnesses) (excluded : List String) (now : String → ℕ) (w : Witness)
    → get m.known w.peer_id ≡ some w
    → is_eligible m.criteria excluded now w ≡ true
    → IsSuitable m excluded now w.peer_id
unfolding is_eligible
eligible-IsSuitable m excluded now w g h = record {
  witness = w;
  registered = g;
  trusted = ground (arith, h);
  allowed = ground (arith, h);
  recent = ground (arith, h);
}

filter-IsSuitable :
    (m : Witnesses) (excluded : List String) (now : String → ℕ) (ws : List Witness)
    → All (λ (w : Witness). get m.known w.peer_id ≡ some w) ws
    → All
        (λ (w : Witness). IsSuitable m excluded now w.peer_id)
        (filter (is_eligible m.criteria excluded now) ws)
filter-IsSuitable m excluded now [] h = tt
filter-IsSuitable m excluded now (w ∷ ws) h =
    elim (Bool-cases (is_eligible m.criteria excluded now w)) [
      | inl b ↦
          rw (All, filter, b)
            (eligible-IsSuitable m excluded now w h.0 b, filter-IsSuitable m excluded now ws h.1)
      | inr b ↦ rw (All, filter, b) (filter-IsSuitable m excluded now ws h.1)
    ]

peer_ids-All :
    (P : String → Type 0) (ws : List Witness)
    → All (λ (w : Witness). P w.peer_id) ws
    → All P (peer_ids ws)
peer_ids-All P [] h = tt
peer_ids-All P (w ∷ ws) h = (h.0, peer_ids-All P ws h.1)

pub record IsSound (m : Witnesses) (now : String → ℕ) (excluded : List String) (ps : List String)
    : Type 0 where
  pub suitable : All (IsSuitable m excluded now) ps
  pub unique : IsUnique ps
  pub number : length ps ≡ (
      if ltb (length (get_eligible_witnesses m excluded now)) m.criteria.min_count
      then 0
      else min m.criteria.max_count (length (get_eligible_witnesses m excluded now)))

module _ (t : Texts) where
  length-choose :
      (m : Witnesses) (ws : List Witness)
      → length (choose t m ws) ≡ min m.criteria.max_count (length ws)
  unfolding order_witnesses
  length-choose m ws =
      let before = precedes t m.criteria (next_counter t m.criteria m.counter) in
      ap length (choose_in_order t m ws)
      ∙ (length-take m.criteria.max_count (peer_ids (sort before ws))
          ∙ ap (min m.criteria.max_count)
              (length-peer_ids (sort before ws) ∙ length-sort before ws))

  choose-All :
      (P : String → Type 0) (m : Witnesses) (ws : List Witness)
      → All (λ (w : Witness). P w.peer_id) ws
      → All P (choose t m ws)
  unfolding order_witnesses
  choose-All P m ws h =
      let before = precedes t m.criteria (next_counter t m.criteria m.counter) in
      rw choose_in_order (
        take-All P m.criteria.max_count (peer_ids (sort before ws))
          (peer_ids-All P (sort before ws) (sort-All before (λ (w : Witness). P w.peer_id) ws h)))

  choose-IsUnique :
      (m : Witnesses) (ws : List Witness) → IsUnique (peer_ids ws) → IsUnique (choose t m ws)
  unfolding order_witnesses
  choose-IsUnique m ws h =
      let before = precedes t m.criteria (next_counter t m.criteria m.counter) in
      rw choose_in_order
        (take-IsUnique m.criteria.max_count (peer_ids (sort before ws)) (sort-IsUnique before ws h))

  select-IsSound :
      (m : Witnesses) (now : String → ℕ) (contribution : String) (excluded : List String)
      → IsKeyed m.known
      → IsSound m now excluded (select_witnesses t m now contribution excluded).1
  unfolding select_witnesses get_eligible_witnesses
  select-IsSound m now contribution excluded h =
      let eligible = get_eligible_witnesses m excluded now in
      let suitable =
        choose-All (IsSuitable m excluded now) m eligible
          (filter-IsSuitable m excluded now (values m.known) (found_values m.known h)) in
      let unique = choose-IsUnique m eligible (
        filter-IsUnique (is_eligible m.criteria excluded now) (values m.known)
          (values-IsUnique m.known h)) in
      elim (Bool-cases (ltb (length eligible) m.criteria.min_count)) [
        | inl b ↦ rw b (record { suitable = tt; unique = tt; number = rw b refl })
        | inr b ↦ rw b (record {
          suitable = suitable;
          unique = unique;
          number = rw b (length-choose m eligible);
        })
      ]

  -- After any calls on a new manager, every peer that selectWitnesses returns is registered,
  -- trusted enough, not excluded and was seen in the last 24 hours, none is returned twice, and
  -- their number is that of the eligible witnesses, at most the maximum, or 0 if that is below
  -- the minimum.
  pub selected_soundly :
      (c : Criteria) (calls : List Call) (now : String → ℕ) (contribution : String)
      (excluded : List String)
      → IsSound
          (perform_all t (make c) calls)
          now
          excluded
          (select_witnesses t (perform_all t (make c) calls) now contribution excluded).1
  unfolding make
  selected_soundly c calls now contribution excluded =
      select-IsSound (perform_all t (make c) calls) now contribution excluded
        (perform_all-IsKeyed t (make c) calls (tt, tt))

  -- selectWitnesses returns the same peers whether geographic diversity is required or not.
  pub diversity_ignored :
      (m : Witnesses) (now : String → ℕ) (contribution : String) (excluded : List String) (b : Bool)
      → (select_witnesses t m now contribution excluded).1
        ≡ (select_witnesses t
            (record m { criteria = record m.criteria { require_geographic_diversity = b } })
            now
            contribution
            excluded).1
  unfolding select_witnesses get_eligible_witnesses is_eligible order_witnesses precedes
      next_counter
  diversity_ignored m now contribution excluded b =
      let m' : Witnesses = record m {
        criteria = record m.criteria { require_geographic_diversity = b };
      } in
      let ws = get_eligible_witnesses m excluded now in
      let e : choose t m ws ≡ choose t m' ws =
        choose_in_order t m ws ∙ sym (choose_in_order t m' ws) in
      elim (Bool-cases (ltb (length ws) m.criteria.min_count)) [
        | inl few ↦ rw few refl
        | inr enough ↦ rw enough e
      ]
