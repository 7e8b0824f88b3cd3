-- ===== src/Consensus/Witnesses/Best.antt =====
-- On the selection by trust.
use synpeer.Prelude.{
  ℕ, zero, suc, ◌≤◌, String, Bool, true, false, some, List, [], ◌∷◌, ◌≡◌, ◌⊎◌, refl, sym, ap, ◌∙◌,
  ◌==◌, All, Bool-cases, inl, inr, arith, length, eq_iff, subst, filter, ltb, leb,
}
use mathlib.Core.Option.{some-injective}
use synpeer.Prelude.Sort.{sort, insert_sorted}
use synpeer.Prelude.Sorted.{sort-All, IsSortedBy, sort-IsSortedBy}
use synpeer.Dict.{Dict, get, values}
use synpeer.Consensus.Witnesses.{
  Witness, Criteria, Witnesses, Texts, make, includes, is_eligible, get_eligible_witnesses,
  peer_ids, take, precedes, order_witnesses, choose, select_witnesses,
}
use synpeer.Consensus.Witnesses.Keyed.{
  Call, perform_all, IsKeyed, perform_all-IsKeyed, found_values, get-IsNamed,
}
use synpeer.Consensus.Witnesses.Selection.{choose_in_order}

abbrev IsAmong : Witness → List Witness → Type 0
IsAmong w [] = ⊥
IsAmong w (v ∷ ws) = (w ≡ v) ⊎ IsAmong w ws

values-IsAmong :
    (d : Dict Witness) (p : String) (w : Witness) → get d p ≡ some w → IsAmong w (values d)
unfolding get values
values-IsAmong [] p w h = cc
values-IsAmong ((k, v) ∷ d) p w h = elim (Bool-cases (k == p)) [
  | inl b ↦ inl (sym (some-injective _ _ (rw b at h)))
  | inr b ↦ inr (values-IsAmong d p w (rw b at h))
]

filter-IsAmong :
    (f : Witness → Bool) (ws : List Witness) (w : Witness)
    → f w ≡ true
    → IsAmong w ws
    → IsAmong w (filter f ws)
filter-IsAmong f [] w t i = elim i [ ]
filter-IsAmong f (v ∷ ws) w t (inl e) = rw (filter, ap f (sym e) ∙ t) (inl e)
filter-IsAmong f (v ∷ ws) w t (inr i) = elim (Bool-cases (f v)) [
  | inl b ↦ rw (filter, b) (inr (filter-IsAmong f ws w t i))
  | inr b ↦ rw (filter, b) (filter-IsAmong f ws w t i)
]

insert_sorted-IsAmong :
    (before : Witness → Witness → Bool) (v : Witness) (ws : List Witness) (w : Witness)
    → IsAmong w (v ∷ ws)
    → IsAmong w (insert_sorted before v ws)
unfolding insert_sorted
insert_sorted-IsAmong before v [] w h = h
insert_sorted-IsAmong before v (u ∷ ws) w h = elim (Bool-cases (before v u)) [
  | inl b ↦ rw (insert_sorted, b) h
  | inr b ↦ rw (insert_sorted, b) (go (insert_sorted-IsAmong before v ws w) h)
]
  where
    go :
        (IsAmong w (v ∷ ws) → IsAmong w (insert_sorted before v ws))
        → IsAmong w (v ∷ u ∷ ws)
        → IsAmong w (u ∷ insert_sorted before v ws)
    go f (inl e) = inr (f (inl e))
    go f (inr (inl e)) = inl e
    go f (inr (inr i)) = inr (f (inr i))

sort-IsAmong :
    (before : Witness → Witness → Bool) (ws : List Witness) (w : Witness)
    → IsAmong w ws
    → IsAmong w (sort before ws)
unfolding sort
sort-IsAmong before [] w i = elim i [ ]
sort-IsAmong before (v ∷ ws) w (inl e) = insert_sorted-IsAmong before v (sort before ws) w (inl e)
sort-IsAmong before (v ∷ ws) w (inr i) =
    insert_sorted-IsAmong before v (sort before ws) w (inr (sort-IsAmong before ws w i))

lookup_All :
    (P : Witness → Type 0) (ws : List Witness) (w : Witness) → All P ws → IsAmong w ws → P w
lookup_All P [] w h i = elim i [ ]
lookup_All P (v ∷ ws) w h (inl e) = subst P (sym e) h.0
lookup_All P (v ∷ ws) w h (inr i) = lookup_All P ws w h.1 i

-- What is cut off stands behind what is taken.
taken_before :
    (le : Witness → Witness → Bool) (n : ℕ) (ws : List Witness) (w : Witness)
    → IsSortedBy le ws
    → IsAmong w ws
    → includes (take n (peer_ids ws)) w.peer_id ≡ false
    → All (λ (v : Witness). le v w ≡ true) (take n ws)
taken_before le zero ws w s i h = tt
taken_before le (suc n) [] w s i h = elim i [ ]
taken_before le (suc n) (v ∷ ws) w s (inl e) h =
    absurd (ground (arith, h, eq_iff v.peer_id w.peer_id, ap (λ (u : Witness). u.peer_id) e))
taken_before le (suc n) (v ∷ ws) w s (inr i) h =
    (lookup_All (λ u. le v u ≡ true) ws w s.0 i, taken_before le n ws w s.1 i (ground (arith, h)))

-- A registered peer with at least this trust.
pub record IsTrusted (m : Witnesses) (trust : ℕ) (p : String) : Type 0 where
  pub witness : Witness
  pub registered : get m.known p ≡ some witness
  pub at_least : trust ≤ witness.trust_score

IsTrusted-All :
    (m : Witnesses) (trust n : ℕ) (ws : List Witness)
    → All (λ (w : Witness). get m.known w.peer_id ≡ some w) ws
    → All (λ (w : Witness). leb trust w.trust_score ≡ true) (take n ws)
    → All (IsTrusted m trust) (take n (peer_ids ws))
IsTrusted-All m trust zero ws h b = tt
IsTrusted-All m trust (suc n) [] h b = tt
IsTrusted-All m trust (suc n) (w ∷ ws) h b = (
  record { witness = w; registered = h.0; at_least = ground (arith, b.0) },
  IsTrusted-All m trust n ws h.1 b.1,
)

filter_found :
    (P : Witness → Type 0) (f : Witness → Bool) (ws : List Witness) → All P ws → All P (filter f ws)
filter_found P f [] h = tt
filter_found P f (w ∷ ws) h = elim (Bool-cases (f w)) [
  | inl b ↦ rw (All, filter, b) (h.0, filter_found P f ws h.1)
  | inr b ↦ rw (All, filter, b) (filter_found P f ws h.1)
]

abbrev by_trust : Witness → Witness → Bool
by_trust v w = leb w.trust_score v.trust_score

module _ (t : Texts) where
  choose_best :
      (m : Witnesses) (ws : List Witness) (w : Witness)
      → m.criteria.require_random_selection ≡ false
      → All (λ (v : Witness). get m.known v.peer_id ≡ some v) ws
      → IsAmong w ws
      → includes (choose t m ws) w.peer_id ≡ false
      → All (IsTrusted m w.trust_score) (choose t m ws)
  unfolding order_witnesses precedes
  choose_best m ws w r k i h =
      let e : choose t m ws ≡ take m.criteria.max_count (peer_ids (sort by_trust ws)) =
        choose_in_order t m ws ∙ rw r refl in
      rw e (
        IsTrusted-All m w.trust_score m.criteria.max_count (sort by_trust ws)
          (sort-All by_trust (λ (v : Witness). get m.known v.peer_id ≡ some v) ws k)
          (taken_before by_trust m.criteria.max_count (sort by_trust ws) w
            (sort-IsSortedBy by_trust (λ x y b. ground (arith, b))
              (λ x y z b c. ground (arith, b, c)) ws)
            (sort-IsAmong by_trust ws w i) (rw e at h)))

  -- After any calls on a new manager, if witnesses are selected by trust, then no eligible peer
  -- that selectWitnesses leaves out is trusted more than one that it returns.
  pub best_selected :
      (c : Criteria) (calls : List Call) (now : String → ℕ) (contribution : String)
      (excluded : List String) (p : String) (w : Witness)
      → (perform_all t (make c) calls).criteria.require_random_selection ≡ false
      → get (perform_all t (make c) calls).known p ≡ some w
      → is_eligible (perform_all t (make c) calls).criteria excluded now w ≡ true
      → includes (select_witnesses t (perform_all t (make c) calls) now contribution excluded).1 p
        ≡ false
      → All
          (IsTrusted (perform_all t (make c) calls) w.trust_score)
          (select_witnesses t (perform_all t (make c) calls) now contribution excluded).1
  unfolding select_witnesses get_eligible_witnesses make
  best_selected c calls now contribution excluded p w r g a h =
      let m = perform_all t (make c) calls in
      let k : IsKeyed m.known = perform_all-IsKeyed t (make c) calls (tt, tt) in
      let ws = get_eligible_witnesses m excluded now in
      let named : w.peer_id ≡ p = get-IsNamed m.known p w k.1 g in
      elim (Bool-cases (ltb (length ws) m.criteria.min_count)) [
        | inl few ↦ rw few tt
        | inr enough ↦ rw enough (
            choose_best m ws w r
              (filter_found _ (is_eligible m.criteria excluded now) (values m.known)
                (found_values m.known k))
              (filter-IsAmong (is_eligible m.criteria excluded now) (values m.known) w a
                (values-IsAmong m.known p w g))
              (rw named (rw enough at h)))
      ]
