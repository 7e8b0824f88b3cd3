-- ===== src/Consensus/Witnesses/Selection.antt =====
-- On the order of the eligible witnesses, the regions, and lists of peers without repetition.
use synpeer.Prelude.{
  ℕ, zero, suc, String, Bool, true, false, List, [], ◌∷◌, ◌++◌, ◌≡◌, refl, ap, ◌∙◌, ◌==◌, All,
  eq_iff, eq_refl, arith, if◌then◌else◌, length, filter, leb, min,
}
use synpeer.Prelude.Sort.{sort, insert_sorted}
use synpeer.Dict.{Dict, has, put, size, values}
use synpeer.Dict.Laws.{has-put}
use synpeer.Consensus.Witnesses.{
  Witness, Criteria, Witnesses, Texts, includes, peer_ids, add_each, additional_witnesses,
  ensure_geographic_diversity, take, precedes, order_witnesses, next_counter, regions_of, choose,
}
use synpeer.Consensus.Witnesses.Keyed.{IsKeyed}

-- A set holds what its list holds.
has-add_each :
    (d : Dict (Unit {0})) (ps : List String) (k : String)
    → has (add_each d ps) k ≡ (if includes ps k then true else has d k)
unfolding add_each
has-add_each d [] k = refl
has-add_each d (p ∷ ps) k = ground (arith, has-add_each (put d p tt) ps k, has-put d p tt k)

-- The loop of the diversity skips a witness that is chosen.
additional_witnesses-none :
    (regions chosen : Dict (Unit {0})) (ws : List Witness)
    → All (λ (w : Witness). has chosen w.peer_id ≡ true) ws
    → additional_witnesses regions chosen ws ≡ []
unfolding additional_witnesses
additional_witnesses-none regions chosen [] h = refl
additional_witnesses-none regions chosen (w ∷ ws) h =
    rw h.0 (additional_witnesses-none regions chosen ws h.1)

append_none : (ps : List String) → ps ++ [] ≡ ps
append_none [] = refl
append_none (p ∷ ps) = ap (◌∷◌ p) (append_none ps)

module _ (before : Witness → Witness → Bool) where
  includes-insert_sorted :
      (w : Witness) (ws : List Witness) (p : String)
      → includes (peer_ids (insert_sorted before w ws)) p ≡ includes (peer_ids (w ∷ ws)) p
  unfolding insert_sorted
  includes-insert_sorted w [] p = refl
  includes-insert_sorted w (v ∷ ws) p = ground (arith, includes-insert_sorted w ws p)

  includes-sort :
      (ws : List Witness) (p : String)
      → includes (peer_ids (sort before ws)) p ≡ includes (peer_ids ws) p
  unfolding sort
  includes-sort [] p = refl
  includes-sort (w ∷ ws) p =
      includes-insert_sorted w (sort before ws) p
      ∙ ap (λ b. if w.peer_id == p then true else b) (includes-sort ws p)

included_in :
    (ws : List Witness) (ps : List String)
    → ((p : String) → includes (peer_ids ws) p ≡ true → includes ps p ≡ true)
    → All (λ (w : Witness). includes ps w.peer_id ≡ true) ws
included_in [] ps h = tt
included_in (w ∷ ws) ps h = (
  h w.peer_id (ground (arith, eq_refl w.peer_id)),
  included_in ws ps (λ p e. h p (ground (arith, e))),
)

chosen_each :
    (ps : List String) (ws : List Witness)
    → All (λ (w : Witness). includes ps w.peer_id ≡ true) ws
    → All (λ (w : Witness). has (add_each [] ps) w.peer_id ≡ true) ws
chosen_each ps [] h = tt
chosen_each ps (w ∷ ws) h =
    (ground (arith, has-add_each [] ps w.peer_id, h.0), chosen_each ps ws h.1)

either_way : (b : Bool) (ps zs : List String) → zs ≡ [] → (if b then ps else ps ++ zs) ≡ ps
either_way true ps zs h = refl
either_way false ps zs h = rw h (append_none ps)

module _ (t : Texts) where
  -- All the eligible witnesses are chosen before the regions are looked at.
  ensure_geographic_diversity-none :
      (known : Dict Witness) (c : Criteria) (n : ℕ) (ws : List Witness)
      → ensure_geographic_diversity known (order_witnesses t c n ws) ws ≡ order_witnesses t c n ws
  unfolding ensure_geographic_diversity order_witnesses
  ensure_geographic_diversity-none known c n ws =
      let ps = peer_ids (sort (precedes t c n) ws) in
      either_way (leb 3 (size (regions_of known [] ps))) ps _ (
        additional_witnesses-none _ (add_each [] ps) ws
          (chosen_each ps ws (included_in ws ps (λ p h. includes-sort (precedes t c n) ws p ∙ h))))

  pub choose_in_order :
      (m : Witnesses) (ws : List Witness)
      → choose t m ws
        ≡ take m.criteria.max_count
            (order_witnesses t m.criteria (next_counter t m.criteria m.counter) ws)
  unfolding choose
  choose_in_order m ws = ground (
    arith,
    ensure_geographic_diversity-none m.known m.criteria (next_counter t m.criteria m.counter) ws,
  )

-- No peer stands twice.
abbrev pub IsUnique : List String → Type 0
IsUnique [] = Unit
IsUnique (p ∷ ps) = (includes ps p ≡ false) × IsUnique ps

includes-values :
    (d : Dict Witness) (p : String)
    → All (λ (e : String × Witness). e.1.peer_id ≡ e.0) d
    → includes (peer_ids (values d)) p ≡ has d p
unfolding values has
includes-values [] p h = refl
includes-values ((k, w) ∷ d) p h =
    rw h.0 (ap (λ b. if k == p then true else b) (includes-values d p h.1))

pub values-IsUnique : (d : Dict Witness) → IsKeyed d → IsUnique (peer_ids (values d))
unfolding values
values-IsUnique [] h = tt
values-IsUnique ((k, w) ∷ d) h = (
  ap (includes (peer_ids (values d))) h.1.0 ∙ (includes-values d k h.1.1 ∙ h.0.0),
  values-IsUnique d (h.0.1, h.1.1),
)

includes-filter :
    (f : Witness → Bool) (ws : List Witness) (p : String)
    → includes (peer_ids ws) p ≡ false
    → includes (peer_ids (filter f ws)) p ≡ false
includes-filter f [] p h = refl
includes-filter f (w ∷ ws) p h = ground (arith, h, includes-filter f ws p)

pub filter-IsUnique :
    (f : Witness → Bool) (ws : List Witness)
    → IsUnique (peer_ids ws)
    → IsUnique (peer_ids (filter f ws))
filter-IsUnique f [] h = tt
filter-IsUnique f (w ∷ ws) h =
    ground (arith, includes-filter f ws w.peer_id h.0, filter-IsUnique f ws h.1)

insert_sorted-IsUnique :
    (before : Witness → Witness → Bool) (w : Witness) (ws : List Witness)
    → IsUnique (peer_ids (w ∷ ws))
    → IsUnique (peer_ids (insert_sorted before w ws))
unfolding insert_sorted
insert_sorted-IsUnique before w [] h = h
insert_sorted-IsUnique before w (v ∷ ws) h = ground (
  arith,
  h,
  includes-insert_sorted before w ws v.peer_id,
  insert_sorted-IsUnique before w ws,
  eq_iff w.peer_id v.peer_id,
  eq_iff v.peer_id w.peer_id,
)

pub sort-IsUnique :
    (before : Witness → Witness → Bool) (ws : List Witness)
    → IsUnique (peer_ids ws)
    → IsUnique (peer_ids (sort before ws))
unfolding sort
sort-IsUnique before [] h = tt
sort-IsUnique before (w ∷ ws) h =
    insert_sorted-IsUnique before w (sort before ws)
      (includes-sort before ws w.peer_id ∙ h.0, sort-IsUnique before ws h.1)

includes-take :
    (n : ℕ) (ps : List String) (p : String) → includes ps p ≡ false → includes (take n ps) p ≡ false
includes-take zero ps p h = refl
includes-take (suc n) [] p h = refl
includes-take (suc n) (q ∷ ps) p h = ground (arith, h, includes-take n ps p)

pub take-IsUnique : (n : ℕ) (ps : List String) → IsUnique ps → IsUnique (take n ps)
take-IsUnique zero ps h = tt
take-IsUnique (suc n) [] h = tt
take-IsUnique (suc n) (p ∷ ps) h = (includes-take n ps p h.0, take-IsUnique n ps h.1)

pub take-All : (P : String → Type 0) (n : ℕ) (ps : List String) → All P ps → All P (take n ps)
take-All P zero ps h = tt
take-All P (suc n) [] h = tt
take-All P (suc n) (p ∷ ps) h = (h.0, take-All P n ps h.1)

pub length-take : (n : ℕ) (ps : List String) → length (take n ps) ≡ min n (length ps)
length-take zero ps = omega arith
length-take (suc n) [] = omega arith
length-take (suc n) (p ∷ ps) = omega (arith, length-take n ps)

pub length-peer_ids : (ws : List Witness) → length (peer_ids ws) ≡ length ws
length-peer_ids [] = refl
length-peer_ids (w ∷ ws) = ap suc (length-peer_ids ws)
