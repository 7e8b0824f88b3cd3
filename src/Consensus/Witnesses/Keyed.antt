-- ===== src/Consensus/Witnesses/Keyed.antt =====
-- Every witness stands under its own id, once.
use synpeer.Prelude.{
  ℕ, length, ltb, String, Option, none, some, List, [], ◌∷◌, ◌≡◌, refl, sym, ap, ◌∙◌, ◌==◌, All,
  eq_iff, Bool-cases, Option-cases, inl, inr, arith,
}
use synpeer.Dict.{Dict, get, put, delete, values}
use synpeer.Dict.Entries.{IsDistinct, put-IsDistinct, delete-IsDistinct, found_each}
use synpeer.Consensus.Witnesses.{
  Witness, Criteria, Witnesses, Texts, register_witness, with_trust, update_witness_trust_score,
  count_selected, select_witnesses, remove_witness, clear_all, update_criteria, put_witnesses,
  import_witnesses, get_eligible_witnesses, choose,
}

abbrev IsNamed : Dict Witness → Type 0
IsNamed d = All (λ (e : String × Witness). e.1.peer_id ≡ e.0) d

abbrev pub IsKeyed : Dict Witness → Type 0
IsKeyed d = IsDistinct d × IsNamed d

put-IsNamed :
    (d : Dict Witness) (k : String) (w : Witness) → w.peer_id ≡ k → IsNamed d → IsNamed (put d k w)
unfolding put
put-IsNamed [] k w e h = (e, tt)
put-IsNamed ((j, v) ∷ d) k w e h = elim (Bool-cases (j == k)) [
  | inl b ↦ rw (All, put, b) (e ∙ sym ((eq_iff j k).0 b), h.1)
  | inr b ↦ rw (All, put, b) (h.0, put-IsNamed d k w e h.1)
]

delete-IsNamed : (d : Dict Witness) (k : String) → IsNamed d → IsNamed (delete d k)
unfolding delete
delete-IsNamed [] k h = tt
delete-IsNamed ((j, v) ∷ d) k h = elim (Bool-cases (j == k)) [
  | inl b ↦ rw (All, delete, b) (delete-IsNamed d k h.1)
  | inr b ↦ rw (All, delete, b) (h.0, delete-IsNamed d k h.1)
]

put-IsKeyed :
    (d : Dict Witness) (k : String) (w : Witness) → w.peer_id ≡ k → IsKeyed d → IsKeyed (put d k w)
put-IsKeyed d k w e h = (put-IsDistinct d k w h.0, put-IsNamed d k w e h.1)

pub get-IsNamed :
    (d : Dict Witness) (k : String) (w : Witness) → IsNamed d → get d k ≡ some w → w.peer_id ≡ k
unfolding get
get-IsNamed [] k w h e = cc
get-IsNamed ((j, v) ∷ d) k w h e = elim (Bool-cases (j == k)) [
  | inl b ↦ ground (arith, h.0, rw b at e, (eq_iff j k).0 b)
  | inr b ↦ get-IsNamed d k w h.1 (rw b at e)
]

count_selected-IsKeyed :
    (d : Dict Witness) (ps : List String) → IsKeyed d → IsKeyed (count_selected d ps)
unfolding count_selected
count_selected-IsKeyed d [] h = h
count_selected-IsKeyed d (p ∷ ps) h = elim (Option-cases (get d p)) [
  | inl e ↦ rw (count_selected, e) (count_selected-IsKeyed d ps h)
  | inr (w, e) ↦
      rw (count_selected, e)
        (count_selected-IsKeyed (put d p _) ps (put-IsKeyed d p _ (get-IsNamed d p w h.1 e) h))
]

put_witnesses-IsKeyed :
    (d : Dict Witness) (ws : List Witness) → IsKeyed d → IsKeyed (put_witnesses d ws)
unfolding put_witnesses
put_witnesses-IsKeyed d [] h = h
put_witnesses-IsKeyed d (w ∷ ws) h =
    put_witnesses-IsKeyed (put d w.peer_id w) ws (put-IsKeyed d w.peer_id w refl h)

-- The calls of the manager.
pub data Call : Type 0 where
  do_register : ℕ → String → ℕ → Option String → Call
  do_update : ℕ → String → ℕ → Call
  do_select : (String → ℕ) → String → List String → Call
  do_remove : String → Call
  do_clear : Call
  do_criteria : Criteria → Call
  do_import : List Witness → Call

module _ (t : Texts) where
  unfoldable pub perform : Witnesses → Call → Witnesses
  unfolding register_witness update_witness_trust_score select_witnesses remove_witness clear_all
      update_criteria import_witnesses
  perform m (do_register now peer trust region) = register_witness m now peer trust region
  perform m (do_update now peer trust) = (update_witness_trust_score m now peer trust).0
  perform m (do_select now contribution excluded) =
      (select_witnesses t m now contribution excluded).0
  perform m (do_remove peer) = (remove_witness m peer).0
  perform m do_clear = clear_all m
  perform m (do_criteria c) = update_criteria m c
  perform m (do_import ws) = import_witnesses m ws

  unfoldable pub perform_all : Witnesses → List Call → Witnesses
  unfolding perform
  perform_all m [] = m
  perform_all m (c ∷ cs) = perform_all (perform m c) cs

  with_trust-IsKeyed :
      (m : Witnesses) (now : ℕ) (peer : String) (trust : ℕ) (o : Option Witness)
      → get m.known peer ≡ o
      → IsKeyed m.known
      → IsKeyed (with_trust m now peer trust o).0.known
  unfolding with_trust
  with_trust-IsKeyed m now peer trust none e h = h
  with_trust-IsKeyed m now peer trust (some w) e h =
      put-IsKeyed m.known peer _ (get-IsNamed m.known peer w h.1 e) h

  select_witnesses-IsKeyed :
      (m : Witnesses) (now : String → ℕ) (contribution : String) (excluded : List String)
      → IsKeyed m.known
      → IsKeyed (select_witnesses t m now contribution excluded).0.known
  unfolding select_witnesses
  select_witnesses-IsKeyed m now contribution excluded h =
      let eligible = get_eligible_witnesses m excluded now in
      elim (Bool-cases (ltb (length eligible) m.criteria.min_count)) [
        | inl b ↦ rw b h
        | inr b ↦ rw b (count_selected-IsKeyed m.known (choose t m eligible) h)
      ]

  perform-IsKeyed : (m : Witnesses) (c : Call) → IsKeyed m.known → IsKeyed (perform m c).known
  unfolding perform register_witness update_witness_trust_score remove_witness clear_all
      update_criteria import_witnesses
  perform-IsKeyed m (do_register now peer trust region) h = put-IsKeyed m.known peer _ refl h
  perform-IsKeyed m (do_update now peer trust) h =
      with_trust-IsKeyed m now peer trust (get m.known peer) refl h
  perform-IsKeyed m (do_select now contribution excluded) h =
      select_witnesses-IsKeyed m now contribution excluded h
  perform-IsKeyed m (do_remove peer) h =
      (delete-IsDistinct m.known peer h.0, delete-IsNamed m.known peer h.1)
  perform-IsKeyed m do_clear h = (tt, tt)
  perform-IsKeyed m (do_criteria c) h = h
  perform-IsKeyed m (do_import ws) h = put_witnesses-IsKeyed m.known ws h

  pub perform_all-IsKeyed :
      (m : Witnesses) (cs : List Call) → IsKeyed m.known → IsKeyed (perform_all m cs).known
  unfolding perform_all
  perform_all-IsKeyed m [] h = h
  perform_all-IsKeyed m (c ∷ cs) h = perform_all-IsKeyed (perform m c) cs (perform-IsKeyed m c h)

to_values :
    (f d : Dict Witness)
    → All (λ e. get f e.0 ≡ some e.1) d
    → IsNamed d
    → All (λ (w : Witness). get f w.peer_id ≡ some w) (values d)
unfolding values
to_values f [] h n = tt
to_values f ((k, v) ∷ d) h n = (ap (get f) n.0 ∙ h.0, to_values f d h.1 n.1)

-- What the manager holds of a witness is found under its id.
pub found_values :
    (d : Dict Witness) → IsKeyed d → All (λ (w : Witness). get d w.peer_id ≡ some w) (values d)
found_values d h = to_values d d (found_each d h.0) h.1
