-- ===== src/Tests/Witnesses.antt =====
-- Selections of witnesses at concrete inputs (src/consensus/WitnessManager.ts).
use synpeer.Prelude.{All, ℕ, String, ◌≡◌, refl, none, some, List, [], ◌∷◌, true, false}
use synpeer.Prelude.Sort.{insert_sorted, sort}
use synpeer.Dict.{get, put, values}
use synpeer.Consensus.Witnesses.{
  Witness, Criteria, Witnesses, Texts, make, register_witness, is_eligible, get_eligible_witnesses,
  precedes, order_witnesses, next_counter, choose, select_witnesses, add_each, count_selected,
  regions_of, region_of, additional_witnesses, ensure_geographic_diversity,
}
use synpeer.Consensus.Witnesses.Keyed.{Call, do_register, do_select, perform, perform_all}
use synpeer.Consensus.Witnesses.Choice.{IsSound, selected_soundly, diversity_ignored}
use synpeer.Consensus.Witnesses.Best.{IsTrusted, best_selected}

abbrev texts : Texts
texts = record { decimal = λ n. "1"; hex = λ n. "h"; at_most = λ a b. true }

abbrev one_of_the_best : Criteria
one_of_the_best = record {
  min_trust_score = 4;
  min_count = 1;
  max_count = 1;
  require_geographic_diversity = true;
  require_random_selection = false;
}

abbrev two_peers : List Call
two_peers =
    do_register 10 "a" 5 (some "north")
    ∷ do_register 10 "b" 9 (some "south")
    ∷ do_select (λ p. 20) "c" []
    ∷ do_register 10 "x" 9 none
    ∷ []

abbrev now : String → ℕ
now p = 30

selected_soundly_example :
    IsSound
      (perform_all texts (make one_of_the_best) two_peers)
      now
      ("x" ∷ [])
      (select_witnesses texts
        (perform_all texts (make one_of_the_best) two_peers)
        now
        "d"
        ("x" ∷ [])).1
selected_soundly_example = selected_soundly texts one_of_the_best two_peers now "d" ("x" ∷ [])

abbrev ready : Witnesses
ready = perform_all texts (make one_of_the_best) two_peers

diversity_ignored_example :
    (select_witnesses texts ready now "d" ("x" ∷ [])).1
    ≡ (select_witnesses texts
        (record ready { criteria = record ready.criteria { require_geographic_diversity = false } })
        now
        "d"
        ("x" ∷ [])).1
diversity_ignored_example = diversity_ignored texts ready now "d" ("x" ∷ []) false

abbrev first : Witness
first = record {
  peer_id = "a";
  trust_score = 5;
  last_seen = 10;
  geographic_region = some "north";
  selected_count = 0;
}

first_known : get ready.known "a" ≡ some first
unfolding perform_all perform register_witness select_witnesses make get put choose is_eligible
    get_eligible_witnesses next_counter count_selected add_each order_witnesses precedes
    insert_sorted sort values ensure_geographic_diversity regions_of region_of additional_witnesses
first_known = refl

second_selected : (select_witnesses texts ready now "d" ("x" ∷ [])).1 ≡ "b" ∷ []
unfolding perform_all perform register_witness select_witnesses make get put choose is_eligible
    get_eligible_witnesses next_counter count_selected add_each order_witnesses precedes
    insert_sorted sort values ensure_geographic_diversity regions_of region_of additional_witnesses
second_selected = refl

not_random : ready.criteria.require_random_selection ≡ false
unfolding perform_all perform register_witness select_witnesses make put is_eligible
not_random = refl

first_eligible : is_eligible ready.criteria ("x" ∷ []) now first ≡ true
unfolding perform_all perform register_witness select_witnesses make is_eligible put
first_eligible = refl

best_selected_example : All (IsTrusted ready 5) (select_witnesses texts ready now "d" ("x" ∷ [])).1
best_selected_example =
    best_selected texts one_of_the_best two_peers now "d" ("x" ∷ []) "a" first not_random
      first_known first_eligible (rw second_selected refl)
