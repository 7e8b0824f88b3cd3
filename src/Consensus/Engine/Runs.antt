-- ===== src/Consensus/Engine/Runs.antt =====
-- What stays in order over a run of an engine.
use synpeer.Prelude.{ℕ, String, Bool, true, Option, none, some, List, [], ◌∷◌, Bool-cases, inl, inr}
use synpeer.Dict.{Dict, get, has, put}
use synpeer.Dict.Entries.{IsDistinct, put-IsDistinct, delete-IsDistinct, put_all}
use synpeer.Consensus.Votes.{VoteType, empty}
use synpeer.Consensus.Votes.Index.{IsInjective, empty-IsIndexed, restore_votes-IsIndexed}
use synpeer.Consensus.Votes.Import.{import_votes-IsIndexed}
use synpeer.Consensus.Votes.Distinct.{restore_votes-IsDistinct, import_votes-IsDistinct}
use synpeer.Consensus.Quorum.{
  Requirements, Fraction, QuorumResult, validate_quorum, restore_entries, import_entries,
}
use synpeer.Consensus.Witnesses.{Witnesses, Texts}
use synpeer.Consensus.Round.{Round, RoundResult, State, Call, do_verified_vote, do_external}
use synpeer.Consensus.Round as Rounds
use synpeer.Consensus.Engine.{
  Engine, make, state_of, put_back, started, start_contribution_round, find_round, verified_vote_on,
  record_verified_vote, external_result_on, external_result, record_external_result, remove_round,
  clear_all_rounds, reset, Snapshot, create_snapshot, restore_snapshot, import_data, called,
  call_round, witnesses_selected, select_witnesses,
}
use synpeer.Consensus.Engine.Events.{
  Event, do_round, do_verified, do_result, do_call, do_select, do_remove, do_clear, do_reset,
  restart, do_restore, do_import, happen, happen_all,
}
use synpeer.Consensus.Engine.Orderly.{IsManaged, IsOrderly, perform-IsManaged}

put_all-IsDistinct {ℓ} : {V : Type ℓ} (d es : Dict V) → IsDistinct d → IsDistinct (put_all d es)
unfolding put_all
put_all-IsDistinct d [] h = h
put_all-IsDistinct d ((k, v) ∷ es) h = put_all-IsDistinct (put d k v) es (put-IsDistinct d k v h)

restore_entries-IsDistinct :
    (h : Dict QuorumResult) (es : List (String × Option QuorumResult))
    → IsDistinct h
    → IsDistinct (restore_entries h es)
unfolding restore_entries
restore_entries-IsDistinct h [] x = x
restore_entries-IsDistinct h ((c, none) ∷ es) x = restore_entries-IsDistinct h es x
restore_entries-IsDistinct h ((c, some q) ∷ es) x =
    restore_entries-IsDistinct (put h c q) es (put-IsDistinct h c q x)

import_entries-IsDistinct :
    (r : Requirements) (now : ℕ) (h : Dict QuorumResult) (es : List (String × QuorumResult))
    → IsDistinct h
    → IsDistinct (import_entries r now h es)
unfolding import_entries
import_entries-IsDistinct r now h [] x = x
import_entries-IsDistinct r now h ((c, q) ∷ es) x = elim (Bool-cases (validate_quorum r now q)) [
  | inl b ↦
      rw (import_entries, b)
        (import_entries-IsDistinct r now (put h c q) es (put-IsDistinct h c q x))
  | inr b ↦ rw (import_entries, b) (import_entries-IsDistinct r now h es x)
]

module _ (f : String → String → String) (inj : IsInjective f) where
  put_back-IsOrderly :
      (e : Engine) (id : String) (s : State)
      → IsManaged f s
      → IsOrderly f e
      → IsOrderly f (put_back e id s)
  unfolding put_back
  put_back-IsOrderly e id s h o = record {
    indexed = h.indexed;
    votes = h.votes;
    results = h.results;
    rounds = put-IsDistinct e.rounds id s.round o.rounds;
  }

  shared-IsManaged : (e : Engine) (r : Round) → IsOrderly f e → IsManaged f (state_of e r)
  shared-IsManaged e r o = record { indexed = o.indexed; votes = o.votes; results = o.results }

  started-IsOrderly :
      (e : Engine) (id : String) (fresh : Round) (r : Option Round)
      → IsOrderly f e
      → IsOrderly f (started e id fresh r).0
  unfolding started
  started-IsOrderly e id fresh none o = record {
    indexed = o.indexed;
    votes = o.votes;
    results = o.results;
    rounds = put-IsDistinct e.rounds id fresh o.rounds;
  }
  started-IsOrderly e id fresh (some r) o = o

  performed-IsOrderly :
      (is_verified : String → Bool) (e : Engine) (id : String) (r : Round) (c : Call)
      → IsOrderly f e
      → IsOrderly f (put_back e id (Rounds.perform f is_verified (state_of e r) c))
  performed-IsOrderly is_verified e id r c o =
      put_back-IsOrderly e id (Rounds.perform f is_verified (state_of e r) c)
        (perform-IsManaged f inj is_verified (state_of e r) c (shared-IsManaged e r o)) o

  verified-IsOrderly :
      (e : Engine) (now : ℕ → ℕ) (voter : String) (vote : VoteType)
      (reason signature : Option String) (o : Option (String × Round))
      → IsOrderly f e
      → IsOrderly f (verified_vote_on f e now voter vote reason signature o).0
  unfolding verified_vote_on Rounds.perform
  verified-IsOrderly e now voter vote reason signature none h = h
  verified-IsOrderly e now voter vote reason signature (some (id, r)) h =
      performed-IsOrderly (λ p. true) e id r (do_verified_vote now voter vote reason signature) h

  external-IsOrderly :
      (e : Engine) (id contribution : String) (result : Option RoundResult) (approval : Fraction)
      (decided : ℕ)
      → IsOrderly f e
      → IsOrderly f (external_result e id contribution result approval decided).0
  unfolding external_result external_result_on Rounds.perform
  external-IsOrderly e id contribution none approval decided h = h
  external-IsOrderly e id contribution (some result) approval decided h =
      go (find_round e id contribution)
    where
      go :
          (o : Option (String × Round))
          → IsOrderly f (external_result_on e result approval decided o).0
      go none = h
      go (some (k, r)) =
          performed-IsOrderly (λ p. true) e k r (do_external result approval decided) h

  called-IsOrderly :
      (is_verified : String → Bool) (e : Engine) (id : String) (c : Call) (r : Option Round)
      → IsOrderly f e
      → IsOrderly f (called f is_verified e id c r)
  unfolding called
  called-IsOrderly is_verified e id c none o = o
  called-IsOrderly is_verified e id c (some r) o = performed-IsOrderly is_verified e id r c o

  selected-IsOrderly :
      (t : Texts) (e : Engine) (now : String → ℕ) (id : String) (excluded : List String)
      (r : Option Round)
      → IsOrderly f e
      → IsOrderly f (witnesses_selected t e now id excluded r).0
  unfolding witnesses_selected put_back Rounds.select_witnesses
  selected-IsOrderly t e now id excluded none o = o
  selected-IsOrderly t e now id excluded (some r) o = record {
    indexed = o.indexed;
    votes = o.votes;
    results = o.results;
    rounds = put-IsDistinct e.rounds id _ o.rounds;
  }

  removed-IsOrderly : (e : Engine) (id : String) → IsOrderly f e → IsOrderly f (remove_round e id).0
  unfolding remove_round
  removed-IsOrderly e id o = elim (Bool-cases (has e.rounds id)) [
    | inl b ↦ rw b (record {
      indexed = o.indexed;
      votes = o.votes;
      results = o.results;
      rounds = delete-IsDistinct e.rounds id o.rounds;
    })
    | inr b ↦ rw b o
  ]

  restored-IsOrderly : (e : Engine) (s : Snapshot) → IsOrderly f (restore_snapshot f e s)
  unfolding restore_snapshot
  restored-IsOrderly e s = record {
    indexed = restore_votes-IsIndexed f inj s.votes;
    votes = restore_votes-IsDistinct f s.votes;
    results = restore_entries-IsDistinct [] s.quorum_history tt;
    rounds = put_all-IsDistinct [] s.rounds tt;
  }

  pub happen-IsOrderly :
      (t : Texts) (is_verified : String → Bool) (e : Engine) (x : Event)
      → IsOrderly f e
      → IsOrderly f (happen f t is_verified e x)
  unfolding happen start_contribution_round record_verified_vote record_external_result call_round
      select_witnesses clear_all_rounds reset import_data empty
  happen-IsOrderly t v e (do_round id_of now contribution id at) o = started-IsOrderly e _ _ _ o
  happen-IsOrderly t v e (do_verified now id contribution voter vote reason signature) o =
      verified-IsOrderly e now voter vote reason signature (find_round e id contribution) o
  happen-IsOrderly t v e (do_result id contribution result approval decided) o =
      external-IsOrderly e id contribution result approval decided o
  happen-IsOrderly t v e (do_call id c) o = called-IsOrderly v e id c (get e.rounds id) o
  happen-IsOrderly t v e (do_select now id excluded) o =
      selected-IsOrderly t e now id excluded (get e.rounds id) o
  happen-IsOrderly t v e (do_remove id) o = removed-IsOrderly e id o
  happen-IsOrderly t v e do_clear o = record {
    indexed = o.indexed;
    votes = o.votes;
    results = o.results;
    rounds = tt;
  }
  happen-IsOrderly t v e do_reset o = record {
    indexed = empty-IsIndexed f;
    votes = tt;
    results = tt;
    rounds = tt;
  }
  happen-IsOrderly t v e restart o = restored-IsOrderly e (create_snapshot e)
  happen-IsOrderly t v e (do_restore s) o = restored-IsOrderly e s
  happen-IsOrderly t v e (do_import now votes entries) o = record {
    indexed = import_votes-IsIndexed f inj e.manager votes o.indexed;
    votes = import_votes-IsDistinct f e.manager votes o.votes;
    results = import_entries-IsDistinct e.requirements now e.history entries o.results;
    rounds = o.rounds;
  }

  pub happen_all-IsOrderly :
      (t : Texts) (is_verified : String → Bool) (e : Engine) (xs : List Event)
      → IsOrderly f e
      → IsOrderly f (happen_all f t is_verified e xs)
  unfolding happen_all
  happen_all-IsOrderly t v e [] o = o
  happen_all-IsOrderly t v e (x ∷ xs) o =
      happen_all-IsOrderly t v (happen f t v e x) xs (happen-IsOrderly t v e x o)

  pub make-IsOrderly : (r : Requirements) (w : Witnesses) → IsOrderly f (make r w)
  unfolding make empty
  make-IsOrderly r w = record { indexed = empty-IsIndexed f; votes = tt; results = tt; rounds = tt }
