-- ===== src/Consensus/Engine/Outcome.antt =====
-- A decision of a round among the other rounds of an engine.
use synpeer.Prelude.{
  ℕ, String, Bool, true, Option, none, some, List, [], ◌∷◌, ◌≡◌, refl, ◌∙◌, arith, eq_iff, All,
  subst,
}
use synpeer.Dict.{get}
use synpeer.Dict.Laws.{get-put, get-delete}
use synpeer.Dict.Entries.{IsDistinct}
use synpeer.Consensus.Votes.{VoteType}
use synpeer.Consensus.Votes.Index.{IsInjective}
use synpeer.Consensus.Quorum.{Requirements, Fraction}
use synpeer.Consensus.Witnesses as Choosing
use synpeer.Consensus.Witnesses.{Witnesses, Texts}
use synpeer.Consensus.Round.{
  Round, RoundResult, State, reached, Call, do_verified_vote, do_external,
}
use synpeer.Consensus.Round as Rounds
use synpeer.Consensus.Round.Decision.{is_report, perform-IsDecided}
use synpeer.Consensus.Engine.{
  Engine, make, state_of, put_back, started, start_contribution_round, find_round, verified_vote_on,
  record_verified_vote, external_result_on, external_result, record_external_result, remove_round,
  import_data, called, call_round, witnesses_selected, select_witnesses,
}
use synpeer.Consensus.Engine.Events.{
  Event, do_round, do_verified, do_result, do_call, do_select, do_remove, do_clear, do_reset,
  restart, do_restore, do_import, happen, happen_all,
}
use synpeer.Consensus.Engine.Orderly.{IsOrderly}
use synpeer.Consensus.Engine.Restart.{restored-IsSameOn}
use synpeer.Consensus.Engine.Runs.{happen-IsOrderly, happen_all-IsOrderly, make-IsOrderly}
use synpeer.Consensus.Engine.Decided.{
  IsDecidedAt, is_harmless, put_back-IsDecidedAt, state-IsDecided, find_round-found,
}

module _ (f : String → String → String) (inj : IsInjective f) (t : Texts)
    (is_verified : String → Bool) (result : Option RoundResult) (id : String) where
  performed-IsDecidedAt :
      (v : String → Bool) (e : Engine) (k : String) (r : Round) (c : Call)
      → get e.rounds k ≡ some r
      → (k ≡ id → is_report c ≡ true)
      → IsDecidedAt result id e
      → IsDecidedAt result id (put_back e k (Rounds.perform f v (state_of e r) c))
  performed-IsDecidedAt v e k r c g h d =
      put_back-IsDecidedAt result id e k (Rounds.perform f v (state_of e r) c)
        (λ same.
          perform-IsDecided f v result (state_of e r) c (h same)
            (state-IsDecided result id e r (subst (λ j. get e.rounds j ≡ some r) same g) d))
        d

  verified-IsDecidedAt :
      (e : Engine) (now : ℕ → ℕ) (voter : String) (vote : VoteType)
      (reason signature : Option String) (o : Option (String × Round))
      → ((k : String) (r : Round) → o ≡ some (k, r) → get e.rounds k ≡ some r)
      → IsDecidedAt result id e
      → IsDecidedAt result id (verified_vote_on f e now voter vote reason signature o).0
  unfolding verified_vote_on Rounds.perform
  verified-IsDecidedAt e now voter vote reason signature none g d = d
  verified-IsDecidedAt e now voter vote reason signature (some (k, r)) g d =
      performed-IsDecidedAt (λ p. true) e k r (do_verified_vote now voter vote reason signature)
        (g k r refl) (λ same. refl) d

  external-IsDecidedAt :
      (e : Engine) (k contribution : String) (other : Option RoundResult) (approval : Fraction)
      (decided : ℕ)
      → IsDistinct e.rounds
      → IsDecidedAt result id e
      → IsDecidedAt result id (external_result e k contribution other approval decided).0
  unfolding external_result external_result_on Rounds.perform
  external-IsDecidedAt e k contribution none approval decided n d = d
  external-IsDecidedAt e k contribution (some other) approval decided n d =
      go (find_round e k contribution) (λ j r g. find_round-found e k contribution j r n g)
    where
      go :
          (o : Option (String × Round))
          → ((j : String) (r : Round) → o ≡ some (j, r) → get e.rounds j ≡ some r)
          → IsDecidedAt result id (external_result_on e other approval decided o).0
      go none g = d
      go (some (j, r)) g =
          performed-IsDecidedAt (λ p. true) e j r (do_external other approval decided) (g j r refl)
            (λ same. refl) d

  called-IsDecidedAt :
      (e : Engine) (k : String) (c : Call) (o : Option Round)
      → get e.rounds k ≡ o
      → (k ≡ id → is_report c ≡ true)
      → IsDecidedAt result id e
      → IsDecidedAt result id (called f is_verified e k c o)
  unfolding called
  called-IsDecidedAt e k c none g h d = d
  called-IsDecidedAt e k c (some r) g h d = performed-IsDecidedAt is_verified e k r c g h d

  selected-IsDecidedAt :
      (e : Engine) (now : String → ℕ) (k : String) (excluded : List String) (o : Option Round)
      → get e.rounds k ≡ o
      → IsDecidedAt result id e
      → IsDecidedAt result id (witnesses_selected t e now k excluded o).0
  unfolding witnesses_selected Rounds.select_witnesses
  selected-IsDecidedAt e now k excluded none g d = d
  selected-IsDecidedAt e now k excluded (some r) g d =
      let x = Choosing.select_witnesses t e.witnesses now r.contribution_id excluded in
      put_back-IsDecidedAt result id (record e { witnesses = x.0 }) k
        (Rounds.select_witnesses (state_of e r) x.1)
        (λ same. state-IsDecided result id e r (subst (λ j. get e.rounds j ≡ some r) same g) d)
        (record { round = d.round; found = d.found; decided = d.decided })

  started-IsDecidedAt :
      (e : Engine) (k : String) (fresh : Round) (o : Option Round)
      → get e.rounds k ≡ o
      → IsDecidedAt result id e
      → IsDecidedAt result id (started e k fresh o).0
  unfolding started
  started-IsDecidedAt e k fresh none g d = record {
    round = d.round;
    found = ground (arith, get-put e.rounds k fresh id, eq_iff k id, g, d.found);
    decided = d.decided;
  }
  started-IsDecidedAt e k fresh (some r) g d = d

  happen-IsDecidedAt :
      (e : Engine) (x : Event)
      → is_harmless id x ≡ true
      → IsOrderly f e
      → IsDecidedAt result id e
      → IsDecidedAt result id (happen f t is_verified e x)
  unfolding happen start_contribution_round record_verified_vote record_external_result call_round
      select_witnesses remove_round import_data
  happen-IsDecidedAt e (do_round id_of now contribution k at) h o d =
      started-IsDecidedAt e _ _ _ refl d
  happen-IsDecidedAt e (do_verified now k contribution voter vote reason signature) h o d =
      verified-IsDecidedAt e now voter vote reason signature (find_round e k contribution)
        (λ j r g. find_round-found e k contribution j r o.rounds g) d
  happen-IsDecidedAt e (do_result k contribution other approval decided) h o d =
      external-IsDecidedAt e k contribution other approval decided o.rounds d
  happen-IsDecidedAt e (do_call k c) h o d =
      called-IsDecidedAt e k c (get e.rounds k) refl (λ same. ground (arith, h, same, eq_iff k id))
        d
  happen-IsDecidedAt e (do_select now k excluded) h o d =
      selected-IsDecidedAt e now k excluded (get e.rounds k) refl d
  happen-IsDecidedAt e (do_remove k) h o d = record {
    round = d.round;
    found = ground (arith, h, get-delete e.rounds k id, d.found);
    decided = d.decided;
  }
  happen-IsDecidedAt e do_clear h o d = cc
  happen-IsDecidedAt e do_reset h o d = cc
  happen-IsDecidedAt e restart h o d = record {
    round = d.round;
    found = (restored-IsSameOn f e e o).rounds id ∙ d.found;
    decided = d.decided;
  }
  happen-IsDecidedAt e (do_restore s) h o d = cc
  happen-IsDecidedAt e (do_import now votes entries) h o d = record {
    round = d.round;
    found = d.found;
    decided = d.decided;
  }

  decided_on :
      (e : Engine) (xs : List Event)
      → All (λ x. is_harmless id x ≡ true) xs
      → IsOrderly f e
      → IsDecidedAt result id e
      → IsDecidedAt result id (happen_all f t is_verified e xs)
  unfolding happen_all
  decided_on e [] h o d = d
  decided_on e (x ∷ xs) h o d =
      decided_on (happen f t is_verified e x) xs h.1 (happen-IsOrderly f inj t is_verified e x o)
        (happen-IsDecidedAt e x h.0 o d)

  -- If vote ids do not collide, a round that is reached after any calls on a new engine and its
  -- rounds keeps its status and result through all that follows, votes, external results,
  -- imports, restarts and changes of other rounds, as long as it is not removed and no call of
  -- its own starts, expires, fails or cancels it.
  pub decision_lasts :
      (r : Requirements) (w : Witnesses) (before after : List Event)
      → IsDecidedAt result id (happen_all f t is_verified (make r w) before)
      → All (λ x. is_harmless id x ≡ true) after
      → IsDecidedAt result id
          (happen_all f t is_verified (happen_all f t is_verified (make r w) before) after)
  decision_lasts r w before after d h =
      decided_on (happen_all f t is_verified (make r w) before) after h
        (happen_all-IsOrderly f inj t is_verified (make r w) before (make-IsOrderly f inj r w)) d
