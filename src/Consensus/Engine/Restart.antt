-- ===== src/Consensus/Engine/Restart.antt =====
-- What of an engine outlives a restart.
use synpeer.Prelude.{
  ◌≤◌, String, Bool, true, Option, none, some, List, [], ◌∷◌, ◌≡◌, refl, ap, ◌∙◌, length, filter,
  All-mono, map,
}
use synpeer.Dict.{Dict, get, put}
use synpeer.Dict.Entries.{IsDistinct, put_all, get-put_all, or_else, found_each}
use synpeer.Consensus.Votes.{is_vote, votes_for_contribution}
use synpeer.Consensus.Votes.Index.{IsInjective}
use synpeer.Consensus.Votes.Distinct.{IsFiled, get-restore_votes}
use synpeer.Consensus.Votes.Tally.{is_by, voter_counted_once}
use synpeer.Consensus.Quorum.{Requirements, QuorumResult, restore_entries}
use synpeer.Consensus.Witnesses.{Witnesses, Texts}
use synpeer.Consensus.Engine.{Engine, make, create_snapshot, restore_snapshot}
use synpeer.Consensus.Engine.Events.{Event, happen_all}
use synpeer.Consensus.Engine.Orderly.{IsOrderly}
use synpeer.Consensus.Engine.Runs.{happen_all-IsOrderly, make-IsOrderly}

get-restore_entries :
    (h d : Dict QuorumResult) (k : String)
    → restore_entries h (map (λ x. (x.0, some x.1)) d) ≡ put_all h d
unfolding restore_entries put_all
get-restore_entries h [] k = refl
get-restore_entries h ((c, q) ∷ d) k = get-restore_entries (put h c q) d k

or_else-none {ℓ} : {A : Type ℓ} (o : Option A) → or_else o none ≡ o
or_else-none none = refl
or_else-none (some a) = refl

get-put_all_empty {ℓ} :
    {V : Type ℓ} (d : Dict V) (k : String) → IsDistinct d → get (put_all [] d) k ≡ get d k
unfolding get
get-put_all_empty d k h = get-put_all [] d k h ∙ or_else-none (get d k)

filed : (f : String → String → String) (e : Engine) → IsOrderly f e → IsFiled f e.manager.votes
filed f e o =
    All-mono (λ x. get e.manager.votes x.0 ≡ some x.1)
      (λ x. (f x.1.contribution_id x.1.voter ≡ x.0) × (is_vote x.1.vote ≡ true)) e.manager.votes
      (λ x g. (o.indexed.keyed x.0 x.1 g, o.indexed.typed x.0 x.1 g))
      (found_each e.manager.votes o.votes)

-- The rounds, votes and results of two engines agree.
pub record IsSameOn (a b : Engine) : Type 0 where
  pub rounds : (k : String) → get a.rounds k ≡ get b.rounds k
  pub votes : (k : String) → get a.manager.votes k ≡ get b.manager.votes k
  pub results : (k : String) → get a.history k ≡ get b.history k

pub restored-IsSameOn :
    (f : String → String → String) (e other : Engine)
    → IsOrderly f e
    → IsSameOn (restore_snapshot f other (create_snapshot e)) e
unfolding restore_snapshot create_snapshot
restored-IsSameOn f e other o = record {
  rounds = λ k. get-put_all_empty e.rounds k o.rounds;
  votes = λ k. get-restore_votes f e.manager.votes k o.votes (filed f e o);
  results = λ k.
      ap (λ d. get d k) (get-restore_entries [] e.history k)
      ∙ get-put_all_empty e.history k o.results;
}

module _ (f : String → String → String) (inj : IsInjective f) (t : Texts)
    (is_verified : String → Bool) where
  -- If vote ids do not collide, then after any calls on a new engine and its rounds, what
  -- createSnapshot writes and another engine restores holds every round, vote and quorum result
  -- again.
  pub restart_restores :
      (r : Requirements) (w : Witnesses) (xs : List Event) (other : Engine)
      → IsSameOn
          (restore_snapshot f other (create_snapshot (happen_all f t is_verified (make r w) xs)))
          (happen_all f t is_verified (make r w) xs)
  restart_restores r w xs other =
      restored-IsSameOn f (happen_all f t is_verified (make r w) xs) other
        (happen_all-IsOrderly f inj t is_verified (make r w) xs (make-IsOrderly f inj r w))

  -- If vote ids do not collide, then after any calls on a new engine and its rounds, restarts and
  -- imports among them, the votes that are counted for a contribution hold at most one vote of
  -- each voter.
  pub counted_once :
      (r : Requirements) (w : Witnesses) (xs : List Event) (contribution voter : String)
      → length (
          filter (is_by voter) (
            votes_for_contribution (happen_all f t is_verified (make r w) xs).manager contribution))
        ≤ 1
  counted_once r w xs contribution voter =
      let o = happen_all-IsOrderly f inj t is_verified (make r w) xs (make-IsOrderly f inj r w) in
      voter_counted_once f inj (happen_all f t is_verified (make r w) xs).manager o.indexed
        contribution voter
