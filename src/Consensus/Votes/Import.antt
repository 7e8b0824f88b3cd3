-- ===== src/Consensus/Votes/Import.antt =====
-- What `importFromJSON` of src/consensus/VoteManager.ts may change.
use synpeer.Prelude.{
  ℕ, String, ◌≡◌, true, none, some, List, [], ◌∷◌, arith, Bool-cases, inl, inr, eq_iff,
  Option-cases,
}
use synpeer.Dict.{get}
use synpeer.Dict.Laws.{get-put}
use synpeer.Consensus.Votes.{Vote, Manager, is_vote, store, validate_vote, import_votes}
use synpeer.Consensus.Votes.Index.{IsIndexed, IsInjective, store-IsIndexed}
use synpeer.Consensus.Votes.Casting.{has_voted-eq}

module _ (f : String → String → String) (inj : IsInjective f) where
  valid-new :
      (m : Manager) (now : ℕ) (v : Vote)
      → IsIndexed f m
      → validate_vote m now v ≡ true
      → (get m.votes (f v.contribution_id v.voter) ≡ none) × (is_vote v.vote ≡ true)
  unfolding validate_vote
  valid-new m now v x h = elim (Option-cases (get m.votes (f v.contribution_id v.voter))) [
    | inl n ↦ (n, ground (arith, h))
    | inr (e, n) ↦ ground (arith, h, n, has_voted-eq f inj m v.contribution_id v.voter x)
  ]

  store_kept :
      (m : Manager) (v : Vote) (i : String) (e : Vote)
      → get m.votes (f v.contribution_id v.voter) ≡ none
      → get m.votes i ≡ some e
      → get (store f m v).votes i ≡ some e
  unfolding store
  store_kept m v i e n h = ground (
    arith,
    n,
    h,
    get-put m.votes (f v.contribution_id v.voter) v i,
    eq_iff (f v.contribution_id v.voter) i,
  )

  pub import_votes-IsIndexed :
      (m : Manager) (vs : List (ℕ × Vote)) → IsIndexed f m → IsIndexed f (import_votes f m vs)
  unfolding import_votes
  import_votes-IsIndexed m [] x = x
  import_votes-IsIndexed m ((now, v) ∷ vs) x = elim (Bool-cases (validate_vote m now v)) [
    | inl b ↦ rw b (
        import_votes-IsIndexed (store f m v) vs
          (store-IsIndexed f inj m v (valid-new m now v x b).1 x))
    | inr b ↦ rw b (import_votes-IsIndexed m vs x)
  ]

  -- In an indexed manager, where vote ids do not collide, importing votes replaces no vote that
  -- is stored.
  pub import_votes_kept :
      (m : Manager) (vs : List (ℕ × Vote)) (i : String) (e : Vote)
      → IsIndexed f m
      → get m.votes i ≡ some e
      → get (import_votes f m vs).votes i ≡ some e
  unfolding import_votes
  import_votes_kept m [] i e x h = h
  import_votes_kept m ((now, v) ∷ vs) i e x h = elim (Bool-cases (validate_vote m now v)) [
    | inl b ↦
        let new = valid-new m now v x b in
        rw (import_votes, b)
          (import_votes_kept (store f m v) vs i e (store-IsIndexed f inj m v new.1 x)
            (store_kept m v i e new.0 h))
    | inr b ↦ rw (import_votes, b) (import_votes_kept m vs i e x h)
  ]
