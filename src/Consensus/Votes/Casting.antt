-- ===== src/Consensus/Votes/Casting.antt =====
-- What a vote does, and who has voted.
use synpeer.Prelude.{
  ℕ, String, ◌≡◌, refl, ◌∙◌, Bool, true, false, not, Option, none, some, List, [], ◌∷◌, eq_iff,
  eq_refl, arith, Bool-cases, inl, inr, Option-cases,
}
use synpeer.Dict.{Dict, get, has, keys}
use synpeer.Dict.Laws.{get-put, get-put_self, is_some}
use synpeer.Consensus.Votes.{
  Vote, Manager, VoteType, CastResult, accepted, conflict, invalid, is_vote, ids_or_none, store,
  cast_over, try_cast_vote, found_votes, votes_for_contribution, some_by, has_voted,
}
use synpeer.Consensus.Votes.Index.{IsIndexed, IsInjective, names, try_cast_vote-IsIndexed}

module _ (d : Dict Vote) (voter : String) where
  found-some_by :
      (ids : Dict (Unit {0})) (id : String) (e : Vote)
      → has ids id ≡ true
      → get d id ≡ some e
      → e.voter ≡ voter
      → some_by voter (found_votes d (keys ids)) ≡ true
  unfolding has found_votes some_by keys
  found-some_by [] id e h g v = cc
  found-some_by ((j, u) ∷ ids) id e h g v =
      ground (arith, found-some_by ids id e, eq_iff j id, eq_iff e.voter voter, g, v, h)

  not_found-some_by :
      (ids : Dict (Unit {0})) (id : String)
      → ((i : String) (e : Vote) → has ids i ≡ true → get d i ≡ some e → e.voter ≡ voter → i ≡ id)
      → get d id ≡ none
      → some_by voter (found_votes d (keys ids)) ≡ false
  unfolding has found_votes some_by keys
  not_found-some_by [] id h n = refl
  not_found-some_by ((j, u) ∷ ids) id h n =
      let rest = not_found-some_by ids id (λ i e x g v. h i e (ground (arith, x)) g v) n in
      elim (Option-cases (get d j)) [
        | inl g ↦ ground (arith, g, rest)
        | inr (e, g) ↦
            ground (arith, g, rest, n, eq_iff e.voter voter, h j e (ground (arith, eq_refl j)) g)
      ]

module _ (f : String → String → String) (inj : IsInjective f) where
  -- In an indexed manager, where vote ids do not collide, hasVoted, a search through the votes of
  -- the contribution, agrees with a look-up of the vote id.
  pub has_voted-eq :
      (m : Manager) (c voter : String)
      → IsIndexed f m
      → has_voted m c voter ≡ is_some (get m.votes (f c voter))
  unfolding has_voted votes_for_contribution
  has_voted-eq m c voter x = elim (Option-cases (get m.votes (f c voter))) [
    | inl n ↦ rw n (
        not_found-some_by m.votes voter (ids_or_none (get m.votes_by_contribution c)) (f c voter)
          (λ i e h g v. owner i e h g v) n)
    | inr (e, g) ↦
        let owner = inj _ _ _ _ (x.keyed _ e g) in
        rw g (
          found-some_by m.votes voter (ids_or_none (get m.votes_by_contribution c)) (f c voter) e
            (x.contributions c (f c voter) ∙ ground (arith, g, owner, eq_iff e.contribution_id c)) g
            owner.1)
  ]
    where
      owner :
          (i : String) (e : Vote)
          → names m.votes_by_contribution c i ≡ true
          → get m.votes i ≡ some e
          → e.voter ≡ voter
          → i ≡ f c voter
      owner i e h g v =
          ground (arith, g, v, x.contributions c i, h, eq_iff e.contribution_id c, x.keyed i e g)

-- The arguments of a call of `tryCastVote`, with the clock's answer.
pub record Cast : Type 0 where
  pub at : ℕ
  pub contribution : String
  pub voter : String
  pub vote : VoteType
  pub reason : Option String
  pub signature : Option String

module _ (f : String → String → String) where
  unfoldable pub cast : Manager → Cast → Manager × CastResult
  unfolding try_cast_vote
  cast m a = try_cast_vote f m a.at a.contribution a.voter a.vote a.reason a.signature

  unfoldable pub cast_all : Manager → List Cast → Manager
  cast_all m [] = m
  cast_all m (a ∷ calls) = cast_all (cast m a).0 calls

  cast_over_kept :
      (m : Manager) (v : Vote) (i : String) (e : Vote)
      → get m.votes i ≡ some e
      → get (cast_over f m v (get m.votes (f v.contribution_id v.voter))).0.votes i ≡ some e
  unfolding cast_over store
  cast_over_kept m v i e h = elim (Option-cases (get m.votes (f v.contribution_id v.voter))) [
    | inl n ↦ ground (
      arith,
      n,
      h,
      get-put m.votes (f v.contribution_id v.voter) v i,
      eq_iff (f v.contribution_id v.voter) i,
    )
    | inr (w, n) ↦ ground (arith, n, h)
  ]

  cast_kept :
      (m : Manager) (a : Cast) (i : String) (e : Vote)
      → get m.votes i ≡ some e
      → get (cast m a).0.votes i ≡ some e
  unfolding cast try_cast_vote
  cast_kept m a i e h = elim (Bool-cases (is_vote a.vote)) [
    | inl b ↦ rw b (cast_over_kept m _ i e h)
    | inr b ↦ rw b h
  ]

  -- A vote that is stored stays as it is, whatever calls of tryCastVote follow.
  pub cast_all_kept :
      (m : Manager) (calls : List Cast) (i : String) (e : Vote)
      → get m.votes i ≡ some e
      → get (cast_all m calls).votes i ≡ some e
  unfolding cast_all
  cast_all_kept m [] i e h = h
  cast_all_kept m (a ∷ calls) i e h = cast_all_kept (cast m a).0 calls i e (cast_kept m a i e h)

  -- The vote that is stored after a call.
  abbrev pub standing : CastResult → Option Vote
  standing (accepted v again) = some v
  standing (conflict v) = some v
  standing invalid = none

  pub cast-standing :
      (m : Manager) (a : Cast)
      → is_vote a.vote ≡ true
      → get (cast m a).0.votes (f a.contribution a.voter) ≡ standing (cast m a).1
  unfolding cast try_cast_vote cast_over store
  cast-standing m a h = elim (Option-cases (get m.votes (f a.contribution a.voter))) [
    | inl n ↦ rw (h, n) (get-put_self m.votes (f a.contribution a.voter) _)
    | inr (w, n) ↦ ground (arith, n, h)
  ]

  abbrev pub is_new : CastResult → Bool
  is_new (accepted v again) = not again
  is_new (conflict v) = false
  is_new invalid = false

  pub cast-old_unchanged : (m : Manager) (a : Cast) → is_new (cast m a).1 ≡ false → (cast m a).0 ≡ m
  unfolding cast try_cast_vote cast_over
  cast-old_unchanged m a h = elim (Option-cases (get m.votes (f a.contribution a.voter))) [
    | inl n ↦ ground (arith, n, h)
    | inr (w, n) ↦ ground (arith, n, h)
  ]

module _ (f : String → String → String) (inj : IsInjective f) where
  -- If vote ids do not collide, calls of tryCastVote keep the manager indexed: each vote stands
  -- under its id and is an approval, a rejection or an abstention, and the two indexes name
  -- exactly the votes stored.
  pub cast_all-IsIndexed :
      (m : Manager) (calls : List Cast) → IsIndexed f m → IsIndexed f (cast_all f m calls)
  unfolding cast_all cast
  cast_all-IsIndexed m [] x = x
  cast_all-IsIndexed m (a ∷ calls) x =
      cast_all-IsIndexed (cast f m a).0 calls
        (try_cast_vote-IsIndexed f inj m a.at a.contribution a.voter a.vote a.reason a.signature x)
