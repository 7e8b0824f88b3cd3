-- ===== src/Consensus/Votes/Distinct.antt =====
-- Every vote stands under its id once, and is found again in what is written out.
use synpeer.Prelude.{
  ℕ, String, Bool, true, false, not, ◌&&◌, ◌||◌, Option, none, some, List, [], ◌∷◌, ◌≡◌, refl, ap,
  ◌∙◌, ◌==◌, eq_iff, arith, if◌then◌else◌, Bool-cases, inl, inr, All,
}
use synpeer.Dict.{Dict, get, has, values}
use synpeer.Dict.Laws.{get-put, has-eq-get}
use synpeer.Dict.Entries.{IsDistinct, put-IsDistinct, or_else}
use synpeer.Consensus.Votes.{
  Vote, VoteType, Manager, empty, is_vote, same_type, same_reason, store, cast_over, try_cast_vote,
  restore_over, restore_one, restore_from, restore_votes, validate_vote, import_votes,
}

module _ (f : String → String → String) where
  cast_over-IsDistinct :
      (m : Manager) (v : Vote) (o : Option Vote)
      → IsDistinct m.votes
      → IsDistinct (cast_over f m v o).0.votes
  unfolding cast_over store
  cast_over-IsDistinct m v none h = put-IsDistinct m.votes (f v.contribution_id v.voter) v h
  cast_over-IsDistinct m v (some e) h =
      elim (Bool-cases (same_type e.vote v.vote && same_reason e.reason v.reason)) [
        | inl b ↦ rw b h
        | inr b ↦ rw b h
      ]

  pub try_cast_vote-IsDistinct :
      (m : Manager) (now : ℕ) (c p : String) (t : VoteType) (reason signature : Option String)
      → IsDistinct m.votes
      → IsDistinct (try_cast_vote f m now c p t reason signature).0.votes
  unfolding try_cast_vote
  try_cast_vote-IsDistinct m now c p t reason signature h = elim (Bool-cases (is_vote t)) [
    | inl b ↦ rw b (cast_over-IsDistinct m _ (get m.votes (f c p)) h)
    | inr b ↦ rw b h
  ]

  restore_one-IsDistinct :
      (m : Manager) (v : Vote) → IsDistinct m.votes → IsDistinct (restore_one f m v).votes
  unfolding restore_one restore_over store
  restore_one-IsDistinct m v h = go (is_vote v.vote) (get m.votes (f v.contribution_id v.voter))
    where
      votes_of : Manager → Type 0
      votes_of n = IsDistinct n.votes

      added : IsDistinct (store f m v).votes
      added = put-IsDistinct m.votes (f v.contribution_id v.voter) v h

      over : (b : Bool) → votes_of (if b then m else store f m v)
      over true = h
      over false = added

      go : (b : Bool) (o : Option Vote) → votes_of (if b then restore_over f m v o else m)
      go false o = h
      go true none = added
      go true (some e) = over (not (same_type e.vote v.vote) || not (same_reason e.reason v.reason))

  restore_from-IsDistinct :
      (m : Manager) (vs : List Vote) → IsDistinct m.votes → IsDistinct (restore_from f m vs).votes
  unfolding restore_from
  restore_from-IsDistinct m [] h = h
  restore_from-IsDistinct m (v ∷ vs) h =
      restore_from-IsDistinct (restore_one f m v) vs (restore_one-IsDistinct m v h)

  pub restore_votes-IsDistinct : (vs : List Vote) → IsDistinct (restore_votes f vs).votes
  unfolding restore_votes empty
  restore_votes-IsDistinct vs = restore_from-IsDistinct empty vs tt

  pub import_votes-IsDistinct :
      (m : Manager) (vs : List (ℕ × Vote))
      → IsDistinct m.votes
      → IsDistinct (import_votes f m vs).votes
  unfolding import_votes store
  import_votes-IsDistinct m [] h = h
  import_votes-IsDistinct m ((now, v) ∷ vs) h = elim (Bool-cases (validate_vote m now v)) [
    | inl b ↦
        rw (import_votes, b)
          (import_votes-IsDistinct (store f m v) vs
            (put-IsDistinct m.votes (f v.contribution_id v.voter) v h))
    | inr b ↦ rw (import_votes, b) (import_votes-IsDistinct m vs h)
  ]

  -- A vote whose id is free is stored.
  restore_one_new :
      (m : Manager) (v : Vote) (i j : String)
      → is_vote v.vote ≡ true
      → f v.contribution_id v.voter ≡ i
      → get m.votes i ≡ none
      → get (restore_one f m v).votes j ≡ (if i == j then some v else get m.votes j)
  unfolding restore_one restore_over store
  restore_one_new m v i j b e n =
      ap (λ k. get (restore_one f m v).votes j) e
      ∙ ground
          (arith, b, e, n, get-put m.votes i v j, get-put m.votes (f v.contribution_id v.voter) v j)

  -- Each vote of the map has its own id, and is one.
  abbrev pub IsFiled : Dict Vote → Type 0
  IsFiled d =
      All
        (λ (x : String × Vote). (f x.1.contribution_id x.1.voter ≡ x.0) × (is_vote x.1.vote ≡ true))
        d

  -- No id of the map is taken.
  abbrev IsFree : Manager → Dict Vote → Type 0
  IsFree m d = All (λ (x : String × Vote). get m.votes x.0 ≡ none) d

  IsFree-after :
      (m : Manager) (i : String) (v : Vote) (d : Dict Vote)
      → is_vote v.vote ≡ true
      → f v.contribution_id v.voter ≡ i
      → get m.votes i ≡ none
      → has d i ≡ false
      → IsFree m d
      → IsFree (restore_one f m v) d
  unfolding has
  IsFree-after m i v [] b e n h k = tt
  IsFree-after m i v ((j, w) ∷ d) b e n h k = (
    ground (arith, restore_one_new m v i j b e n, k.0, h, eq_iff i j, eq_iff j i),
    IsFree-after m i v d b e n (ground (arith, h)) k.1,
  )

  get-restore_from :
      (m : Manager) (d : Dict Vote) (k : String)
      → IsDistinct d
      → IsFiled d
      → IsFree m d
      → get (restore_from f m (values d)).votes k ≡ or_else (get d k) (get m.votes k)
  unfolding restore_from values get
  get-restore_from m [] k h x n = refl
  get-restore_from m ((i, v) ∷ d) k h x n = ground (
    arith,
    get-restore_from (restore_one f m v) d k h.1 x.1 (IsFree-after m i v d x.0.1 x.0.0 n.0 h.0 n.1),
    restore_one_new m v i k x.0.1 x.0.0 n.0,
    has-eq-get d i,
    h.0,
    eq_iff i k,
  )

  IsFree-empty : (d : Dict Vote) → IsFree empty d
  unfolding empty get
  IsFree-empty [] = tt
  IsFree-empty (x ∷ d) = (refl, IsFree-empty d)

  -- Restoring the votes of a map brings each of them back.
  pub get-restore_votes :
      (d : Dict Vote) (k : String)
      → IsDistinct d
      → IsFiled d
      → get (restore_votes f (values d)).votes k ≡ get d k
  unfolding restore_votes empty get
  get-restore_votes d k h x = ground (arith, get-restore_from empty d k h x (IsFree-empty d))
