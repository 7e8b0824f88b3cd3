-- ===== src/Consensus/Votes/Index.antt =====
-- On the two indexes of the votes that are stored.
use synpeer.Prelude.{
  ℕ, String, ◌≡◌, refl, subst, Bool, true, false, not, ◌&&◌, ◌||◌, Option, none, some, List, [],
  ◌∷◌, ◌==◌, eq_iff, arith, if◌then◌else◌, Bool-cases, inl, inr, Option-cases,
}
use synpeer.Dict.{Dict, get, has, put, delete}
use synpeer.Dict.Laws.{get-put, get-delete, has-put, has-delete}
use synpeer.Dict.Entries.{IsDistinct, put-IsDistinct, delete-IsDistinct}
use synpeer.Consensus.Votes.{
  same_type, same_reason, Vote, Manager, is_vote, ids_or_none, empty, track, untrack, untrack_from,
  store, cast_over, try_cast_vote, remove_found, remove_vote, restore_over, restore_one,
  restore_from, restore_votes, VoteType,
}

-- Whether the set of a key has an id.
abbrev pub names : Dict (Dict (Unit {0})) → String → String → Bool
names d key id = has (ids_or_none (get d key)) id

names-track :
    (d : Dict (Dict (Unit {0}))) (key id k i : String)
    → names (track d key id) k i
      ≡ (if key == k then (if id == i then true else names d k i) else names d k i)
unfolding track
names-track d key id k i = ground (
  arith,
  get-put d key (put (ids_or_none (get d key)) id tt) k,
  has-put (ids_or_none (get d key)) id tt i,
  eq_iff key k,
)

names-untrack :
    (d : Dict (Dict (Unit {0}))) (key id k i : String)
    → names (untrack d key id) k i
      ≡ (if key == k then (if id == i then false else names d k i) else names d k i)
unfolding untrack untrack_from has
names-untrack d key id k i = elim (Option-cases (get d key)) [
  | inl e ↦ ground (arith, e, eq_iff key k)
  | inr (ids, e) ↦
      ground (arith, e, get-put d key (delete ids id) k, has-delete ids id i, eq_iff key k)
]

abbrev pub in_contribution : String → Option Vote → Bool
in_contribution c none = false
in_contribution c (some v) = v.contribution_id == c

abbrev pub by_the_voter : String → Option Vote → Bool
by_the_voter p none = false
by_the_voter p (some v) = v.voter == p

-- Different contributions or voters have different ids.
abbrev pub IsInjective : (String → String → String) → Type 0
IsInjective f = (c v d w : String) → f c v ≡ f d w → (c ≡ d) × (v ≡ w)

pub record IsIndexed (vote_id : String → String → String) (m : Manager) : Type 0 where
  pub keyed :
      (i : String) (v : Vote) → get m.votes i ≡ some v → vote_id v.contribution_id v.voter ≡ i
  pub typed : (i : String) (v : Vote) → get m.votes i ≡ some v → is_vote v.vote ≡ true
  pub contributions :
      (c i : String) → names m.votes_by_contribution c i ≡ in_contribution c (get m.votes i)
  pub voters : (p i : String) → names m.votes_by_voter p i ≡ by_the_voter p (get m.votes i)
  pub distinct : (c : String) → IsDistinct (ids_or_none (get m.votes_by_contribution c))

pub empty-IsIndexed : (f : String → String → String) → IsIndexed f empty
unfolding empty get has
empty-IsIndexed f = record {
  keyed = λ i v h. cc;
  typed = λ i v h. cc;
  contributions = λ c i. refl;
  voters = λ p i. refl;
  distinct = λ c. tt;
}

track-IsDistinct :
    (d : Dict (Dict (Unit {0}))) (key id k : String)
    → ((c : String) → IsDistinct (ids_or_none (get d c)))
    → IsDistinct (ids_or_none (get (track d key id) k))
unfolding track
track-IsDistinct d key id k h = rw get-put (go (key == k))
  where
    go :
        (b : Bool)
        → IsDistinct
            (ids_or_none (if b then some (put (ids_or_none (get d key)) id tt) else get d k))
    go true = put-IsDistinct (ids_or_none (get d key)) id tt (h key)
    go false = h k

untrack-IsDistinct :
    (d : Dict (Dict (Unit {0}))) (key id k : String)
    → ((c : String) → IsDistinct (ids_or_none (get d c)))
    → IsDistinct (ids_or_none (get (untrack d key id) k))
unfolding untrack untrack_from
untrack-IsDistinct d key id k h = elim (Option-cases (get d key)) [
  | inl e ↦ rw e (h k)
  | inr (ids, e) ↦ rw (e, get-put) (go ids e (key == k))
]
  where
    go :
        (ids : Dict (Unit {0}))
        → get d key ≡ some ids
        → (b : Bool) → IsDistinct (ids_or_none (if b then some (delete ids id) else get d k))
    go ids e true = delete-IsDistinct ids id (subst (λ o. IsDistinct (ids_or_none o)) e (h key))
    go ids e false = h k

module _ (f : String → String → String) (inj : IsInjective f) where
  -- A vote that stands under the id of another is of the same voter on the same contribution.
  same_owner :
      (m : Manager) (v e : Vote)
      → IsIndexed f m
      → get m.votes (f v.contribution_id v.voter) ≡ some e
      → (e.contribution_id ≡ v.contribution_id) × (e.voter ≡ v.voter)
  same_owner m v e x h = inj _ _ _ _ (x.keyed _ e h)

  contributions-store :
      (m : Manager) (v : Vote) (c i : String)
      → IsIndexed f m
      → names (store f m v).votes_by_contribution c i
        ≡ in_contribution c (get (store f m v).votes i)
  unfolding store
  contributions-store m v c i x = elim (Option-cases (get m.votes (f v.contribution_id v.voter))) [
    | inl e ↦ ground (
      arith,
      names-track m.votes_by_contribution v.contribution_id (f v.contribution_id v.voter) c i,
      get-put m.votes (f v.contribution_id v.voter) v i,
      x.contributions c i,
      e,
      eq_iff v.contribution_id c,
      eq_iff (f v.contribution_id v.voter) i,
    )
    | inr (w, e) ↦ ground (
      arith,
      names-track m.votes_by_contribution v.contribution_id (f v.contribution_id v.voter) c i,
      get-put m.votes (f v.contribution_id v.voter) v i,
      x.contributions c i,
      e,
      same_owner m v w x e,
      eq_iff v.contribution_id c,
      eq_iff (f v.contribution_id v.voter) i,
    )
  ]

  voters-store :
      (m : Manager) (v : Vote) (p i : String)
      → IsIndexed f m
      → names (store f m v).votes_by_voter p i ≡ by_the_voter p (get (store f m v).votes i)
  unfolding store
  voters-store m v p i x = elim (Option-cases (get m.votes (f v.contribution_id v.voter))) [
    | inl e ↦ ground (
      arith,
      names-track m.votes_by_voter v.voter (f v.contribution_id v.voter) p i,
      get-put m.votes (f v.contribution_id v.voter) v i,
      x.voters p i,
      e,
      eq_iff v.voter p,
      eq_iff (f v.contribution_id v.voter) i,
    )
    | inr (w, e) ↦ ground (
      arith,
      names-track m.votes_by_voter v.voter (f v.contribution_id v.voter) p i,
      get-put m.votes (f v.contribution_id v.voter) v i,
      x.voters p i,
      e,
      same_owner m v w x e,
      eq_iff v.voter p,
      eq_iff (f v.contribution_id v.voter) i,
    )
  ]

  pub store-IsIndexed :
      (m : Manager) (v : Vote) → is_vote v.vote ≡ true → IsIndexed f m → IsIndexed f (store f m v)
  unfolding store
  store-IsIndexed m v t x = record {
    keyed = λ i w h. ground (
      arith,
      get-put m.votes (f v.contribution_id v.voter) v i,
      x.keyed i w,
      eq_iff (f v.contribution_id v.voter) i,
      h,
    );
    typed = λ i w h.
        ground (arith, get-put m.votes (f v.contribution_id v.voter) v i, x.typed i w, h, t);
    contributions = λ c i. contributions-store m v c i x;
    voters = λ p i. voters-store m v p i x;
    distinct = λ c.
        track-IsDistinct m.votes_by_contribution v.contribution_id (f v.contribution_id v.voter) c
          x.distinct;
  }

  cast_over-IsIndexed :
      (m : Manager) (v : Vote) (o : Option Vote)
      → is_vote v.vote ≡ true
      → IsIndexed f m
      → IsIndexed f (cast_over f m v o).0
  unfolding cast_over
  cast_over-IsIndexed m v none t x = store-IsIndexed m v t x
  cast_over-IsIndexed m v (some e) t x =
      elim (Bool-cases (same_type e.vote v.vote && same_reason e.reason v.reason)) [
        | inl b ↦ rw b x
        | inr b ↦ rw b x
      ]

  pub try_cast_vote-IsIndexed :
      (m : Manager) (now : ℕ) (c p : String) (t : VoteType) (reason signature : Option String)
      → IsIndexed f m
      → IsIndexed f (try_cast_vote f m now c p t reason signature).0
  unfolding try_cast_vote
  try_cast_vote-IsIndexed m now c p t reason signature x = elim (Bool-cases (is_vote t)) [
    | inl b ↦ rw b (cast_over-IsIndexed m _ (get m.votes (f c p)) b x)
    | inr b ↦ rw b x
  ]

  restore_over-IsIndexed :
      (m : Manager) (v : Vote) (o : Option Vote)
      → is_vote v.vote ≡ true
      → IsIndexed f m
      → IsIndexed f (restore_over f m v o)
  unfolding restore_over
  restore_over-IsIndexed m v none t x = store-IsIndexed m v t x
  restore_over-IsIndexed m v (some e) t x =
      elim (Bool-cases (not (same_type e.vote v.vote) || not (same_reason e.reason v.reason))) [
        | inl b ↦ rw b x
        | inr b ↦ rw b (store-IsIndexed m v t x)
      ]

  restore_from-IsIndexed :
      (m : Manager) (vs : List Vote) → IsIndexed f m → IsIndexed f (restore_from f m vs)
  unfolding restore_from restore_one
  restore_from-IsIndexed m [] x = x
  restore_from-IsIndexed m (v ∷ vs) x = elim (Bool-cases (is_vote v.vote)) [
    | inl b ↦ rw b (
        restore_from-IsIndexed (restore_over f m v (get m.votes (f v.contribution_id v.voter))) vs
          (restore_over-IsIndexed m v (get m.votes (f v.contribution_id v.voter)) b x))
    | inr b ↦ rw b (restore_from-IsIndexed m vs x)
  ]

  pub restore_votes-IsIndexed : (vs : List Vote) → IsIndexed f (restore_votes f vs)
  unfolding restore_votes
  restore_votes-IsIndexed vs = restore_from-IsIndexed empty vs (empty-IsIndexed f)

  remove_found-IsIndexed :
      (m : Manager) (id : String) (o : Option Vote)
      → get m.votes id ≡ o
      → IsIndexed f m
      → IsIndexed f (remove_found m id o).0
  unfolding remove_found
  remove_found-IsIndexed m id none e x = x
  remove_found-IsIndexed m id (some v) e x = record {
    keyed = λ i w h. ground (arith, get-delete m.votes id i, x.keyed i w, h);
    typed = λ i w h. ground (arith, get-delete m.votes id i, x.typed i w, h);
    contributions = λ c i. ground (
      arith,
      names-untrack m.votes_by_contribution v.contribution_id id c i,
      get-delete m.votes id i,
      x.contributions c i,
      e,
      eq_iff v.contribution_id c,
      eq_iff id i,
    );
    voters = λ p i. ground (
      arith,
      names-untrack m.votes_by_voter v.voter id p i,
      get-delete m.votes id i,
      x.voters p i,
      e,
      eq_iff v.voter p,
      eq_iff id i,
    );
    distinct = λ c. untrack-IsDistinct m.votes_by_contribution v.contribution_id id c x.distinct;
  }

  pub remove_vote-IsIndexed :
      (m : Manager) (id : String) → IsIndexed f m → IsIndexed f (remove_vote m id).0
  unfolding remove_vote
  remove_vote-IsIndexed m id x = remove_found-IsIndexed m id (get m.votes id) refl x
