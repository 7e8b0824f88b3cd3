-- ===== src/Rewards/Shares.antt =====
-- On what is allocated of the pools.
use synpeer.Prelude.{
  ℕ, ◌+◌, ◌≤◌, String, Option, none, some, List, [], ◌∷◌, Bool, true, false, not, ◌≡◌, refl, ltb,
  arith, if◌then◌else◌, Bool-cases, Option-cases, inl, inr, subst,
}
use synpeer.Dict.{get}
use synpeer.Dict.Each.{Each, put-Each, delete-Each, get-Each}
use synpeer.Ledger.{RewardCategory}
use synpeer.Rewards.{
  Pool, Pools, same_category, set_at, make, enable_pool, disable_pool, shares_of,
  get_peer_allocation, real_peer, share_out, allocate_reward, reset_daily_allocations, reset_peers,
  reset_peer_allocations,
}

-- The calls that keep the limits.
pub data Call : Type 0 where
  do_allocate : RewardCategory → ℕ → Option String → Call
  do_enable do_disable : RewardCategory → Call
  do_reset_daily : Call
  do_reset_peers : Option String → Call

unfoldable pub perform : Pools → Call → Pools
unfolding allocate_reward enable_pool disable_pool reset_daily_allocations reset_peer_allocations
perform p (do_allocate category amount peer) = (allocate_reward p category amount peer).0
perform p (do_enable category) = enable_pool p category
perform p (do_disable category) = disable_pool p category
perform p do_reset_daily = reset_daily_allocations p
perform p (do_reset_peers peer) = reset_peer_allocations p peer

unfoldable pub perform_all : Pools → List Call → Pools
unfolding perform
perform_all p [] = p
perform_all p (c ∷ cs) = perform_all (perform p c) cs

-- No share above the limit of the category in the pools of the start.
abbrev IsShare : (RewardCategory → Pool) → (RewardCategory → ℕ) → Type 0
IsShare pools shares = (c : RewardCategory) → shares c ≤ (pools c).per_peer_limit

record IsWithin (pools : RewardCategory → Pool) (p : Pools) : Type 0 where
  day_limit : (c : RewardCategory) → (p.pools c).daily_limit ≡ (pools c).daily_limit
  peer_limit : (c : RewardCategory) → (p.pools c).per_peer_limit ≡ (pools c).per_peer_limit
  day : (c : RewardCategory) → p.daily c ≤ (pools c).daily_limit
  peers : Each (IsShare pools) p.peers

-- Setting one place keeps a bound that the value keeps there.
set_at-le :
    (f limit : RewardCategory → ℕ) (category : RewardCategory) (value : ℕ)
    → ((c : RewardCategory) → f c ≤ limit c)
    → ((c : RewardCategory) → same_category category c ≡ true → value ≤ limit c)
    → (c : RewardCategory) → set_at f category value c ≤ limit c
unfolding set_at
set_at-le f limit category value h k c = elim (Bool-cases (same_category category c)) [
  | inl b ↦ rw b (k c b)
  | inr b ↦ rw b (h c)
]

category_eq : (a b : RewardCategory) → same_category a b ≡ true → a ≡ b
category_eq a b e = ground (arith, e)

shares_of-IsShare :
    (pools : RewardCategory → Pool) (p : Pools) (peer : String)
    → IsWithin pools p
    → IsShare pools (shares_of (get p.peers peer))
shares_of-IsShare pools p peer h c = elim (Option-cases (get p.peers peer)) [
  | inl e ↦ rw e (omega arith)
  | inr (shares, e) ↦ rw e (get-Each (IsShare pools) p.peers peer shares h.peers e c)
]

share_out-IsWithin :
    (pools : RewardCategory → Pool) (p : Pools) (category : RewardCategory) (amount : ℕ)
    (peer : Option String)
    → p.daily category + amount ≤ (p.pools category).daily_limit
    → IsWithin pools p
    → IsWithin pools (share_out p category amount peer).0
unfolding share_out get_peer_allocation
share_out-IsWithin pools p category amount peer fits h = go peer
  where
    day :
        (c : RewardCategory)
        → set_at p.daily category (p.daily category + amount) c ≤ (pools c).daily_limit
    day =
        set_at-le p.daily (λ c. (pools c).daily_limit) category (p.daily category + amount) h.day
          (λ c e.
            subst (λ x. p.daily category + amount ≤ (pools x).daily_limit)
              (category_eq category c e) (omega (arith, fits, h.day_limit category)))

    go : (o : Option String) → IsWithin pools (share_out p category amount o).0
    go none = record {
      day_limit = h.day_limit;
      peer_limit = h.peer_limit;
      day = day;
      peers = h.peers;
    }
    go (some name) =
        let shares = shares_of (get p.peers name) in
        let value = shares category + amount in
        elim (Bool-cases (ltb (p.pools category).per_peer_limit value)) [
          | inl b ↦ rw (share_out, b) h
          | inr b ↦
              let small : value ≤ (pools category).per_peer_limit =
                ground (arith, b, h.peer_limit category) in
              rw (share_out, b)
                (record {
                  day_limit = h.day_limit;
                  peer_limit = h.peer_limit;
                  day = day;
                  peers =
                      put-Each (IsShare pools) p.peers name (set_at shares category value) h.peers (
                        set_at-le shares (λ c. (pools c).per_peer_limit) category value
                          (shares_of-IsShare pools p name h)
                          (λ c e.
                            subst (λ x. value ≤ (pools x).per_peer_limit) (category_eq category c e)
                              small));
                })
        ]

allocate-IsWithin :
    (pools : RewardCategory → Pool) (p : Pools) (category : RewardCategory) (amount : ℕ)
    (peer : Option String)
    → IsWithin pools p
    → IsWithin pools (allocate_reward p category amount peer).0
unfolding allocate_reward
allocate-IsWithin pools p category amount peer h = go (p.pools category).enabled _ refl
  where
    first : Pools × Bool → Type 0
    first x = IsWithin pools x.0

    go :
        (a b : Bool)
        → ltb (p.pools category).daily_limit (p.daily category + amount) ≡ b
        → first (
            if not a
            then (p, false)
            else if b
            then (p, false)
            else share_out p category amount (real_peer peer))
    go false b e = h
    go true true e = h
    go true false e =
        share_out-IsWithin pools p category amount (real_peer peer) (ground (arith, e)) h

-- Whether a pool is enabled has no part in the limits.
switched-IsWithin :
    (pools : RewardCategory → Pool) (p : Pools) (category : RewardCategory) (b : Bool)
    → IsWithin pools p
    → IsWithin pools
        (record p { pools = set_at p.pools category (record (p.pools category) { enabled = b }) })
unfolding set_at
switched-IsWithin pools p category b h = record {
  day_limit = λ c. elim (Bool-cases (same_category category c)) [
    | inl e ↦ rw e (
        subst (λ x. (p.pools category).daily_limit ≡ (pools x).daily_limit)
          (category_eq category c e) (h.day_limit category))
    | inr e ↦ rw e (h.day_limit c)
  ];
  peer_limit = λ c. elim (Bool-cases (same_category category c)) [
    | inl e ↦ rw e (
        subst (λ x. (p.pools category).per_peer_limit ≡ (pools x).per_peer_limit)
          (category_eq category c e) (h.peer_limit category))
    | inr e ↦ rw e (h.peer_limit c)
  ];
  day = h.day;
  peers = h.peers;
}

reset_peers-IsWithin :
    (pools : RewardCategory → Pool) (p : Pools) (peer : Option String)
    → IsWithin pools p
    → IsWithin pools (reset_peers p peer)
unfolding reset_peers
reset_peers-IsWithin pools p none h = record {
  day_limit = h.day_limit;
  peer_limit = h.peer_limit;
  day = h.day;
  peers = tt;
}
reset_peers-IsWithin pools p (some peer) h = record {
  day_limit = h.day_limit;
  peer_limit = h.peer_limit;
  day = h.day;
  peers = delete-Each (IsShare pools) p.peers peer h.peers;
}

perform-IsWithin :
    (pools : RewardCategory → Pool) (p : Pools) (c : Call)
    → IsWithin pools p
    → IsWithin pools (perform p c)
unfolding perform enable_pool disable_pool reset_daily_allocations reset_peer_allocations
perform-IsWithin pools p (do_allocate category amount peer) h =
    allocate-IsWithin pools p category amount peer h
perform-IsWithin pools p (do_enable category) h = switched-IsWithin pools p category true h
perform-IsWithin pools p (do_disable category) h = switched-IsWithin pools p category false h
perform-IsWithin pools p do_reset_daily h = record {
  day_limit = h.day_limit;
  peer_limit = h.peer_limit;
  day = λ c. omega arith;
  peers = h.peers;
}
perform-IsWithin pools p (do_reset_peers peer) h = reset_peers-IsWithin pools p (real_peer peer) h

perform_all-IsWithin :
    (pools : RewardCategory → Pool) (p : Pools) (cs : List Call)
    → IsWithin pools p
    → IsWithin pools (perform_all p cs)
unfolding perform_all
perform_all-IsWithin pools p [] h = h
perform_all-IsWithin pools p (c ∷ cs) h =
    perform_all-IsWithin pools (perform p c) cs (perform-IsWithin pools p c h)

-- After any allocations, resets and switches of new pools, what is allocated of a category is at
-- most its daily limit, and the share of each peer at most the limit of a peer.
pub pools_hold :
    (pools : RewardCategory → Pool) (cs : List Call) (category : RewardCategory) (peer : String)
    → ((perform_all (make pools) cs).daily category ≤ (pools category).daily_limit)
      × (get_peer_allocation (perform_all (make pools) cs) peer category
          ≤ (pools category).per_peer_limit)
unfolding make get_peer_allocation
pools_hold pools cs category peer =
    let start : IsWithin pools (make pools) = record {
      day_limit = λ c. refl;
      peer_limit = λ c. refl;
      day = λ c. omega arith;
      peers = tt;
    } in
    let h = perform_all-IsWithin pools (make pools) cs start in
    (h.day category, shares_of-IsShare pools (perform_all (make pools) cs) peer h category)
