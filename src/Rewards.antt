-- ===== src/Rewards.antt =====
-- src/economy/RewardPool.ts. The maps by category hold all six categories from the start on, and are
-- functions; amounts and limits are natural numbers, and the weights are left out.
pub mod Shares
use synpeer.Prelude.{
  ℕ, zero, ◌+◌, ◌-◌, String, Option, none, some, List, [], ◌∷◌, Bool, true, false, not, ◌==◌, ltb,
  nat_beq, if◌then◌else◌, length, filter, map, sum_by,
}
use synpeer.Dict.{Dict, get, put, delete, values}
use synpeer.Ledger.{RewardCategory}

pub record Pool : Type 0 where
  pub daily_limit : ℕ
  pub per_peer_limit : ℕ
  pub enabled : Bool

pub record Pools : Type 0 where
  pub pools : RewardCategory → Pool
  pub daily : RewardCategory → ℕ
  pub peers : Dict (RewardCategory → ℕ)

abbrev place : RewardCategory → ℕ
place RewardCategory.storage = 0
place RewardCategory.bandwidth = 1
place RewardCategory.streaming = 2
place RewardCategory.replication = 3
place RewardCategory.availability = 4
place RewardCategory.community = 5

abbrev pub same_category : RewardCategory → RewardCategory → Bool
same_category a b = nat_beq (place a) (place b)

-- `map.set(category, value)`
unfoldable pub set_at {ℓ} :
    {A : Type ℓ} → (RewardCategory → A) → RewardCategory → A → RewardCategory → A
set_at f category value c = if same_category category c then value else f c

abbrev pool : ℕ → ℕ → Pool
pool daily peer = record { daily_limit = daily; per_peer_limit = peer; enabled = true }

unfoldable pub default_pools : RewardCategory → Pool
default_pools RewardCategory.storage = pool 300000 300
default_pools RewardCategory.bandwidth = pool 250000 250
default_pools RewardCategory.streaming = pool 150000 150
default_pools RewardCategory.replication = pool 150000 150
default_pools RewardCategory.availability = pool 100000 100
default_pools RewardCategory.community = pool 50000 50

-- What the custom configurations leave of the defaults.
unfoldable pub make : (RewardCategory → Pool) → Pools
make pools = record { pools = pools; daily = λ c. 0; peers = [] }

unfoldable pub update_pool_config : Pools → RewardCategory → Pool → Pools
unfolding set_at
update_pool_config p category config = record p { pools = set_at p.pools category config }

unfoldable pub enable_pool : Pools → RewardCategory → Pools
unfolding set_at
enable_pool p category = record p {
  pools = set_at p.pools category (record (p.pools category) { enabled = true });
}

unfoldable pub disable_pool : Pools → RewardCategory → Pools
unfolding set_at
disable_pool p category = record p {
  pools = set_at p.pools category (record (p.pools category) { enabled = false });
}

-- What is not there is 0.
abbrev pub shares_of : Option (RewardCategory → ℕ) → RewardCategory → ℕ
shares_of none c = 0
shares_of (some shares) c = shares c

unfoldable pub get_peer_allocation : Pools → String → RewardCategory → ℕ
get_peer_allocation p peer category = shares_of (get p.peers peer) category

unfoldable pub get_remaining_daily_allocation : Pools → RewardCategory → ℕ
get_remaining_daily_allocation p category =
    if (p.pools category).enabled then (p.pools category).daily_limit - p.daily category else 0

-- An empty id counts as none.
unfoldable pub real_peer : Option String → Option String
real_peer none = none
real_peer (some peer) = if peer == "" then none else some peer

unfoldable pub share_out : Pools → RewardCategory → ℕ → Option String → Pools × Bool
unfolding get_peer_allocation set_at
share_out p category amount none =
    (record p { daily = set_at p.daily category (p.daily category + amount) }, true)
share_out p category amount (some peer) =
    if ltb (p.pools category).per_peer_limit (get_peer_allocation p peer category + amount)
    then (p, false)
    else (
      record p {
        daily = set_at p.daily category (p.daily category + amount);
        peers = put p.peers peer (
            set_at (shares_of (get p.peers peer)) category
              (get_peer_allocation p peer category + amount));
      },
      true,
    )

unfoldable pub allocate_reward : Pools → RewardCategory → ℕ → Option String → Pools × Bool
unfolding share_out real_peer
allocate_reward p category amount peer =
    if not (p.pools category).enabled
    then (p, false)
    else if ltb (p.pools category).daily_limit (p.daily category + amount)
    then (p, false)
    else share_out p category amount (real_peer peer)

unfoldable pub reset_daily_allocations : Pools → Pools
reset_daily_allocations p = record p { daily = λ c. 0 }

unfoldable pub reset_peers : Pools → Option String → Pools
reset_peers p none = record p { peers = [] }
reset_peers p (some peer) = record p { peers = delete p.peers peer }

unfoldable pub reset_peer_allocations : Pools → Option String → Pools
unfolding reset_peers real_peer
reset_peer_allocations p peer = reset_peers p (real_peer peer)
