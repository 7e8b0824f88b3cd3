-- ===== src/Ledger.antt =====
-- src/economy/Ledger/LedgerEngine.ts. Amounts are doubles, which are a parameter: a type with 0, the
-- addition, `||` with 0 and `===`. The text of an id, made of a time and a counter, is a parameter, and
-- so are the order of `sort` on texts and the text of a number in base 16.
pub mod Balance
pub mod Export
pub mod Integrity
use Prim.Native.Char.{Char, code}
use Prim.Native.String as Text
use synpeer.Prelude.{
  ℕ, ◌+◌, ◌-◌, ◌*◌, ◌%◌, zero, suc, String, Option, none, some, List, [], ◌∷◌, Bool, true, false,
  ◌==◌, leb, ltb, not, ◌&&◌, filter, length, if◌then◌else◌, ◌≡◌,
}
use synpeer.Prelude.Sort.{sort}
use synpeer.Prelude.Hash.{hash_from, magnitude}
use synpeer.Dict.{Dict, get, put, keys, values, size}
use synpeer.Dict.Entries.{put_all}
use synpeer.Wallet.Transaction.{TransactionType}

pub data RewardCategory : Type 0 where
  storage bandwidth streaming replication availability community : RewardCategory

-- What the ledger does with numbers. Addition need not be associative, and a number need not be
-- the same as itself.
pub record Arithmetic (A : Type 0) : Type 0 where
  pub nought : A
  pub plus : A → A → A
  -- `x || 0`
  pub or_nought : A → A
  -- `x === y`
  pub is_same : A → A → Bool
  pub or_nought-nought : or_nought nought ≡ nought

pub record Entry (A : Type 0) : Type 0 where
  pub id : String
  pub wallet_address : String
  pub amount : A
  pub type : TransactionType
  pub category : Option RewardCategory
  pub description : String
  pub timestamp : ℕ
  pub balance : A

pub record Snapshot (A : Type 0) : Type 0 where
  pub id : String
  pub timestamp : ℕ
  pub total_supply : A
  pub total_wallets : ℕ
  pub total_transactions : ℕ
  pub root_hash : String
  pub previous_snapshot_id : Option String

pub record Ledger (A : Type 0) : Type 0 where
  pub entries : Dict (Entry A)
  pub snapshots : Dict (Snapshot A)
  pub balances : Dict A
  pub total_supply : A
  pub entry_counter : ℕ
  pub snapshot_counter : ℕ

unfoldable pub new : {A : Type 0} → Arithmetic A → Ledger A
new ar = record {
  entries = [];
  snapshots = [];
  balances = [];
  total_supply = ar.nought;
  entry_counter = 0;
  snapshot_counter = 0;
}

-- `map.get(address) || 0`
abbrev pub or_zero : {A : Type 0} → Arithmetic A → Option A → A
or_zero ar none = ar.nought
or_zero ar (some z) = ar.or_nought z

unfoldable pub get_balance : {A : Type 0} → Arithmetic A → Ledger A → String → A
get_balance ar l address = or_zero ar (get l.balances address)

-- What `addEntry` is called with; `metadata` is passed through and left out.
pub record Addition (A : Type 0) : Type 0 where
  pub address : String
  pub amount : A
  pub type : TransactionType
  pub category : Option RewardCategory
  pub description : String

-- The texts that the platform makes.
pub record Texts : Type 0 where
  pub entry_id : ℕ → ℕ → String
  pub snapshot_id : ℕ → ℕ → String
  pub at_most : String → String → Bool
  pub hex : ℕ → String

-- `slice(-limit)`, if there is a limit and it is not 0.
abbrev pub drop {ℓ} : {A : Type ℓ} → ℕ → List A → List A
drop zero xs = xs
drop (suc n) [] = []
drop (suc n) (x ∷ xs) = drop n xs

unfoldable pub limited {ℓ} : {A : Type ℓ} → Option ℕ → List A → List A
limited none xs = xs
limited (some zero) xs = xs
limited (some (suc n)) xs = drop (length xs - suc n) xs

unfoldable pub entries_for_wallet : {A : Type 0} → Ledger A → String → Option ℕ → List (Entry A)
unfolding limited values
entries_for_wallet l address limit =
    limited limit (filter (λ (e : Entry _). e.wallet_address == address) (values l.entries))

-- `data.join('')` and the 32-bit hash of it: the wrapped value, from 0 to 2 ^ 32 - 1.
unfoldable pub joined : List String → String
joined [] = ""
joined (s ∷ ss) = Text.◌++◌ s (joined ss)

module _ {A : Type 0} (t : Texts) where
  unfoldable pub root_hash : Ledger A → String
  unfolding hash_from joined magnitude keys
  root_hash l = t.hex (magnitude (hash_from 0 (joined (sort t.at_most (keys l.entries)))))

module _ {A : Type 0} (ar : Arithmetic A) (t : Texts) where
  -- The readings are those of the id and of the entry.
  unfoldable pub add_entry : Ledger A → ℕ → ℕ → Addition A → Ledger A × Entry A
  unfolding get_balance
  add_entry l id_time now a =
      let balance = ar.plus (get_balance ar l a.address) a.amount in
      let e : Entry A = record {
        id = t.entry_id id_time (l.entry_counter + 1);
        wallet_address = a.address;
        amount = a.amount;
        type = a.type;
        category = a.category;
        description = a.description;
        timestamp = now;
        balance = balance;
      } in
      (
        record l {
          entries = put l.entries (t.entry_id id_time (l.entry_counter + 1)) e;
          balances = put l.balances a.address balance;
          total_supply = ar.plus l.total_supply a.amount;
          entry_counter = l.entry_counter + 1;
        },
        e,
      )

-- `getLatestSnapshot`: the first of the stable sort with the newest in front.
abbrev first_of {ℓ} : {A : Type ℓ} → List A → Option A
first_of [] = none
first_of (x ∷ xs) = some x

unfoldable pub latest_snapshot : {A : Type 0} → Ledger A → Option (Snapshot A)
unfolding values sort
latest_snapshot l =
    first_of (sort (λ (a b : Snapshot _). leb b.timestamp a.timestamp) (values l.snapshots))

abbrev id_of : {A : Type 0} → Option (Snapshot A) → Option String
id_of none = none
id_of (some s) = some s.id

module _ {A : Type 0} (t : Texts) where
  unfoldable pub create_snapshot : Ledger A → ℕ → ℕ → Ledger A × Snapshot A
  unfolding root_hash latest_snapshot size
  create_snapshot l id_time now =
      let s : Snapshot A = record {
        id = t.snapshot_id id_time (l.snapshot_counter + 1);
        timestamp = now;
        total_supply = l.total_supply;
        total_wallets = size l.balances;
        total_transactions = size l.entries;
        root_hash = root_hash t l;
        previous_snapshot_id = id_of (latest_snapshot l);
      } in
      (
        record l {
          snapshots = put l.snapshots (t.snapshot_id id_time (l.snapshot_counter + 1)) s;
          snapshot_counter = l.snapshot_counter + 1;
        },
        s,
      )

module _ {A : Type 0} (ar : Arithmetic A) where
  -- `reduce((sum, balance) => sum + balance, 0)`
  unfoldable pub sum_from : A → List A → A
  sum_from z [] = z
  sum_from z (b ∷ bs) = sum_from (ar.plus z b) bs

  unfoldable pub verify_integrity : Ledger A → Bool
  unfolding sum_from values
  verify_integrity l = ar.is_same (sum_from ar.nought (values l.balances)) l.total_supply

  unfoldable pub clear_entries : Ledger A → Ledger A
  clear_entries l = record l { entries = []; balances = []; total_supply = ar.nought }

unfoldable pub clear_snapshots : {A : Type 0} → Ledger A → Ledger A
clear_snapshots l = record l { snapshots = [] }

unfoldable pub clear_all : {A : Type 0} → Arithmetic A → Ledger A → Ledger A
unfolding clear_entries clear_snapshots
clear_all ar l = clear_snapshots (clear_entries ar l)

-- What `exportToJSON` writes, and `importFromJSON` reads.
pub record Exported (A : Type 0) : Type 0 where
  pub entries : Option (List (Entry A))
  pub snapshots : Option (List (Snapshot A))
  pub balances : Option (List (String × A))
  pub total_supply : Option A

unfoldable pub export_ledger : {A : Type 0} → Ledger A → Exported A
unfolding values
export_ledger l = record {
  entries = some (values l.entries);
  snapshots = some (values l.snapshots);
  balances = some l.balances;
  total_supply = some l.total_supply;
}

unfoldable pub put_entries : {A : Type 0} → Dict (Entry A) → List (Entry A) → Dict (Entry A)
put_entries d [] = d
put_entries d (e ∷ es) = put_entries (put d e.id e) es

unfoldable pub put_snapshots :
    {A : Type 0} → Dict (Snapshot A) → List (Snapshot A) → Dict (Snapshot A)
put_snapshots d [] = d
put_snapshots d (s ∷ ss) = put_snapshots (put d s.id s) ss

abbrev list_or_empty {ℓ} : {A : Type ℓ} → Option (List A) → List A
list_or_empty none = []
list_or_empty (some xs) = xs

abbrev supply_or : {A : Type 0} → Option A → A → A
supply_or none z = z
supply_or (some s) z = s

unfoldable pub import_ledger : {A : Type 0} → Ledger A → Exported A → Ledger A
unfolding put_entries put_snapshots put_all
import_ledger l x = record l {
  entries = put_entries l.entries (list_or_empty x.entries);
  snapshots = put_snapshots l.snapshots (list_or_empty x.snapshots);
  balances = put_all l.balances (list_or_empty x.balances);
  total_supply = supply_or x.total_supply l.total_supply;
}

-- The calls that change a ledger, other than an import, with the readings of the clock.
pub data Call (A : Type 0) : Type 0 where
  do_add : ℕ → ℕ → Addition A → Call A
  do_snapshot : ℕ → ℕ → Call A
  do_clear_entries do_clear_snapshots : Call A

module _ {A : Type 0} (ar : Arithmetic A) (t : Texts) where
  unfoldable pub perform : Ledger A → Call A → Ledger A
  unfolding add_entry create_snapshot clear_entries clear_snapshots
  perform l (do_add id_time now a) = (add_entry ar t l id_time now a).0
  perform l (do_snapshot id_time now) = (create_snapshot t l id_time now).0
  perform l do_clear_entries = clear_entries ar l
  perform l do_clear_snapshots = clear_snapshots l

  unfoldable pub perform_all : Ledger A → List (Call A) → Ledger A
  unfolding perform
  perform_all l [] = l
  perform_all l (c ∷ cs) = perform_all (perform l c) cs
