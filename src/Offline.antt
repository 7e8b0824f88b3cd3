-- ===== src/Offline.antt =====
-- src/services/offline/OfflineQueue.ts. The id of an item is a hash: a parameter. The objects of the map
-- are changed in place, so a round of the queue is a change of its entries. A round runs to its end
-- before the next one: rounds that overlap, while a handler is awaited, are left out.
pub mod Settling
use synpeer.Prelude.{
  ℕ, ◌+◌, ◌-◌, ◌*◌, ◌^◌, ◌≤◌, String, Option, none, some, List, [], ◌∷◌, Bool, true, false, ◌&&◌,
  leb, min, filter, length, if◌then◌else◌,
}
use synpeer.Dict.{Dict, get, has, put, delete, values, size}

pub data Status : Type 0 where
  pending sending confirmed failed : Status

pub record Config : Type 0 where
  pub max_retries : ℕ
  pub initial_backoff : ℕ
  pub max_backoff : ℕ
  pub backoff_multiplier : ℕ

pub record Item : Type 0 where
  pub id : String
  pub operation : String
  pub payload : String
  pub target_peer : Option String
  pub attempts : ℕ
  pub last_attempt : ℕ
  pub next_attempt : ℕ
  pub status : Status
  pub version : String
  pub updated_at : ℕ
  pub signature : Option String

pub record Queue : Type 0 where
  pub config : Config
  pub items : Dict Item
  pub handlers : Dict (Unit {0})
  pub is_processing : Bool

abbrev pub or_default : Option ℕ → ℕ → ℕ
or_default none d = d
or_default (some n) d = n

unfoldable pub make : Option ℕ → Option ℕ → Option ℕ → Option ℕ → Queue
make max_retries initial_backoff max_backoff multiplier = record {
  config = record {
    max_retries = or_default max_retries 5;
    initial_backoff = or_default initial_backoff 5000;
    max_backoff = or_default max_backoff 300000;
    backoff_multiplier = or_default multiplier 2;
  };
  items = [];
  handlers = [];
  is_processing = false;
}

unfoldable pub register_handler : Queue → String → Queue
register_handler q operation = record q { handlers = put q.handlers operation tt }

unfoldable pub unregister_handler : Queue → String → Queue
unregister_handler q operation = record q { handlers = delete q.handlers operation }

module _ (item_id : String → String → Option String → ℕ → String) where
  unfoldable pub add : Queue → ℕ → String → String → Option String → Queue × String
  add q now operation payload target =
      let id = item_id operation payload target now in
      let item : Item = record {
        id = id;
        operation = operation;
        payload = payload;
        target_peer = target;
        attempts = 0;
        last_attempt = 0;
        next_attempt = now;
        status = pending;
        version = "1.0.0";
        updated_at = now;
        signature = none;
      } in
      (record q { items = put q.items id item }, id)

abbrev update : Queue → String → (Item → Item) → Option Item → Queue
update q id f none = q
update q id f (some item) = record q { items = put q.items id (f item) }

module _ (item_id : String → String → Option String → ℕ → String) where
  unfoldable pub add_with_version :
      Queue → ℕ → String → String → String → String → Option String → Queue × String
  unfolding add
  add_with_version q now operation payload version signature target =
      let r = add item_id q now operation payload target in
      (
        update r.0 r.1 (λ (i : Item). record i { version = version; signature = some signature })
            (get r.0.items r.1),
        r.1,
      )

unfoldable pub start_processing : Queue → Queue
start_processing q = record q { is_processing = true }

unfoldable pub stop_processing : Queue → Queue
stop_processing q = record q { is_processing = false }

-- `Math.min(maxBackoff, initialBackoff * Math.pow(backoffMultiplier, attempts - 1))`
unfoldable pub backoff : Config → ℕ → ℕ
backoff c attempts = min c.max_backoff (c.initial_backoff * c.backoff_multiplier ^ (attempts - 1))

-- How a handler answers, for an item with its number of attempts.
abbrev pub Answers : Type 0
Answers = Item → Bool

unfoldable pub sent : Item → ℕ → Item
sent i now = record i { status = sending; last_attempt = now; attempts = i.attempts + 1 }

-- `processItem`; `now` gives the readings of the clock.
unfoldable pub process_item : Config → Dict (Unit {0}) → Answers → (ℕ → ℕ) → Item → Item
unfolding backoff sent
process_item c handlers answer now i =
    let s = sent i (now 0) in
    if has handlers i.operation && answer s
    then record s { status = confirmed; updated_at = now 1 }
    else if leb c.max_retries s.attempts
    then record s { status = failed; updated_at = now 1 }
    else record s {
      status = pending;
      next_attempt = now 1 + backoff c s.attempts;
      updated_at = now 2;
    }

abbrev pub is_pending : Status → Bool
is_pending pending = true
is_pending _ = false

unfoldable pub is_due : ℕ → Item → Bool
is_due now i = is_pending i.status && leb i.next_attempt now

-- The readings of the clock while an item is processed, by its key.
unfoldable pub process_entries :
    Config → Dict (Unit {0}) → Answers → ℕ → (String → ℕ → ℕ) → Dict Item → Dict Item
unfolding process_item is_due
process_entries c handlers answer start now [] = []
process_entries c handlers answer start now ((k, i) ∷ d) =
    (k, if is_due start i then process_item c handlers answer (now k) i else i)
    ∷ process_entries c handlers answer start now d

unfoldable pub process_queue : Queue → Answers → ℕ → (String → ℕ → ℕ) → Queue
unfolding process_entries
process_queue q answer start now = record q {
  items = process_entries q.config q.handlers answer start now q.items;
}

unfoldable pub mark_confirmed : Queue → String → Queue
mark_confirmed q id = update q id (λ (i : Item). record i { status = confirmed }) (get q.items id)

unfoldable pub mark_failed : Queue → String → Queue
mark_failed q id = update q id (λ (i : Item). record i { status = failed }) (get q.items id)

unfoldable pub retry_item : Queue → String → ℕ → Queue
retry_item q id now =
    update q id (λ (i : Item). record i { status = pending; attempts = 0; next_attempt = now })
      (get q.items id)

unfoldable pub remove_item : Queue → String → Queue
remove_item q id = record q { items = delete q.items id }

abbrev pub same_status : Status → Status → Bool
same_status pending pending = true
same_status sending sending = true
same_status confirmed confirmed = true
same_status failed failed = true
same_status _ _ = false

-- The loops of `cleanConfirmed` and `cleanFailed`: what stays.
unfoldable pub without_status : Status → Dict Item → Dict Item
without_status s [] = []
without_status s ((k, i) ∷ d) =
    let rest = without_status s d in if same_status i.status s then rest else (k, i) ∷ rest

unfoldable pub clean_confirmed : Queue → Queue × ℕ
unfolding without_status
clean_confirmed q = (
  record q { items = without_status confirmed q.items },
  size q.items - size (without_status confirmed q.items),
)

unfoldable pub clean_failed : Queue → Queue × ℕ
unfolding without_status
clean_failed q = (
  record q { items = without_status failed q.items },
  size q.items - size (without_status failed q.items),
)

unfoldable pub clear : Queue → Queue
clear q = record q { items = [] }

unfoldable pub items_by_status : Queue → Status → List Item
unfolding values
items_by_status q s = filter (λ (i : Item). same_status i.status s) (values q.items)

pub record Counts : Type 0 where
  pub pending : ℕ
  pub sending : ℕ
  pub confirmed : ℕ
  pub failed : ℕ

unfoldable pub get_status : Queue → Counts
unfolding items_by_status
get_status q = record {
  pending = length (items_by_status q Status.pending);
  sending = length (items_by_status q Status.sending);
  confirmed = length (items_by_status q Status.confirmed);
  failed = length (items_by_status q Status.failed);
}
