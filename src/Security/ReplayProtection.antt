-- ===== src/Security/ReplayProtection.antt =====
-- src/services/security/ReplayProtectionService.ts. `Date.now()` is an argument of each method. The
-- timer only decides when `cleanup` runs; message ids and nonces are drawn elsewhere.
pub mod Once
pub mod Nonces
use synpeer.Prelude.{
  ℕ, ◌+◌, String, Option, none, some, List, [], ◌∷◌, Bool, true, false, not, ltb, nat_beq,
  if◌then◌else◌,
}
use Prim.Native.String.{◌++◌ as string_append}
use synpeer.Dict.{Dict, get, put, size}

pub record Metadata : Type 0 where
  pub message_id : String
  pub nonce : String
  pub timestamp : ℕ
  pub peer_id : String

pub record Guard : Type 0 where
  pub max_age : ℕ
  pub message_history : Dict Metadata
  pub nonce_history : Dict ℕ
  pub is_running : Bool

-- `config.maxAge ?? 300000`
unfoldable pub make : Option ℕ → Guard
make none = record {
  max_age = 300000;
  message_history = [];
  nonce_history = [];
  is_running = false;
}
make (some age) = record {
  max_age = age;
  message_history = [];
  nonce_history = [];
  is_running = false;
}

unfoldable pub start : Guard → Guard
start g = record g { is_running = true }

unfoldable pub stop : Guard → Guard
stop g = record g { is_running = false }

-- `${peerId}_${nonce}`
abbrev pub nonce_key : Metadata → String
nonce_key m = string_append m.peer_id (string_append "_" m.nonce)

abbrev pub is_found {ℓ} : {A : Type ℓ} → Option A → Bool
is_found none = false
is_found (some a) = true

-- `if (existingNonce)`: a timestamp of 0 counts as absent.
abbrev pub is_truthy : Option ℕ → Bool
is_truthy none = false
is_truthy (some n) = not (nat_beq n 0)

-- `now - timestamp > maxAge`
abbrev pub is_old : ℕ → ℕ → ℕ → Bool
is_old max_age now timestamp = ltb (timestamp + max_age) now

unfoldable pub is_valid_message : Guard → ℕ → Metadata → Guard × Bool
is_valid_message g now m =
    if is_old g.max_age now m.timestamp
    then (g, false)
    else if is_found (get g.message_history m.message_id)
    then (g, false)
    else if is_truthy (get g.nonce_history (nonce_key m))
    then (g, false)
    else (
      record g {
        message_history = put g.message_history m.message_id m;
        nonce_history = put g.nonce_history (nonce_key m) m.timestamp;
      },
      true,
    )

-- The loops of `cleanupOldMessages`: the entries that are not old stay.
unfoldable pub retain {ℓ} : {V : Type ℓ} → (V → Bool) → Dict V → Dict V
retain old [] = []
retain old ((k, v) ∷ d) = let rest = retain old d in if old v then rest else (k, v) ∷ rest

unfoldable pub cleanup_old_messages : Guard → ℕ → Guard
unfolding retain
cleanup_old_messages g now = record g {
  message_history = retain (λ (m : Metadata). is_old g.max_age now m.timestamp) g.message_history;
  nonce_history = retain (is_old g.max_age now) g.nonce_history;
}

unfoldable pub clear_history : Guard → Guard
clear_history g = record g { message_history = []; nonce_history = [] }

unfoldable pub message_history_size : Guard → ℕ
unfolding size
message_history_size g = size g.message_history

unfoldable pub nonce_history_size : Guard → ℕ
unfolding size
nonce_history_size g = size g.nonce_history
