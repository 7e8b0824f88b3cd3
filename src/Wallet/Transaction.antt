-- ===== src/Wallet/Transaction.antt =====
-- src/economy/Wallet/TransactionModel.ts: the canonical transaction. The TypeScript union of six
-- object types is the runtime object: a status, and the fields that a status may lack as options.
-- `metadata` and `version` (always 1) are left out, since no operation reads them.
use synpeer.Prelude.{
  ℕ, String, Option, none, some, List, Bool, true, false, ◌==◌, ◌&&◌, leb, nat_beq, ◌||◌,
}
use synpeer.Prelude.Int.{ℤ}
use Prim.Native.Char.{code}

pub data Status : Type 0 where
  created signed pending confirmed failed expired : Status

pub data TransactionType : Type 0 where
  reward transfer penalty bonus stake unstake : TransactionType

pub record Failure : Type 0 where
  pub code : String
  pub reason : String
  pub failed_at : ℕ

pub record HistoryEntry : Type 0 where
  pub status : Status
  pub at : ℕ
  pub reason : Option String

-- A number of the source: a finite one in the smallest unit that the program uses, or one of the
-- three values that `Number.isFinite` refuses.
pub data JsNumber : Type 0 where
  finite : ℤ → JsNumber
  nan infinity neg_infinity : JsNumber

pub record Payload : Type 0 where
  pub amount : JsNumber
  pub fee : JsNumber
  pub description : Option String

pub record Transaction : Type 0 where
  pub id : String
  pub type : TransactionType
  pub sender_id : String
  pub recipient_id : String
  pub created_at : ℕ
  pub expires_at : ℕ
  pub nonce : String
  pub sequence : ℕ
  pub payload : Payload
  pub payload_hash : String
  pub history : List HistoryEntry
  pub status : Status
  pub signature : Option String
  pub public_key : Option String
  pub signed_at : Option ℕ
  pub submitted_at : Option ℕ
  pub confirmed_at : Option ℕ
  pub confirmation_reference : Option String
  pub failure : Option Failure
  pub expired_at : Option ℕ

-- The code points that `String.prototype.trim` removes.
unfoldable pub is_js_space : ℕ → Bool
is_js_space c =
    (leb 9 c && leb c 13)
    || nat_beq c 32
    || nat_beq c 160
    || nat_beq c 5760
    || (leb 8192 c && leb c 8202)
    || nat_beq c 8232
    || nat_beq c 8233
    || nat_beq c 8239
    || nat_beq c 8287
    || nat_beq c 12288
    || nat_beq c 65279

-- `text.trim().length === 0`
unfoldable pub is_blank : String → Bool
unfolding is_js_space
is_blank String.[] = true
is_blank (String.◌∷◌ c s) = is_js_space (code c) && is_blank s

-- `===` on two optional strings
abbrev pub same_option : Option String → Option String → Bool
same_option none none = true
same_option none (some b) = false
same_option (some a) none = false
same_option (some a) (some b) = a == b
