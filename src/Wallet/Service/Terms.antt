-- ===== src/Wallet/Service/Terms.antt =====
-- What the pipeline of `createConfirmedCanonicalTransaction` keeps and establishes.
use synpeer.Prelude.{
  ℕ, ◌+◌, ◌<◌, ◌≡◌, ◌≢◌, refl, ap, String, Option, none, some, arith, ◌∙◌, eq_iff,
}
use Prim.Native.String.{◌++◌ as string_append}
use synpeer.Prelude.Int.{pos_part, neg_part}
use synpeer.Wallet.Transaction.{Transaction, signed, pending, confirmed, finite, Payload}
use synpeer.Wallet.Create.{create}
use synpeer.Wallet.StateMachine.{Clock, later, sign, mark_pending, confirm}
use synpeer.Wallet.Service.{
  Host, Transfer, one_hour, created_from, made, as_signed, as_pending, as_applied,
  confirmed_transaction, ◌>>=◌,
}

-- The fields that no transition touches.
pub record SameTerms (t u : Transaction) : Type 0 where
  pub id : u.id ≡ t.id
  pub sender : u.sender_id ≡ t.sender_id
  pub recipient : u.recipient_id ≡ t.recipient_id
  pub payload : u.payload ≡ t.payload
  pub sequence : u.sequence ≡ t.sequence
  pub expires : u.expires_at ≡ t.expires_at

SameTerms-trans : {t u v : Transaction} → SameTerms t u → SameTerms u v → SameTerms t v
SameTerms-trans a b = record {
  id = b.id ∙ a.id;
  sender = b.sender ∙ a.sender;
  recipient = b.recipient ∙ a.recipient;
  payload = b.payload ∙ a.payload;
  sequence = b.sequence ∙ a.sequence;
  expires = b.expires ∙ a.expires;
}

signed-terms :
    (t : Transaction) (signature : String) (key : Option String) (now : Clock) {u : Transaction}
    → as_signed (sign t signature key now) ≡ some u
    → SameTerms t u × (u.status ≡ signed)
unfolding sign
signed-terms t signature key now h = ground arith

pending-terms :
    (t : Transaction) (now : Clock) {u : Transaction}
    → as_pending (mark_pending t now) ≡ some u
    → SameTerms t u × (u.status ≡ pending)
unfolding mark_pending
pending-terms t now h = ground arith

confirmed-terms :
    (t : Transaction) (reference : Option String) (now : Clock) {u : Transaction}
    → as_applied (confirm t reference now) ≡ some u
    → SameTerms t u × (t.status ≡ pending → now 0 < t.expires_at → u.status ≡ confirmed)
unfolding confirm
confirmed-terms t reference now h = ground arith

-- The transaction that a transfer asks for.
pub record Books (f : Transfer) (n : ℕ) (t : Transaction) : Type 0 where
  pub sender : t.sender_id ≡ f.from
  pub recipient : t.recipient_id ≡ f.to
  pub amount : t.payload.amount ≡ finite f.amount
  pub fee : t.payload.fee ≡ finite f.fee
  pub sequence : t.sequence ≡ n
  pub apart : f.from ≢ f.to
  pub positive : 0 < pos_part f.amount
  pub fee_nonneg : neg_part f.fee ≡ 0

made-Books :
    (host : Host) (n : ℕ) (f : Transfer) (now : Clock) {t : Transaction}
    → made (created_from host n f now) ≡ some t
    → Books f n t × (t.expires_at ≡ now 1 + one_hour)
unfolding created_from create
made-Books host n f now h = ground (arith, eq_iff f.from "", eq_iff f.to "", eq_iff f.from f.to)

Books-SameTerms :
    {f : Transfer} {n : ℕ} {t u : Transaction} → SameTerms t u → Books f n t → Books f n u
Books-SameTerms s b = record {
  sender = s.sender ∙ b.sender;
  recipient = s.recipient ∙ b.recipient;
  amount = ap (λ (p : Payload). p.amount) s.payload ∙ b.amount;
  fee = ap (λ (p : Payload). p.fee) s.payload ∙ b.fee;
  sequence = s.sequence ∙ b.sequence;
  apart = b.apart;
  positive = b.positive;
  fee_nonneg = b.fee_nonneg;
}

pub >>=-eq-some {ℓ κ} :
    {A : Type ℓ} {B : Type κ} (m : Option A) (g : A → Option B) {b : B}
    → (m >>= g) ≡ some b
    → (a : A) × (m ≡ some a) × (g a ≡ some b)
>>=-eq-some none g h = cc
>>=-eq-some (some a) g h = (a, refl, h)

pub confirmed_transaction-Books :
    (host : Host) (n : ℕ) (f : Transfer) (now : Clock) {t : Transaction}
    → confirmed_transaction host n f now ≡ some t
    → now 8 < now 1 + one_hour
    → Books f n t × (t.status ≡ confirmed)
unfolding confirmed_transaction
confirmed_transaction-Books host n f now h k =
    let (t, made_t, h1) = >>=-eq-some (made (created_from host n f now)) _ h in
    let (s, signature_s, h2) = >>=-eq-some (host.signature_of t) _ h1 in
    let (u, signed_u, h3) = >>=-eq-some (as_signed (sign t s.0 s.1 (later 2 now))) _ h2 in
    let (v, pending_v, h4) = >>=-eq-some (as_pending (mark_pending u (later 5 now))) _ h3 in
    let tu = signed-terms t s.0 s.1 (later 2 now) signed_u in
    let uv = pending-terms u (later 5 now) pending_v in
    let vw = confirmed-terms v (some (string_append "local:" t.id)) (later 8 now) h4 in
    let (b, e) = made-Books host n f now made_t in
    (
      Books-SameTerms vw.0 (Books-SameTerms uv.0 (Books-SameTerms tu.0 b)),
      vw.1 uv.1 (omega (arith, k, e, tu.0.expires, uv.0.expires)),
    )
