-- ===== src/Api/Identifiers/Ledger.antt =====
-- `SessionLedger` of API/identifiers.py. The digest of a payload is computed by a hash of the
-- standard library and comes in as an argument; a validated sequence number is positive.
use sts2_rl.Prelude.{
  ℕ, ◌+◌, String, ◌≡◌, ◌⊎◌, inr, refl, Bool, true, not, Option, none, some, Result, ok, err, arith,
  str_eq, eq_iff, ◌==◌, if◌then◌else◌,
}
use sts2_rl.Api.Value.{Payload}
use sts2_rl.Api.Rejected.{Rejection, reject_as, seq_reused, seq_in_flight, seq_expected}

pub record SessionLedger : Type 0 where
  pub last_seq : ℕ
  pub last_digest : Option String
  pub last_response : Option Payload
  pub active_instance_id : Option String

abbrev pub new_ledger : SessionLedger
new_ledger = record {
  last_seq = 0;
  last_digest = none;
  last_response = none;
  active_instance_id = none;
}

-- `digest != self.last_digest`
abbrev differs : String → Option String → Bool
differs digest none = true
differs digest (some last) = not (str_eq digest last)

-- The answer to a repeated number: the response that was sent, once there is one.
replay : ℕ → Option Payload → SessionLedger → Result Rejection (Option Payload × SessionLedger)
replay seq none l = err (reject_as (seq_in_flight seq) "session_sequence_conflict")
replay seq (some response) l = ok (some response, l)

-- `none` is a new request to execute, `some` a cached response. A `raise` stands before every
-- write, so a rejected request leaves the ledger as it was.
unfoldable pub begin :
    SessionLedger → ℕ → String → Result Rejection (Option Payload × SessionLedger)
unfolding replay
begin l seq digest =
    if seq == l.last_seq
    then (if differs digest l.last_digest
        then err (reject_as (seq_reused seq) "session_sequence_conflict")
        else replay seq l.last_response l)
    else if not (seq == l.last_seq + 1)
    then err (reject_as (seq_expected (l.last_seq + 1) seq) "session_sequence_gap")
    else ok (none, record l { last_seq = seq; last_digest = some digest; last_response = none })

unfoldable pub complete : SessionLedger → Payload → SessionLedger
complete l response = record l { last_response = some response }

-- A request that is to be executed has the next number, and the ledger then holds this number and
-- digest and no response.
pub begin_new :
    (l l' : SessionLedger) (seq : ℕ) (digest : String)
    → begin l seq digest ≡ ok (none, l')
    → (seq ≡ l.last_seq + 1)
      × (l' ≡ record l { last_seq = seq; last_digest = some digest; last_response = none })
unfolding begin
begin_new l l' seq digest h = ground arith

-- A cached answer is the recorded response, is given only for the last number with the same
-- digest, and leaves the ledger as it was.
pub begin_cached :
    (l l' : SessionLedger) (seq : ℕ) (digest : String) (response : Payload)
    → begin l seq digest ≡ ok (some response, l')
    → (seq ≡ l.last_seq)
      × (l.last_digest ≡ some digest)
      × (l.last_response ≡ some response)
      × (l' ≡ l)
unfolding begin
begin_cached l l' seq digest response h = ground (arith, Digest-cases digest l.last_digest)
  where
    Digest-cases : (d : String) (o : Option String) → (o ≡ some d) ⊎ (differs d o ≡ true)
    Digest-cases d none = inr refl
    Digest-cases d (some e) = ground (arith, eq_iff d e)

-- A recorded response answers the same request again.
pub begin_again :
    (l : SessionLedger) (seq : ℕ) (digest : String) (response : Payload)
    → l.last_seq ≡ seq
    → l.last_digest ≡ some digest
    → begin (complete l response) seq digest ≡ ok (some response, complete l response)
unfolding begin complete
begin_again l seq digest response e d = ground (arith, eq_iff digest digest)

pub begin_first :
    (seq : ℕ) (digest : String)
    → (seq == 1) ≡ true
    → begin new_ledger seq digest
      ≡ ok (none, record new_ledger { last_seq = seq; last_digest = some digest })
unfolding begin
begin_first seq digest h = ground arith
