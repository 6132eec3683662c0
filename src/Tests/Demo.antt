-- ===== src/Tests/Demo.antt =====
-- A platform and a broker to run the service with: UUIDs are shown in unary, and what is serialised
-- is a tag with a number.
use crabforge.Prelude.{
  ℕ, zero, suc, ◌≡◌, refl, ap, sym, ◌∙◌, [], ◌∷◌, Option, none, some, arith, length, replicate,
  false, true,
}
use crabforge.Str.{Text}
use crabforge.Str.Laws.{NoSlash}
use crabforge.Types.Int.{pos, negsuc}
use crabforge.Bus.Writer.{Bytes, Broker, IsBroker, acked, committed, recovery_required, failed}
use crabforge.Command.Catalog.{Claim, issue_counter}
use crabforge.Command.Platform.{Platform, IsPlatform}
use crabforge.Command.State.{Ambient, Service}

abbrev pub unary : ℕ → Text
unary n = replicate n b'0'

length-unary : (n : ℕ) → length (unary n) ≡ n
length-unary zero = refl
length-unary (suc n) = ap suc (length-unary n)

unary-NoSlash : (n : ℕ) → NoSlash (unary n)
unary-NoSlash zero = tt
unary-NoSlash (suc n) = (omega arith, unary-NoSlash n)

abbrev encode : Claim → Bytes
encode (Claim.user n) = 0 ∷ n ∷ []
encode (Claim.repo n) = 1 ∷ n ∷ []
encode (issue_counter (pos n)) = 2 ∷ n ∷ []
encode (issue_counter (negsuc n)) = 3 ∷ n ∷ []

abbrev decode : Bytes → Option Claim
decode (zero ∷ n ∷ []) = some (Claim.user n)
decode (suc zero ∷ n ∷ []) = some (Claim.repo n)
decode (suc (suc zero) ∷ n ∷ []) = some (issue_counter (pos n))
decode (suc (suc (suc zero)) ∷ n ∷ []) = some (issue_counter (negsuc n))
decode _ = none

abbrev pub platform : Platform
platform = record {
  wire = record {
    uuid_text = unary;
    rfc3339 = λ t. some (unary t);
    encode_event = λ e. some e.event_type;
    decode_event = λ b. none;
  };
  encode_claim = encode;
  decode_claim = decode;
  encode_ref = λ v. v.oid;
  decode_ref = λ b. some (record { oid = b });
}

read_back : (c : Claim) → decode (encode c) ≡ some c
read_back (Claim.user n) = refl
read_back (Claim.repo n) = refl
read_back (issue_counter (pos n)) = refl
read_back (issue_counter (negsuc n)) = refl

pub platform-IsPlatform : IsPlatform platform
platform-IsPlatform = record {
  claim_read_back = read_back;
  ref_read_back = λ v. refl;
  uuid_injective = λ a b e. sym (length-unary a) ∙ (ap length e ∙ length-unary b);
  uuid_no_slash = unary-NoSlash;
}

-- A broker that acknowledges record `i` at offset 10 + i and commits.
abbrev pub broker : Broker
broker = record {
  begin = none;
  ack = λ i. acked (suc (suc (suc (suc (suc (suc (suc (suc (suc (suc i))))))))));
  commit = committed;
}

pub broker-IsBroker : IsBroker broker
broker-IsBroker e landed h k = cc

-- A broker whose answer to the commit is lost after the records landed.
abbrev pub lost_broker : Broker
lost_broker = record { begin = none; ack = λ i. acked i; commit = failed recovery_required true }

pub lost_broker-IsBroker : IsBroker lost_broker
lost_broker-IsBroker e landed h k = absurd (k (cc))

-- What the command with identifier `n` draws from outside.
abbrev pub ambient : ℕ → Ambient
ambient n = record {
  broker = broker;
  id = n;
  event_id = λ i. i;
  occurred_at = λ i. i;
  topic_ready = true;
}

abbrev pub empty_service : Service
empty_service = record { bus = record { fenced = false; log = [] }; catalog = []; refs = [] }

abbrev pub lost_ambient : Ambient
lost_ambient = record (ambient 2) { broker = lost_broker }
