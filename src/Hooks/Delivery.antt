-- ===== src/Hooks/Delivery.antt =====
-- crates/forge-hooks/src/delivery.rs: one attempt. The HTTP client and the clock are not part of the
-- repository: what comes back is the argument `Receiver`.
use Prim.Native.Nat.{min}
use crabforge.Prelude.{
  ℕ, ◌*◌, ◌^◌, Bool, ◌&&◌, ◌||◌, Option, none, some, if◌then◌else◌, ◌++◌, leb, ltb, ◌==◌, length,
}
use crabforge.Str.{Text, codes}
use crabforge.Types.Int.{ℤ, pos, negsuc}
use crabforge.Bus.Writer.{Bytes}

abbrev pub max_attempts : ℕ
max_attempts = 5

abbrev pub max_body_len : ℕ
max_body_len = 1024 * 1024

pub data DeliveryOutcome : Type 0 where
  delivered : (status duration_ms : ℕ) → DeliveryOutcome
  retry permanent : (reason : Text) (status : Option ℕ) → DeliveryOutcome

-- `DeliveryOutcome::status_word`
unfoldable pub status_word : DeliveryOutcome → ℕ → Text
status_word (delivered _ _) attempt = codes "delivered"
status_word (permanent _ _) attempt = codes "dead"
status_word (retry _ _) attempt = if leb max_attempts attempt then codes "dead" else codes "failed"

-- `attempt.clamp(0, 16)`
abbrev pub clamped : ℤ → ℕ
clamped (pos n) = min n 16
clamped (negsuc n) = 0

-- In seconds.
unfoldable pub backoff : ℤ → ℕ
backoff attempt = min (2 ^ clamped attempt) 300

-- What the resolution of the target says, if it refuses it, and what the request comes to: an error of
-- the client, or a status after a time.
pub data Response : Type 0 where
  broken : Text → Response
  answered : (status duration_ms : ℕ) → Response

pub record Receiver : Type 0 where
  pub refused : Option Text
  pub response : Response
  pub shown : ℕ → Text

abbrev pub is_success_status : ℕ → Bool
is_success_status status = leb 200 status && ltb status 300

abbrev pub is_server_error : ℕ → Bool
is_server_error status = leb 500 status && ltb status 600

-- `format!("receiver returned {status}")`
abbrev pub returned_status : Receiver → ℕ → Text
returned_status receiver status = codes "receiver returned " ++ receiver.shown status

unfoldable pub classify_response : Receiver → Response → DeliveryOutcome
classify_response receiver (broken reason) = retry reason none
classify_response receiver (answered status duration_ms) =
    if is_success_status status
    then delivered status duration_ms
    else if is_server_error status || (status == 429)
    then retry (returned_status receiver status) (some status)
    else permanent (returned_status receiver status) (some status)

-- `Deliverer::send`
unfoldable pub send : Bool → Receiver → Bytes → DeliveryOutcome
unfolding classify_response
send allow_private_targets receiver body =
    if ltb max_body_len (length body)
    then permanent (codes "payload is too large to deliver") none
    else if allow_private_targets
    then classify_response receiver receiver.response
    else elim receiver.refused [
      | some reason ↦ permanent reason none
      | none ↦ classify_response receiver receiver.response
    ]
