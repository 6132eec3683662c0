-- ===== src/Events/Headers.antt =====
-- crates/forge-events/src/ce.rs: CloudEvents headers of an envelope.
use crabforge.Prelude.{
  ℕ, zero, suc, ◌+◌, ◌/◌, ◌%◌, List, [], ◌∷◌, ◌++◌, map, Option, none, some, ltb, if◌then◌else◌,
}
use crabforge.Str.{Text, codes, strip_prefix, to_ascii_lowercase}
use crabforge.Events.{Envelope}

abbrev pub Header : Type 0
Header = Text × Text

-- Decimal digits in front of `acc`; five rounds are enough for a `u16`.
unfoldable pub decimal : ℕ → ℕ → Text → Text
decimal zero n acc = acc
decimal (suc fuel) n acc =
    let digit = (n % 10 + b'0') ∷ acc in
    let rest = decimal fuel (n / 10) digit in if ltb n 10 then digit else rest

unfoldable pub u16_to_string : ℕ → Text
unfolding decimal
u16_to_string n = decimal 5 n []

abbrev pub type_prefix : Text
type_prefix = codes "com.crabforge"

unfoldable pub qualified_type : Text → Text
qualified_type event_type = type_prefix ++ b'.' ∷ event_type

abbrev strip_dot : Option Text → Option Text
strip_dot none = none
strip_dot (some rest) = strip_prefix (codes ".") rest

abbrev or_else : Option Text → Text → Text
or_else none whole = whole
or_else (some rest) whole = rest

unfoldable pub unqualified_type : Text → Text
unfolding strip_prefix
unqualified_type ce_type = or_else (strip_dot (strip_prefix type_prefix ce_type)) ce_type

-- `Envelope::source`
unfoldable pub source : Envelope → Text
source envelope = b'/' ∷ envelope.aggregate_id

-- `kafka_headers`; `uuid_text` is the `Display` of a UUID and `rfc3339` the formatting of a time,
-- which may fail.
unfoldable pub kafka_headers : (ℕ → Text) → (ℕ → Option Text) → Envelope → List Header
unfolding qualified_type u16_to_string source
kafka_headers uuid_text rfc3339 envelope =
    (codes "ce_specversion", codes "1.0")
    ∷ (codes "ce_id", uuid_text envelope.event_id)
    ∷ (codes "ce_source", source envelope)
    ∷ (codes "ce_type", qualified_type envelope.event_type)
    ∷ (codes "ce_time", or_else (rfc3339 envelope.occurred_at) [])
    ∷ (codes "content-type", codes "application/json")
    ∷ (codes "forge-event-type", envelope.event_type)
    ∷ (codes "forge-event-version", u16_to_string envelope.event_version)
    ∷ []

-- The name that a header has on the other transport.
unfoldable pub http_name : Text → Text
unfolding strip_prefix
http_name name = elim (strip_prefix (codes "ce_") name) [
  | none ↦ name
  | some attr ↦ codes "ce-" ++ attr
]

unfoldable pub kafka_name : Text → Text
unfolding strip_prefix to_ascii_lowercase
kafka_name name = elim (strip_prefix (codes "ce-") (to_ascii_lowercase name)) [
  | none ↦ to_ascii_lowercase name
  | some attr ↦ codes "ce_" ++ attr
]

abbrev rename : (Text → Text) → Header → Header
rename f (name, value) = (f name, value)

unfoldable pub kafka_headers_to_http : List Header → List Header
unfolding http_name
kafka_headers_to_http headers = map (rename http_name) headers

unfoldable pub http_headers_to_kafka : List Header → List Header
unfolding kafka_name
http_headers_to_kafka headers = map (rename kafka_name) headers
