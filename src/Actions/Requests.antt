-- ===== src/Actions/Requests.antt =====
-- What the action endpoint of actions/actions.go reads of a request: its identifier, the credential,
-- the deadline and the input.
pub mod Deadlines
use provider_databricks.Prelude.{
  ℕ, zero, suc, ◌+◌, ◌-◌, ◌*◌, ◌^◌, ltb, leb, ◌==◌, if◌then◌else◌, Bool, true, false, not, ◌&&◌,
  ◌||◌, List, [], ◌∷◌, ◌++◌, Option, none, some, all, any, Text, runes, is_empty, text_eq,
  trim_space, has_prefix, byte_length, length, Result, ok, err, ◌>>=◌, ◌>>◌, reject_if, ℤ, pos,
}
use provider_databricks.Failure.{Failure, plain, wrapped}
use provider_databricks.Failure.Queries.{or_query_failure}
use provider_databricks.Backend.Urls.{or_wrapped}
use provider_databricks.Query.Request.{normalize_query_controls}
use provider_databricks.Tenant.Query.{QueryInput}
use provider_databricks.Tenant.Clients.{hex}

-- `http.Request`, as far as the handler reads it.
pub record HttpCall : Type 0 where
  pub method : Text
  pub path : Text
  pub authorization : Text
  pub request_id : Text
  pub deadline : Text
  pub body : Text

abbrev pub max_input_bytes : ℕ
max_input_bytes = 8 * 2 ^ 10

abbrev pub max_request_bytes : ℕ
max_request_bytes = 2 ^ 20

abbrev pub max_action_deadline_ms : ℕ
max_action_deadline_ms = 45000

-- The character class of `requestIDRE`.
abbrev pub is_id_char : ℕ → Bool
is_id_char c =
    (leb b'a' c && leb c b'z')
    || ((leb b'A' c && leb c b'Z')
        || ((leb b'0' c && leb c b'9') || any (λ p. c == p) (runes "._-")))

-- `requestIDRE`
unfoldable pub matches_request_id : Text → Bool
matches_request_id s = leb 1 (length s) && (leb (length s) 256 && all is_id_char s)

-- `random` is what `rand.Read` fills eight bytes with; `none` is an error of it.
unfoldable pub normalize_request_id : (random : Option (List ℕ)) → Text → Text
unfolding trim_space matches_request_id hex
normalize_request_id random value =
    if matches_request_id (trim_space value)
    then trim_space value
    else elim random [ none ↦ runes "req-unavailable" | some bytes ↦ runes "req-" ++ hex bytes ]

abbrev drop : ℕ → Text → Text
drop zero s = s
drop (suc n) [] = []
drop (suc n) (c ∷ s) = drop n s

-- `lower` is `strings.ToLower`, which makes no other character into one of `bearer`.
unfoldable pub has_bearer : (lower : Text → Text) → Text → Bool
unfolding has_prefix trim_space
has_bearer lower value =
    has_prefix (lower (trim_space value)) (runes "bearer ")
    && not (is_empty (trim_space (drop 7 (trim_space value))))

abbrev pub is_digit : ℕ → Bool
is_digit c = leb b'0' c && leb c b'9'

-- The value of decimal digits.
abbrev value_from : ℕ → Text → ℕ
value_from acc [] = acc
value_from acc (c ∷ s) = value_from (acc * 10 + (c - b'0')) s

-- The digits after the sign of a number that is not negative.
abbrev unsigned_digits : Text → Text
unsigned_digits [] = []
unsigned_digits (c ∷ s) = if c == b'+' then s else c ∷ s

-- `strconv.ParseInt(value, 10, 64)` where it returns a number that is not negative; `none` is an error
-- or a negative number.
unfoldable pub parse_natural : Text → Option ℕ
parse_natural value =
    let digits = unsigned_digits value in
    if is_empty digits || (not (all is_digit digits) || leb (2 ^ 63) (value_from 0 digits))
    then none
    else some (value_from 0 digits)

-- In nanoseconds.
unfoldable pub action_deadline : Text → Result Failure ℕ
unfolding parse_natural trim_space
action_deadline header =
    let value = trim_space header in
    let rejected = err (plain (runes "X-Faros-Action-Deadline-Ms must be a positive integer")) in
    if is_empty value then ok (max_action_deadline_ms * 10 ^ 6) else elim (parse_natural value) [
      | none ↦ rejected
      | some millis ↦
          if ltb millis 1
          then rejected
          else if leb max_action_deadline_ms millis
          then ok (max_action_deadline_ms * 10 ^ 6)
          else ok (millis * 10 ^ 6)
    ]

-- What a JSON decoder finds after a value.
pub data Trailing : Type 0 where
  ended : Trailing
  another_value : Trailing
  broken : Failure → Trailing

-- The decoders of encoding/json that refuse unknown fields. The body is read through
-- `http.MaxBytesReader` with the limit that they are given; `wire` is the raw `input`, which is empty
-- if there is none.
pub record InputJson : Type 0 where
  pub decode_wire : (limit : ℕ) → Text → Result Failure Text
  pub after_wire : (limit : ℕ) → Text → Trailing
  pub decode_input : Text → Result Failure QueryInput
  pub after_input : Text → Trailing

abbrev only_value : Text → Trailing → Result Failure (Unit {0})
only_value what ended = ok tt
only_value what another_value = err (plain (what ++ runes " must contain exactly one JSON value"))
only_value what (broken e) = err (wrapped (runes "decode trailing " ++ (what ++ runes " data: ")) e)

module _ (json : InputJson) (quote : Text → Text) where
  unfoldable pub decode_request : Text → Result Failure QueryInput
  unfolding normalize_query_controls text_eq byte_length
  decode_request body = do
    wire ← or_wrapped (runes "decode request: ") (json.decode_wire max_request_bytes body)
    only_value (runes "request") (json.after_wire max_request_bytes body)
    let raw = if is_empty wire || text_eq wire (runes "null") then runes "{}" else wire
    reject_if (ltb max_input_bytes (byte_length raw))
        (plain (runes "input exceeds the declared limit of 8192 bytes"))
    input ← or_wrapped (runes "decode input: ") (json.decode_input raw)
    only_value (runes "input") (json.after_input raw)
    controls ←
        or_wrapped (runes "input: ")
          (or_query_failure quote (normalize_query_controls input.columns input.limit))
    ok (record { columns = controls.0; limit = controls.1 })
