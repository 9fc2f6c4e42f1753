-- ===== src/Client.antt =====
-- packages/api-client/src/client.ts: what a result of the HTTP client becomes, a value or an error.
-- A value that is not typed is modelled by what the code finds in it.
pub mod Laws
mod Tests
use cloud_photo_delivery.Prelude.{
  ℕ, ◌+◌, ◌-◌, ◌*◌, String, Bool, true, false, not, ◌&&◌, Option, none, some, leb, ◌==◌,
  if◌then◌else◌, or_default, is_space, truthy,
}
use Prim.Native.Char.{code}
use Prim.Native.String
use Prim.Native.String.{[], ◌∷◌}

-- The answer: its status and its header `Retry-After`.
pub record HttpResponse : Type 0 where
  pub status : ℕ
  pub retry_after : Option String

pub record ApiError : Type 0 where
  pub code_of : String
  pub message : String
  pub status : ℕ
  pub retry_after_seconds : Option ℕ

-- A value that should be an error body: no object, or one with a `code` and a `message` that are
-- there where they are texts.
pub data ErrorValue : Type 0 where
  no_object : ErrorValue
  body : (code_of message : Option String) → ErrorValue

-- `result.error`: a value in whose `error` another value stands, or one without it.
pub data RawError : Type 0 where
  wraps plain : ErrorValue → RawError

-- `result.data` as an envelope, with `error` if it is there and not null.
pub record RawEnvelope (T : Type 0) : Type 0 where
  pub data_of : Option T
  pub error : Option (String × String)

pub record ClientResult (T : Type 0) : Type 0 where
  pub data_of : Option (RawEnvelope T)
  pub error : Option RawError
  pub response : HttpResponse

-- What `unwrapEnvelope` does: it throws, or returns `body?.data`.
pub data Outcome (T : Type 0) : Type 0 where
  throws : ApiError → Outcome T
  returns : Option T → Outcome T

-- `Number.parseInt(raw, 10)` of a text: white space, a sign, and digits up to something else. The
-- result is the sign and the size, and none for NaN.
abbrev is_digit : ℕ → Bool
is_digit c = leb 48 c && leb c 57

-- The digits, with the number read so far.
unfoldable pub parse_digits : String → Option ℕ → Option ℕ
parse_digits [] n = n
parse_digits (c ∷ s) n =
    if is_digit (code c) then parse_digits s (some (10 * or_default n 0 + (code c - 48))) else n

abbrev negative : Option ℕ → Option (Bool × ℕ)
negative none = none
negative (some n) = some (true, n)

abbrev positive : Option ℕ → Option (Bool × ℕ)
positive none = none
positive (some n) = some (false, n)

unfoldable pub parse_signed : String → Option (Bool × ℕ)
parse_signed [] = none
parse_signed (c ∷ s) =
    if code c == 45
    then negative (parse_digits s none)
    else if code c == 43
    then positive (parse_digits s none)
    else positive (parse_digits (c ∷ s) none)

unfoldable pub parse_int : String → Option (Bool × ℕ)
parse_int [] = none
parse_int (c ∷ s) = if is_space (code c) then parse_int s else parse_signed (c ∷ s)

-- `Number.isFinite(seconds) && seconds >= 0`; minus zero is not below zero.
abbrev not_negative : Option (Bool × ℕ) → Option ℕ
not_negative none = none
not_negative (some (false, n)) = some n
not_negative (some (true, n)) = if n == 0 then some 0 else none

-- An empty header is falsy; as a text without digits it gives none, too.
unfoldable pub parse_retry_after : HttpResponse → Option ℕ
parse_retry_after response = elim response.retry_after [
  | none ↦ none
  | some raw ↦ not_negative (parse_int raw)
]

unfoldable pub to_api_error : String → String → HttpResponse → ApiError
to_api_error code_of message response = record {
  code_of = code_of;
  message = message;
  status = response.status;
  retry_after_seconds = parse_retry_after response;
}

unfoldable pub normalize_error : ErrorValue → String × String
normalize_error no_object = ("UNKNOWN", "Request failed")
normalize_error (body code_of message) =
    (or_default code_of "UNKNOWN", or_default message "Request failed")

-- `errorBody`
abbrev error_body : RawError → ErrorValue
error_body (wraps value) = value
error_body (plain value) = value

-- `response.ok`
abbrev pub is_ok : HttpResponse → Bool
is_ok response = leb 200 response.status && leb response.status 299

module _ {T : Type 0} where
  abbrev pub envelope_error : Option (RawEnvelope T) → Option (String × String)
  envelope_error none = none
  envelope_error (some envelope) = envelope.error

  abbrev envelope_data : Option (RawEnvelope T) → Option T
  envelope_data none = none
  envelope_data (some envelope) = envelope.data_of

  -- The part of `unwrapEnvelope` for a result without an `error` of the HTTP client.
  abbrev unwrap_body : Option (String × String) → Option (RawEnvelope T) → HttpResponse → Outcome T
  unwrap_body (some (code_of, message)) data_of response =
      throws (to_api_error code_of message response)
  unwrap_body none data_of response =
      if not (is_ok response)
      then throws (record {
        code_of = "UNKNOWN";
        message = "Request failed";
        status = response.status;
        retry_after_seconds = none;
      })
      else returns (envelope_data data_of)

  abbrev unwrap_error : Option RawError → Option (RawEnvelope T) → HttpResponse → Outcome T
  unwrap_error (some raw) data_of response = throws (
      to_api_error (normalize_error (error_body raw)).0 (normalize_error (error_body raw)).1
        response)
  unwrap_error none data_of response = unwrap_body (envelope_error data_of) data_of response

  unfoldable pub unwrap_envelope : ClientResult T → Outcome T
  unwrap_envelope result = unwrap_error result.error result.data_of result.response

-- The header `Authorization` that the middleware of `createApiClient` sets, by `getToken()`.
unfoldable pub authorization : Option String → Option String
authorization none = none
authorization (some token) =
    if not (truthy (some token)) then none else some (String.◌++◌ "Bearer " token)
