-- ===== src/Client/Tests.antt =====
-- Runs of the client on small data. A value is named by a number.
use cloud_photo_delivery.Prelude.{
  ℕ, ◌≡◌, refl, not, ◌&&◌, ◌||◌, none, some, is_some, leb, ◌==◌, is_space,
}
use cloud_photo_delivery.Client.{
  HttpResponse, ClientResult, is_ok, envelope_error, unwrap_envelope, parse_retry_after, parse_int,
  parse_signed, parse_digits, wraps, body,
}
use cloud_photo_delivery.Client.Laws.{thrown, is_retried, unwrap_envelope_lem}

abbrev busy : HttpResponse
busy = record { status = 429; retry_after = some " 12s" }

busy_retry : parse_retry_after busy ≡ some 12
unfolding parse_retry_after parse_int parse_signed parse_digits is_space
busy_retry = refl

abbrev limited : ClientResult ℕ
limited = record {
  data_of = none;
  error = some (wraps (body (some "RATE_LIMITED") none));
  response = busy;
}

unwrap_envelope_lem_example :
    (let e = thrown (unwrap_envelope limited) in
      (is_some e ≡ (
        is_some limited.error
        || is_some (envelope_error limited.data_of)
        || not (is_ok limited.response)))
      × (is_retried e
          ≡ (is_some e && (limited.response.status == 429 || leb 500 limited.response.status))))
unwrap_envelope_lem_example = unwrap_envelope_lem limited
