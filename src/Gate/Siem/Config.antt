-- ===== src/Gate/Siem/Config.antt =====
-- The checks of the export's configuration in membrane-gate/src/siem_export.rs. What reqwest says of
-- an address or of a header's name is an argument.
use the_membrane.Prelude.{
  ℕ, ◌*◌, ◌^◌, String, ◌==◌, Bool, ◌&&◌, ◌||◌, not, Option, none, some, is_some, is_none, List, [],
  ◌∷◌, length, eqb, ltb, leb, Result, ok, ◌>>=◌, ◌>>◌, deny_if, map_err, ok_or, format, decimal,
  len, all_chars, is_ascii_digit, is_control,
}
use the_membrane.Core.External.{External}
use the_membrane.Gate.Error.{GateError}
use the_membrane.Gate.Siem.{ExportConfig, bad}

pub data Target : Type 0 where
  splunk_hec : (url token_env : String) (source sourcetype index host : Option String) → Target
  datadog_logs : (url token_env : String) (service tags hostname : Option String) → Target
  webhook : (url : String) (token_env auth_header : Option String) → Target

-- The whole configuration: the fields that the queue reads, and the others, the directory apart.
pub record Config : Type 0 where
  pub queue : ExportConfig
  pub target : Target
  pub ca_bundle_file : String
  pub pinned_cert_sha256 : List String
  pub request_timeout_secs : ℕ

-- A parsed address
pub record Url : Type 0 where
  pub scheme : String
  pub host_str : Option String
  pub username : String
  pub password : Option String
  pub query : Option String
  pub fragment : Option String

pub record Reqwest : Type 0 where
  pub parse : String → Option Url
  pub is_header_name : String → Bool

abbrev max_url_len : ℕ
max_url_len = 2048

abbrev is_ascii_uppercase : ℕ → Bool
is_ascii_uppercase c = leb b'A' c && leb c b'Z'

unfoldable pub check_env_name : String → Result GateError (Unit {0})
check_env_name name =
    deny_if
      (name == ""
        || ltb 128 (len name)
        || not (all_chars (λ c. is_ascii_uppercase c || is_ascii_digit c || eqb c b'_') name))
      (bad "token_env must be an environment variable name like SIEM_TOKEN")

unfoldable pub check_label : String → Option String → Result GateError (Unit {0})
check_label name none = ok tt
check_label name (some v) =
    deny_if (v == "" || ltb 256 (len v) || not (all_chars (λ c. not (is_control c)) v))
      (bad (format (name ∷ " must be 1-256 printable characters" ∷ [])))

-- The loop over the labels.
unfoldable pub check_labels : List (String × Option String) → Result GateError (Unit {0})
check_labels [] = ok tt
check_labels ((name, value) ∷ rest) = do check_label name value; check_labels rest

-- The closure `in_range`
unfoldable pub in_range : String → ℕ → ℕ → ℕ → Result GateError (Unit {0})
in_range name v lo hi =
    deny_if (not (leb lo v && leb v hi))
      (bad (format (name ∷ " must be " ∷ decimal lo ∷ "..=" ∷ decimal hi ∷ [])))

-- `parse_pin`, the bytes apart.
unfoldable pub parse_pin : External → String → Result GateError (Unit {0})
parse_pin x raw = do
  bytes ← map_err (λ _. bad "pinned_cert_sha256 must be 64 hex characters") (x.hex_decode raw)
  deny_if (not (eqb (length bytes) 32)) (bad "pinned_cert_sha256 must be 64 hex characters")

-- The loop over the pins.
unfoldable pub parse_pins : External → List String → Result GateError (Unit {0})
parse_pins x [] = ok tt
parse_pins x (raw ∷ rest) = do parse_pin x raw; parse_pins x rest

-- The part of `validate` about numbers.
unfoldable pub check_numbers : Config → Result GateError (Unit {0})
check_numbers c = do
  in_range "max_buffered_events" c.queue.max_buffered_events 100 1000000
  in_range "batch_max_events" c.queue.batch_max_events 1 1000
  in_range "batch_max_bytes" c.queue.batch_max_bytes 4096 (4 * 2 ^ 20)
  in_range "flush_interval_secs" c.queue.flush_interval_secs 1 300
  in_range "request_timeout_secs" c.request_timeout_secs 1 60
  in_range "backoff_initial_ms" c.queue.backoff_initial_ms 50 60000
  in_range "backoff_max_secs" c.queue.backoff_max_secs 1 3600
  in_range "fail_closed_lag_secs" c.queue.fail_closed_lag_secs 10 86400
  deny_if (ltb c.queue.max_buffered_events c.queue.batch_max_events)
      (bad "batch_max_events exceeds max_buffered_events")
  deny_if (ltb (c.queue.backoff_max_secs * 1000) c.queue.backoff_initial_ms)
      (bad "backoff_initial_ms exceeds backoff_max_secs")

module _ (web : Reqwest) where
  unfoldable pub check_url : String → Result GateError (Unit {0})
  check_url raw = do
    url ← ok_or (web.parse raw) (bad "invalid url")
    deny_if
        (ltb max_url_len (len raw)
          || not (url.scheme == "https")
          || is_none url.host_str
          || not (url.username == "")
          || is_some url.password
          || is_some url.query
          || is_some url.fragment)
        (bad
          "url must be HTTPS with no credentials, query or fragment (put credentials in token_env)")

  unfoldable pub check_token : Option String → Result GateError (Unit {0})
  check_token none = ok tt
  check_token (some name) = check_env_name name

  -- The header of a webhook, and whether it has a token.
  unfoldable pub check_header : Bool → Option String → Result GateError (Unit {0})
  check_header has_token none = ok tt
  check_header has_token (some h) =
      deny_if (not has_token || h == "" || not (web.is_header_name h))
        (bad "auth_header needs token_env and a valid header name")

  unfoldable pub check_target : Target → Result GateError (Unit {0})
  check_target (splunk_hec url token_env source sourcetype index host) = do
    check_url url
    check_env_name token_env
    check_labels
        (("source", source) ∷ ("sourcetype", sourcetype) ∷ ("index", index) ∷ ("host", host) ∷ [])
  check_target (datadog_logs url token_env service tags hostname) = do
    check_url url
    check_env_name token_env
    check_labels (("service", service) ∷ ("tags", tags) ∷ ("hostname", hostname) ∷ [])
  check_target (webhook url token_env auth_header) = do
    check_url url
    check_token token_env
    check_header (is_some token_env) auth_header

  unfoldable pub validate : External → Config → Result GateError (Unit {0})
  validate x c = do
    check_numbers c
    parse_pins x c.pinned_cert_sha256
    deny_if (ltb 8 (length c.pinned_cert_sha256)) (bad "at most 8 pinned_cert_sha256 entries")
    check_target c.target
