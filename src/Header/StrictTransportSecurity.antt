-- ===== src/Header/StrictTransportSecurity.antt =====
-- actix-web-lab/src/strict_transport_security.rs
pub mod Laws
use actix_web_lab.Common.{
  ℕ, ◌-◌, ◌*◌, ◌^◌, Bool, true, false, List, [], ◌∷◌, ◌++◌, Option, none, some, map, if◌then◌else◌,
  Result, ok, err, ◌>>=◌, ok_or, to_option,
}
use actix_web_lab.Text.{Text, text, text_eq, trim}
use actix_web_lab.Text.Decimal.{show, parse_uint}
use actix_web_lab.Text.Split.{split, split_once}
use actix_web_lab.Time.{Duration, from_secs, max_u64}
use actix_web_lab.Header.Http.{HeaderValues}
use actix_web_lab.Header.{ParseError, header}

abbrev pub secs_in_year : ℕ
secs_in_year = 3600 * 24 * 365

pub record StrictTransportSecurity : Type 0 where
  pub duration : Duration
  pub include_subdomains : Bool
  pub preload : Bool

-- `Default`
abbrev pub default : StrictTransportSecurity
default = record { duration = from_secs 300; include_subdomains = false; preload = false }

unfoldable pub new : Duration → StrictTransportSecurity
new duration = record default { duration = duration }

unfoldable pub recommended : StrictTransportSecurity
recommended = record default { duration = from_secs (2 * secs_in_year); include_subdomains = true }

-- The two methods that set a flag.
unfoldable pub with_subdomains : StrictTransportSecurity → StrictTransportSecurity
with_subdomains s = record s { include_subdomains = true }

unfoldable pub with_preload : StrictTransportSecurity → StrictTransportSecurity
with_preload s = record s { preload = true }

-- The closure on `(key, max_age)`.
unfoldable pub max_age_of : Option (Text × Text) → Option ℕ
max_age_of none = none
max_age_of (some (key, max_age)) =
    if text_eq (trim key) (text "max-age")
    then to_option (parse_uint max_u64 (trim max_age))
    else none

-- The loop over the parts behind the first.
unfoldable pub flags : List Text → StrictTransportSecurity → StrictTransportSecurity
flags [] s = s
flags (part ∷ parts) s = flags parts (record {
  duration = s.duration;
  include_subdomains =
      if text_eq (trim part) (text "includeSubdomains") then true else s.include_subdomains;
  preload = if text_eq (trim part) (text "preload") then true else s.preload;
})

unfoldable pub from_parts : List Text → Result ParseError StrictTransportSecurity
from_parts [] = err header
from_parts (part ∷ parts) = do
  secs ← ok_or (max_age_of (split_once b'=' (trim part))) header
  ok (flags parts (new (from_secs secs)))

unfoldable pub from_str : Text → Result ParseError StrictTransportSecurity
from_str val = from_parts (split b';' val)

-- The text that `try_into_value` writes.
unfoldable pub display : StrictTransportSecurity → Text
display s =
    text "max-age="
    ++ (show s.duration.as_secs
        ++ ((if s.include_subdomains then text "; includeSubDomains" else [])
            ++ (if s.preload then text "; preload" else [])))

-- `new` gives the flags of `default`, which the loop of `from_str` starts from.
module _ (http : HeaderValues)
    (from_one_raw_str : (Text → Result ParseError StrictTransportSecurity)
      → Option http.Value
      → Result ParseError StrictTransportSecurity) where
  unfoldable pub try_into_value : StrictTransportSecurity → Option http.Value
  try_into_value s = http.try_from (display s)

  -- `parse`, from the first value of the message's headers of that name
  unfoldable pub parse : Option http.Value → Result ParseError StrictTransportSecurity
  parse value = from_one_raw_str from_str value
