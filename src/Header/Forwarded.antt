-- ===== src/Header/Forwarded.antt =====
-- actix-web-lab/src/forwarded.rs. `Itertools::join` is a parameter, documented to join texts.
pub mod Pairs
pub mod Laws
use actix_web_lab.Common.{
  ℕ, ◌+◌, Bool, true, false, ◌&&◌, List, [], ◌∷◌, ◌++◌, Option, none, some, map, ◌≡◌, leb, ◌==◌,
  if◌then◌else◌, Result, ok, err,
}
use actix_web_lab.Text.{Text, text, text_eq, trim, join}
use actix_web_lab.Text.Joined.{flat}
use actix_web_lab.Text.Split.{split, split_once}
use actix_web_lab.Text.Trim.{trim_by}
use actix_web_lab.Header.Http.{HeaderValues}
use actix_web_lab.Header.{ParseError, header}

-- `new` is the record's constructor, and `by`, `host`, `proto` and `for_chain` are its fields.
pub record Forwarded : Type 0 where
  pub by : Option Text
  pub for_chain : List Text
  pub host : Option Text
  pub proto : Option Text

unfoldable pub new_for : Text → Forwarded
new_for ident = record { by = none; for_chain = ident ∷ []; host = none; proto = none }

unfoldable pub for_client : Forwarded → Option Text
for_client f = elim f.for_chain [ [] ↦ none | ident ∷ _ ↦ some ident ]

unfoldable pub push_for : Forwarded → Text → Forwarded
push_for f ident = record f { for_chain = f.for_chain ++ ident ∷ [] }

abbrev pub is_none : Option Text → Bool
is_none none = true
is_none (some s) = false

abbrev pub is_empty : List Text → Bool
is_empty [] = true
is_empty (s ∷ ss) = false

unfoldable pub has_no_info : Forwarded → Bool
has_no_info f = is_none f.by && is_empty f.for_chain && is_none f.host && is_none f.proto

abbrev pub is_quote : ℕ → Bool
is_quote c = c == b'"'

-- `trim`, then both `trim_start_matches` and `trim_end_matches` of the quote mark
unfoldable pub unquote : Text → Text
unquote val = trim_by is_quote (trim val)

-- `to_lowercase`, which is compared with ASCII names only: of the characters beyond ASCII, the
-- Kelvin sign alone has a lower case in ASCII.
abbrev pub lower : ℕ → ℕ
lower c = if leb b'A' c && leb c b'Z' then c + 32 else if c == 0x212a then b'k' else c

-- `flat_map` over an `Option`
abbrev pub option_list : Option (Text × Text) → List (Text × Text)
option_list none = []
option_list (some p) = p ∷ []

-- The closure on one pair: `splitn(2, '=')`, with both items there.
unfoldable pub pair : Text → List (Text × Text)
pair part = option_list (split_once b'=' (trim part))

-- The iterator that the loop of `from_str` runs over.
unfoldable pub pairs : Text → List (Text × Text)
pairs val = flat (λ vals. flat pair (split b',' vals)) (split b';' val)

abbrev pub get_or_insert : Option Text → Text → Option Text
get_or_insert none val = some val
get_or_insert (some old) val = some old

-- One round of the loop, by the name in lower case.
unfoldable pub set_named : Text → Text → Forwarded → Forwarded
set_named name val f =
    if text_eq name (text "by")
    then record f { by = get_or_insert f.by (unquote val) }
    else if text_eq name (text "for")
    then record f { for_chain = f.for_chain ++ unquote val ∷ [] }
    else if text_eq name (text "host")
    then record f { host = get_or_insert f.host (unquote val) }
    else if text_eq name (text "proto")
    then record f { proto = get_or_insert f.proto (unquote val) }
    else f

unfoldable pub set_pairs : Forwarded → List (Text × Text) → Forwarded
set_pairs f [] = f
set_pairs f ((name, val) ∷ ps) = set_pairs (set_named (map lower (trim name)) val f) ps

abbrev pub no_info : Forwarded
no_info = record { by = none; for_chain = []; host = none; proto = none }

-- It never fails: the error type is `Infallible`.
unfoldable pub from_str : Text → Forwarded
from_str val = set_pairs no_info (pairs val)

-- `name="ident"`
abbrev pub item : Text → Text → Text
item name ident = name ++ (b'=' ∷ (b'"' ∷ (ident ++ b'"' ∷ [])))

abbrev pub option_item : Text → Option Text → List Text
option_item name none = []
option_item name (some ident) = item name ident ∷ []

module _ (join_items : List Text → Text → Text) where
  abbrev pub for_items : List Text → List Text
  for_items [] = []
  for_items (ident ∷ idents) =
      join_items (map (item (text "for")) (ident ∷ idents)) (text ", ") ∷ []

  unfoldable pub display : Forwarded → Text
  display f =
      if has_no_info f
      then []
      else join_items
          (option_item (text "by") f.by
            ++ (for_items f.for_chain
                ++ (option_item (text "host") f.host ++ option_item (text "proto") f.proto)))
          (text "; ")

module _ (http : HeaderValues) where
  unfoldable pub try_into_value : (List Text → Text → Text) → Forwarded → Option http.Value
  try_into_value join_items f = http.try_from (display join_items f)

  -- The values that are texts and not blank, trimmed.
  unfoldable pub combined : List http.Value → List Text
  combined [] = []
  combined (hdr ∷ hdrs) = elim (http.to_str hdr) [
    | none ↦ combined hdrs
    | some hdr_str ↦ elim (trim hdr_str) [ [] ↦ combined hdrs | c ∷ s ↦ (c ∷ s) ∷ combined hdrs ]
  ]

  abbrev pub parse_combined : List Text → Result ParseError Forwarded
  parse_combined [] = err header
  parse_combined (s ∷ ss) = ok (from_str (join (text ";") (s ∷ ss)))

  -- `parse`, from the values of the message's headers of that name
  unfoldable pub parse : List http.Value → Result ParseError Forwarded
  parse headers = parse_combined (combined headers)
