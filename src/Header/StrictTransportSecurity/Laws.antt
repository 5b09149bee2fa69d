-- ===== src/Header/StrictTransportSecurity/Laws.antt =====
-- What strict_transport_security.rs reads back of what it writes.
use actix_web_lab.Common.{
  ℕ, ◌≤◌, Bool, true, false, List, [], ◌∷◌, ◌++◌, ◌||◌, ◌≡◌, ◌≢◌, refl, ap, ◌∙◌, arith,
  if◌then◌else◌, ok, All, All-imp, All-append, append-nil,
}
use actix_web_lab.Text.{Text, text, text_eq, is_whitespace, trim}
use actix_web_lab.Text.Decimal.{is_digit, show, show_digits, parse_uint-show}
use actix_web_lab.Text.Split.{split, Lacks, split-append, split_of_Lacks, split_once-append}
use actix_web_lab.Text.Trim.{trim_of_solid}
use actix_web_lab.Time.{from_secs, max_u64}
use actix_web_lab.Header.StrictTransportSecurity.{
  StrictTransportSecurity, new, max_age_of, flags, from_parts, from_str, display,
}

abbrev IsSolid : ℕ → Type 0
IsSolid c = is_whitespace c ≡ false

digit-IsSolid : (c : ℕ) → is_digit c ≡ true → IsSolid c
digit-IsSolid c h = ground arith

digit_no_semicolon : (c : ℕ) → is_digit c ≡ true → c ≢ b';'
digit_no_semicolon c h = ground arith

module _ (n : ℕ) where
  abbrev first_part : Text
  first_part = text "max-age=" ++ show n

  show-IsSolid : All IsSolid (show n)
  show-IsSolid = All-imp (λ c. is_digit c ≡ true) IsSolid digit-IsSolid (show n) (show_digits n)

  first_part-IsSolid : All IsSolid first_part
  first_part-IsSolid = All-append IsSolid (text "max-age=") (show n) (ground arith) show-IsSolid

  first_part-Lacks : Lacks b';' first_part
  first_part-Lacks =
      All-append (λ c. c ≢ b';') (text "max-age=") (show n) (omega arith)
        (All-imp (λ c. is_digit c ≡ true) (λ c. c ≢ b';') digit_no_semicolon (show n)
          (show_digits n))

  from_parts-first_part :
      (parts : List Text)
      → n ≤ max_u64
      → from_parts (first_part ∷ parts) ≡ ok (flags parts (new (from_secs n)))
  unfolding from_parts max_age_of
  from_parts-first_part parts h = rw (
    trim_of_solid first_part first_part-IsSolid,
    split_once-append b'=' (text "max-age") (show n) (omega arith),
    trim_of_solid (text "max-age") (ground arith),
    trim_of_solid (show n) show-IsSolid,
    parse_uint-show max_u64 n h,
  )

  -- Every first part is read with the parts that stand behind semicolons.
  from_str-first_part :
      (rest : Text)
      → n ≤ max_u64
      → from_str (first_part ++ b';' ∷ rest) ≡ ok (flags (split b';' rest) (new (from_secs n)))
  unfolding from_str
  from_str-first_part rest h =
      rw (split-append b';' first_part rest first_part-Lacks)
        (from_parts-first_part (split b';' rest) h)

  from_str-first_part_alone : n ≤ max_u64 → from_str first_part ≡ ok (new (from_secs n))
  unfolding from_str
  from_str-first_part_alone h =
      rw (split_of_Lacks b';' first_part first_part-Lacks)
        (from_parts-first_part [] h ∙ unfold flags in refl)

abbrev suffix : Bool → Bool → Text
suffix sub pre =
    (if sub then text "; includeSubDomains" else []) ++ (if pre then text "; preload" else [])

abbrev read_back : ℕ → Bool → StrictTransportSecurity
read_back secs pre = record { duration = from_secs secs; include_subdomains = false; preload = pre }

from_str-suffix :
    (n : ℕ) (sub pre : Bool)
    → n ≤ max_u64
    → from_str (text "max-age=" ++ (show n ++ suffix sub pre)) ≡ ok (read_back n pre)
unfolding flags split trim new
from_str-suffix n false false h = rw (append-nil (show n)) (from_str-first_part_alone n h)
from_str-suffix n false true h = from_str-first_part n (text " preload") h
from_str-suffix n true false h = from_str-first_part n (text " includeSubDomains") h
from_str-suffix n true true h = from_str-first_part n (text " includeSubDomains; preload") h

-- A configuration whose whole seconds fit 64 bits is written as a text that is read back with the
-- same whole seconds and the same `preload`, with no fraction of a second, and always without
-- `include_subdomains`: what is written for it is not what is looked for.
pub from_str-display_policy :
    (s : StrictTransportSecurity)
    → s.duration.as_secs ≤ max_u64
    → from_str (display s)
      ≡ ok (record {
        duration = from_secs s.duration.as_secs;
        include_subdomains = false;
        preload = s.preload;
      })
unfolding display
from_str-display_policy s h = from_str-suffix s.duration.as_secs s.include_subdomains s.preload h

pub contains : Text → List Text → Bool
contains k [] = false
contains k (part ∷ parts) = text_eq (trim part) k || contains k parts

flags-contains :
    (parts : List Text) (s : StrictTransportSecurity)
    → flags parts s ≡ record {
      duration = s.duration;
      include_subdomains = s.include_subdomains || contains (text "includeSubdomains") parts;
      preload = s.preload || contains (text "preload") parts;
    }
unfolding flags contains
flags-contains [] s = ground arith
flags-contains (part ∷ parts) s = flags-contains parts _ ∙ ground arith

-- Behind a `max-age` that fits 64 bits, any text is read for its parts: each flag is set exactly
-- if some part between semicolons, its blanks trimmed, is the flag's name, letter by letter.
pub from_str_attributes :
    (n : ℕ) (rest : Text)
    → n ≤ max_u64
    → from_str (text "max-age=" ++ (show n ++ b';' ∷ rest))
      ≡ ok (record {
        duration = from_secs n;
        include_subdomains = contains (text "includeSubdomains") (split b';' rest);
        preload = contains (text "preload") (split b';' rest);
      })
unfolding new
from_str_attributes n rest h =
    from_str-first_part n rest h ∙ ap ok (flags-contains (split b';' rest) _)
