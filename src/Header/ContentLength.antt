-- ===== src/Header/ContentLength.antt =====
-- actix-web-lab/src/content_length.rs, in a release build (no `debug_assert`) with a 64-bit usize.
pub mod Laws
use actix_web_lab.Common.{ℕ, ◌-◌, ◌^◌, Bool, ◌==◌, Option, Result, ok, err, ◌>>=◌, ◌≡◌, some}
use Prim.Native.Nat.{compare, Ordering}
use actix_web_lab.Text.{Text, trim}
use actix_web_lab.Text.Decimal.{IntError, show, parse_uint}
use actix_web_lab.Header.{ParseError, header}

abbrev pub max_usize : ℕ
max_usize = 2 ^ 64 - 1

pub record ContentLength : Type 0 where
  pub into_inner : ℕ

unfoldable pub from_str : Text → Result IntError ContentLength
from_str val = do len ← parse_uint max_usize (trim val); ok (record { into_inner = len })

-- The text of `HeaderValue::from(self.0)`
unfoldable pub display : ContentLength → Text
display c = show c.into_inner

-- `PartialEq` and `PartialOrd` against a plain length
abbrev pub eq : ContentLength → ℕ → Bool
eq c other = c.into_inner == other

abbrev pub partial_cmp : ContentLength → ℕ → Ordering
partial_cmp c other = compare c.into_inner other

abbrev pub is_gt : ContentLength → ℕ → Bool
is_gt c other = elim (partial_cmp c other) [ Ordering.gt ↦ Bool.true | _ ↦ Bool.false ]

-- What is used of header values and of actix-http's `from_one_raw_str`: a value that is made of a
-- number is read with `from_str`.
pub record RawValues : Type 1 where
  pub Value : Type 0
  pub from_usize : ℕ → Value
  pub from_one_raw_str : {T E : Type 0} → (Text → Result E T) → Option Value → Result ParseError T
  pub read_from_usize :
      {T E : Type 0} (reads : Text → Result E T) (n : ℕ) (t : T)
      → reads (show n) ≡ ok t
      → from_one_raw_str reads (some (from_usize n)) ≡ ok t

module _ (raw : RawValues) where
  unfoldable pub try_into_value : ContentLength → raw.Value
  try_into_value c = raw.from_usize c.into_inner

  unfoldable pub parse : Option raw.Value → Result ParseError ContentLength
  parse value = raw.from_one_raw_str from_str value

-- `From` in both directions
unfoldable pub into_usize : ContentLength → ℕ
into_usize c = c.into_inner

unfoldable pub from_len : ℕ → ContentLength
from_len len = record { into_inner = len }

-- A plain length against the header's
abbrev pub eq_len : ℕ → ContentLength → Bool
eq_len len c = len == c.into_inner

abbrev pub partial_cmp_len : ℕ → ContentLength → Ordering
partial_cmp_len len c = compare len c.into_inner
