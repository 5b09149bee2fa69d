-- ===== src/Header/Http.antt =====
-- What the sources use of the http crate's header values, as an interface: `HeaderValue`,
-- `HeaderValue::try_from` of a text and `to_str`, documented to keep visible ASCII as it is.
use actix_web_lab.Common.{ℕ, Bool, true, ◌&&◌, ◌||◌, Option, some, ◌≡◌, refl, leb, ltb, ◌==◌, All}
use actix_web_lab.Text.{Text}

-- A visible ASCII character, a space or a tab: what `to_str` accepts.
abbrev pub is_visible : ℕ → Bool
is_visible c = (leb 32 c && ltb c 127) || c == 9

abbrev pub IsVisible : ℕ → Type 0
IsVisible c = is_visible c ≡ true

pub record HeaderValues : Type 1 where
  pub Value : Type 0
  pub try_from : Text → Option Value
  pub to_str : Value → Option Text
  pub visible :
      (s : Text) → All IsVisible s → (v : Value) × (try_from s ≡ some v) × (to_str v ≡ some s)

-- Header values that are just their texts.
abbrev pub plain_values : HeaderValues
plain_values = record {
  Value = Text;
  try_from = λ s. some s;
  to_str = λ s. some s;
  visible = λ s h. (s, refl, refl);
}
