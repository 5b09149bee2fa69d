-- ===== src/Header/ClearSiteData/Laws.antt =====
-- Round trips of clear_site_data.rs.
use actix_web_lab.Common.{List, [], ◌∷◌, some, ◌≡◌, ◌≢◌, refl, arith, ok, All}
use actix_web_lab.Text.Split.{Lacks}
use actix_web_lab.Header.Http.{HeaderValues, IsVisible}
use actix_web_lab.Header.Quoted.{from-fmt, fmt-IsVisible}
use actix_web_lab.Header.ClearSiteData.{
  ClearSiteDataDirective, all, ClearSiteData, directive, from_str, display, non_empty,
  try_into_value, parse,
}

pub from_str-directive : (d : ClearSiteDataDirective) → from_str (directive d) ≡ ok d
unfolding from_str
from_str-directive all = refl
from_str-directive _ = refl

directive-Lacks : (d : ClearSiteDataDirective) → Lacks b',' (directive d)
unfolding directive
directive-Lacks all = omega arith
directive-Lacks _ = omega arith

directive-IsVisible : (d : ClearSiteDataDirective) → All IsVisible (directive d)
unfolding directive
directive-IsVisible all = ground arith
directive-IsVisible _ = ground arith

non_empty_of_ne :
    (ds : List ClearSiteDataDirective) → ds ≢ [] → non_empty ds ≡ ok (record { directives = ds })
non_empty_of_ne [] h = absurd (h refl)
non_empty_of_ne (d ∷ ds) h = refl

-- Every header with at least one directive is written as a value, and that value is read back as
-- the same directives in the same order.
pub parse-try_into_value :
    (http : HeaderValues) (c : ClearSiteData)
    → c.directives ≢ []
    → (v : http.Value) × (try_into_value http c ≡ some v) × (parse http (v ∷ []) ≡ ok c)
unfolding try_into_value parse display
parse-try_into_value http c h =
    let (v, sent, seen) =
      http.visible (display c) (fmt-IsVisible directive directive-IsVisible c.directives) in
    let back =
      from-fmt from_str directive from_str-directive directive-Lacks http.to_str v c.directives
        seen in
    (v, sent, rw back (non_empty_of_ne c.directives h))
