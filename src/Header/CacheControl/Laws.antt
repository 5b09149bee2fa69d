-- ===== src/Header/CacheControl/Laws.antt =====
-- Round trip of a whole header of cache_control.rs.
use actix_web_lab.Common.{
  ℕ, true, List, [], ◌∷◌, ◌++◌, Option, none, some, map, ◌≡◌, ◌≢◌, refl, ap, ◌∙◌, ◌>>=◌, arith, ok,
  All, All-imp, All-append,
}
use actix_web_lab.Text.{Text, text}
use actix_web_lab.Text.Decimal.{IntError, is_digit, show, show_digits}
use actix_web_lab.Header.Http.{HeaderValues}
use actix_web_lab.Header.Comma.{
  CommaDelimited, comma_rest, comma_joined, IsListable, kept_parts-joined, joined-IsVisible,
}
use actix_web_lab.Header.CacheControl.{
  non_empty, CacheDirective, max_age, max_stale, min_fresh, s_max_age, extension, display, from_str,
  try_into_value, parse,
}
use actix_web_lab.Header.CacheControl.Directive.{IsWritable, from_str-display}

-- The texts of an extension hold visible characters other than a space and a comma.
abbrev pub HasListableText : CacheDirective → Type 0
HasListableText (extension name none) = All IsListable name
HasListableText (extension name (some arg)) = All IsListable name × All IsListable arg
HasListableText _ = Unit

abbrev pub IsSendable : CacheDirective → Type 0
IsSendable d = IsWritable d × HasListableText d

digit-IsListable : (c : ℕ) → is_digit c ≡ true → IsListable c
digit-IsListable c h = ground arith

number-IsListable : (dir : Text) (n : ℕ) → All IsListable dir → All IsListable (dir ++ show n)
number-IsListable dir n h =
    All-append IsListable dir (show n) h
      (All-imp (λ c. is_digit c ≡ true) IsListable digit-IsListable (show n) (show_digits n))

display-IsListable : (d : CacheDirective) → IsSendable d → All IsListable (display d)
unfolding display
display-IsListable (max_age n) h = number-IsListable (text "max-age=") n (ground arith)
display-IsListable (max_stale n) h = number-IsListable (text "max-stale=") n (ground arith)
display-IsListable (min_fresh n) h = number-IsListable (text "min-fresh=") n (ground arith)
display-IsListable (s_max_age n) h = number-IsListable (text "s-maxage=") n (ground arith)
display-IsListable (extension name none) (_, h) = h
display-IsListable (extension name (some arg)) (_, (h, k)) =
    All-append IsListable name (_ ∷ arg) h (refl, k)
display-IsListable _ h = ground arith

append-ne-nil : (a b : Text) (c : ℕ) → (a ++ c ∷ b) ≢ []
append-ne-nil [] b c = ground arith
append-ne-nil (d ∷ a) b c = ground arith

display-ne-nil : (d : CacheDirective) → IsSendable d → display d ≢ []
unfolding display
display-ne-nil (extension name none) ((ne, _, _), _) = ne
display-ne-nil (extension name (some arg)) h = append-ne-nil name arg _
display-ne-nil _ h = ground arith

module _ (http : HeaderValues) (comma : CommaDelimited http (Option IntError) CacheDirective) where
  -- Every header with at least one directive, all of which satisfy `IsSendable`, is written as a
  -- value, and that value is read back as the same directives in the same order.
  pub parse-try_into_value_joined :
      (d : CacheDirective) (ds : List CacheDirective)
      → IsSendable d
      → All IsSendable ds
      → (v : http.Value) × (try_into_value http comma (record { directives = d ∷ ds }) ≡ some v)
        × (parse http comma (v ∷ []) ≡ ok (record { directives = d ∷ ds }))
  unfolding try_into_value parse comma_joined
  parse-try_into_value_joined d ds h hs =
      let (v, sent, seen) = http.visible (display d ++ comma_rest (map display ds)) (
        joined-IsVisible from_str display IsSendable (λ a p. from_str-display a p.0)
          display-IsListable display-ne-nil d ds h hs) in
      let back =
        kept_parts-joined from_str display IsSendable (λ a p. from_str-display a p.0)
          display-IsListable display-ne-nil d ds h hs in
      (
        v,
        ap http.try_from (comma.fmt_joins (display d ∷ map display ds)) ∙ sent,
        ap (λ r. r >>= non_empty) (comma.from_keeps from_str v _ seen ∙ ap ok back),
      )
