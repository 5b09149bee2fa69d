-- ===== src/Header/Quoted.antt =====
-- Reading back what `fmt_comma_delimited_quoted_strings` of header.rs writes.
use actix_web_lab.Common.{
  All, ℕ, List, [], ◌∷◌, ◌++◌, Option, some, ◌≡◌, ◌≢◌, refl, ◌∙◌, arith, Result, ok, All-append,
  append-nil,
}
use actix_web_lab.Text.{Text, trim}
use actix_web_lab.Text.Split.{cons_head, split, Lacks, split-append, split_of_Lacks}
use actix_web_lab.Text.Trim.{trim_closed, trim_blank}
use actix_web_lab.Header.Http.{IsVisible}
use actix_web_lab.Header.{
  strip_last, unquoted, quoted_parts, from_comma_delimited_quoted_strings, quoted, fmt_rest,
  fmt_comma_delimited_quoted_strings,
}

strip_last-concat : (q : ℕ) (s : Text) → strip_last q (s ++ q ∷ []) ≡ some s
strip_last-concat q [] = ground arith
strip_last-concat q (c ∷ []) = ground arith
strip_last-concat q (c ∷ d ∷ s) = rw (strip_last-concat q (d ∷ s))

unquoted-quoted : (s : Text) → unquoted (quoted s) ≡ some s
unquoted-quoted s = strip_last-concat b'"' s

trim-quoted : (s : Text) → trim (quoted s) ≡ quoted s
trim-quoted s = trim_closed b'"' s b'"' refl refl

Lacks-quoted : (sep : ℕ) (s : Text) → b'"' ≢ sep → Lacks sep s → Lacks sep (quoted s)
Lacks-quoted sep s ne h = (ne, All-append (λ c. c ≢ sep) s (b'"' ∷ []) h (ne, tt))

module _ {ℓ κ} {E : Type κ} {A : Type ℓ} (from_str : Text → Result E A) (display : A → Text)
    (reads : (a : A) → from_str (display a) ≡ ok a)
    (no_comma : (a : A) → Lacks b',' (display a)) where
  no_comma_quoted : (a : A) → Lacks b',' (quoted (display a))
  no_comma_quoted a = Lacks-quoted b',' (display a) (omega arith) (no_comma a)

  quoted_parts-cons :
      (a : A) (xs : List Text) (items : List A)
      → quoted_parts from_str xs (ok []) ≡ ok items
      → quoted_parts from_str (quoted (display a) ∷ xs) (ok []) ≡ ok (a ∷ items)
  unfolding quoted_parts
  quoted_parts-cons a xs items h =
      rw (trim-quoted (display a), unquoted-quoted (display a), h, reads a)

  quoted_parts_blank :
      (ss : List Text)
      → quoted_parts from_str (cons_head b' ' ss) (ok []) ≡ quoted_parts from_str ss (ok [])
  unfolding quoted_parts
  quoted_parts_blank [] = unfold trim in refl
  quoted_parts_blank (s ∷ ss) = rw trim_blank

  split_blank : (s : Text) → split b',' (b' ' ∷ s) ≡ cons_head b' ' (split b',' s)
  unfolding split
  split_blank s = refl

  quoted_parts-fmt :
      (a : A) (parts : List A)
      → quoted_parts from_str (split b',' (quoted (display a) ++ fmt_rest display parts)) (ok [])
        ≡ ok (a ∷ parts)
  unfolding fmt_rest
  quoted_parts-fmt a [] =
      rw
        (
          append-nil (quoted (display a)),
          split_of_Lacks b',' (quoted (display a)) (no_comma_quoted a),
        )
        (quoted_parts-cons a [] [] (unfold quoted_parts in refl))
  quoted_parts-fmt a (b ∷ parts) =
      let text = quoted (display b) ++ fmt_rest display parts in
      rw
        (split-append b',' (quoted (display a)) (b' ' ∷ text) (no_comma_quoted a), split_blank text)
        (quoted_parts-cons a (cons_head b' ' (split b',' text)) (b ∷ parts)
          (quoted_parts_blank (split b',' text) ∙ quoted_parts-fmt b parts))

  -- A list that is written as one header value is read back whole, where no item's text has a
  -- comma and each item is read back by itself.
  pub from-fmt {μ} :
      {V : Type μ} (to_str : V → Option Text) (v : V) (items : List A)
      → to_str v ≡ some (fmt_comma_delimited_quoted_strings display items)
      → from_comma_delimited_quoted_strings from_str to_str (v ∷ []) ≡ ok items
  unfolding from_comma_delimited_quoted_strings fmt_comma_delimited_quoted_strings
  from-fmt to_str v [] h = rw h (unfold quoted_parts split trim in refl)
  from-fmt to_str v (a ∷ items) h = rw h (quoted_parts-fmt a items)

module _ {ℓ} {A : Type ℓ} (display : A → Text) (visible : (a : A) → All IsVisible (display a)) where
  quoted-IsVisible : (a : A) → All IsVisible (quoted (display a))
  quoted-IsVisible a = (refl, All-append IsVisible (display a) (b'"' ∷ []) (visible a) (refl, tt))

  fmt_rest-IsVisible : (items : List A) → All IsVisible (fmt_rest display items)
  unfolding fmt_rest
  fmt_rest-IsVisible [] = tt
  fmt_rest-IsVisible (a ∷ items) = (
    refl,
    (
      refl,
      All-append IsVisible (quoted (display a)) (fmt_rest display items) (quoted-IsVisible a)
          (fmt_rest-IsVisible items),
    ),
  )

  pub fmt-IsVisible :
      (items : List A) → All IsVisible (fmt_comma_delimited_quoted_strings display items)
  unfolding fmt_comma_delimited_quoted_strings
  fmt-IsVisible [] = tt
  fmt-IsVisible (a ∷ items) =
      All-append IsVisible (quoted (display a)) (fmt_rest display items) (quoted-IsVisible a)
        (fmt_rest-IsVisible items)
