-- ===== src/Header/Comma.antt =====
-- What cache_control.rs uses of actix-http's comma-delimited headers, as an interface, and the
-- round trip that the interface gives.
use actix_web_lab.Common.{
  ℕ, Bool, true, false, not, ◌&&◌, List, [], ◌∷◌, ◌++◌, some, map, ◌≡◌, ◌≢◌, refl, ◌∙◌, arith, ltb,
  ◌==◌, Result, ok, err, All, All-imp, All-append, append-nil,
}
use actix_web_lab.Text.{Text, is_whitespace, trim}
use actix_web_lab.Text.Split.{cons_head, split, Lacks, split-append, split_of_Lacks}
use actix_web_lab.Text.Trim.{trim_blank, trim_of_solid}
use actix_web_lab.Header.{ParseError}
use actix_web_lab.Header.Http.{HeaderValues, IsVisible}

module _ {E A : Type 0} (from_str : Text → Result E A) where
  abbrev pub kept : Result E A → List A → List A
  kept (ok a) rest = a ∷ rest
  kept (err e) rest = rest

  abbrev pub kept_part : Text → List A → List A
  kept_part [] rest = rest
  kept_part (c ∷ s) rest = kept (from_str (c ∷ s)) rest

  -- The parts of one value: trimmed, the empty ones dropped, and those that do not parse as well.
  unfoldable pub kept_parts : List Text → List A
  kept_parts [] = []
  kept_parts (s ∷ ss) = kept_part (trim s) (kept_parts ss)

unfoldable pub comma_rest : List Text → Text
comma_rest [] = []
comma_rest (s ∷ ss) = b',' ∷ (b' ' ∷ (s ++ comma_rest ss))

-- The parts, separated by a comma and a space.
unfoldable pub comma_joined : List Text → Text
comma_joined [] = []
comma_joined (s ∷ ss) = s ++ comma_rest ss

-- `fmt_comma_delimited` and `from_comma_delimited`, on what they are documented to do.
pub record CommaDelimited (http : HeaderValues) (E A : Type 0) : Type 1 where
  pub fmt_comma_delimited : List Text → Text
  pub from_comma_delimited : (Text → Result E A) → List http.Value → Result ParseError (List A)
  pub fmt_joins : (parts : List Text) → fmt_comma_delimited parts ≡ comma_joined parts
  pub from_keeps :
      (from_str : Text → Result E A) (v : http.Value) (s : Text)
      → http.to_str v ≡ some s
      → from_comma_delimited from_str (v ∷ []) ≡ ok (kept_parts from_str (split b',' s))

-- A visible character other than a space and a comma.
abbrev pub is_listable : ℕ → Bool
is_listable c = ltb 32 c && ltb c 127 && not (c == b',')

abbrev pub IsListable : ℕ → Type 0
IsListable c = is_listable c ≡ true

IsListable-ne_comma : (c : ℕ) → IsListable c → c ≢ b','
IsListable-ne_comma c h = ground arith

IsListable-solid : (c : ℕ) → IsListable c → is_whitespace c ≡ false
IsListable-solid c h = ground arith

IsListable-IsVisible : (c : ℕ) → IsListable c → IsVisible c
IsListable-IsVisible c h = ground arith

module _ {E A : Type 0} (from_str : Text → Result E A) where
  kept_parts_blank :
      (ss : List Text) → kept_parts from_str (cons_head b' ' ss) ≡ kept_parts from_str ss
  unfolding kept_parts
  kept_parts_blank [] = unfold trim in refl
  kept_parts_blank (s ∷ ss) = rw trim_blank

  split_blank : (s : Text) → split b',' (b' ' ∷ s) ≡ cons_head b' ' (split b',' s)
  unfolding split
  split_blank s = refl

  kept_parts-cons :
      (s : Text) (a : A) (ss : List Text)
      → All IsListable s
      → s ≢ []
      → from_str s ≡ ok a
      → kept_parts from_str (s ∷ ss) ≡ a ∷ kept_parts from_str ss
  unfolding kept_parts
  kept_parts-cons [] a ss h ne e = absurd (ne refl)
  kept_parts-cons (c ∷ s) a ss h ne e = rw (
    trim_of_solid (c ∷ s)
        (All-imp IsListable (λ d. is_whitespace d ≡ false) IsListable-solid (c ∷ s) h),
    e,
  )

module _ {E A : Type 0} (from_str : Text → Result E A) (display : A → Text) (P : A → Type 0)
    (reads : (a : A) → P a → from_str (display a) ≡ ok a)
    (listable : (a : A) → P a → All IsListable (display a))
    (written : (a : A) → P a → display a ≢ []) where
  display-Lacks : (a : A) → P a → Lacks b',' (display a)
  display-Lacks a p =
      All-imp IsListable (λ c. c ≢ b',') IsListable-ne_comma (display a) (listable a p)

  pub kept_parts-joined :
      (a : A) (items : List A)
      → P a
      → All P items
      → kept_parts from_str (split b',' (display a ++ comma_rest (map display items))) ≡ a ∷ items
  unfolding comma_rest
  kept_parts-joined a [] p h =
      rw (append-nil (display a), split_of_Lacks b',' (display a) (display-Lacks a p))
        (kept_parts-cons from_str (display a) a [] (listable a p) (written a p) (reads a p)
          ∙ unfold kept_parts in refl)
  kept_parts-joined a (b ∷ items) p (q, h) =
      let text = display b ++ comma_rest (map display items) in
      rw (
        split-append b',' (display a) (b' ' ∷ text) (display-Lacks a p),
        split_blank from_str text,
        kept_parts-cons from_str (display a) a (cons_head b' ' (split b',' text)) (listable a p)
            (written a p) (reads a p),
        kept_parts_blank from_str (split b',' text),
        kept_parts-joined b items q h,
      )

  rest-IsVisible : (items : List A) → All P items → All IsVisible (comma_rest (map display items))
  unfolding comma_rest
  rest-IsVisible [] h = tt
  rest-IsVisible (a ∷ items) (p, h) = (
    refl,
    (
      refl,
      All-append IsVisible (display a) (comma_rest (map display items))
          (All-imp IsListable IsVisible IsListable-IsVisible (display a) (listable a p))
          (rest-IsVisible items h),
    ),
  )

  pub joined-IsVisible :
      (a : A) (items : List A)
      → P a
      → All P items
      → All IsVisible (display a ++ comma_rest (map display items))
  joined-IsVisible a items p h =
      All-append IsVisible (display a) (comma_rest (map display items))
        (All-imp IsListable IsVisible IsListable-IsVisible (display a) (listable a p))
        (rest-IsVisible items h)
