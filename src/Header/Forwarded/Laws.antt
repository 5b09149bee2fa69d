-- ===== src/Header/Forwarded/Laws.antt =====
-- Round trip of forwarded.rs.
use actix_web_lab.Common.{
  ℕ, List, [], ◌∷◌, ◌++◌, Option, none, some, map, ◌≡◌, refl, ◌∙◌, arith, All, All-append,
  append-nil, append_assoc, OptionAll,
}
use actix_web_lab.Text.{Text, text, trim, join}
use actix_web_lab.Text.Joined.{flat, Lacks-join}
use actix_web_lab.Text.Split.{Lacks}
use actix_web_lab.Header.Forwarded.{
  Forwarded, has_no_info, pair, set_named, set_pairs, no_info, from_str, item, option_item,
  for_items, display,
}
use actix_web_lab.Header.Forwarded.Pairs.{
  IsPlain, marked, unquote-marked, pair-item, Lacks-item, part_pairs, part_pairs-item,
  part_pairs-join, pairs-join, flat-append, set_pairs-append,
}

pub record IsWritable (f : Forwarded) : Type 0 where
  pub by : OptionAll IsPlain f.by
  pub for_chain : All IsPlain f.for_chain
  pub host : OptionAll IsPlain f.host
  pub proto : OptionAll IsPlain f.proto

abbrev make : Option Text → List Text → Option Text → Option Text → Forwarded
make by idents host proto = record { by = by; for_chain = idents; host = host; proto = proto }

item-Lacks_semicolon : (name v : Text) → Lacks b';' name → IsPlain v → Lacks b';' (item name v)
item-Lacks_semicolon name v h p =
    Lacks-item b';' name v (omega arith) (omega arith) h p.no_semicolon

item-Lacks_comma : (name v : Text) → Lacks b',' name → IsPlain v → Lacks b',' (item name v)
item-Lacks_comma name v h p = Lacks-item b',' name v (omega arith) (omega arith) h p.no_comma

for-Lacks :
    (sep : ℕ) (idents : List Text)
    → ((v : Text) → IsPlain v → Lacks sep (item (text "for") v))
    → All IsPlain idents
    → All (Lacks sep) (map (item (text "for")) idents)
for-Lacks sep [] f h = tt
for-Lacks sep (v ∷ idents) f (p, h) = (f v p, for-Lacks sep idents f h)

-- What a part of the text sets.
by_part :
    (o : Option Text)
    → OptionAll IsPlain o
    → set_pairs no_info (flat part_pairs (option_item (text "by") o)) ≡ make o [] none none
unfolding set_pairs set_named trim
by_part none h = refl
by_part (some v) h =
    rw (part_pairs-item b'b' (text "y") v refl (omega arith) (omega arith) h, unquote-marked v h)

host_part :
    (by o : Option Text) (idents : List Text)
    → OptionAll IsPlain o
    → set_pairs (make by idents none none) (flat part_pairs (option_item (text "host") o))
      ≡ make by idents o none
unfolding set_pairs set_named trim
host_part by none idents h = refl
host_part by (some v) idents h =
    rw (part_pairs-item b'h' (text "ost") v refl (omega arith) (omega arith) h, unquote-marked v h)

proto_part :
    (by host o : Option Text) (idents : List Text)
    → OptionAll IsPlain o
    → set_pairs (make by idents host none) (flat part_pairs (option_item (text "proto") o))
      ≡ make by idents host o
unfolding set_pairs set_named trim
proto_part by host none idents h = refl
proto_part by host (some v) idents h =
    rw (part_pairs-item b'p' (text "roto") v refl (omega arith) (omega arith) h, unquote-marked v h)

set_for :
    (by : Option Text) (done : List Text) (v : Text) (ps : List (Text × Text))
    → IsPlain v
    → set_pairs (make by done none none) ((text "for", marked v) ∷ ps)
      ≡ set_pairs (make by (done ++ v ∷ []) none none) ps
unfolding set_pairs set_named trim
set_for by done v ps p = rw (unquote-marked v p)

for_pairs :
    (by : Option Text) (done idents : List Text)
    → All IsPlain idents
    → set_pairs (make by done none none) (flat pair (map (item (text "for")) idents))
      ≡ make by (done ++ idents) none none
for_pairs by done [] h = unfold set_pairs in rw append-nil
for_pairs by done (v ∷ idents) (p, h) = rw (pair-item b'f' (text "or") refl v (omega arith)) (
    set_for by done v (flat pair (map (item (text "for")) idents)) p
    ∙ for_pairs by (done ++ v ∷ []) idents h
    ∙ rw append_assoc)

module _ (join_items : List Text → Text → Text)
    (joins : (parts : List Text) (sep : Text) → join_items parts sep ≡ join sep parts) where
  for_part :
      (by : Option Text) (idents : List Text)
      → All IsPlain idents
      → set_pairs (make by [] none none) (flat part_pairs (for_items join_items idents))
        ≡ make by idents none none
  for_part by [] h = unfold set_pairs in refl
  for_part by (v ∷ idents) h =
      rw
        (
          joins (map (item (text "for")) (v ∷ idents)) (text ", "),
          part_pairs-join (map (item (text "for")) (v ∷ idents))
              (for-Lacks b',' (v ∷ idents) (λ w. item-Lacks_comma (text "for") w (omega arith)) h),
          append-nil (flat pair (map (item (text "for")) (v ∷ idents))),
        )
        (for_pairs by [] (v ∷ idents) h)

  abbrev parts : Forwarded → List Text
  parts f =
      option_item (text "by") f.by
      ++ (for_items join_items f.for_chain
          ++ (option_item (text "host") f.host ++ option_item (text "proto") f.proto))

  option_item-Lacks :
      (name : Text) (o : Option Text)
      → Lacks b';' name
      → OptionAll IsPlain o
      → All (Lacks b';') (option_item name o)
  option_item-Lacks name none h p = tt
  option_item-Lacks name (some v) h p = (item-Lacks_semicolon name v h p, tt)

  for_items-Lacks :
      (idents : List Text) → All IsPlain idents → All (Lacks b';') (for_items join_items idents)
  for_items-Lacks [] h = tt
  for_items-Lacks (v ∷ idents) h = (
    rw (joins (map (item (text "for")) (v ∷ idents)) (text ", ")) (
        Lacks-join b';' (text ", ") (omega arith) (map (item (text "for")) (v ∷ idents))
          (for-Lacks b';' (v ∷ idents) (λ w. item-Lacks_semicolon (text "for") w (omega arith)) h)),
    tt,
  )

  parts-Lacks : (f : Forwarded) → IsWritable f → All (Lacks b';') (parts f)
  parts-Lacks f w =
      All-append (Lacks b';') (option_item (text "by") f.by) _
        (option_item-Lacks (text "by") f.by (omega arith) w.by)
        (All-append (Lacks b';') (for_items join_items f.for_chain) _
          (for_items-Lacks f.for_chain w.for_chain)
          (All-append (Lacks b';') (option_item (text "host") f.host) _
            (option_item-Lacks (text "host") f.host (omega arith) w.host)
            (option_item-Lacks (text "proto") f.proto (omega arith) w.proto)))

  display_cases :
      (by : Option Text) (idents : List Text) (host proto : Option Text)
      → display join_items (make by idents host proto)
        ≡ join (text "; ") (parts (make by idents host proto))
  unfolding display has_no_info join
  display_cases none [] none none = refl
  display_cases by idents host proto = joins (parts (make by idents host proto)) (text "; ")

  display_lem : (f : Forwarded) → display join_items f ≡ join (text "; ") (parts f)
  display_lem f = display_cases f.by f.for_chain f.host f.proto

  set_parts : (f : Forwarded) → IsWritable f → set_pairs no_info (flat part_pairs (parts f)) ≡ f
  set_parts f w =
      let bys = option_item (text "by") f.by in
      let fors = for_items join_items f.for_chain in
      let hosts = option_item (text "host") f.host in
      let protos = option_item (text "proto") f.proto in
      rw
        (
          flat-append part_pairs bys (fors ++ (hosts ++ protos)),
          flat-append part_pairs fors (hosts ++ protos),
          flat-append part_pairs hosts protos,
          set_pairs-append no_info (flat part_pairs bys) _,
          by_part f.by w.by,
          set_pairs-append _ (flat part_pairs fors) _,
          for_part f.by f.for_chain w.for_chain,
          set_pairs-append _ (flat part_pairs hosts) _,
          host_part f.by f.host f.for_chain w.host,
        )
        (proto_part f.by f.host f.proto f.for_chain w.proto)

  -- A header whose identifiers are all plain is read back whole from the text that is written for
  -- it: the order of the `for` chain and the absence of a field included.
  pub from_str-display_forwarded :
      (f : Forwarded) → IsWritable f → from_str (display join_items f) ≡ f
  unfolding from_str
  from_str-display_forwarded f w =
      rw (display_lem f, pairs-join (parts f) (parts-Lacks f w)) (set_parts f w)
