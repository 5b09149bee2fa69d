-- ===== src/Derive/Tests.antt =====
-- The derive macro on a documented field that is copied: a doc comment is an attribute whose arguments
-- are no identifier, so that the field is extracted as well.
use actix_web_lab.Derive.Laws.{Makes, derive_from_request-Makes}
use actix_web_lab.Text.{text}
use actix_web_lab.Derive.{
  Field, is_extracted, run, is_copied, text, kept, derive_from_request, struct_named,
}
use actix_web_lab.Common.{
  ℕ, none, ◌≡◌, true, some, false, ok, ◌∷◌, [], refl, err, List, Option, Result, ◌+◌, ◌*◌, inr, inl,
}

abbrev with_doc : Field ℕ
with_doc = record {
  ident = text "int";
  ty = 64;
  attrs = none ∷ (some (text "copy_from_app_data") ∷ []);
}

bound_twice : (is_extracted with_doc ≡ true) × (is_copied with_doc ≡ true)
unfolding is_extracted is_copied
bound_twice = (refl, refl)

-- An identifier that the macro does not know leaves the field unbound.
abbrev misspelt : Field ℕ
misspelt = record { ident = text "int"; ty = 64; attrs = some (text "copy") ∷ [] }

bound_never : (is_extracted misspelt ≡ false) × (is_copied misspelt ≡ false)
unfolding is_extracted is_copied
bound_never = (refl, refl)

-- Data that is missing ends the extraction with an internal error.
no_data :
    run {Value = ℕ} {Error = ℕ}
      (λ ty. none)
      (λ ty. ok ty)
      500
      (record { fields = misspelt ∷ []; fut_fields = []; copied_fields = misspelt ∷ [] })
    ≡ err 500
unfolding run
no_data = refl

-- A struct with a field that is copied in front of one that is extracted
abbrev two_fields : List (Field ℕ)
two_fields =
    record { ident = text "n"; ty = 64; attrs = some (text "copy_from_app_data") ∷ [] }
    ∷ (record { ident = text "s"; ty = 8; attrs = [] } ∷ [])

abbrev app_data : ℕ → Option ℕ
app_data ty = some (ty + 1)

abbrev extract : ℕ → Result ℕ ℕ
extract ty = ok (ty * 2)

derive_from_request-Makes_example :
    Makes app_data extract 500 two_fields (derive_from_request (struct_named two_fields))
derive_from_request-Makes_example =
    derive_from_request-Makes app_data extract 500 two_fields (inr refl, (inl refl, tt))

-- The extracted ones stand in front.
two_bound :
    run app_data extract 500 (record {
      fields = two_fields;
      fut_fields = kept is_extracted two_fields;
      copied_fields = kept is_copied two_fields;
    })
    ≡ ok ((text "s", 16) ∷ ((text "n", 65) ∷ []))
unfolding run is_extracted is_copied
two_bound = refl
