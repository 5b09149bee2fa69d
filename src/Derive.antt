-- ===== src/Derive.antt =====
-- actix-web-lab-derive/src/lib.rs: which code the derive macro makes for each field of a struct, and what
-- that code does. Types are names; what an attribute's arguments parse to as one identifier, if they
-- do, is syn's.
pub mod Laws
mod Tests
use actix_web_lab.Text.{Text, text_eq, text}
use actix_web_lab.Common.{
  List, Option, Bool, Result, ◌≡◌, false, true, ◌||◌, ◌∷◌, err, ok, ◌>>=◌, [], not, some,
  if◌then◌else◌, ◌++◌, ◌⊎◌, inl, inr, none, refl,
}

pub record Field (Ty : Type 0) : Type 0 where
  pub ident : Text
  pub ty : Ty
  pub attrs : List (Option Text)

pub data Input (Ty : Type 0) : Type 0 where
  struct_named : List (Field Ty) → Input Ty
  struct_unnamed enum_or_union : Input Ty

-- The two messages of `compile_error!`
pub data CompileError : Type 0 where
  only_structs only_named_fields : CompileError

-- The parts of the code that is made: the fields of the struct, those that are extracted, and those
-- that are copied from the application's data.
pub record Output (Ty : Type 0) : Type 0 where
  pub fields : List (Field Ty)
  pub fut_fields : List (Field Ty)
  pub copied_fields : List (Field Ty)

abbrev pub any_unparsed : List (Option Text) → Bool
any_unparsed [] = false
any_unparsed (none ∷ attrs) = true
any_unparsed (some ident ∷ attrs) = any_unparsed attrs

abbrev pub no_attrs : List (Option Text) → Bool
no_attrs [] = true
no_attrs (attr ∷ attrs) = false

-- No special handling: no attribute, or one whose arguments are no identifier.
unfoldable pub is_extracted : {Ty : Type 0} → Field Ty → Bool
is_extracted f = no_attrs f.attrs || any_unparsed f.attrs

abbrev pub any_copy : List (Option Text) → Bool
any_copy [] = false
any_copy (none ∷ attrs) = any_copy attrs
any_copy (some ident ∷ attrs) = text_eq ident (text "copy_from_app_data") || any_copy attrs

unfoldable pub is_copied : {Ty : Type 0} → Field Ty → Bool
is_copied f = any_copy f.attrs

abbrev pub kept : {A : Type 0} → (A → Bool) → List A → List A
kept test [] = []
kept test (a ∷ rest) = if test a then a ∷ kept test rest else kept test rest

unfoldable pub derive_from_request : {Ty : Type 0} → Input Ty → Result CompileError (Output Ty)
derive_from_request enum_or_union = err only_structs
derive_from_request struct_unnamed = err only_named_fields
derive_from_request (struct_named fields) = ok (record {
  fields = fields;
  fut_fields = kept is_extracted fields;
  copied_fields = kept is_copied fields;
})

-- The code that is made, where `app_data` is what the application has of a type, and `extract` what the
-- extraction of a type comes to. Of several failures of `try_join!` it is here the first field's;
-- which one it is depends on how the futures are polled.
module _ {Ty Value Error : Type 0} (app_data : Ty → Option Value)
    (extract : Ty → Result Error Value) (internal : Error) where
  abbrev pub bind_copied :
      Field Ty
      → Option Value
      → Result Error (List (Text × Value))
      → Result Error (List (Text × Value))
  bind_copied f none rest = err internal
  bind_copied f (some v) rest = rest >>= (λ env. ok ((f.ident, v) ∷ env))

  -- A type without data ends `from_request`, before anything is extracted.
  abbrev pub copy_all : List (Field Ty) → Result Error (List (Text × Value))
  copy_all [] = ok []
  copy_all (f ∷ fields) = bind_copied f (app_data f.ty) (copy_all fields)

  abbrev pub join_all : List (Field Ty) → Result Error (List (Text × Value))
  join_all [] = ok []
  join_all (f ∷ fields) =
      extract f.ty >>= (λ v. join_all fields >>= (λ env. ok ((f.ident, v) ∷ env)))

  -- The names that stand in the struct's expression, those of the closure before the others.
  unfoldable pub run : Output Ty → Result Error (List (Text × Value))
  run out =
      copy_all out.copied_fields
      >>= (λ copied. join_all out.fut_fields >>= (λ extracted. ok (extracted ++ copied)))

-- An attribute list as the documentation has it: none, or the one that copies.
abbrev pub IsDocumented : {Ty : Type 0} → Field Ty → Type 0
IsDocumented f = (f.attrs ≡ []) ⊎ (f.attrs ≡ some (text "copy_from_app_data") ∷ [])

-- Each field with such attributes is either extracted or copied, and not both.
pub documented_once :
    {Ty : Type 0} (f : Field Ty) → IsDocumented f → is_extracted f ≡ not (is_copied f)
unfolding is_extracted is_copied
documented_once f (inl none_there) = rw none_there refl
documented_once f (inr copies) = rw copies refl
