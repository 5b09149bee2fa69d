-- ===== src/Derive/Laws.antt =====
-- What the made code binds: each field of the struct once, from the place that its attributes say.
use mathlib.Core.List.{perm_middle, map-append, Perm}
use mathlib.Core.List.Perm
use mathlib.Core.Bool.{true≢false}
use actix_web_lab.Text.{Text}
use actix_web_lab.Derive.{
  Field, CompileError, Output, struct_named, derive_from_request, is_extracted, is_copied, kept,
  run, copy_all, join_all, bind_copied, IsDocumented, documented_once,
}
use actix_web_lab.Common.{
  List, Option, Bool, Result, ◌≡◌, false, true, ◌∷◌, err, ok, ◌>>=◌, [], not, some, if◌then◌else◌,
  ◌++◌, ◌⊎◌, inl, inr, none, refl, All, to_option, map, ap, sym, Bool-cases, ◌∙◌, Some,
}

Some-if :
    {A : Type 0} (P : A → Type 0) (b : Bool) (a : A) (rest : List A)
    → Some P (if b then a ∷ rest else rest)
    → ((b ≡ true) × P a) ⊎ Some P rest
Some-if P true a rest (inl there) = inl (refl, there)
Some-if P true a rest (inr there) = inr there
Some-if P false a rest there = inr there

-- A binding that is there
abbrev pub bound : {Value : Type 0} → Text × Value → Text × Option Value
bound (ident, v) = (ident, some v)

-- What comes of the binding of fields: all their values, or an error that one of them explains.
abbrev pub Binds :
    {Ty Value Error : Type 0}
    → (Field Ty → Option Value)
    → List (Field Ty)
    → Result Error (List (Text × Value))
    → Type 0
Binds value_of fields (ok env) = map bound env ≡ map (λ f. (f.ident, value_of f)) fields
Binds value_of fields (err e) = Some (λ f. value_of f ≡ none) fields

module _ {Ty Value Error : Type 0} (app_data : Ty → Option Value)
    (extract : Ty → Result Error Value) (internal : Error) where
  -- Where a field's value comes from
  abbrev pub value_of : Field Ty → Option Value
  value_of f = if is_copied f then app_data f.ty else to_option (extract f.ty)

  bind_copied-Binds :
      (f : Field Ty) (fields : List (Field Ty)) (v : Option Value)
      (rest : Result Error (List (Text × Value)))
      → app_data f.ty ≡ v
      → Binds (λ g. app_data g.ty) fields rest
      → Binds (λ g. app_data g.ty) (f ∷ fields) (bind_copied app_data extract internal f v rest)
  bind_copied-Binds f fields none rest e h = inl e
  bind_copied-Binds f fields (some v) (err failure) e h = inr h
  bind_copied-Binds f fields (some v) (ok env) e h = rw (e, h) refl

  pub copy_all-Binds :
      (fields : List (Field Ty))
      → Binds (λ f. app_data f.ty) fields (copy_all app_data extract internal fields)
  copy_all-Binds [] = refl
  copy_all-Binds (f ∷ fields) =
      bind_copied-Binds f fields (app_data f.ty) (copy_all app_data extract internal fields) refl
        (copy_all-Binds fields)

  join-Binds :
      (f : Field Ty) (fields : List (Field Ty)) (v : Result Error Value)
      (rest : Result Error (List (Text × Value)))
      → extract f.ty ≡ v
      → Binds (λ g. to_option (extract g.ty)) fields rest
      → Binds
          (λ g. to_option (extract g.ty))
          (f ∷ fields)
          (v >>= (λ w. rest >>= (λ env. ok ((f.ident, w) ∷ env))))
  join-Binds f fields (err failure) rest e h = inl (ap to_option e)
  join-Binds f fields (ok v) (err failure) e h = inr h
  join-Binds f fields (ok v) (ok env) e h = rw (e, h) refl

  pub join_all-Binds :
      (fields : List (Field Ty))
      → Binds (λ f. to_option (extract f.ty)) fields (join_all app_data extract internal fields)
  join_all-Binds [] = refl
  join_all-Binds (f ∷ fields) =
      join-Binds f fields (extract f.ty) (join_all app_data extract internal fields) refl
        (join_all-Binds fields)

  -- A field's name with what it is bound to, by either part and as a whole
  abbrev pub extracted_as : Field Ty → Text × Option Value
  extracted_as f = (f.ident, to_option (extract f.ty))

  abbrev pub copied_as : Field Ty → Text × Option Value
  copied_as f = (f.ident, app_data f.ty)

  abbrev pub bound_as : Field Ty → Text × Option Value
  bound_as f = (f.ident, value_of f)

  -- The two lists of fields are a division of all of them.
  pub kept-Perm :
      (fields : List (Field Ty))
      → All IsDocumented fields
      → Perm {A = Text × Option Value}
          (map extracted_as (kept is_extracted fields) ++ map copied_as (kept is_copied fields))
          (map bound_as fields)
  kept-Perm [] h = Perm.nil
  kept-Perm (f ∷ fields) (once, h) = elim (Bool-cases (is_copied f)) [
    | inl copies ↦
        let rests : is_extracted f ≡ false = documented_once f once ∙ ap not copies in
        rw (copies, rests)
          (Perm.trans
            (perm_middle (map extracted_as (kept is_extracted fields))
              (map copied_as (kept is_copied fields)))
            (Perm.cons (copied_as f) (kept-Perm fields h)))
    | inr rests ↦
        let extracts : is_extracted f ≡ true = documented_once f once ∙ ap not rests in
        rw (extracts, rests) (Perm.cons (extracted_as f) (kept-Perm fields h))
  ]

  -- What the made code comes to: the names with their values, in some order, or an error and a field
  -- that has no value.
  abbrev pub Bindings : List (Field Ty) → Result Error (List (Text × Value)) → Type 0
  Bindings fields (ok env) = Perm {A = Text × Option Value} (map bound env) (map bound_as fields)
  Bindings fields (err e) = Some (λ f. value_of f ≡ none) fields

  kept-Some :
      (test : Field Ty → Bool) (value : Field Ty → Option Value) (fields : List (Field Ty))
      → ((f : Field Ty) → IsDocumented f → test f ≡ true → value_of f ≡ value f)
      → All IsDocumented fields
      → Some (λ f. value f ≡ none) (kept test fields)
      → Some (λ f. value_of f ≡ none) fields
  kept-Some test value [] same h there = there
  kept-Some test value (f ∷ fields) same (once, h) there =
      elim (Some-if (λ g. value g ≡ none) (test f) f (kept test fields) there) [
        | inl (tested, missing) ↦ inl (same f once tested ∙ missing)
        | inr below ↦ inr (kept-Some test value fields same h below)
      ]

  value_of-copied :
      (f : Field Ty) → IsDocumented f → is_copied f ≡ true → value_of f ≡ app_data f.ty
  value_of-copied f once copies = rw copies refl

  value_of-extracted :
      (f : Field Ty)
      → IsDocumented f
      → is_extracted f ≡ true
      → value_of f ≡ to_option (extract f.ty)
  value_of-extracted f once extracts = elim (Bool-cases (is_copied f)) [
    | inl copies ↦ absurd (true≢false (sym extracts ∙ documented_once f once ∙ ap not copies))
    | inr rests ↦ rw rests refl
  ]

  -- The whole of it, over what the two parts come to
  run-Binds_of :
      (fields : List (Field Ty)) (copied extracted : Result Error (List (Text × Value)))
      → All IsDocumented fields
      → Binds (λ f. app_data f.ty) (kept is_copied fields) copied
      → Binds (λ f. to_option (extract f.ty)) (kept is_extracted fields) extracted
      → Bindings fields (copied >>= (λ c. extracted >>= (λ e. ok (e ++ c))))
  run-Binds_of fields (err e) extracted h c x =
      kept-Some is_copied (λ f. app_data f.ty) fields value_of-copied h c
  run-Binds_of fields (ok c) (err e) h cs xs =
      kept-Some is_extracted (λ f. to_option (extract f.ty)) fields value_of-extracted h xs
  run-Binds_of fields (ok c) (ok x) h cs xs = rw (map-append bound x c, xs, cs) (kept-Perm fields h)

  -- The macro makes code, and the code binds the fields.
  abbrev pub Makes : List (Field Ty) → Result CompileError (Output Ty) → Type 0
  Makes fields (ok out) = Bindings fields (run app_data extract internal out)
  Makes fields (err e) = ⊥

  -- Of a struct with named fields, each without an attribute or with the one that copies, the macro
  -- makes code that binds each field once, with the application's data if it is copied and with what
  -- its extraction gives otherwise; the code fails only if one of these is missing.
  pub derive_from_request-Makes :
      (fields : List (Field Ty))
      → All IsDocumented fields
      → Makes fields (derive_from_request (struct_named fields))
  unfolding derive_from_request run
  derive_from_request-Makes fields h =
      run-Binds_of fields (copy_all app_data extract internal (kept is_copied fields))
        (join_all app_data extract internal (kept is_extracted fields)) h
        (copy_all-Binds (kept is_copied fields)) (join_all-Binds (kept is_extracted fields))
