-- ===== src/Middleware/NormalizePath/Laws.antt =====
-- The paths that normalize_path.rs makes, and those that it leaves alone.
use actix_web_lab.Common.{
  true, false, [], ◌∷◌, ◌++◌, ◌≡◌, ◌≢◌, ◌⊎◌, refl, ap, sym, ◌∙◌, subst, inl, inr, arith,
}
use actix_web_lab.Text.{Text, text, trim_end_by}
use actix_web_lab.Middleware.NormalizePath.{
  is_slash, merged, MergeSlash, TrailingSlash, always, merge_only, trim, with_trailing, or_root,
  normalized,
}
use actix_web_lab.Middleware.NormalizePath.Slashes.{
  has_double, ends_with_slash, has_double-merged, merged_of_single, ends_with_slash-merged,
  ends_with_slash-trim_end_by, trim_end_by_of_open, ends_with_slash-append, merged-append,
}

abbrev pub IsTrailing : TrailingSlash → Text → Type 0
IsTrailing always path = ends_with_slash path ≡ true
IsTrailing merge_only path = Unit
IsTrailing trim path = (ends_with_slash path ≡ false) ⊎ (path ≡ text "/")

-- Not empty, no two slashes in a row, and the slash at the end as it was asked for.
pub record IsNormal (behavior : TrailingSlash) (path : Text) : Type 0 where
  pub full : path ≢ []
  pub single : has_double path ≡ false
  pub trailing : IsTrailing behavior path

or_root-ne-nil : (t : Text) → or_root t ≢ []
unfolding or_root
or_root-ne-nil [] = λ e. cc
or_root-ne-nil (c ∷ t) = λ e. cc

or_root-single : (t : Text) → has_double t ≡ false → has_double (or_root t) ≡ false
unfolding or_root
or_root-single [] h = refl
or_root-single (c ∷ t) h = h

or_root-ends_with_slash : (t : Text) → ends_with_slash t ≡ true → ends_with_slash (or_root t) ≡ true
unfolding or_root
or_root-ends_with_slash [] h = absurd (ground arith)
or_root-ends_with_slash (c ∷ t) h = h

or_root-IsTrailing : (t : Text) → ends_with_slash t ≡ false → IsTrailing trim (or_root t)
unfolding or_root
or_root-IsTrailing [] h = inr refl
or_root-IsTrailing (c ∷ t) h = inl h

or_root_full : (t : Text) → t ≢ [] → or_root t ≡ t
unfolding or_root
or_root_full [] h = absurd (h refl)
or_root_full (c ∷ t) h = refl

merged-IsTrailing :
    (behavior : TrailingSlash) (path : Text)
    → IsTrailing behavior (or_root (merged (with_trailing behavior path)))
unfolding with_trailing
merged-IsTrailing always path =
    or_root-ends_with_slash (merged (path ++ b'/' ∷ []))
      (ends_with_slash-merged (path ++ b'/' ∷ []) ∙ ends_with_slash-append path)
merged-IsTrailing merge_only path = tt
merged-IsTrailing trim path =
    or_root-IsTrailing (merged (trim_end_by is_slash path))
      (ends_with_slash-merged (trim_end_by is_slash path) ∙ ends_with_slash-trim_end_by path)

module _ (merge_slash : MergeSlash) where
  normalized_lem :
      (behavior : TrailingSlash) (path : Text)
      → normalized merge_slash behavior path ≡ or_root (merged (with_trailing behavior path))
  unfolding normalized
  normalized_lem behavior path = ap or_root (merge_slash.merges (with_trailing behavior path))

  pub normalized-IsNormal :
      (behavior : TrailingSlash) (path : Text)
      → IsNormal behavior (normalized merge_slash behavior path)
  normalized-IsNormal behavior path =
      let t = merged (with_trailing behavior path) in
      subst (IsNormal behavior) (sym (normalized_lem behavior path)) (record {
        full = or_root-ne-nil t;
        single = or_root-single t (has_double-merged (with_trailing behavior path));
        trailing = merged-IsTrailing behavior path;
      })

  keeps :
      (behavior : TrailingSlash) (path : Text)
      → IsNormal behavior path
      → or_root (merged (with_trailing behavior path)) ≡ path
  unfolding with_trailing
  keeps always path n = rw (merged-append path n.single n.trailing) (or_root_full path n.full)
  keeps merge_only path n = rw (merged_of_single path n.single) (or_root_full path n.full)
  keeps trim path n = elim n.trailing [
    | inl open_end ↦
        rw (trim_end_by_of_open path open_end, merged_of_single path n.single)
          (or_root_full path n.full)
    | inr root ↦ rw root (unfold or_root merged in refl)
  ]

  pub normalized_of_IsNormal :
      (behavior : TrailingSlash) (path : Text)
      → IsNormal behavior path
      → normalized merge_slash behavior path ≡ path
  normalized_of_IsNormal behavior path n = normalized_lem behavior path ∙ keeps behavior path n

  -- What normalization gives is always normal; a path that is normal is not changed; so that
  -- normalizing twice is normalizing once.
  pub normalized-canonical :
      (behavior : TrailingSlash) (path : Text)
      → IsNormal behavior (normalized merge_slash behavior path)
        × (IsNormal behavior path → normalized merge_slash behavior path ≡ path)
        × (normalized merge_slash behavior (normalized merge_slash behavior path)
            ≡ normalized merge_slash behavior path)
  normalized-canonical behavior path = (
    normalized-IsNormal behavior path,
    normalized_of_IsNormal behavior path,
    normalized_of_IsNormal behavior (normalized merge_slash behavior path)
        (normalized-IsNormal behavior path),
  )
