-- ===== src/Middleware/NormalizePath/Calls.antt =====
-- Which requests normalize_path.rs redirects, and what it passes on.
use actix_web_lab.Common.{
  ℕ, true, false, [], ◌∷◌, Option, none, some, ◌≡◌, ◌≢◌, refl, ap, sym, ◌∙◌, subst, Bool-cases, inl,
  inr, arith,
}
use actix_web_lab.Text.{Text, text_eq}
use actix_web_lab.Text.Equal.{text_eq_refl, text_eq_iff}
use actix_web_lab.Middleware.NormalizePath.{
  MergeSlash, NormalizePath, Uri, Request, service, redirect, normalized, answer, call_path, call,
  altered,
}
use actix_web_lab.Middleware.NormalizePath.Laws.{
  IsNormal, normalized-IsNormal, normalized_of_IsNormal,
}

ne_of_text_eq : (s t : Text) → text_eq s t ≡ false → s ≢ t
ne_of_text_eq s t h e = absurd (ground (arith, rw e at h, text_eq_refl t))

module _ (merge_slash : MergeSlash) {Origin : Type 0} (n : NormalizePath) where
  answer_unaltered :
      (code : Option ℕ) (req : Request Origin) → answer merge_slash code false req ≡ service req
  unfolding answer
  answer_unaltered none req = refl
  answer_unaltered (some code) req = refl

  call_path-IsNormal :
      (path : Text) (req : Request Origin)
      → IsNormal n.trailing_slash_behavior path
      → call_path merge_slash n path req ≡ service req
  unfolding call_path
  call_path-IsNormal [] req h = answer_unaltered n.use_redirects req
  call_path-IsNormal (c ∷ s) req h =
      rw
        (
          normalized_of_IsNormal merge_slash n.trailing_slash_behavior (c ∷ s) h,
          text_eq_refl (c ∷ s),
        )
        (answer_unaltered n.use_redirects req)

  -- What is known of a redirect for a request with that path.
  pub record Redirected (req : Request Origin) (path : Text) (code : ℕ) (uri : Uri Origin)
      : Type 0 where
    pub configured : n.use_redirects ≡ some code
    pub origin : uri.origin ≡ req.uri.origin
    pub query : uri.query ≡ req.uri.query
    pub path_differs : uri.path ≢ path
    pub path_is_normal : IsNormal n.trailing_slash_behavior uri.path

  altered-Redirected :
      (path : Text) (req : Request Origin) (code : ℕ) (configured : Option ℕ) {uri : Uri Origin}
      → n.use_redirects ≡ configured
      → text_eq (normalized merge_slash n.trailing_slash_behavior path) path ≡ false
      → answer merge_slash configured true
          (altered merge_slash (normalized merge_slash n.trailing_slash_behavior path) req)
        ≡ redirect code uri
      → Redirected req path code uri
  unfolding answer
  altered-Redirected path req code none e d h = cc
  altered-Redirected path req code (some set) {uri} e d h =
      let other : Text = normalized merge_slash n.trailing_slash_behavior path in
      let same_code : set ≡ code = cc in
      let same_uri : record req.uri { path = other } ≡ uri = cc in
      subst (λ u. Redirected req path code u) same_uri
        (record {
          configured = e ∙ ap some same_code;
          origin = refl;
          query = refl;
          path_differs = λ same. ne_of_text_eq other path d same;
          path_is_normal = normalized-IsNormal merge_slash n.trailing_slash_behavior path;
        })

  call_path-redirect :
      (path : Text) (req : Request Origin) {code : ℕ} {uri : Uri Origin}
      → call_path merge_slash n path req ≡ redirect code uri
      → Redirected req path code uri
  unfolding call_path
  call_path-redirect [] req {code} {uri} h =
      let never : service req ≡ redirect code uri =
        sym (answer_unaltered n.use_redirects req) ∙ h in
      cc
  call_path-redirect (c ∷ s) req {code} {uri} h =
      elim (Bool-cases
        (text_eq (normalized merge_slash n.trailing_slash_behavior (c ∷ s)) (c ∷ s))) [
          | inl same ↦
              let never : service req ≡ redirect code uri =
                sym (answer_unaltered n.use_redirects req) ∙ (rw same at h) in
              cc
          | inr other ↦
              altered-Redirected (c ∷ s) req code n.use_redirects refl other (rw other at h)
        ]

  -- A redirect is given only if it was configured, with the configured status, to a URI that
  -- differs from the request's in its path alone; and a client that follows it, with whatever
  -- else in its request, is not redirected again: its request goes on to the service as it is.
  pub call-settles :
      (req : Request Origin) {code : ℕ} {uri : Uri Origin}
      → call merge_slash n req ≡ redirect code uri
      → Redirected req req.uri.path code uri
        × ((match_uri : Uri Origin)
            → call merge_slash n (record { uri = uri; match_uri = match_uri })
              ≡ service (record { uri = uri; match_uri = match_uri }))
  unfolding call
  call-settles req {code} {uri} h =
      let r = call_path-redirect req.uri.path req h in
      (
        r,
        λ match_uri.
            call_path-IsNormal uri.path (record { uri = uri; match_uri = match_uri })
              r.path_is_normal,
      )

  -- What the service is given for a request with that path.
  pub record Passed (req : Request Origin) (path : Text) (passed : Request Origin) : Type 0 where
    pub origin : passed.uri.origin ≡ req.uri.origin
    pub query : passed.uri.query ≡ req.uri.query
    pub path_normalized : passed.uri.path ≡ normalized merge_slash n.trailing_slash_behavior path
    pub in_step : req.match_uri ≡ req.uri → passed.match_uri ≡ passed.uri

  call_path-service :
      (path : Text) (req : Request Origin)
      → path ≢ []
      → req.uri.path ≡ path
      → n.use_redirects ≡ none
      → (passed : Request Origin) × (call_path merge_slash n path req ≡ service passed)
        × Passed req path passed
  unfolding call_path answer
  call_path-service [] req full e h = absurd (full refl)
  call_path-service (c ∷ s) req full e h =
      elim (Bool-cases
        (text_eq (normalized merge_slash n.trailing_slash_behavior (c ∷ s)) (c ∷ s))) [
          | inl same ↦ (
            req,
            rw (same, h) refl,
            record {
              origin = refl;
              query = refl;
              path_normalized = e ∙ sym ((text_eq_iff _ _).0 same);
              in_step = λ k. k;
            },
          )
          | inr other ↦ (
            altered merge_slash (normalized merge_slash n.trailing_slash_behavior (c ∷ s)) req,
            rw (other, h) refl,
            record { origin = refl; query = refl; path_normalized = refl; in_step = λ k. refl },
          )
        ]

  -- Without redirects, every request that has a path goes on to the service: with the same query
  -- and the same other parts of its URI, with its path normalized, and with `match_info` brought
  -- up to that URI if it was up to the request's.
  pub call-serves :
      (req : Request Origin)
      → req.uri.path ≢ []
      → n.use_redirects ≡ none
      → (passed : Request Origin) × (call merge_slash n req ≡ service passed)
        × Passed req req.uri.path passed
  unfolding call
  call-serves req full h = call_path-service req.uri.path req full refl h
