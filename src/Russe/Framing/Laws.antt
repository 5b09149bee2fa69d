-- ===== src/Russe/Framing/Laws.antt =====
-- The reader of chunks of russe/src/reqwest_0_12.rs against a reader of the whole body at once.
use actix_web_lab.Russe.Framing.Prefixes.{need_more-stays, decode-append}
use actix_web_lab.Russe.{Event, Decoded, decode, need_more, decoded, failed, panicked}
use actix_web_lab.Bytes.{Bytes}
use actix_web_lab.Russe.Framing.{
  Ending, Bytes, Event, Feeds, join, waits, reads, gives, breaks, crashes, waiting,
}
use actix_web_lab.Russe.Search.{Finders}
use actix_web_lab.Common.{
  List, ◌++◌, [], append-nil, ◌∷◌, subst, ap, ◌∙◌, append_assoc, ◌≡◌, ◌⊎◌, inl, ◌≢◌, inr, sym, ◌↔◌,
  refl,
}

module _ (finders : Finders) {end : Ending} where
  Feeds-join :
      {buffer : Bytes} (chunks : List Bytes) {events : List Event}
      → Feeds finders end buffer chunks events
      → Feeds finders end (buffer ++ join chunks) [] events
  Feeds-join {buffer = buffer} [] (waits h e) = rw (append-nil buffer) (waits h e)
  Feeds-join {buffer = buffer} (chunk ∷ chunks) {events = events} (reads h k) =
      let stays = need_more-stays finders buffer h in
      let ih = Feeds-join chunks k in
      subst (λ b. Feeds finders end b [] events)
        (ap (λ b. (b ++ chunk) ++ join chunks) stays ∙ append_assoc buffer chunk (join chunks)) ih
  Feeds-join {buffer = buffer} chunks (gives h k) =
      gives (decode-append finders buffer (join chunks) h (λ e. cc)) (Feeds-join chunks k)
  Feeds-join {buffer = buffer} chunks (breaks h e) =
      breaks (decode-append finders buffer (join chunks) h (λ e. cc)) e
  Feeds-join {buffer = buffer} chunks (crashes h e) =
      crashes (decode-append finders buffer (join chunks) h (λ e. cc)) e

Decoded-cases : (d : Decoded) → (d ≡ need_more) ⊎ (d ≢ need_more)
Decoded-cases need_more = inl refl
Decoded-cases panicked = inr (λ e. cc)
Decoded-cases (decoded event) = inr (λ e. cc)
Decoded-cases (failed error) = inr (λ e. cc)

module _ (finders : Finders) where
  pub decode-cases :
      (buffer : Bytes)
      → (decode finders buffer ≡ (need_more, buffer))
        ⊎ ((d : Decoded) × (left : Bytes) × (decode finders buffer ≡ (d, left)) × (d ≢ need_more))
  decode-cases buffer = elim (Decoded-cases (decode finders buffer).0) [
    | inl asks ↦
        let whole = ap (λ d. (d, (decode finders buffer).1)) asks in
        let same = need_more-stays finders buffer whole in
        inl (whole ∙ ap (λ left. (need_more, left)) same)
    | inr decides ↦ inr ((decode finders buffer).0, (decode finders buffer).1, refl, decides)
  ]

module _ (finders : Finders) {end : Ending} where
  -- A reader that asks for more on the whole body has asked for each chunk of it.
  waits-split :
      (chunks : List Bytes) (buffer : Bytes) {left : Bytes}
      → decode finders (buffer ++ join chunks) ≡ (need_more, left)
      → end ≡ waiting left
      → Feeds finders end buffer chunks []
  waits-split [] buffer h e = waits (ap (decode finders) (sym (append-nil buffer)) ∙ h) e
  waits-split (chunk ∷ chunks) buffer h e = elim (decode-cases finders buffer) [
    | inl asks ↦
        let later = ap (decode finders) (append_assoc buffer chunk (join chunks)) ∙ h in
        reads asks (waits-split chunks (buffer ++ chunk) later e)
    | inr (d, left, gone, decides) ↦
        let same = decode-append finders buffer (chunk ++ join chunks) gone decides in
        absurd (decides (ap (λ p. p.0) (sym same ∙ h)))
  ]

  -- An outcome on the whole body comes as soon as the chunks that it is taken from are there.
  decided-split :
      {d : Decoded} {events : List Event} (rest : Bytes)
      → d ≢ need_more
      → ((chunks : List Bytes) (buffer left : Bytes)
          → decode finders buffer ≡ (d, left)
          → rest ≡ left ++ join chunks
          → Feeds finders end buffer chunks events)
      → (chunks : List Bytes) (buffer : Bytes) → decode finders (buffer ++ join chunks) ≡ (d, rest)
      → Feeds finders end buffer chunks events
  decided-split rest n resume [] buffer h =
      resume [] buffer rest (ap (decode finders) (sym (append-nil buffer)) ∙ h)
        (sym (append-nil rest))
  decided-split rest n resume (chunk ∷ chunks) buffer h = elim (decode-cases finders buffer) [
    | inl asks ↦
        let later = ap (decode finders) (append_assoc buffer chunk (join chunks)) ∙ h in
        reads asks (decided-split rest n resume chunks (buffer ++ chunk) later)
    | inr (d', left, gone, decides) ↦
        let same = sym (decode-append finders buffer (chunk ++ join chunks) gone decides) ∙ h in
        resume (chunk ∷ chunks) buffer left (gone ∙ ap (λ p. (p.0, left)) same)
          (sym (ap (λ p. p.1) same))
  ]

  Feeds-split :
      {source : Bytes} {events : List Event}
      → Feeds finders end source [] events
      → (chunks : List Bytes) (buffer : Bytes) → source ≡ buffer ++ join chunks
      → Feeds finders end buffer chunks events
  Feeds-split (waits h e) chunks buffer same =
      waits-split chunks buffer (ap (decode finders) (sym same) ∙ h) e
  Feeds-split (gives {left = left} h k) chunks buffer same =
      decided-split left (λ e. cc)
        (λ chunks' buffer' left' h' e'. gives h' (Feeds-split k chunks' left' e')) chunks buffer
        (ap (decode finders) (sym same) ∙ h)
  Feeds-split (breaks {left = left} h e) chunks buffer same =
      decided-split left (λ e. cc) (λ chunks' buffer' left' h' e'. breaks h' e) chunks buffer
        (ap (decode finders) (sym same) ∙ h)
  Feeds-split (crashes {left = left} h e) chunks buffer same =
      decided-split left (λ e. cc) (λ chunks' buffer' left' h' e'. crashes h' e) chunks buffer
        (ap (decode finders) (sym same) ∙ h)

  -- What a reader gives and how it ends depends on the bytes of the body alone, and not on the
  -- chunks in which they arrive: it is what a reader gives that has them all in its buffer.
  pub Feeds-joined :
      (chunks : List Bytes) (buffer : Bytes) (events : List Event)
      → Feeds finders end buffer chunks events ↔ Feeds finders end (buffer ++ join chunks) [] events
  Feeds-joined chunks buffer events =
      (Feeds-join finders chunks, λ k. Feeds-split k chunks buffer refl)
