-- ===== src/Russe/Framing/Outcome.antt =====
-- A body has one outcome: the reader of russe/src/reqwest_0_12.rs comes to an end on any body, and
-- to one end only.
use actix_web_lab.Russe.Framing.Prefixes.{decode-shrinks}
use actix_web_lab.Russe.Framing.Laws.{decode-cases, Feeds-joined}
use actix_web_lab.Russe.Framing.{
  Ending, Feeds, waits, waiting, join, crashed, breaks, crashes, broken, gives,
}
use actix_web_lab.Russe.{Decoded, decode, Event, need_more, failed, decoded, panicked}
use actix_web_lab.Bytes.{Bytes}
use actix_web_lab.Russe.Search.{Finders}
use actix_web_lab.Common.{
  List, ℕ, length, ◌<◌, ◌≡◌, [], arith, suc, subst, ◌∙◌, inl, sym, inr, ap, ◌∷◌, zero, refl,
}

module _ (finders : Finders) where
  Feeds-reaches :
      (fuel : ℕ) (buffer : Bytes)
      → length buffer < fuel
      → (end : Ending) × (events : List Event) × Feeds finders end buffer [] events
  Feeds-reaches zero buffer h = absurd (ground arith)
  Feeds-reaches (suc fuel) buffer h = elim (decode-cases finders buffer) [
    | inl asks ↦ (waiting buffer, [], waits asks refl)
    | inr (need_more, left, gone, decides) ↦ absurd (decides refl)
    | inr (panicked, left, gone, decides) ↦ (crashed, [], crashes gone refl)
    | inr (failed error, left, gone, decides) ↦ (broken error, [], breaks gone refl)
    | inr (decoded event, left, gone, decides) ↦
        let shorter = decode-shrinks finders buffer gone decides in
        let (end, events, k) = Feeds-reaches fuel left (omega arith) in
        (end, event ∷ events, gives gone k)
  ]

  -- What follows on a call of `decode` when no chunk is to come.
  abbrev Follows : Ending → List Event → Decoded × Bytes → Type 0
  Follows end events (need_more, left) = (end ≡ waiting left) × (events ≡ [])
  Follows end events (panicked, left) = (end ≡ crashed) × (events ≡ [])
  Follows end events (failed error, left) = (end ≡ broken error) × (events ≡ [])
  Follows end events (decoded event, left) =
      (others : List Event) × (events ≡ event ∷ others) × Feeds finders end left [] others

  Feeds-Follows :
      {end : Ending} {buffer : Bytes} {events : List Event} (call : Decoded × Bytes)
      → decode finders buffer ≡ call
      → Feeds finders end buffer [] events
      → Follows end events call
  Feeds-Follows {end = end} call g (waits h e) = subst (Follows end []) (sym h ∙ g) (e, refl)
  Feeds-Follows {end = end} call g (breaks h e) = subst (Follows end []) (sym h ∙ g) (e, refl)
  Feeds-Follows {end = end} call g (crashes h e) = subst (Follows end []) (sym h ∙ g) (e, refl)
  Feeds-Follows {end = end} call g (gives {event = event} {events = events} h k) =
      subst (Follows end (event ∷ events)) (sym h ∙ g) (events, refl, k)

  Feeds-unique :
      {end other : Ending} {buffer : Bytes} {events others : List Event}
      → Feeds finders end buffer [] events
      → Feeds finders other buffer [] others
      → (other ≡ end) × (others ≡ events)
  Feeds-unique (waits h e) k = let (at, none_left) = Feeds-Follows _ h k in (at ∙ sym e, none_left)
  Feeds-unique (breaks h e) k = let (at, none_left) = Feeds-Follows _ h k in (at ∙ sym e, none_left)
  Feeds-unique (crashes h e) k =
      let (at, none_left) = Feeds-Follows _ h k in (at ∙ sym e, none_left)
  Feeds-unique (gives {event = event} h k') k =
      let (later, split, k'') = Feeds-Follows _ h k in
      let (at, same) = Feeds-unique k' k'' in (at, split ∙ ap (◌∷◌ event) same)

  -- On any body, in any chunks, the reader comes to an end, with events and an end that no other
  -- chunks with the same bytes change.
  pub Feeds-settles :
      (chunks : List Bytes)
      → (end : Ending) × (events : List Event) × Feeds finders end [] chunks events
        × ((cut : List Bytes) (other : Ending) (others : List Event)
            → join cut ≡ join chunks
            → Feeds finders other [] cut others
            → (other ≡ end) × (others ≡ events))
  Feeds-settles chunks =
      let (end, events, whole) =
        Feeds-reaches (suc (length (join chunks))) (join chunks) (omega arith) in
      let (joined, split) = Feeds-joined finders {end = end} chunks [] events in
      (
        end,
        events,
        split whole,
        λ cut other others same k.
            let (joined', split') = Feeds-joined finders {end = other} cut [] others in
            Feeds-unique whole (subst (λ b. Feeds finders other b [] others) same (joined' k)),
      )
