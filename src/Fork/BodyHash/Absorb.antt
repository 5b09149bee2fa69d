-- ===== src/Fork/BodyHash/Absorb.antt =====
-- Draining the channel in body_hash.rs: what a hasher was fed with.
use actix_web_lab.Common.{false, List, [], ◌∷◌, ◌++◌, ◌≡◌, refl, sym, ◌∙◌}
use actix_web_lab.Payload.{Payload, chunk, fail, wait}
use actix_web_lab.Payload.Reading.{contents}
use actix_web_lab.Fork.{Copied, copied, failed}
use actix_web_lab.Fork.Reads.{copies}
use actix_web_lab.Fork.BodyHash.{Digest, drain}

module _ (digest : Digest) where
  -- A hasher fed with every chunk of the copies.
  abbrev pub absorb : digest.Hasher → List Copied → digest.Hasher
  absorb h [] = h
  absorb h (copied c ∷ q) = absorb (digest.update h c) q
  absorb h (failed ∷ q) = absorb h q

  pub absorb-append :
      (h : digest.Hasher) (a b : List Copied) → absorb h (a ++ b) ≡ absorb (absorb h a) b
  absorb-append h [] b = refl
  absorb-append h (copied c ∷ a) b = absorb-append (digest.update h c) a b
  absorb-append h (failed ∷ a) b = absorb-append h a b

  pub absorb-drain :
      (q : List Copied) (h : digest.Hasher)
      → absorb (drain digest q h).hasher (drain digest q h).queue ≡ absorb h q
  unfolding drain
  absorb-drain [] h = refl
  absorb-drain (copied c ∷ q) h = absorb-drain q (digest.update h c)
  absorb-drain (failed ∷ q) h = refl

  pub drain_whole :
      (q : List Copied) (h : digest.Hasher)
      → (drain digest q h).stopped ≡ false
      → (drain digest q h).hasher ≡ absorb h q
  unfolding drain
  drain_whole [] h e = refl
  drain_whole (copied c ∷ q) h e = drain_whole q (digest.update h c) e
  drain_whole (failed ∷ q) h e = cc

  -- Feeding the chunks one by one is feeding their bytes.
  pub absorb-copies :
      {E : Type 0} (h : digest.Hasher) (given : Payload E)
      → absorb h (copies given) ≡ digest.update h (contents given)
  absorb-copies h [] = sym (digest.update_nil h)
  absorb-copies h (wait ∷ given) = absorb-copies h given
  absorb-copies h (chunk c ∷ given) =
      absorb-copies (digest.update h c) given ∙ digest.update_append h c (contents given)
  absorb-copies h (fail e ∷ given) = absorb-copies h given
