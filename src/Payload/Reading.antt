-- ===== src/Payload/Reading.antt =====
-- The shared loop against a description that knows neither waits nor polls.
use actix_web_lab.Common.{
  ℕ, zero, suc, ◌+◌, ◌≤◌, ◌<◌, false, [], ◌∷◌, ◌++◌, Option, ◌≡◌, refl, ap, ◌∙◌, arith, ltb,
  if◌then◌else◌, Result, err, length, length-append, append-nil, append_assoc, inl, inr, Bool-cases,
}
use actix_web_lab.Bytes.{Bytes}
use actix_web_lab.Payload.{
  chunk, fail, wait, Payload, returns, Extraction, reading, read, poll, drive_step, drive,
}

module _ {PayloadError Error T : Type 0} (x : Extraction PayloadError Error T) where
  -- The first thing that goes wrong, or what is made of all the bytes.
  abbrev pub outcome : Payload PayloadError → Bytes → Result Error T
  outcome [] buf = x.decode buf
  outcome (wait ∷ payload) buf = outcome payload buf
  outcome (fail e ∷ payload) buf = err (x.payload_error e)
  outcome (chunk c ∷ payload) buf =
      if ltb x.limit (length buf + length c)
      then err (x.overflow (length buf + length c))
      else outcome payload (buf ++ c)

  -- Where a poll leaves a body that is not done.
  drive-read :
      (n : ℕ) (len : Option ℕ) (payload : Payload PayloadError) (buf : Bytes)
      → length payload ≤ n
      → drive_step x (read x len payload buf) (drive x n) ≡ returns (outcome payload buf)
  unfolding read drive poll
  drive-read n len [] buf h = refl
  drive-read zero len (wait ∷ payload) buf h = absurd (omega arith)
  drive-read (suc n) len (wait ∷ payload) buf h = drive-read n len payload buf (omega arith)
  drive-read n len (fail e ∷ payload) buf h = refl
  drive-read n len (chunk c ∷ payload) buf h =
      elim (Bool-cases (ltb x.limit (length buf + length c))) [
        | inl over ↦ rw over
        | inr fits ↦ rw fits (drive-read n len payload (buf ++ c) (omega arith))
      ]

  -- A body that is polled more often than its payload has turns is done, and its result does not
  -- depend on when the payload made it wait.
  pub drive-outcome :
      (n : ℕ) (len : Option ℕ) (payload : Payload PayloadError) (buf : Bytes)
      → length payload < n
      → drive x n (reading len payload buf) ≡ returns (outcome payload buf)
  unfolding drive poll
  drive-outcome zero len payload buf h = absurd (omega arith)
  drive-outcome (suc n) len payload buf h = drive-read n len payload buf (omega arith)

-- The bytes of a payload, and whether it is free of failures.
abbrev pub contents : {E : Type 0} → Payload E → Bytes
contents [] = []
contents (chunk c ∷ payload) = c ++ contents payload
contents (fail e ∷ payload) = contents payload
contents (wait ∷ payload) = contents payload

abbrev pub IsSound : {E : Type 0} → Payload E → Type 0
IsSound [] = Unit
IsSound (chunk c ∷ payload) = IsSound payload
IsSound (fail e ∷ payload) = ⊥
IsSound (wait ∷ payload) = IsSound payload

module _ {PayloadError Error T : Type 0} (x : Extraction PayloadError Error T) where
  pub outcome_fits :
      (payload : Payload PayloadError) (buf : Bytes)
      → IsSound payload
      → length buf + length (contents payload) ≤ x.limit
      → outcome x payload buf ≡ x.decode (buf ++ contents payload)
  outcome_fits [] buf h k = rw append-nil
  outcome_fits (wait ∷ payload) buf h k = outcome_fits payload buf h k
  outcome_fits (fail e ∷ payload) buf h k = absurd h
  outcome_fits (chunk c ∷ payload) buf h k =
      let sizes = length-append c (contents payload) in
      let more = length-append buf c in
      let within : ltb x.limit (length buf + length c) ≡ false = ground arith in
      rw within (
        outcome_fits payload (buf ++ c) h (ground arith)
        ∙ ap x.decode (append_assoc buf c (contents payload)))

  pub outcome_exceeds :
      (payload : Payload PayloadError) (buf : Bytes)
      → IsSound payload
      → length buf ≤ x.limit
      → x.limit < length buf + length (contents payload)
      → (size : ℕ) × (outcome x payload buf ≡ err (x.overflow size))
        × (x.limit < size)
        × (size ≤ length buf + length (contents payload))
  outcome_exceeds [] buf h k l = absurd (omega arith)
  outcome_exceeds (wait ∷ payload) buf h k l = outcome_exceeds payload buf h k l
  outcome_exceeds (fail e ∷ payload) buf h k l = absurd h
  outcome_exceeds (chunk c ∷ payload) buf h k l =
      let sizes = length-append c (contents payload) in
      let more = length-append buf c in
      elim (Bool-cases (ltb x.limit (length buf + length c))) [
        | inl over ↦ (length buf + length c, rw over, ground arith, ground arith)
        | inr fits ↦
            let (size, same, above, below) =
              outcome_exceeds payload (buf ++ c) h (ground arith) (ground arith) in
            (size, rw fits same, above, ground arith)
      ]

  pub drive-exceeds :
      (n : ℕ) (len : Option ℕ) (payload : Payload PayloadError)
      → IsSound payload
      → length payload < n
      → x.limit < length (contents payload)
      → (size : ℕ) × (drive x n (reading len payload []) ≡ returns (err (x.overflow size)))
        × (x.limit < size)
        × (size ≤ length (contents payload))
  drive-exceeds n len payload h k l =
      let (size, same, above, below) = outcome_exceeds payload [] h (ground arith) (ground arith) in
      (size, drive-outcome x n len payload [] k ∙ ap returns same, above, ground arith)

  pub drive-fits :
      (n : ℕ) (len : Option ℕ) (payload : Payload PayloadError)
      → IsSound payload
      → length payload < n
      → length (contents payload) ≤ x.limit
      → drive x n (reading len payload []) ≡ returns (x.decode (contents payload))
  drive-fits n len payload h k l =
      drive-outcome x n len payload [] k ∙ ap returns (outcome_fits payload [] h (ground arith))

  -- Where the error does not say how much was read, the whole is known.
  pub drive-collects :
      (e : Error)
      → ((size : ℕ) → x.overflow size ≡ e)
      → (n : ℕ) (len : Option ℕ) (payload : Payload PayloadError) → IsSound payload
      → length payload < n
      → drive x n (reading len payload [])
        ≡ returns
            (if ltb x.limit (length (contents payload)) then err e else x.decode (contents payload))
  drive-collects e same n len payload h k =
      elim (Bool-cases (ltb x.limit (length (contents payload)))) [
        | inl over ↦
            let (size, result, above, below) = drive-exceeds n len payload h k (ground arith) in
            rw (over, result, same size) refl
        | inr fits ↦ rw fits (drive-fits n len payload h k (ground arith))
      ]
