-- ===== src/Payload.antt =====
-- Request payloads as the extractors of actix-web-lab see them, and the loop that bytes.rs, json.rs
-- and url_encoded_form.rs share.
pub mod Reading
pub mod BytesBody
pub mod JsonBody
pub mod FormBody
pub mod Extracting
mod Tests
use actix_web_lab.Common.{
  ℕ, zero, suc, ◌+◌, Bool, true, false, List, [], ◌∷◌, ◌++◌, Option, none, some, ltb, if◌then◌else◌,
  Result, ok, err, length,
}
use actix_web_lab.Bytes.{Bytes}

-- What a payload stream does in its turn: it gives a chunk, fails, or has nothing for now. The
-- list ends where the stream does.
pub data Arrival (PayloadError : Type 0) : Type 0 where
  chunk : Bytes → Arrival PayloadError
  fail : PayloadError → Arrival PayloadError
  wait : Arrival PayloadError

abbrev pub Payload : Type 0 → Type 0
Payload PayloadError = List (Arrival PayloadError)

-- What a poll of a future comes to; `take().unwrap()` of what was taken before panics.
pub data Step (A : Type 0) : Type 0 where
  waits panics : Step A
  returns : A → Step A

-- In what the three extractors differ: the limit, the errors, what is made of the bytes, and what
-- then is left in the buffer.
pub record Extraction (PayloadError Error T : Type 0) : Type 0 where
  pub limit : ℕ
  pub overflow : ℕ → Error
  pub payload_error : PayloadError → Error
  pub decode : Bytes → Result Error T
  pub leave : Bytes → Bytes

pub data Body (PayloadError Error : Type 0) : Type 0 where
  error : Option Error → Body PayloadError Error
  reading : Option ℕ → Payload PayloadError → Bytes → Body PayloadError Error

module _ {PayloadError Error T : Type 0} (x : Extraction PayloadError Error T) where
  -- The loop of `poll`. A sum of two lengths in memory does not wrap.
  unfoldable pub read :
      Option ℕ → Payload PayloadError → Bytes → Body PayloadError Error × Step (Result Error T)
  read len [] buf = (reading len [] (x.leave buf), returns (x.decode buf))
  read len (wait ∷ payload) buf = (reading len payload buf, waits)
  read len (fail e ∷ payload) buf = (reading len payload buf, returns (err (x.payload_error e)))
  read len (chunk c ∷ payload) buf =
      let buf_len = length buf + length c in
      let more = read len payload (buf ++ c) in
      if ltb x.limit buf_len
      then (reading len payload buf, returns (err (x.overflow buf_len)))
      else more

  unfoldable pub poll : Body PayloadError Error → Body PayloadError Error × Step (Result Error T)
  unfolding read
  poll (reading len payload buf) = read len payload buf
  poll (error (some e)) = (error none, returns (err e))
  poll (error none) = (error none, panics)

  -- Polls until the future is done, at most so many.
  abbrev pub drive_step :
      Body PayloadError Error × Step (Result Error T)
      → (Body PayloadError Error → Step (Result Error T))
      → Step (Result Error T)
  drive_step (body, waits) again = again body
  drive_step (body, panics) again = panics
  drive_step (body, returns r) again = returns r

  unfoldable pub drive : ℕ → Body PayloadError Error → Step (Result Error T)
  drive zero body = waits
  drive (suc n) body = drive_step (poll body) (drive n)
