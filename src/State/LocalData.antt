-- ===== src/State/LocalData.antt =====
-- actix-web-lab/src/local_data.rs: a value behind a counted reference, whose clones are the same value.
use actix_web_lab.Common.{Option, Result, err, some, ok, none}

pub record LocalData (T : Type 0) : Type 0 where
  pub rc : T

unfoldable pub new : {T : Type 0} → T → LocalData T
new item = record { rc = item }

unfoldable pub deref : {T : Type 0} → LocalData T → T
deref handle = handle.rc

unfoldable pub clone : {T : Type 0} → LocalData T → LocalData T
clone handle = record { rc = handle.rc }

-- `internal` is `ErrorInternalServerError` with its message.
unfoldable pub from_request :
    {T Error : Type 0} → Error → Option (LocalData T) → Result Error (LocalData T)
from_request internal none = err internal
from_request internal (some st) = ok (clone st)
