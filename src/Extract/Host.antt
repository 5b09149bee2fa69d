-- ===== src/Extract/Host.antt =====
-- actix-web-lab/src/host.rs: the host of the connection info.
use actix_web_lab.Text.{Text}
use actix_web_lab.Middleware.Redirects.{Request}
use actix_web_lab.Common.{Result, ok}

pub record Host : Type 0 where
  pub into_inner : Text

unfoldable pub from_request : Request → Result ⊥ Host
from_request req = ok (record { into_inner = req.host })
