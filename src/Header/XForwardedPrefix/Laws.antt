-- ===== src/Header/XForwardedPrefix/Laws.antt =====
-- Round trip of x_forwarded_prefix.rs.
use actix_web_lab.Common.{ok, ok}
use actix_web_lab.Text.{Text}
