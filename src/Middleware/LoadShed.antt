-- ===== src/Middleware/LoadShed.antt =====
-- actix-web-lab/src/load_shed.rs. The inner service and its futures are states with a poll and a
-- call of each.
pub mod Laws
mod Tests
use actix_web_lab.Common.{
  Bool, true, false, if◌then◌else◌, Result, ok, err, Poll, pending, ready, ℕ,
}

pub data Overloaded (E : Type 0) : Type 0 where
  service : E → Overloaded E
  overloaded : Overloaded E

-- `status_code`: service unavailable, for both
unfoldable pub status_code : {E : Type 0} → Overloaded E → ℕ
status_code (service e) = 503
status_code overloaded = 503

pub record LoadShedService (S : Type 0) : Type 0 where
  pub inner : S
  pub is_ready : Bool

unfoldable pub new : {S : Type 0} → S → LoadShedService S
new inner = record { inner = inner; is_ready = false }

-- The state of a `LoadShedFuture`
pub data LoadShedFuture (F : Type 0) : Type 0 where
  called : F → LoadShedFuture F
  shed : LoadShedFuture F

-- `poll_ready` once the inner service has answered: an error returns early.
unfoldable pub polled :
    {S E : Type 0}
    → Poll (Result E (Unit {0}))
    → LoadShedService S
    → LoadShedService S × Poll (Result (Overloaded E) (Unit {0}))
polled (ready (err e)) svc = (svc, ready (err (service e)))
polled (ready (ok u)) svc = (record svc { is_ready = true }, ready (ok tt))
polled pending svc = (record svc { is_ready = false }, ready (ok tt))

unfoldable pub poll_ready :
    {S E : Type 0}
    → (S → S × Poll (Result E (Unit {0})))
    → LoadShedService S
    → LoadShedService S × Poll (Result (Overloaded E) (Unit {0}))
unfolding polled
poll_ready poll_inner svc =
    let (inner', res) = poll_inner svc.inner in polled res (record svc { inner = inner' })

unfoldable pub call :
    {S F Req : Type 0}
    → (Req → S → S × F)
    → Req
    → LoadShedService S
    → LoadShedService S × LoadShedFuture F
call call_inner req svc =
    let (inner', fut) = call_inner req svc.inner in
    if svc.is_ready then (record { inner = inner'; is_ready = false }, called fut) else (svc, shed)

-- `map_err` of what the inner future gives
unfoldable pub map_err : {T E : Type 0} → Poll (Result E T) → Poll (Result (Overloaded E) T)
map_err pending = pending
map_err (ready (ok t)) = ready (ok t)
map_err (ready (err e)) = ready (err (service e))

-- `poll` of a `LoadShedFuture`
unfoldable pub poll_future :
    {F T E : Type 0}
    → (F → F × Poll (Result E T))
    → LoadShedFuture F
    → LoadShedFuture F × Poll (Result (Overloaded E) T)
unfolding map_err
poll_future poll_inner (called fut) = let (fut', res) = poll_inner fut in (called fut', map_err res)
poll_future poll_inner shed = (shed, ready (err overloaded))
