-- ===== src/Middleware/Wrappers/Sequence.antt =====
-- Two futures of which the second is made of the result of the first, and polled at once: the shape of
-- the futures of err_handler.rs, middleware_map_response.rs and middleware_map_response_body.rs.
pub mod Laws
use actix_web_lab.Future.{Machine, Settles, at_once, later, Step-cases, Settles-alike}
use actix_web_lab.Payload.{Step, waits}
use actix_web_lab.Common.{ℕ, ◌≡◌, ◌≢◌, ◌+◌, ap, inl, subst, sym, ◌∙◌, inr, refl, arith, suc, ◌↔◌}

-- What becomes of the first future's result: it ends the whole, or a second future takes over, with
-- what is kept for it.
pub data Next (B Kept S : Type 0) : Type 0 where
  ends : Step B → Next B Kept S
  goes : Kept → S → Next B Kept S

-- What follows on a poll of the whole in its first part.
abbrev pub Continues :
    {B Kept S : Type 0} (whole : Machine B)
    → (Kept → S → whole.State)
    → whole.State
    → Next B Kept S
    → Type 0
Continues whole into_second w (ends out) = ((whole.poll w).1 ≡ out) × (out ≢ waits)
Continues whole into_second w (goes kept t) = whole.poll w ≡ whole.poll (into_second kept t)

-- A future that polls the one and then the other, and passes the waits of both on.
pub record Sequence {A B C : Type 0} (first : Machine A) (second : Machine C) (whole : Machine B)
    (Kept : Type 0) : Type 0 where
  pub into_first : first.State → whole.State
  pub into_second : Kept → second.State → whole.State
  pub after : Step A → Next B Kept second.State
  pub convert : Kept → Step C → Step B
  pub first_waits :
      (s : first.State)
      → (first.poll s).1 ≡ waits
      → whole.poll (into_first s) ≡ (into_first (first.poll s).0, waits)
  pub first_ends :
      (s : first.State) (r : Step A)
      → (first.poll s).1 ≡ r
      → r ≢ waits
      → Continues whole into_second (into_first s) (after r)
  pub second_waits :
      (kept : Kept) (t : second.State)
      → (second.poll t).1 ≡ waits
      → whole.poll (into_second kept t) ≡ (into_second kept (second.poll t).0, waits)
  pub second_ends :
      (kept : Kept) (t : second.State) (r : Step C)
      → (second.poll t).1 ≡ r
      → r ≢ waits
      → (whole.poll (into_second kept t)).1 ≡ convert kept r
  pub convert_ends : (kept : Kept) (r : Step C) → r ≢ waits → convert kept r ≢ waits

module _ {A B C Kept : Type 0} {first : Machine A} {second : Machine C} {whole : Machine B}
    (q : Sequence first second whole Kept) where
  -- What the two come to when each is awaited in its turn, with no whole.
  pub data Composed (s : first.State) : ℕ → Step B → Type 0 where
    by_first :
        {n : ℕ} {r : Step A} {out : Step B}
        → Settles first s n r
        → q.after r ≡ ends out
        → Composed s n out
    by_second :
        {n k m : ℕ} {r : Step A} {kept : Kept} {t : second.State} {r' : Step C} {out : Step B}
        → Settles first s n r
        → q.after r ≡ goes kept t
        → Settles second t k r'
        → m ≡ n + k
        → out ≡ q.convert kept r'
        → Composed s m out
