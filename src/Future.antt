-- ===== src/Future.antt =====
-- Futures: their states, a poll of each, and what they come to.
use actix_web_lab.Payload.{Step, waits, returns, panics}
use actix_web_lab.Common.{ℕ, ◌≡◌, ◌≢◌, ap, suc, ◌∙◌, ◌⊎◌, subst, inl, sym, inr, refl}

-- A future: its states, and a poll of it, which may also panic.
pub record Machine (A : Type 0) : Type 1 where
  pub State : Type 0
  pub poll : State → State × Step A

-- After so many polls at which it has nothing, a future comes to this: a value or a panic.
pub data Settles {A : Type 0} (m : Machine A) : m.State → ℕ → Step A → Type 0 where
  at_once : {s : m.State} {r : Step A} → (m.poll s).1 ≡ r → r ≢ waits → Settles m s 0 r
  later :
      {s : m.State} {n : ℕ} {r : Step A}
      → (m.poll s).1 ≡ waits
      → Settles m (m.poll s).0 n r
      → Settles m s (suc n) r

-- Only the poll of a state counts.
pub Settles-alike :
    {A : Type 0} (m : Machine A) {s t : m.State} {n : ℕ} {r : Step A}
    → m.poll t ≡ m.poll s
    → Settles m s n r
    → Settles m t n r
Settles-alike m e (at_once h ne) = at_once (ap (λ p. p.1) e ∙ h) ne
Settles-alike m {n = suc n} {r = r} e (later h rest) =
    later (ap (λ p. p.1) e ∙ h) (subst (λ s. Settles m s n r) (sym (ap (λ p. p.0) e)) rest)

pub Step-cases : {A : Type 0} (r : Step A) → (r ≡ waits) ⊎ (r ≢ waits)
Step-cases waits = inl refl
Step-cases panics = inr (λ e. cc)
Step-cases (returns a) = inr (λ e. cc)
