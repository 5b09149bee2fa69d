-- ===== src/State/LazyData/Sharing.antt =====
-- What holds of a lazy value of lazy_data.rs at any time, and that a poll of its initialisation keeps it.
use actix_web_lab.Payload.{Step, returns, panics, waits}
use actix_web_lab.Future.{Machine, Settles, later, at_once}
use actix_web_lab.State.OnceCell.{OnceCell}
use actix_web_lab.State.LazyData.{Lazy, run_init, poll_init}
use actix_web_lab.Common.{
  List, Option, ℕ, zero, suc, none, some, OptionAll, ◌∷◌, ◌++◌, ◌≡◌, [], ap, subst, sym, refl, ◌∙◌,
}

module _ {T : Type 0} (once : OnceCell T) (init_fut : Machine T) (init : init_fut.State) where
  -- The first so many states of a run of the initialisation from one of its states, and the next one.
  abbrev pub states : ℕ → init_fut.State → List init_fut.State
  states zero s = []
  states (suc n) s = s ∷ states n (init_fut.poll s).0

  abbrev pub state_after : ℕ → init_fut.State → init_fut.State
  state_after zero s = s
  state_after (suc n) s = state_after n (init_fut.poll s).0

  pub states_more :
      (n : ℕ) (s : init_fut.State) → states (suc n) s ≡ states n s ++ state_after n s ∷ []
  states_more zero s = refl
  states_more (suc n) s = ap (λ ss. s ∷ ss) (states_more n (init_fut.poll s).0)

  pub state_after_more :
      (n : ℕ) (s : init_fut.State) → state_after (suc n) s ≡ (init_fut.poll (state_after n s)).0
  state_after_more zero s = refl
  state_after_more (suc n) s = state_after_more n (init_fut.poll s).0

  -- Where the initialisation is at this state, what it comes to from there is what it comes to.
  pub record Reached (s : init_fut.State) : Type 0 where
    pub settles :
        (n : ℕ) (r : Step T) → Settles init_fut s n r → (m : ℕ) × Settles init_fut init m r

  -- What a get may come to: nothing for now, a panic, or the value of the initialisation.
  abbrev pub IsInit : Step T → Type 0
  IsInit waits = Unit
  IsInit panics = Unit
  IsInit (returns v) = (n : ℕ) × Settles init_fut init n (returns v)

  -- The future that may still be taken is the initialisation at its start, which was not polled yet.
  abbrev pub Untaken : ℕ → Option init_fut.State → Type 0
  Untaken n none = Unit
  Untaken n (some s) = (n ≡ 0) × (s ≡ init)

  -- The future that was taken is where the polls so far have led.
  abbrev pub Taken : ℕ → Option (ℕ × init_fut.State) → Option init_fut.State → Type 0
  Taken n none fut = Unit
  Taken n (some (i, s)) fut = (fut ≡ none) × (s ≡ state_after n init) × Reached s

  pub record IsShared (l : Lazy once init_fut init) : Type 0 where
    pub value : OptionAll (λ v. IsInit (returns v)) (once.value l.cell)
    pub polls : ℕ
    pub one_run : l.polled ≡ states polls init
    pub untaken : Untaken polls l.fut
    pub taken : Taken polls l.running l.fut

  abbrev pub Shares : Lazy once init_fut init × Step T → Type 0
  Shares (l, r) = IsShared l × IsInit r

  pub run_init-Shares :
      (i n : ℕ) (s : init_fut.State) (polled : init_fut.State × Step T)
      (l : Lazy once init_fut init)
      → init_fut.poll s ≡ polled
      → Reached s
      → s ≡ state_after n init
      → l.fut ≡ none
      → l.polled ≡ states (suc n) init
      → OptionAll (λ v. IsInit (returns v)) (once.value l.cell)
      → Shares (run_init once init_fut init i polled l)
  run_init-Shares i n s (s', waits) l at reached here gone run v = (
    record {
      value = v;
      polls = suc n;
      one_run = run;
      untaken = rw gone tt;
      taken = (
        gone,
        ap (λ p. p.0) (sym at) ∙ ap (λ q. (init_fut.poll q).0) here ∙ sym (state_after_more n init),
        record {
          settles = λ m r k. reached.settles (suc m) r (
              later (ap (λ p. p.1) at)
                (subst (λ s. Settles init_fut s m r) (sym (ap (λ p. p.0) at)) k));
        },
      );
    },
    tt,
  )
  run_init-Shares i n s (s', panics) l at reached here gone run v = (
    record {
      value = rw (once.leave_value i l.cell) v;
      polls = suc n;
      one_run = run;
      untaken = rw gone tt;
      taken = tt;
    },
    tt,
  )
  run_init-Shares i n s (s', returns x) l at reached here gone run v =
      let is_init = reached.settles 0 (returns x) (at_once (ap (λ p. p.1) at) (λ e. cc)) in
      (
        record {
          value = rw (once.fill_value x l.cell) is_init;
          polls = suc n;
          one_run = run;
          untaken = rw gone tt;
          taken = tt;
        },
        is_init,
      )

  pub poll_init-Shares :
      (i n : ℕ) (s : init_fut.State) (l : Lazy once init_fut init)
      → Reached s
      → s ≡ state_after n init
      → l.fut ≡ none
      → l.polled ≡ states n init
      → OptionAll (λ v. IsInit (returns v)) (once.value l.cell)
      → Shares (poll_init once init_fut init i s l)
  poll_init-Shares i n s l reached here gone run v =
      run_init-Shares i n s (init_fut.poll s) (record l { polled = l.polled ++ s ∷ [] }) refl
        reached here gone
        (ap (λ ss. ss ++ s ∷ []) run
          ∙ ap (λ q. states n init ++ q ∷ []) here
          ∙ sym (states_more n init))
        v
