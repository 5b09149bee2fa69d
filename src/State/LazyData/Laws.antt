-- ===== src/State/LazyData/Laws.antt =====
-- What the gets of lazy_data.rs give, and how often the initialisation is run.
use actix_web_lab.State.LazyData.Sharing.{
  states, IsInit, Untaken, Taken, IsShared, Shares, poll_init-Shares,
}
use actix_web_lab.Payload.{returns}
use actix_web_lab.Future.{Machine, Settles}
use actix_web_lab.State.OnceCell.{OnceCell, Found, full, granted, busy}
use actix_web_lab.State.LazyData.{
  Lazy, Event, poll_get, drop_get, new, take_fut, get_running, get_from, get, step, drop_running,
  outputs, left_by,
}
use actix_web_lab.Common.{
  List, Option, ℕ, none, some, OptionAll, ◌∷◌, ◌≡◌, ◌==◌, [], ap, subst, if_holds, All, refl, ◌∙◌,
}

module _ {T : Type 0} (once : OnceCell T) (init_fut : Machine T) (init : init_fut.State) where
  take_fut-Shares :
      (i : ℕ) (o : Option init_fut.State) (l : Lazy once init_fut init)
      → l.fut ≡ o
      → IsShared once init_fut init l
      → Shares once init_fut init (take_fut once init_fut init i o l)
  unfolding take_fut
  take_fut-Shares i none l at h = (
    record {
      value = rw (once.leave_value i l.cell) h.value;
      polls = h.polls;
      one_run = h.one_run;
      untaken = h.untaken;
      taken = h.taken;
    },
    tt,
  )
  take_fut-Shares i (some s) l at h =
      let (unpolled, start) : (h.polls ≡ 0) × (s ≡ init) =
        subst (Untaken once init_fut init h.polls) at h.untaken in
      poll_init-Shares once init_fut init i 0 s (record l { fut = none })
        (record { settles = λ n r k. (n, subst (λ s. Settles init_fut s n r) start k) }) start refl
        (h.one_run ∙ ap (λ n. states once init_fut init n init) unpolled) h.value

  get_running-Shares :
      (i : ℕ) (o : Option (ℕ × init_fut.State)) (l : Lazy once init_fut init)
      → l.running ≡ o
      → IsShared once init_fut init l
      → Shares once init_fut init (get_running once init_fut init i o l)
  get_running-Shares i none l at h = take_fut-Shares i l.fut l refl h
  get_running-Shares i (some (j, s)) l at h =
      let (gone, here, reached) =
        subst (λ o. Taken once init_fut init h.polls o l.fut) at h.taken in
      poll_init-Shares once init_fut init i h.polls s l reached here gone h.one_run h.value

  get_from-Shares :
      (i : ℕ) (found : Found T) (l : Lazy once init_fut init)
      → ((v : T) → found ≡ full v → IsInit once init_fut init (returns v))
      → IsShared once init_fut init l
      → Shares once init_fut init (get_from once init_fut init i found l)
  unfolding get_from
  get_from-Shares i (full v) l is_init h = (h, is_init v refl)
  get_from-Shares i busy l is_init h = (h, tt)
  get_from-Shares i granted l is_init h = get_running-Shares i l.running l refl h

  entered-IsShared :
      (i : ℕ) (l : Lazy once init_fut init)
      → IsShared once init_fut init l
      → IsShared once init_fut init (record l { cell = (once.enter i l.cell).0 })
  entered-IsShared i l h = record {
    value = rw (once.enter_value i l.cell) h.value;
    polls = h.polls;
    one_run = h.one_run;
    untaken = h.untaken;
    taken = h.taken;
  }

  drop_running-Taken :
      (i n : ℕ) (o : Option (ℕ × init_fut.State)) (fut : Option init_fut.State)
      → Taken once init_fut init n o fut
      → Taken once init_fut init n (drop_running once init_fut init i o) fut
  drop_running-Taken i n none fut h = h
  drop_running-Taken i n (some (j, s)) fut h =
      if_holds (λ o. Taken once init_fut init n o fut) (i == j) (λ same. tt) (λ other. h)

  step-Shares :
      (e : Event) (l : Lazy once init_fut init)
      → IsShared once init_fut init l
      → Shares once init_fut init (step once init_fut init e l)
  unfolding step get
  step-Shares (poll_get i) l h =
      get_from-Shares i (once.enter i l.cell).1 (record l { cell = (once.enter i l.cell).0 })
        (λ v found.
          subst (OptionAll (λ v. IsInit once init_fut init (returns v)))
            (once.enter_full i l.cell found) h.value)
        (entered-IsShared i l h)
  step-Shares (drop_get i) l h = (
    record {
      value = rw (once.leave_value i l.cell) h.value;
      polls = h.polls;
      one_run = h.one_run;
      untaken = h.untaken;
      taken = drop_running-Taken i h.polls l.running l.fut h.taken;
    },
    tt,
  )

  outputs-IsInit_from :
      (es : List Event) (l : Lazy once init_fut init)
      → IsShared once init_fut init l
      → All (IsInit once init_fut init) (outputs once init_fut init es l)
        × ((n : ℕ) × ((left_by once init_fut init es l).polled ≡ states once init_fut init n init))
  outputs-IsInit_from [] l h = (tt, (h.polls, h.one_run))
  outputs-IsInit_from (e ∷ es) l h =
      let (shared, is_init) = step-Shares e l h in
      let (all, once_only) = outputs-IsInit_from es (step once init_fut init e l).0 shared in
      ((is_init, all), once_only)

  -- However the gets of all the clones are polled and dropped, each that gives a value gives the one
  -- that the initialisation comes to; and the initialisation was polled in the states once init_fut init of one run of it
  -- from its start, in order: none was polled twice, and it was never started again.
  pub outputs-IsInit :
      (es : List Event)
      → All (IsInit once init_fut init) (outputs once init_fut init es (new once init_fut init))
        × ((n : ℕ) × ((left_by once init_fut init es (new once init_fut init)).polled
              ≡ states once init_fut init n init))
  unfolding new
  outputs-IsInit es = outputs-IsInit_from es (new once init_fut init) (record {
    value = rw (once.new_empty.0) tt;
    polls = 0;
    one_run = refl;
    untaken = (refl, refl);
    taken = tt;
  })
