-- ===== src/Middleware/Wrappers/Sequence/Laws.antt =====
-- A future in two parts comes to what the parts come to in turn.
use actix_web_lab.Middleware.Wrappers.Sequence.{
  Sequence, ends, goes, Composed, Next, Continues, by_first, by_second, waits,
}
use actix_web_lab.Future.{Machine, Settles, at_once, later, Step-cases, Settles-alike}
use actix_web_lab.Payload.{Step}
use actix_web_lab.Common.{ℕ, ◌≡◌, ◌≢◌, ◌+◌, ap, inl, subst, sym, ◌∙◌, inr, refl, arith, suc, ◌↔◌}

zero_plus : (k : ℕ) → k ≡ 0 + k
zero_plus k = omega arith

suc_plus : (n k : ℕ) → suc (n + k) ≡ suc n + k
suc_plus n k = omega arith

module _ {A B C Kept : Type 0} {first : Machine A} {second : Machine C} {whole : Machine B}
    (q : Sequence first second whole Kept) where
  second-Settles :
      (kept : Kept) {t : second.State} {k : ℕ} {r : Step C}
      → Settles second t k r
      → Settles whole (q.into_second kept t) k (q.convert kept r)
  second-Settles kept (at_once {s = t} {r = r} h ne) =
      at_once (q.second_ends kept t r h ne) (q.convert_ends kept r ne)
  second-Settles kept (later {s = t} {n = n} {r = r} h rest) =
      let polled = q.second_waits kept t h in
      later (ap (λ p. p.1) polled) (
        subst (λ w. Settles whole w n (q.convert kept r)) (sym (ap (λ p. p.0) polled))
          (second-Settles kept rest))

  second-Settles_inverse :
      (kept : Kept) {w : whole.State} {k : ℕ} {out : Step B}
      → Settles whole w k out
      → (t : second.State) → w ≡ q.into_second kept t
      → (r : Step C) × Settles second t k r × (out ≡ q.convert kept r)
  second-Settles_inverse kept (at_once {s = w} h ne) t at = elim (Step-cases (second.poll t).1) [
    | inl idle ↦
        absurd
          (ne (sym h ∙ ap (λ w. (whole.poll w).1) at ∙ ap (λ p. p.1) (q.second_waits kept t idle)))
    | inr done ↦ (
      (second.poll t).1,
      at_once refl done,
      sym h ∙ ap (λ w. (whole.poll w).1) at ∙ q.second_ends kept t (second.poll t).1 refl done,
    )
  ]
  second-Settles_inverse kept (later {s = w} h rest) t at = elim (Step-cases (second.poll t).1) [
    | inl idle ↦
        let polled = ap whole.poll at ∙ q.second_waits kept t idle in
        let (r, ih, same) =
          second-Settles_inverse kept rest (second.poll t).0 (ap (λ p. p.0) polled) in
        (r, later idle ih, same)
    | inr done ↦
        let polled =
          ap (λ w. (whole.poll w).1) at ∙ q.second_ends kept t (second.poll t).1 refl done in
        absurd (q.convert_ends kept (second.poll t).1 done (sym polled ∙ h))
  ]

  by_first-Settles :
      {s : first.State} {n : ℕ} {r : Step A} {out : Step B}
      → Settles first s n r
      → q.after r ≡ ends out
      → Settles whole (q.into_first s) n out
  by_first-Settles (at_once {s = s} {r = r} h ne) e =
      let (now, ne') =
        subst (Continues whole q.into_second (q.into_first s)) e (q.first_ends s r h ne) in
      at_once now ne'
  by_first-Settles {out = out} (later {s = s} {n = n} h rest) e =
      let polled = q.first_waits s h in
      later (ap (λ p. p.1) polled)
        (subst (λ w. Settles whole w n out) (sym (ap (λ p. p.0) polled)) (by_first-Settles rest e))

  by_second-Settles :
      {s : first.State} {n k : ℕ} {r : Step A} {out : Step B} {kept : Kept} {t : second.State}
      → Settles first s n r
      → q.after r ≡ goes kept t
      → Settles whole (q.into_second kept t) k out
      → Settles whole (q.into_first s) (n + k) out
  by_second-Settles {k = k} {out = out} (at_once {s = s} {r = r} h ne) e settled =
      let same = subst (Continues whole q.into_second (q.into_first s)) e (q.first_ends s r h ne) in
      subst (λ m. Settles whole (q.into_first s) m out) (zero_plus k)
        (Settles-alike whole same settled)
  by_second-Settles {k = k} {out = out} (later {s = s} {n = n} h rest) e settled =
      let polled = q.first_waits s h in
      let inner =
        subst (λ w. Settles whole w (n + k) out) (sym (ap (λ p. p.0) polled))
          (by_second-Settles rest e settled) in
      subst (λ m. Settles whole (q.into_first s) m out) (suc_plus n k)
        (later (ap (λ p. p.1) polled) inner)

  Composed-Settles :
      {s : first.State} {n : ℕ} {out : Step B}
      → Composed q s n out
      → Settles whole (q.into_first s) n out
  Composed-Settles (by_first h e) = by_first-Settles h e
  Composed-Settles {s = s} {n = m} (by_second {kept = kept} {r' = r'} h e settled sum same) =
      subst (λ out. Settles whole (q.into_first s) m out) (sym same)
        (subst (λ m. Settles whole (q.into_first s) m (q.convert kept r')) (sym sum)
          (by_second-Settles h e (second-Settles kept settled)))

  Composed-later :
      {s : first.State} {n : ℕ} {out : Step B}
      → (first.poll s).1 ≡ waits
      → Composed q (first.poll s).0 n out
      → Composed q s (suc n) out
  Composed-later h (by_first settled e) = by_first (later h settled) e
  Composed-later h (by_second settled e settled' sum same) =
      by_second (later h settled) e settled' (omega (arith, sum)) same

  -- The first future is done in the next poll.
  ends-Composed :
      (s : first.State) {r : Step A} {m : ℕ} {out : Step B} (next : Next B Kept second.State)
      → (first.poll s).1 ≡ r
      → r ≢ waits
      → q.after r ≡ next
      → Continues whole q.into_second (q.into_first s) next
      → Settles whole (q.into_first s) m out
      → Composed q s m out
  ends-Composed s (ends out') h done e (now, ne) (at_once h' ne') =
      by_first (at_once h done) (e ∙ ap ends (sym now ∙ h'))
  ends-Composed s (ends out') h done e (now, ne) (later h' rest) = absurd (ne (sym now ∙ h'))
  ends-Composed s {m = m} (goes kept t) h done e same settled =
      let (r', settled', out_same) =
        second-Settles_inverse kept (Settles-alike whole (sym same) settled) t refl in
      by_second (at_once h done) e settled' (zero_plus m) out_same

  Settles-Composed :
      {w : whole.State} {m : ℕ} {out : Step B}
      → Settles whole w m out
      → (s : first.State) → w ≡ q.into_first s
      → Composed q s m out
  Settles-Composed (at_once {s = w} h ne) s at = elim (Step-cases (first.poll s).1) [
    | inl idle ↦
        absurd (ne (sym h ∙ ap (λ w. (whole.poll w).1) at ∙ ap (λ p. p.1) (q.first_waits s idle)))
    | inr done ↦
        ends-Composed s (q.after (first.poll s).1) refl done refl
          (q.first_ends s (first.poll s).1 refl done)
          (at_once (ap (λ w. (whole.poll w).1) (sym at) ∙ h) ne)
  ]
  Settles-Composed (later {s = w} h rest) s at = elim (Step-cases (first.poll s).1) [
    | inl idle ↦
        let polled = ap whole.poll at ∙ q.first_waits s idle in
        Composed-later idle (Settles-Composed rest (first.poll s).0 (ap (λ p. p.0) polled))
    | inr done ↦
        ends-Composed s (q.after (first.poll s).1) refl done refl
          (q.first_ends s (first.poll s).1 refl done)
          (Settles-alike whole (ap whole.poll (sym at)) (later h rest))
  ]

  -- The whole comes to what the two come to in turn, after the same number of waits, and to nothing
  -- else.
  pub Composed-equals :
      (s : first.State) (n : ℕ) (out : Step B)
      → Composed q s n out ↔ Settles whole (q.into_first s) n out
  Composed-equals s n out = (λ c. Composed-Settles c, λ h. Settles-Composed h s refl)
