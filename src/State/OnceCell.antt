-- ===== src/State/OnceCell.antt =====
-- What lazy_data.rs uses of tokio's OnceCell, as an interface: of the calls of `get_or_init` that find no
-- value, one at a time is granted the initialisation; where that one is dropped or panics, the cell stays
-- empty and another one may be granted it. Calls have numbers.
use actix_web_lab.Common.{
  ℕ, Option, none, some, ◌≡◌, ◌≢◌, refl, ap, if◌then◌else◌, ◌==◌, ◌∙◌, if_holds, Bool-cases, inl,
  inr, arith,
}

-- What a poll of a call finds: the value, that the initialisation is its own to run, or another's.
pub data Found (T : Type 0) : Type 0 where
  full : T → Found T
  granted busy : Found T

pub record OnceCell (T : Type 0) : Type 1 where
  pub Cell : Type 0
  pub new : Cell
  pub enter : ℕ → Cell → Cell × Found T
  -- the granted call ended with this value
  pub fill : T → Cell → Cell
  -- a call was dropped, or panicked
  pub leave : ℕ → Cell → Cell
  pub value : Cell → Option T
  pub holder : Cell → Option ℕ
  pub new_empty : (value new ≡ none) × (holder new ≡ none)
  pub enter_value : (i : ℕ) (c : Cell) → value (enter i c).0 ≡ value c
  pub enter_full : (i : ℕ) (c : Cell) {v : T} → (enter i c).1 ≡ full v → value c ≡ some v
  pub enter_granted : (i : ℕ) (c : Cell) → (enter i c).1 ≡ granted → holder (enter i c).0 ≡ some i
  pub enter_free : (i : ℕ) (c : Cell) → value c ≡ none → holder c ≡ none → (enter i c).1 ≡ granted
  pub enter_taken :
      (i j : ℕ) (c : Cell) → value c ≡ none → holder c ≡ some j → j ≢ i → (enter i c).1 ≡ busy
  pub fill_value : (v : T) (c : Cell) → value (fill v c) ≡ some v
  pub leave_value : (i : ℕ) (c : Cell) → value (leave i c) ≡ value c

-- A cell as a value and a permit
pub record Once (T : Type 0) : Type 0 where
  pub content : Option T
  pub permit : Option ℕ

abbrev pub once_leave : ℕ → Option ℕ → Option ℕ
once_leave i none = none
once_leave i (some j) = if j == i then none else some j

module _ {T : Type 0} where
  abbrev pub once_enter : ℕ → Option T → Option ℕ → Once T × Found T
  once_enter i (some v) p = (record { content = some v; permit = p }, full v)
  once_enter i none none = (record { content = none; permit = some i }, granted)
  once_enter i none (some j) =
      (record { content = none; permit = some j }, if j == i then granted else busy)

  pub once_enter-content : (i : ℕ) (o : Option T) (p : Option ℕ) → (once_enter i o p).0.content ≡ o
  once_enter-content i (some v) p = refl
  once_enter-content i none none = refl
  once_enter-content i none (some j) = refl

  pub once_enter-full :
      (i : ℕ) (o : Option T) (p : Option ℕ) {v : T} → (once_enter i o p).1 ≡ full v → o ≡ some v
  once_enter-full i (some w) p h = cc
  once_enter-full i none none h = cc
  once_enter-full i none (some j) {v} h =
      absurd (if_holds (λ f. f ≢ full v) (j == i) (λ e k. cc) (λ e k. cc) h)

  busy_differs : ◌≢◌ {A = Found T} busy granted
  busy_differs e = cc

  pub once_enter-granted :
      (i : ℕ) (o : Option T) (p : Option ℕ)
      → (once_enter i o p).1 ≡ granted
      → (once_enter i o p).0.permit ≡ some i
  once_enter-granted i (some v) p h = cc
  once_enter-granted i none none h = refl
  once_enter-granted i none (some j) h = elim (Bool-cases (j == i)) [
    | inl same ↦ ap some (ground arith)
    | inr other ↦ absurd (busy_differs (rw other at h))
  ]

  pub once_busy : (i j : ℕ) → j ≢ i → (once_enter i none (some j)).1 ≡ busy
  once_busy i j ne = elim (Bool-cases (j == i)) [
    | inl same ↦ absurd (ne (ground arith))
    | inr other ↦ rw other refl
  ]

  abbrev pub once : OnceCell T
  once = record {
    Cell = Once T;
    new = record { content = none; permit = none };
    enter = λ i c. once_enter i c.content c.permit;
    fill = λ v c. record { content = some v; permit = none };
    leave = λ i c. record c { permit = once_leave i c.permit };
    value = λ c. c.content;
    holder = λ c. c.permit;
    new_empty = (refl, refl);
    enter_value = λ i c. once_enter-content i c.content c.permit;
    enter_full = λ i c h. once_enter-full i c.content c.permit h;
    enter_granted = λ i c h. once_enter-granted i c.content c.permit h;
    enter_free =
        λ i c h k. ap (λ o. (once_enter i o c.permit).1) h ∙ ap (λ p. (once_enter i none p).1) k;
    enter_taken = λ i j c h k ne.
        ap (λ o. (once_enter i o c.permit).1) h
        ∙ ap (λ p. (once_enter i none p).1) k
        ∙ once_busy i j ne;
    fill_value = λ v c. refl;
    leave_value = λ i c. refl;
  }
