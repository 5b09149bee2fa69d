-- ===== src/Text/Joined.antt =====
-- Reading a list back from its parts joined by a separator and a blank.
use actix_web_lab.Common.{
  refl, ◌∙◌, Bool-cases, inl, inr, ◌==◌, ℕ, List, [], ◌∷◌, ◌++◌, ◌≡◌, ◌≢◌, arith, All, All-append,
  append-nil,
}
use actix_web_lab.Text.{Text, join, join_rest}
use actix_web_lab.Text.Split.{cons_head, split, Lacks, split-append, split_of_Lacks}

-- `flat_map`
abbrev pub flat {ℓ κ} : {A : Type ℓ} {B : Type κ} → (A → List B) → List A → List B
flat f [] = []
flat f (x ∷ xs) = f x ++ flat f xs

module _ {ℓ} {B : Type ℓ} (sep : ℕ) (f : Text → List B) (ne : b' ' ≢ sep) (f_nil : f [] ≡ [])
    (f_blank : (s : Text) → f (b' ' ∷ s) ≡ f s) where
  pub flat_blank : (ss : List Text) → flat f (cons_head b' ' ss) ≡ flat f ss
  flat_blank [] = rw (f_blank [], f_nil)
  flat_blank (s ∷ ss) = rw f_blank

  pub split_blank : (s : Text) → split sep (b' ' ∷ s) ≡ cons_head b' ' (split sep s)
  unfolding split
  split_blank s = ground arith

  flat-split_cons :
      (s : Text) (ss : List Text)
      → Lacks sep s
      → All (Lacks sep) ss
      → flat f (split sep (s ++ join_rest (sep ∷ b' ' ∷ []) ss)) ≡ flat f (s ∷ ss)
  flat-split_cons s [] h hs = rw (append-nil s, split_of_Lacks sep s h)
  flat-split_cons s (t ∷ ss) h (k, hs) =
      let rest = t ++ join_rest (sep ∷ b' ' ∷ []) ss in
      rw (
        split-append sep s (b' ' ∷ rest) h,
        split_blank rest,
        flat_blank (split sep rest),
        flat-split_cons t ss k hs,
      )

  -- The parts of a joined text give what the parts give, where no part holds the separator.
  pub flat-split-join :
      (ss : List Text)
      → All (Lacks sep) ss
      → flat f (split sep (join (sep ∷ b' ' ∷ []) ss)) ≡ flat f ss
  unfolding join
  flat-split-join [] hs = unfold split in rw f_nil
  flat-split-join (s ∷ ss) (h, hs) = flat-split_cons s ss h hs

module _ (c : ℕ) (sep : Text) (sep_lacks : Lacks c sep) where
  Lacks-join_rest : (ss : List Text) → All (Lacks c) ss → Lacks c (join_rest sep ss)
  Lacks-join_rest [] hs = tt
  Lacks-join_rest (s ∷ ss) (h, hs) =
      All-append (λ d. d ≢ c) sep (s ++ join_rest sep ss) sep_lacks
        (All-append (λ d. d ≢ c) s (join_rest sep ss) h (Lacks-join_rest ss hs))

  pub Lacks-join : (ss : List Text) → All (Lacks c) ss → Lacks c (join sep ss)
  unfolding join
  Lacks-join [] hs = tt
  Lacks-join (s ∷ ss) (h, hs) =
      All-append (λ d. d ≢ c) s (join_rest sep ss) h (Lacks-join_rest ss hs)

-- `split` and `join` at one character undo each other.
module _ (sep : ℕ) where
  pub split-cons : (s : Text) → (head : Text) × (tail : List Text) × (split sep s ≡ head ∷ tail)
  unfolding split
  split-cons [] = ([], [], refl)
  split-cons (c ∷ s) = elim (Bool-cases (c == sep)) [
    | inl same ↦ ([], split sep s, rw same)
    | inr other ↦ let (head, tail, e) = split-cons s in (c ∷ head, tail, rw (other, e))
  ]

  join-cons_head :
      (c : ℕ) (ss : List Text) (head : Text) (tail : List Text)
      → ss ≡ head ∷ tail
      → join (sep ∷ []) (cons_head c ss) ≡ c ∷ join (sep ∷ []) ss
  unfolding join
  join-cons_head c ss head tail e = rw e

  join-nil_cons :
      (ss : List Text) (head : Text) (tail : List Text)
      → ss ≡ head ∷ tail
      → join (sep ∷ []) ([] ∷ ss) ≡ sep ∷ join (sep ∷ []) ss
  unfolding join
  join-nil_cons ss head tail e = rw e

  pub join-split : (s : Text) → join (sep ∷ []) (split sep s) ≡ s
  unfolding split
  join-split [] = unfold join in refl
  join-split (c ∷ s) =
      let (head, tail, e) = split-cons s in
      elim (Bool-cases (c == sep)) [
        | inl same ↦
            rw same (join-nil_cons (split sep s) head tail e ∙ ground (arith, join-split s))
        | inr other ↦ rw other (join-cons_head c (split sep s) head tail e ∙ rw (join-split s))
      ]

  cons_head-Lacks :
      (c : ℕ) (ss : List Text) → c ≢ sep → All (Lacks sep) ss → All (Lacks sep) (cons_head c ss)
  cons_head-Lacks c [] ne h = ((ne, tt), tt)
  cons_head-Lacks c (s ∷ ss) ne (k, h) = ((ne, k), h)

  pub split-Lacks : (s : Text) → All (Lacks sep) (split sep s)
  unfolding split
  split-Lacks [] = (tt, tt)
  split-Lacks (c ∷ s) = elim (Bool-cases (c == sep)) [
    | inl same ↦ rw same (tt, split-Lacks s)
    | inr other ↦ rw other (cons_head-Lacks c (split sep s) (ground arith) (split-Lacks s))
  ]

  pub split-join :
      (s : Text) (ss : List Text)
      → Lacks sep s
      → All (Lacks sep) ss
      → split sep (join (sep ∷ []) (s ∷ ss)) ≡ s ∷ ss
  unfolding join
  split-join s [] h hs = rw (append-nil s) (split_of_Lacks sep s h)
  split-join s (t ∷ ss) h (k, hs) =
      rw (split-append sep s (t ++ join_rest (sep ∷ []) ss) h, split-join t ss k hs)
