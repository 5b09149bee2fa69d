-- ===== src/Header/Forwarded/Pairs.antt =====
-- The pairs that `from_str` of forwarded.rs reads in what `try_into_value` writes.
use actix_web_lab.Common.{
  ℕ, false, List, [], ◌∷◌, ◌++◌, map, ◌≡◌, ◌≢◌, refl, ◌∙◌, sym, arith, All, All-append,
  append_assoc,
}
use actix_web_lab.Text.{Text, text, is_whitespace, trim, join}
use actix_web_lab.Text.Joined.{flat, flat_blank, split_blank, flat-split-join}
use actix_web_lab.Text.Split.{split, split_once, Lacks, split_of_Lacks, split_once-append}
use actix_web_lab.Text.Trim.{trim_by, trim_by-append, trim_closed, trim_blank}
use actix_web_lab.Header.Forwarded.{
  Forwarded, is_quote, unquote, pair, pairs, set_named, set_pairs, lower, item,
}

-- What an identifier must satisfy to be written without loss: it holds no separator, and neither
-- begins nor ends with a quote mark.
pub record IsPlain (v : Text) : Type 0 where
  pub no_semicolon : Lacks b';' v
  pub no_comma : Lacks b',' v
  pub no_outer_quotes : trim_by is_quote v ≡ v

abbrev pub marked : Text → Text
marked ident = b'"' ∷ (ident ++ b'"' ∷ [])

pub unquote-marked : (v : Text) → IsPlain v → unquote (marked v) ≡ v
unfolding unquote
unquote-marked v h =
    rw (trim_closed b'"' v b'"' refl refl) (trim_by-append is_quote v b'"' refl ∙ h.no_outer_quotes)

module _ (c : ℕ) (name : Text) (solid : is_whitespace c ≡ false) where
  trim-item : (v : Text) → trim (item (c ∷ name) v) ≡ item (c ∷ name) v
  trim-item v =
      rw (← append_assoc name (b'=' ∷ b'"' ∷ v) (b'"' ∷ []))
        (trim_closed c (name ++ b'=' ∷ b'"' ∷ v) b'"' solid refl)

  pub pair-item :
      (v : Text) → Lacks b'=' (c ∷ name) → pair (item (c ∷ name) v) ≡ (c ∷ name, marked v) ∷ []
  unfolding pair
  pair-item v h = rw (trim-item v, split_once-append b'=' (c ∷ name) (marked v) h)

pub Lacks-item :
    (sep : ℕ) (name v : Text)
    → b'=' ≢ sep
    → b'"' ≢ sep
    → Lacks sep name
    → Lacks sep v
    → Lacks sep (item name v)
Lacks-item sep name v eq quote h k =
    All-append (λ d. d ≢ sep) name (b'=' ∷ marked v) h
      (eq, (quote, All-append (λ d. d ≢ sep) v (b'"' ∷ []) k (quote, tt)))

pair_blank : (s : Text) → pair (b' ' ∷ s) ≡ pair s
unfolding pair
pair_blank s = rw trim_blank

pair_nil : pair [] ≡ []
unfolding pair trim split_once
pair_nil = refl

-- The pairs of one part between semicolons.
abbrev pub part_pairs : Text → List (Text × Text)
part_pairs vals = flat pair (split b',' vals)

part_pairs_nil : part_pairs [] ≡ []
unfolding split
part_pairs_nil = rw pair_nil

part_pairs_blank : (s : Text) → part_pairs (b' ' ∷ s) ≡ part_pairs s
part_pairs_blank s =
    let lemma = flat_blank b',' pair (omega arith) pair_nil pair_blank in
    rw (split_blank b',' pair (omega arith) pair_nil pair_blank s) (lemma (split b',' s))

pub part_pairs-item :
    (c : ℕ) (name v : Text)
    → is_whitespace c ≡ false
    → Lacks b'=' (c ∷ name)
    → Lacks b',' (c ∷ name)
    → IsPlain v
    → part_pairs (item (c ∷ name) v) ≡ (c ∷ name, marked v) ∷ []
part_pairs-item c name v solid h k p = rw (
  split_of_Lacks b',' (item (c ∷ name) v)
      (Lacks-item b',' (c ∷ name) v (omega arith) (omega arith) k p.no_comma),
  pair-item c name solid v h,
)

pub part_pairs-join :
    (items : List Text)
    → All (Lacks b',') items
    → part_pairs (join (text ", ") items) ≡ flat pair items
part_pairs-join items h = flat-split-join b',' pair (omega arith) pair_nil pair_blank items h

pub pairs-join :
    (parts : List Text)
    → All (Lacks b';') parts
    → pairs (join (text "; ") parts) ≡ flat part_pairs parts
unfolding pairs
pairs-join parts h =
    flat-split-join b';' part_pairs (omega arith) part_pairs_nil part_pairs_blank parts h

module _ {B : Type 0} (f : Text → List B) where
  pub flat-append : (xs ys : List Text) → flat f (xs ++ ys) ≡ flat f xs ++ flat f ys
  flat-append [] ys = refl
  flat-append (x ∷ xs) ys =
      rw (flat-append xs ys) (sym (append_assoc (f x) (flat f xs) (flat f ys)))

pub set_pairs-append :
    (f : Forwarded) (ps qs : List (Text × Text))
    → set_pairs f (ps ++ qs) ≡ set_pairs (set_pairs f ps) qs
unfolding set_pairs
set_pairs-append f [] qs = refl
set_pairs-append f ((name, val) ∷ ps) qs =
    set_pairs-append (set_named (map lower (trim name)) val f) ps qs
