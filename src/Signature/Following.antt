-- ===== src/Signature/Following.antt =====
-- What holds between the task of request_signature.rs, the channel and the stream.
use actix_web_lab.Signature.Channel.{Inner, Tap}
use actix_web_lab.Signature.Folding.{signed, chunks, Sends, fold, sign, chunks-append, fold-append}
use actix_web_lab.Payload.{Payload, Step, returns, waits, panics}
use actix_web_lab.Signature.{
  Scheme, TaskOf, Joining, Out, Turned, digesting, signature, finished, extractor,
}
use actix_web_lab.Common.{
  Option, ◌≡◌, ok, ◌++◌, false, err, ◌∙◌, some, true, none, [], ap, Result, refl, append-nil, sym,
}

module _ (scheme : Scheme) {E Error : Type 0} (x : Inner E Error) (payload : Payload E) where
  -- What the task has folded, and what `try_join!` has of it, once the stream has given these turns.
  abbrev pub TaskFollows : Payload E → TaskOf scheme x → Option scheme.Signature → Tap E → Type 0
  TaskFollows given (digesting s) none f =
      (f.closed ≡ false) × (fold scheme (ok s) f.queue ≡ fold scheme scheme.init (chunks given))
  TaskFollows given (digesting s) (some sg) f = ⊥
  TaskFollows given (finished r) none f = (f.closed ≡ true) × (sign scheme (chunks given) ≡ r)
  TaskFollows given (finished r) (some s) f =
      (f.closed ≡ true) × (sign scheme (chunks given) ≡ r) × (r ≡ ok s)

  pub record Follows (j : Joining scheme x) : Type 0 where
    pub given : Payload E
    pub orig : payload ≡ given ++ j.tap.orig
    pub calm : j.tap.panicked ≡ false
    pub folded : TaskFollows given j.task_state j.hash_done j.tap

  -- The result is what the scheme makes of the chunks that the stream has given.
  abbrev pub IsSigned : Payload E → Out scheme x → Type 0
  IsSigned given (ok r) = signed scheme (chunks given) ≡ ok r.signature
  IsSigned given (err (signature e)) = signed scheme (chunks given) ≡ err e
  IsSigned given (err (extractor e)) = Unit

  -- `rest` is what the stream has still to give.
  abbrev pub Refines : (rest : Payload E) → Step (Out scheme x) → Type 0
  Refines rest waits = Unit
  Refines rest panics = Unit
  Refines rest (returns r) = (given : Payload E) × (payload ≡ given ++ rest) × IsSigned given r

  abbrev pub Keeps : Turned scheme x → Type 0
  Keeps (j, waits) = Follows j
  Keeps (j, panics) = Unit
  Keeps (j, returns r) = Refines j.tap.orig (returns r)

  pub no_chunks :
      (given later : Payload E) → chunks later ≡ [] → chunks (given ++ later) ≡ chunks given
  no_chunks given later none_later =
      chunks-append given later
      ∙ ap (λ cs. chunks given ++ cs) none_later
      ∙ append-nil (chunks given)

  pub TaskFollows-Sends :
      (given : Payload E) (t : TaskOf scheme x) (o : Option scheme.Signature) {f g : Tap E}
      (s : Sends f g)
      → g.panicked ≡ false
      → TaskFollows given t o f
      → TaskFollows (given ++ s.given) t o g
  TaskFollows-Sends given (digesting st) none {f = f} s q (open_end, k) = (
    s.closed ∙ open_end,
    ap (fold scheme (ok st)) (s.queue open_end)
        ∙ fold-append scheme (ok st) f.queue (chunks s.given)
        ∙ ap (λ r. fold scheme r (chunks s.given)) k
        ∙ sym (fold-append scheme scheme.init (chunks given) (chunks s.given))
        ∙ ap (fold scheme scheme.init) (sym (chunks-append given s.given)),
  )
  TaskFollows-Sends given (digesting st) (some sg) s q h = absurd h
  TaskFollows-Sends given (finished r) none s q (shut, k) =
      (s.closed ∙ shut, ap (sign scheme) (no_chunks given s.given (s.still shut q)) ∙ k)
  TaskFollows-Sends given (finished r) (some sg) s q (shut, k, same) =
      (s.closed ∙ shut, ap (sign scheme) (no_chunks given s.given (s.still shut q)) ∙ k, same)

  pub digesting-inverts :
      (given : Payload E) (s : scheme.State) (o : Option scheme.Signature) (f : Tap E)
      → TaskFollows given (digesting s) o f
      → (o ≡ none)
        × (f.closed ≡ false)
        × (fold scheme (ok s) f.queue ≡ fold scheme scheme.init (chunks given))
  digesting-inverts given s none f (open_end, k) = (refl, open_end, k)
  digesting-inverts given s (some sg) f h = absurd h

  pub taken-inverts :
      (given : Payload E) (t : TaskOf scheme x) {s : scheme.Signature} (f : Tap E)
      → TaskFollows given t (some s) f
      → sign scheme (chunks given) ≡ ok s
  taken-inverts given (digesting st) f h = absurd h
  taken-inverts given (finished r) f (shut, k, same) = k ∙ same

  pub finished-inverts :
      (given : Payload E) {r : Result scheme.Error scheme.Signature} (o : Option scheme.Signature)
      (f : Tap E)
      → TaskFollows given (finished r) o f
      → (f.closed ≡ true) × (sign scheme (chunks given) ≡ r)
  finished-inverts given none f h = h
  finished-inverts given (some sg) f (shut, k, same) = (shut, k)
