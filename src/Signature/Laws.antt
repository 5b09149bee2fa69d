-- ===== src/Signature/Laws.antt =====
-- The signature of request_signature.rs, whoever is polled when.
use actix_web_lab.Signature.Channel.{Inner, tapped}
use actix_web_lab.Signature.Turns.{then_turn-Refines, turn-Keeps}
use actix_web_lab.Signature.Following.{Follows, Refines}
use actix_web_lab.Signature.Folding.{fold}
use actix_web_lab.Payload.{Payload}
use actix_web_lab.Signature.{
  Scheme, Joining, turn, Turn, take_turns, started, from_request, spawned,
}
use actix_web_lab.Common.{List, ◌≡◌, ok, err, [], ap, Result, refl, sym, ◌>>=◌, ◌∷◌}

module _ (scheme : Scheme) {E Error : Type 0} (x : Inner E Error) (payload : Payload E) where
  take_turns-Refines :
      (turns : List Turn) (j : Joining scheme x)
      → Follows scheme x payload j
      → Refines scheme x payload
          (take_turns scheme x turns j).0.tap.orig
          (take_turns scheme x turns j).1
  unfolding take_turns
  take_turns-Refines [] j h = tt
  take_turns-Refines (t ∷ turns) j h =
      then_turn-Refines scheme x payload (turn scheme x t j) (take_turns scheme x turns)
        (turn-Keeps scheme x payload t j h) (take_turns-Refines turns)

  started-Refines :
      (r : Result scheme.Error scheme.State) (fut : x.Future) (turns : List Turn)
      → scheme.init ≡ r
      → Refines scheme x payload
          (started scheme x payload fut turns r).0
          (started scheme x payload fut turns r).1
  unfolding started spawned tapped
  started-Refines (err e) fut turns at =
      ([], refl, ap (λ r. (fold scheme r [] >>= scheme.finalize) >>= scheme.verify) at)
  started-Refines (ok s) fut turns at =
      take_turns-Refines turns (spawned scheme x s payload fut) (record {
        given = [];
        orig = refl;
        calm = refl;
        folded = (refl, ap (λ r. fold scheme r []) (sym at));
      })

  -- In whatever order the extractor, the task and its handle are polled, and whatever the extractor
  -- does with its proxy: a signature that is given, and a failure of the scheme, is what the
  -- scheme's functions come to one after another on the chunks of all that the stream has given by
  -- then, in order.
  pub from_request-Refines :
      (fut : x.Future) (turns : List Turn)
      → Refines scheme x payload
          (from_request scheme x payload fut turns).0
          (from_request scheme x payload fut turns).1
  unfolding from_request
  from_request-Refines fut turns = started-Refines scheme.init fut turns refl
