-- ===== src/Fork/Tests.antt =====
-- The theorems on forked payloads, with an extractor that reads its payload to the end, one turn of
-- the stream in each of its polls.
use actix_web_lab.Common.{
  true, false, [], ◌∷◌, ◌++◌, append_assoc, append-nil, Option, none, some, Result, ok, Poll,
  pending, ready, ◌≡◌, refl,
}
use actix_web_lab.Text.{text}
use actix_web_lab.Bytes.{Bytes}
use actix_web_lab.Payload.{Payload, chunk, wait, returns}
use actix_web_lab.Fork.{Fork, poll_proxy, fork_request_payload, copied}
use actix_web_lab.Fork.Reads.{Extractor, polls, rests}
use actix_web_lab.Fork.BodyHash
use actix_web_lab.Fork.BodyHash.{Digest}
use actix_web_lab.Fork.BodyHash.Laws.{IsHash, drive-IsHash}
use actix_web_lab.Fork.BodyHash.Completion.{poll-returns}
use actix_web_lab.Fork.BodyLimit
use actix_web_lab.Fork.BodyLimit.{overflow}
use actix_web_lab.Fork.BodyLimit.Laws.{Outcome, drive-Outcome}

abbrev at_end : Poll (Option (Result ⊥ Bytes)) → Poll (Result ⊥ (Unit {0}))
at_end (ready none) = ready (ok tt)
at_end _ = pending

abbrev to_the_end : Extractor ⊥ ⊥
to_the_end = record {
  Future = Unit {0};
  Value = Unit {0};
  poll_future = λ fut f. (fut, ((poll_proxy f).0, at_end (poll_proxy f).1));
  holds_proxy = λ fut. true;
  only_reads = λ fut f. polls rests;
}

-- A digest that keeps all it is fed with.
abbrev keeping : Digest
keeping = record {
  Hasher = Bytes;
  Output = Bytes;
  new = [];
  update = λ h bytes. h ++ bytes;
  finalize = λ h. h;
  update_nil = λ h. append-nil h;
  update_append = λ h a b. append_assoc h a b;
}

abbrev halves : Payload ⊥
halves = chunk (text "ab") ∷ (wait ∷ (chunk (text "cd") ∷ []))

hashed :
    BodyHash.drive keeping to_the_end 4
      (BodyHash.from_request keeping to_the_end (some halves) tt).0
      (BodyHash.from_request keeping to_the_end (some halves) tt).1
    ≡ (
      record { orig = []; queue = []; dropped = true },
      returns (ok (record { inner = tt; hash = text "abcd" })),
    )
unfolding BodyHash.drive BodyHash.from_request BodyHash.poll BodyHash.drain fork_request_payload
    poll_proxy
hashed = refl

drive-IsHash_example :
    IsHash keeping to_the_end halves
      (text "abcd")
      (record { orig = []; queue = []; dropped = true })
drive-IsHash_example = drive-IsHash keeping to_the_end halves 4 tt hashed

abbrev at_the_end : Fork ⊥
at_the_end = record { orig = []; queue = copied (text "cd") ∷ []; dropped = false }

done_there : to_the_end.poll_future tt at_the_end ≡ (tt, (at_the_end, ready (ok tt)))
unfolding poll_proxy
done_there = refl

poll-returns_example :
    (BodyHash.poll keeping to_the_end (BodyHash.inner tt (text "ab")) at_the_end).2
    ≡ returns (ok (record { inner = tt; hash = text "abcd" }))
poll-returns_example =
    poll-returns keeping to_the_end tt tt (text "ab") at_the_end at_the_end tt done_there refl tt

drive-Outcome_example : Outcome 3 to_the_end halves tt (some (record { into_inner = 2 })) (
    BodyLimit.drive 3 to_the_end 4
      (BodyLimit.from_request 3 to_the_end (some (record { into_inner = 2 })) halves tt).0
      (BodyLimit.from_request 3 to_the_end (some (record { into_inner = 2 })) halves tt).1)
drive-Outcome_example = drive-Outcome 3 to_the_end halves tt 4 (some (record { into_inner = 2 })) tt

abbrev finished : Result ⊥ (Unit {0})
finished = ok tt
