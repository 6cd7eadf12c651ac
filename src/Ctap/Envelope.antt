-- ===== src/Ctap/Envelope.antt =====
-- The `Sequence` machine (crates/canokey-ctap/src/lib.rs) as the program it stands for.
use libcanokey.Prelude.{
  ℕ, zero, suc, ◌+◌, ◌≤◌, ◌<◌, ◌≡◌, refl, sym, ap, ◌∙◌, Bool-cases, inl, inr, true, false, List, [],
  ◌∷◌, Option, none, some, length, if◌then◌else◌, arith,
}
use libcanokey.Error.{Result, ok, err, status, ◌>>=◌}
use libcanokey.Apdu.{is_success}
use libcanokey.Conversation.{LogicalCommand, ResponseData}
use libcanokey.Operation.{Action}
use libcanokey.Ctap.{Request, Sequence, next_request, send, parse_last, check_phase, sequence}

-- A run of a machine with a card: the card afterwards, and the result if there is one within so
-- many steps.
module _ {C S T : Type 0} (card : C → LogicalCommand → C × ResponseData)
    (next : S → Option ResponseData → S × Result (Action T)) where
  unfoldable pub run : ℕ → S → Option ResponseData → C → C × Option (Result T)
  run zero s r c = (c, none)
  run (suc k) s r c = elim (next s r).1 [
    | err e ↦ (c, some (err e))
    | ok (Action.done v) ↦ (c, some (ok v))
    | ok (Action.command x) ↦ run k (next s r).0 (some (card c x).1) (card c x).0
  ]

  -- A step whose answer is known.
  run_step :
      (k : ℕ) (s : S) (r : Option ResponseData) (c : C) (p : S × Result (Action T))
      → next s r ≡ p
      → run (suc k) s r c ≡ elim p.1 [
        | err e ↦ (c, some (err e))
        | ok (Action.done v) ↦ (c, some (ok v))
        | ok (Action.command x) ↦ run k p.0 (some (card c x).1) (card c x).0
      ]
  unfolding run
  run_step k s r c p e =
      ap
        (λ (p : S × Result (Action T)). elim p.1 [
          | err e ↦ (c, some (err e))
          | ok (Action.done v) ↦ (c, some (ok v))
          | ok (Action.command x) ↦ run k p.0 (some (card c x).1) (card c x).0
        ])
        e

module _ {C T : Type 0} (card : C → LogicalCommand → C × ResponseData)
    (parse : ResponseData → Result T) where
  -- The requests one after the other, the last response parsed and every other one a success or
  -- the error of its request's phase.
  unfoldable pub direct : Request → List Request → C → C × Option (Result T)
  direct q [] c = ((card c q.command).0, some (parse (card c q.command).1))
  direct q (q' ∷ qs) c =
      let rest = direct q' qs (card c q.command).0 in
      if is_success (card c q.command).1.status
      then rest
      else ((card c q.command).0, some (err (status (card c q.command).1.status q.phase none)))

  direct_last :
      (q : Request) (c : C)
      → direct q [] c ≡ ((card c q.command).0, some (parse (card c q.command).1))
  unfolding direct
  direct_last q c = refl

  direct_good :
      (q q' : Request) (qs : List Request) (c : C)
      → is_success (card c q.command).1.status ≡ true
      → direct q (q' ∷ qs) c ≡ direct q' qs (card c q.command).0
  unfolding direct
  direct_good q q' qs c e = rw (direct, e) refl

  direct_bad :
      (q q' : Request) (qs : List Request) (c : C)
      → is_success (card c q.command).1.status ≡ false
      → direct q (q' ∷ qs) c
        ≡ ((card c q.command).0, some (err (status (card c q.command).1.status q.phase none)))
  unfolding direct
  direct_bad q q' qs c e = rw (direct, e) refl

  done_with :
      (k : ℕ) (s : Sequence T) (r : ResponseData) (c : C) (s' : Sequence T) (out : Result T)
      → next_request s (some r) ≡ (s', (do v ← out; ok (Action.done v)))
      → run card next_request (suc k) s (some r) c ≡ (c, some out)
  done_with k s r c s' (ok v) e = run_step card next_request k s (some r) c _ e
  done_with k s r c s' (err x) e = run_step card next_request k s (some r) c _ e

  -- The state after a request is sent.
  abbrev waiting : Request → List Request → Sequence T
  waiting q qs = record { pending = qs; current = some q.phase; parse = some parse }

  next_last :
      (q : Request) (r : ResponseData)
      → next_request (waiting q []) (some r)
        ≡ (record (waiting q []) { parse = none }, (do v ← parse r; ok (Action.done v)))
  unfolding next_request parse_last
  next_last q r = refl

  next_good :
      (q q' : Request) (qs : List Request) (r : ResponseData)
      → is_success r.status ≡ true
      → next_request (waiting q (q' ∷ qs)) (some r)
        ≡ (waiting q' qs, ok (Action.command q'.command))
  unfolding next_request check_phase send
  next_good q q' qs r e = rw e refl

  next_bad :
      (q q' : Request) (qs : List Request) (r : ResponseData)
      → is_success r.status ≡ false
      → next_request (waiting q (q' ∷ qs)) (some r)
        ≡ (waiting q (q' ∷ qs), err (status r.status q.phase none))
  unfolding next_request check_phase
  next_bad q q' qs r e = rw e refl

  from_answer :
      (qs : List Request) (k : ℕ) (q : Request) (c : C)
      → length qs < k
      → run card next_request k
          (record { pending = qs; current = some q.phase; parse = some parse })
          (some (card c q.command).1)
          (card c q.command).0
        ≡ direct q qs c
  from_answer qs zero q c h = absurd (omega arith)
  from_answer [] (suc k) q c h =
      done_with k _ _ _ _ _ (next_last q (card c q.command).1) ∙ sym (direct_last q c)
  from_answer (q' ∷ qs) (suc k) q c h = elim (Bool-cases (is_success (card c q.command).1.status)) [
    | inl good ↦
        run_step card next_request k _ _ _ _ (next_good q q' qs _ good)
        ∙ from_answer qs k q' (card c q.command).0 (omega arith)
        ∙ sym (direct_good q q' qs c good)
    | inr bad ↦
        run_step card next_request k _ _ _ _ (next_bad q q' qs _ bad)
        ∙ sym (direct_bad q q' qs c bad)
  ]

  -- With any card and any nonempty queue of requests the machine behaves as the straight-line
  -- program: it sends the requests in order, stops at the first response that is not a success
  -- with that status as the error of the request's phase, and otherwise gives what the parser
  -- makes of the last response. It is done after one more step than there are requests.
  pub run-sequence :
      (q : Request) (qs : List Request) (k : ℕ) (c : C)
      → length qs + 2 ≤ k
      → run card next_request k (sequence (q ∷ qs) parse) none c ≡ direct q qs c
  unfolding run next_request send
  run-sequence q qs zero c h = absurd (omega arith)
  run-sequence q qs (suc k) c h = from_answer qs k q c (omega arith)
