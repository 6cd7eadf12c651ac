-- ===== src/Oath/Authentication.antt =====
-- The mutual authentication of `Oath::next` in crates/canokey-oath/src/execute.rs.
use libcanokey.Prelude.{
  ◌==◌, ◌≡◌, refl, sym, ap, ◌∙◌, inl, inr, Bool, true, false, List, [], ◌∷◌, ◌++◌, Option, none,
  some, arith, Bytes, if◌then◌else◌, Bool-cases, length, not, ◌&&◌, some-injective,
}
use mathlib.Core.Path.{subst}
use libcanokey.Error
use libcanokey.Error.{
  Error, ErrorKind, Phase, at_phase, Result, ok, err, ◌>>=◌, ◌>>◌, >>=-eq-ok, reject-eq-ok, ok_or,
  ok_or-eq-ok, ok-injective, malformed,
}
use libcanokey.Conversation.{LogicalCommand, ResponseData}
use libcanokey.Apdu.{is_success}
use libcanokey.Operation.{Action}
use libcanokey.Compat.Profile.{text_eq}
use libcanokey.Oath.{Access, Selection, Outcome}
use libcanokey.Oath.Fields.{Field, field, fields}
use libcanokey.Oath.Target.{command, select_oath}
use libcanokey.Oath.Response.{read_selection}
use libcanokey.Oath.Machine.{
  Oath, is_select, is_vendor, send_found, send_target, validation, authenticate,
  after_legacy_select, after_modern_select, after_select, dispatch, card_proof, after_validate,
  oath_answer, oath_response, oath_next, has_algorithm_one, keep, Answer, with_le,
}

pub text_eq→≡ : (xs ys : Bytes) → text_eq xs ys ≡ true → xs ≡ ys
unfolding text_eq
text_eq→≡ [] [] e = refl
text_eq→≡ [] (y ∷ ys) e = cc
text_eq→≡ (x ∷ xs) [] e = cc
text_eq→≡ (x ∷ xs) (y ∷ ys) e =
    let head : x ≡ y = ground arith in
    let tail : xs ≡ ys = text_eq→≡ xs ys (ground arith) in rw (head, tail) refl

-- A command that the machine gives out after a response.
abbrev pub Gives : Answer → Oath → LogicalCommand → Type 0
Gives answer s c = answer ≡ ok (s, Action.command c)

send_found-Gives :
    (s s' : Oath) (o : Option LogicalCommand) (c : LogicalCommand)
    → Gives (send_found s o) s' c
    → (o ≡ some c) × (s'.phase ≡ 3)
send_found-Gives s s' none c e = cc
send_found-Gives s s' (some d) c e =
    let both : ◌≡◌ {A = Oath × Action Outcome}
        (record s { phase = 3; target = none }, Action.command d) (s', Action.command c) =
      ok-injective e in
    (ap some (ap command_of (ap (λ p. p.1) both)), sym (ap (λ p. p.0.phase) both))
  where
    command_of : Action Outcome → LogicalCommand
    command_of (Action.command d) = d
    command_of (Action.done o) = c

module _ (hmac : Bytes → Bytes → Bytes) where
  card_proof-field :
      (fs : List Field) (proof : Bytes) → card_proof hmac fs ≡ ok proof → fs ≡ (0x75, proof) ∷ []
  card_proof-field [] proof e = cc
  card_proof-field ((tag, bytes) ∷ []) proof e =
      elim (Bool-cases (tag == 0x75 && length bytes == 20)) [
        | inl is ↦
            let tag_is : tag ≡ 0x75 = ground arith in
            let bytes_are : bytes ≡ proof = ok-injective (rw is at e) in rw (tag_is, bytes_are) refl
        | inr other ↦ absurd (refused (rw other at e))
      ]
    where
      refused : (err malformed ≡ ok proof) → ⊥
      refused h = cc
  card_proof-field (f ∷ g ∷ fs) proof e = cc

  keep-Gives :
      (s s' : Oath) (answer : Answer) (c : LogicalCommand)
      → keep hmac s answer ≡ (s', ok (Action.command c))
      → Gives answer s' c
  keep-Gives s s' (err e) c h = cc
  keep-Gives s s' (ok (t, a)) c h =
      let state : t ≡ s' = ap (λ p. p.0) h in
      let action : a ≡ Action.command c = ok-injective (ap (λ p. p.1) h) in rw (state, action) refl

  -- The reply to VALIDATE: the card has shown that it knows the key.
  after_validate-Gives :
      (s s' : Oath) (body : Bytes) (a : Access) (c : LogicalCommand)
      → s.access ≡ some a
      → Gives (after_validate hmac s body) s' c
      → (fields body ≡ ok ((0x75, hmac a.key a.challenge) ∷ []))
        × (s.target ≡ some c)
        × (s'.phase ≡ 3)
  unfolding after_validate
  after_validate-Gives s s' body a c has e =
      let (fs, read, e1) = >>=-eq-ok (fields body) _ e in
      let (proof, shown, e2) = >>=-eq-ok (card_proof hmac fs) _ e1 in
      let (b, key, e3) = >>=-eq-ok (ok_or s.access malformed) _ e2 in
      let k : some a ≡ some b = sym has ∙ ok_or-eq-ok s.access malformed key in
      let same : a ≡ b = some-injective k in
      let (equal, e4) =
        reject-eq-ok (not (text_eq (hmac b.key b.challenge) proof))
          (at_phase (Error.new ErrorKind.device_authentication_failed) Phase.authentication)
          (send_target (record s { access = none })) e3 in
      let genuine : hmac b.key b.challenge ≡ proof = text_eq→≡ _ _ (ground arith) in
      let (given, later) = send_found-Gives (record s { access = none }) s' s.target c e4 in
      let only : fs ≡ (0x75, proof) ∷ [] = card_proof-field fs proof shown in
      (
        read
            ∙ ap ok (
                only
                ∙ ap (λ x. (0x75, x) ∷ [])
                    (sym genuine ∙ ap (λ (x : Access). hmac x.key x.challenge) (sym same))),
        given,
        later,
      )

  authenticate-Gives :
      (s s' : Oath) (a : Access) (sel : Selection) (challenge : Option Bytes) (c : LogicalCommand)
      → Gives (authenticate hmac s (some a) sel challenge) s' c
      → (nonce : Bytes) × (challenge ≡ some nonce)
        × (c ≡ validation hmac a nonce s.explicit_le)
        × (s' ≡ record s { phase = 2 })
  unfolding authenticate
  authenticate-Gives s s' a sel none c e = cc
  authenticate-Gives s s' a sel (some nonce) c e =
      let (known, e1) = reject-eq-ok (not (has_algorithm_one sel.algorithm)) _ _ e in
      let both = ok-injective e1 in
      (nonce, refl, ap command_of (ap (λ p. p.1) (sym both)), ap (λ p. p.0) (sym both))
    where
      command_of : Action Outcome → LogicalCommand
      command_of (Action.command d) = d
      command_of (Action.done o) = c

  -- The reply to SELECT, with a key: the only command is VALIDATE.
  after_modern_select-Gives :
      (s s' : Oath) (body : Bytes) (a : Access) (c : LogicalCommand)
      → s.access ≡ some a
      → is_vendor s.request ≡ false
      → Gives (after_modern_select hmac s body) s' c
      → (sel : Selection) × (nonce : Bytes) × (read_selection body ≡ ok sel)
        × (sel.challenge ≡ some nonce)
        × (c ≡ validation hmac a nonce s.explicit_le)
        × (s' ≡ record s { phase = 2 })
  unfolding after_modern_select
  after_modern_select-Gives s s' body a c has ours e =
      let (sel, read, e1) = >>=-eq-ok (read_selection body) _ e in
      elim (Bool-cases (is_select s.request)) [
        | inl selects ↦ absurd (refused sel (rw selects at e1))
        | inr other ↦
            let chosen : authenticate hmac s s.access sel sel.challenge
                ≡ ok (s', Action.command c) =
              rw (other, ours) at e1 in
            let chosen' : authenticate hmac s (some a) sel sel.challenge
                ≡ ok (s', Action.command c) =
              subst
                (λ (o : Option Access).
                  authenticate hmac s o sel sel.challenge ≡ ok (s', Action.command c))
                has chosen in
            let (nonce, asks, command_is, state_is) =
              authenticate-Gives s s' a sel sel.challenge c chosen' in
            (sel, nonce, read, asks, command_is, state_is)
      ]
    where
      refused : (sel : Selection) → Gives (ok (s, Action.done (Outcome.selection sel))) s' c → ⊥
      refused sel h = cc

  after_select-modern :
      (s : Oath) (body : Bytes)
      → s.legacy ≡ false
      → after_select hmac s body ≡ after_modern_select hmac s body
  unfolding after_select
  after_select-modern s body modern = chosen s.legacy modern
    where
      chosen :
          (b : Bool)
          → b ≡ false
          → (if b then after_legacy_select s body else after_modern_select hmac s body)
            ≡ after_modern_select hmac s body
      chosen true h = cc
      chosen false h = refl

  -- A response in a phase other than 0 that makes the machine give out a command was successful.
  oath_next-Gives :
      (s s' : Oath) (r : ResponseData) (c : LogicalCommand)
      → (s.phase == 0) ≡ false
      → oath_next hmac s (some r) ≡ (s', ok (Action.command c))
      → Gives (oath_answer hmac s r) s' c
  unfolding oath_next oath_response
  oath_next-Gives s s' r c later e = keep-Gives s s' (oath_answer hmac s r) c (rw later at e)

  oath_answer-Gives :
      (s s' : Oath) (r : ResponseData) (c : LogicalCommand)
      → Gives (oath_answer hmac s r) s' c
      → (is_success r.status ≡ true) × Gives (dispatch hmac s r.body) s' c
  unfolding oath_answer
  oath_answer-Gives s s' r c e = elim (Bool-cases (is_success r.status)) [
    | inl fine ↦ (fine, rw fine at e)
    | inr bad ↦ absurd (refused _ (rw bad at e))
  ]
    where
      refused : (x : Error) → Gives (err x) s' c → ⊥
      refused x h = cc

  first_step :
      (s s' : Oath) (c : LogicalCommand)
      → s.phase ≡ 0
      → oath_next hmac s none ≡ (s', ok (Action.command c))
      → (c ≡ with_le s.explicit_le select_oath) × (s' ≡ record s { phase = 1 })
  unfolding oath_next
  first_step s s' c zero e = go (s.phase == 0) (ground arith) e
    where
      command_of : Result (Action Outcome) → LogicalCommand
      command_of (ok (Action.command d)) = d
      command_of (ok (Action.done o)) = c
      command_of (err x) = c

      go :
          (b : Bool)
          → b ≡ true
          → ◌≡◌ {A = Oath × Result (Action Outcome)}
              (if b
                then (
                  record s { phase = 1 },
                  ok (Action.command (with_le s.explicit_le select_oath)),
                )
                else keep hmac s (oath_response hmac s none))
              (s', ok (Action.command c))
          → (c ≡ with_le s.explicit_le select_oath) × (s' ≡ record s { phase = 1 })
      go true h k = (sym (ap command_of (ap (λ p. p.1) k)), sym (ap (λ p. p.0) k))
      go false h k = cc

  dispatch-one :
      (s : Oath) (body : Bytes) → s.phase ≡ 1 → dispatch hmac s body ≡ after_select hmac s body
  unfolding dispatch
  dispatch-one s body h = ground arith

  dispatch-two :
      (s : Oath) (body : Bytes) → s.phase ≡ 2 → dispatch hmac s body ≡ after_validate hmac s body
  unfolding dispatch
  dispatch-two s body h = ground arith

  -- What VALIDATE carries: the HMAC of the card's nonce, and the host's own challenge.
  proves_key :
      (a : Access) (nonce : Bytes) (explicit : Bool) (c : LogicalCommand)
      → c ≡ validation hmac a nonce explicit
      → (c.header.ins ≡ 0xa3) × (c.body ≡ field 0x75 (hmac a.key nonce) ++ field 0x74 a.challenge)
  unfolding validation command
  proves_key a nonce explicit c e =
      (ap (λ (x : LogicalCommand). x.header.ins) e, ap (λ (x : LogicalCommand). x.body) e)

  -- A machine of modern firmware for a request other than the vendor ones, with a key, gives out three
  -- commands in a row only as follows: SELECT; then, if the card reports a nonce, the VALIDATE command
  -- that carries the HMAC of this nonce under the key and the host's challenge; and then the command of the request, only if the card answered
  -- VALIDATE successfully with one field that holds the HMAC of the host's challenge under the key.
  pub target_after_mutual_proof :
      (s s1 s2 s3 : Oath) (a : Access) (r1 r2 : ResponseData) (c0 c1 c2 : LogicalCommand)
      → s.phase ≡ 0
      → s.access ≡ some a
      → s.legacy ≡ false
      → is_vendor s.request ≡ false
      → oath_next hmac s none ≡ (s1, ok (Action.command c0))
      → oath_next hmac s1 (some r1) ≡ (s2, ok (Action.command c1))
      → oath_next hmac s2 (some r2) ≡ (s3, ok (Action.command c2))
      → (c0 ≡ with_le s.explicit_le select_oath)
        × ((sel : Selection) × (nonce : Bytes) × (read_selection r1.body ≡ ok sel)
            × (sel.challenge ≡ some nonce)
            × (c1 ≡ validation hmac a nonce s.explicit_le)
            × (c1.header.ins ≡ 0xa3)
            × (c1.body ≡ field 0x75 (hmac a.key nonce) ++ field 0x74 a.challenge))
        × (is_success r2.status ≡ true)
        × (fields r2.body ≡ ok ((0x75, hmac a.key a.challenge) ∷ []))
        × (s.target ≡ some c2)
        × (s3.phase ≡ 3)
  target_after_mutual_proof s s1 s2 s3 a r1 r2 c0 c1 c2 zero has modern ours e0 e1 e2 =
      let (select_is, one) = first_step s s1 c0 zero e0 in
      let has1 : s1.access ≡ some a = ap (λ (x : Oath). x.access) one ∙ has in
      let modern1 : s1.legacy ≡ false = ap (λ (x : Oath). x.legacy) one ∙ modern in
      let ours1 : is_vendor s1.request ≡ false =
        ap (λ (x : Oath). is_vendor x.request) one ∙ ours in
      let phase1 : s1.phase ≡ 1 = ap (λ (x : Oath). x.phase) one in
      let (fine1, given1) =
        oath_answer-Gives s1 s2 r1 c1 (oath_next-Gives s1 s2 r1 c1 (ground arith) e1) in
      let selected =
        sym (dispatch-one s1 r1.body phase1 ∙ after_select-modern s1 r1.body modern1) ∙ given1 in
      let (sel, nonce, read, asks, validate_is, two) =
        after_modern_select-Gives s1 s2 r1.body a c1 has1 ours1 selected in
      let has2 : s2.access ≡ some a = ap (λ (x : Oath). x.access) two ∙ has1 in
      let phase2 : s2.phase ≡ 2 = ap (λ (x : Oath). x.phase) two in
      let (fine2, given2) =
        oath_answer-Gives s2 s3 r2 c2 (oath_next-Gives s2 s3 r2 c2 (ground arith) e2) in
      let (proven, target_is, three) =
        after_validate-Gives s2 s3 r2.body a c2 has2
          (sym (dispatch-two s2 r2.body phase2) ∙ given2) in
      let explicit : s1.explicit_le ≡ s.explicit_le = ap (λ (x : Oath). x.explicit_le) one in
      let same_target : s2.target ≡ s.target =
        ap (λ (x : Oath). x.target) two ∙ ap (λ (x : Oath). x.target) one in
      (
        select_is,
        (
          sel,
          nonce,
          read,
          asks,
          validate_is ∙ ap (validation hmac a nonce) explicit,
          (proves_key a nonce s1.explicit_le c1 validate_is).0,
          (proves_key a nonce s1.explicit_le c1 validate_is).1,
        ),
        fine2,
        proven,
        sym same_target ∙ target_is,
        three,
      )
